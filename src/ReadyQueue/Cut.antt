-- ===== src/ReadyQueue/Cut.antt =====
-- Nodes taken out of the list behind the queue of src/sched/queue.cpp.
use cros_kernel.Base.{
  ◌+◌, ◌≡◌, refl, sym, ap, ◌∙◌, ◌≢◌, false, none, some, [], ◌∷◌, ◌++◌, arith, length,
}
use cros_kernel.ReadyQueue.{Ptr, null, Heap, write}
use cros_kernel.ReadyQueue.Links.{
  Cells, has, IsDistinct, first_of, last_of, node, Links, write_self, write_ne, not-has-cons,
  Links-write, has-append,
}

-- the heap behind `unlink` of `a` between `p` and `b`
abbrev pub cut : Heap → (p u pv a b w nx : Ptr) → Heap
cut h p u pv a b w nx = write (write (write h p (some (node u pv b))) b (some (node w p nx))) a none

module _ (p u a v b w : Ptr) (post : Cells) where
  abbrev pub rest : Cells
  rest = (p, u) ∷ (a, v) ∷ (b, w) ∷ post

  -- Links before and behind the cut, the nodes in front of `p` being none.
  Links-cut_front :
      (h : Heap) (pv : Ptr)
      → Links h pv rest
      → IsDistinct rest
      → Links (cut h p u pv a b w (first_of post)) pv ((p, u) ∷ (b, w) ∷ post)
  Links-cut_front h pv l d =
      let (pa, d1) = not-has-cons p a v ((b, w) ∷ post) d.0 in
      let (pb, d2) = not-has-cons p b w post d1 in
      let (ab, d3) = not-has-cons a b w post d.1.0 in
      (
        l.0,
        write_ne _ a p none pa ∙ write_ne _ b p _ pb ∙ write_self h p _,
        (
          l.2.2.0,
          write_ne _ a b none (λ e. ab (sym e)) ∙ write_self _ b _,
          Links-write _ a none b post d3
              (Links-write _ b _ b post d.1.1.0 (Links-write h p _ b post d2 l.2.2.2)),
        ),
      )

  pub first_of-cut :
      (pre : Cells) → first_of (pre ++ rest) ≡ first_of (pre ++ (p, u) ∷ (b, w) ∷ post)
  first_of-cut [] = refl
  first_of-cut (c ∷ pre) = refl

  not-has-rest : (c : Ptr) (pre : Cells) → has c (pre ++ rest) ≡ false → (c ≢ p) × (c ≢ a) × (c ≢ b)
  not-has-rest c [] out =
      let (np, o1) = not-has-cons c p u ((a, v) ∷ (b, w) ∷ post) out in
      let (na, o2) = not-has-cons c a v ((b, w) ∷ post) o1 in
      (np, na, (not-has-cons c b w post o2).0)
  not-has-rest c ((r, x) ∷ pre) out = not-has-rest c pre (not-has-cons c r x (pre ++ rest) out).1

  -- The same behind any nodes `pre`.
  pub Links-cut :
      (h : Heap) (pv : Ptr) (pre : Cells)
      → Links h pv (pre ++ rest)
      → IsDistinct (pre ++ rest)
      → Links (cut h p u (last_of pv pre) a b w (first_of post)) pv (pre ++ (p, u) ∷ (b, w) ∷ post)
  Links-cut h pv [] l d = Links-cut_front h pv l d
  Links-cut h pv ((c, x) ∷ pre) l d =
      let (np, na, nb) = not-has-rest c pre d.0 in
      (
        l.0,
        write_ne _ a c none na
            ∙ write_ne _ b c _ nb
            ∙ write_ne h p c _ np
            ∙ l.1
            ∙ ap (λ f. some (node x pv f)) (first_of-cut pre),
        Links-cut h c pre l.2 d.1,
      )

  pub IsDistinct-cut :
      (pre : Cells) → IsDistinct (pre ++ rest) → IsDistinct (pre ++ (p, u) ∷ (b, w) ∷ post)
  IsDistinct-cut [] d = let (pa, d1) = not-has-cons p a v ((b, w) ∷ post) d.0 in (d1, d.1.1)
  IsDistinct-cut ((c, x) ∷ pre) d = (
    ground (arith, has-append c pre rest, has-append c pre ((p, u) ∷ (b, w) ∷ post)),
    IsDistinct-cut pre d.1,
  )

  pub last_of-cut :
      (d : Ptr) (pre : Cells) → last_of d (pre ++ rest) ≡ last_of d (pre ++ (p, u) ∷ (b, w) ∷ post)
  last_of-cut d [] = refl
  last_of-cut d ((c, x) ∷ pre) = last_of-cut c pre

  -- The nodes around the cut.
  pub Links-at :
      (h : Heap) (pv : Ptr) (pre : Cells) → Links h pv (pre ++ rest) → Links h (last_of pv pre) rest
  Links-at h pv [] l = l
  Links-at h pv ((c, x) ∷ pre) l = Links-at h c pre l.2

  pub IsDistinct-at : (pre : Cells) → IsDistinct (pre ++ rest) → IsDistinct rest
  IsDistinct-at [] d = d
  IsDistinct-at (c ∷ pre) d = IsDistinct-at pre d.1

  pub length-cut : (pre : Cells) → length (pre ++ rest) ≡ length (pre ++ (p, u) ∷ (b, w) ∷ post) + 1
  length-cut [] = omega arith
  length-cut (c ∷ pre) = omega (arith, length-cut pre)

pub Links-end :
    (h : Heap) (pv : Ptr) (pre : Cells) (a v : Ptr)
    → Links h pv (pre ++ (a, v) ∷ [])
    → (a ≢ null) × (h a ≡ some (node v (last_of pv pre) null))
Links-end h pv [] a v l = (l.0, l.1)
Links-end h pv ((c, x) ∷ pre) a v l = Links-end h c pre a v l.2

pub first-ne-null :
    (h : Heap) (pv : Ptr) (pre : Cells) (r z : Ptr) (ys : Cells)
    → Links h pv (pre ++ (r, z) ∷ ys)
    → first_of (pre ++ (r, z) ∷ ys) ≢ null
first-ne-null h pv [] r z ys l = l.0
first-ne-null h pv ((c, x) ∷ pre) r z ys l = l.0
