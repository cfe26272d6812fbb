-- ===== src/PageAllocator/Reserve.antt =====
-- `reserve` of src/memory/pageallocator.cpp takes a block out of the free ones.
use mathlib.Core.Path.{subst}
use native.Mathlib.Decide.{dec_lt}
use cros_kernel.Base.{
  ◌⊎◌, ℕ, zero, suc, ◌+◌, ◌-◌, ◌≤◌, ◌<◌, ◌≡◌, refl, sym, ◌∙◌, ap, Bool, true, false, ◌&&◌, ◌==◌,
  if◌then◌else◌, Option, none, some, List, [], ◌∷◌, Bool-cases, inl, inr, arith, All,
}
use cros_kernel.PageAllocator.{
  PageAllocator, Block, last_from, front_from, split_loop, take_from, or_next, reserve_loop,
  reserve_block,
}
use cros_kernel.PageAllocator.Pages.{hit, free_blocks, times, hits-front_from, times-front_from}
use cros_kernel.PageAllocator.Sound.{IsAligned, same, mark, Sound, IsWithout, taken, taken-Sound}
use cros_kernel.PageAllocator.Split.{Held, split_loop-Reserved}

-- What `reserve` returns: a block of size `k` whose pages were free and are no longer.
pub record Reserved (k b : ℕ) (s s' : PageAllocator) : Type 0 where
  pub small : k ≤ s.max_k_val
  pub sound : Sound s'
  pub pages : (p : ℕ) → free_blocks s' p + hit k b p ≡ free_blocks s p
  pub aligned : IsAligned k b
  pub kval_is : (s'.block_map b).kval ≡ k
  pub max_is : s'.max_k_val ≡ s.max_k_val
  pub size_is : s'.block_size ≡ s.block_size
  pub offset_is : s'.offset ≡ s.offset

All-last_from :
    (P : ℕ → Type 0) (i : ℕ) (is : List ℕ)
    → All P (i ∷ is)
    → All P (front_from i is) × P (last_from i is)
All-last_from P i [] a = (tt, a.0)
All-last_from P i (j ∷ js) a = let (x, y) = All-last_from P j js a.1 in ((a.0, x), y)

mark_mate :
    (c : Block) (k : ℕ)
    → 1 ≤ mark c k
    → ((c.is_free && c.kval == k) ≡ true) × (c.kval ≡ k) × (mark c k ≡ 1)
mark_mate c k h = elim (Bool-cases (c.is_free && c.kval == k)) [
  | inl e ↦ (e, kval_of c.is_free e, rw e refl)
  | inr e ↦ let h' = rw e at h in absurd (omega (arith, h'))
]
  where
    kval_of : (f : Bool) → (f && c.kval == k) ≡ true → c.kval ≡ k
    kval_of true e = ground arith
    kval_of false e = absurd cc

times-without :
    (j i : ℕ) (is : List ℕ)
    → times j (front_from i is)
      ≡ (if j == last_from i is then times j (i ∷ is) - 1 else times j (i ∷ is))
times-without j i is =
    let t = times-front_from j i is in
    elim (Bool-cases (j == last_from i is)) [
      | inl e ↦
          let f : (last_from i is == j) ≡ true = ground arith in
          let t' = rw f at t in rw e (omega (arith, t'))
      | inr e ↦
          let f : (last_from i is == j) ≡ false = ground arith in
          let t' = rw f at t in rw e (omega (arith, t'))
    ]

-- The last block of the list is taken.
take_from-Reserved :
    (n k i : ℕ) (is : List ℕ) (s : PageAllocator)
    → Sound s
    → k + n ≤ s.max_k_val
    → ((j : ℕ) → k ≤ j → j < k + n → s.avail_list j ≡ [])
    → s.avail_list (k + n) ≡ i ∷ is
    → (s' : PageAllocator) × (take_from n k (i ∷ is) s ≡ some (last_from i is, s'))
      × Reserved k (last_from i is) s s'
take_from-Reserved n k i is s sound le empty q =
    let b = last_from i is in
    let c : Block = record (s.block_map b) { is_free = false } in
    let marked : times b (i ∷ is) ≡ mark (s.block_map b) (k + n) =
      ap (times b) (sym q) ∙ sound.marked b (k + n) le in
    let t = times-front_from b i is in
    let front = rw (same b) at t in
    let (mate, kv, one) = mark_mate (s.block_map b) (k + n) (omega (arith, front, marked)) in
    let (al, al_b) =
      All-last_from (IsAligned (k + n)) i is
        (subst (All (IsAligned (k + n))) q (sound.aligned (k + n) le)) in
    let without : IsWithout b (k + n) (i ∷ is) (front_from i is) = record {
      times_is = λ j. times-without j i is;
      hits_is = λ p. hits-front_from (k + n) p i is;
      aligned = λ a. (All-last_from (IsAligned (k + n)) i is a).0;
    } in
    let (sound', counts) =
      taken-Sound b (k + n) (front_from i is) c s sound le mate
        (subst (λ xs. IsWithout b (k + n) xs (front_from i is)) (sym q) without) refl in
    let t : PageAllocator = taken b (k + n) (front_from i is) c s in
    let held : Held (k + n) b t = record {
      sound = sound';
      apart = λ p. omega (arith, counts p, sound.once p);
      aligned = al_b;
      kval_is = rw (same b) kv;
      busy = rw (same b) refl;
      small = le;
    } in
    let (s1, pages, al', kv', x, y, z) =
      split_loop-Reserved n b k t held
        (λ j h lt. let f : (j == k + n) ≡ false = ground arith in rw f (empty j h lt)) in
    (
      split_loop n b k t,
      refl,
      record {
        small = omega arith;
        sound = s1;
        pages = λ p. pages p ∙ counts p;
        aligned = al';
        kval_is = kv';
        max_is = x;
        size_is = y;
        offset_is = z;
      },
    )

-- A block was found, or the lists of the sizes from `k` and below `limit` are empty.
abbrev pub Outcome : ℕ → PageAllocator → ℕ → Option (ℕ × PageAllocator) → Type 0
Outcome k s limit o =
    ((o ≡ none) × ((j : ℕ) → k ≤ j → j < limit → s.avail_list j ≡ []))
    ⊎ ((b : ℕ) × (s' : PageAllocator) × (o ≡ some (b, s')) × Reserved k b s s')

-- a round of the outer loop of `reserve`
round :
    (m n k : ℕ) (s : PageAllocator) (r : Option (ℕ × PageAllocator))
    → Sound s
    → k + n ≤ s.max_k_val
    → ((j : ℕ) → k ≤ j → j < k + n → s.avail_list j ≡ [])
    → (s.avail_list (k + n) ≡ [] → Outcome k s m r)
    → (xs : List ℕ) → s.avail_list (k + n) ≡ xs
    → Outcome k s m (or_next (take_from n k xs s) r)
round m n k s r sound le empty rest [] q = rest q
round m n k s r sound le empty rest (i ∷ is) q =
    let (s', e, x) = take_from-Reserved n k i is s sound le empty q in
    inr (last_from i is, s', ap (λ o. or_next o r) e, x)

-- The first list that is not empty, from that of size `k + n` on, or none.
reserve_loop-Outcome :
    (m n k : ℕ) (s : PageAllocator)
    → Sound s
    → m + (n + k) ≤ s.max_k_val + 1
    → ((j : ℕ) → k ≤ j → j < k + n → s.avail_list j ≡ [])
    → Outcome k s (k + n + m) (reserve_loop m n k s)
unfolding reserve_loop
reserve_loop-Outcome zero n k s sound le empty = inl (refl, λ j h lt. empty j h (omega arith))
reserve_loop-Outcome (suc m) n k s sound le empty =
    let e : k + (n + 1) + m ≡ k + n + suc m = omega arith in
    round (k + n + suc m) n k s (reserve_loop m (n + 1) k s) sound (omega arith) empty
      (λ q.
        subst (λ x. Outcome k s x (reserve_loop m (n + 1) k s)) e
          (reserve_loop-Outcome m (n + 1) k s sound (omega arith) (λ j h lt.
            elim (Bool-cases (j == k + n)) [
              | inl f ↦ let g : k + n ≡ j = ground arith in subst (λ x. s.avail_list x ≡ []) g q
              | inr f ↦ empty j h (ground arith)
            ])))
      (s.avail_list (k + n)) refl

-- `reserve` finds a block of size `k` or larger just where there is one, and splits it down. What it
-- returns is a block of size `k`, at a multiple of its size, whose pages were all free; these and no
-- other pages stop being free, and the allocator stays sound. Where there is none, every list from
-- size `k` on is empty.
pub reserve_block-Reserved :
    (k : ℕ) (s : PageAllocator)
    → Sound s
    → ((reserve_block k s ≡ none) × ((j : ℕ) → k ≤ j → j < s.max_k_val + 1 → s.avail_list j ≡ []))
      ⊎ ((b : ℕ) × (s' : PageAllocator) × (reserve_block k s ≡ some (b, s')) × Reserved k b s s')
unfolding reserve_loop
reserve_block-Reserved k s sound = elim (dec_lt (s.max_k_val + 1) k) [
  | yes h ↦
      let z : (s.max_k_val + 1) - k ≡ 0 = omega arith in
      rw z (inl (refl, λ j l u. absurd (omega arith)))
  | no h ↦
      let e : k + 0 + ((s.max_k_val + 1) - k) ≡ s.max_k_val + 1 = omega arith in
      subst (λ x. Outcome k s x (reserve_block k s)) e
        (reserve_loop-Outcome ((s.max_k_val + 1) - k) 0 k s sound (omega arith)
          (λ j l u. absurd (omega arith)))
]
