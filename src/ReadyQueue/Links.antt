-- ===== src/ReadyQueue/Links.antt =====
-- The list of nodes behind the queue of src/sched/queue.cpp.
use cros_kernel.Base.{
  ℕ, ◌+◌, ◌≡◌, refl, sym, ◌∙◌, ap, ◌≢◌, Bool, false, ◌||◌, Option, some, List, [], ◌∷◌, ◌++◌, arith,
  ◌==◌, some-eq, length, map,
}
use cros_kernel.ReadyQueue.{Ptr, null, Node, Heap, Queue, write}

-- The address and the value of each node, from the front.
abbrev pub Cells : Type 0
Cells = List (Ptr × Ptr)

abbrev pub has : Ptr → Cells → Bool
has a [] = false
has a ((p, v) ∷ xs) = (a == p) || has a xs

abbrev pub IsDistinct : Cells → Type 0
IsDistinct [] = Unit {0}
IsDistinct ((p, v) ∷ xs) = (has p xs ≡ false) × IsDistinct xs

abbrev pub first_of : Cells → Ptr
first_of [] = null
first_of ((p, v) ∷ xs) = p

abbrev pub last_of : Ptr → Cells → Ptr
last_of d [] = d
last_of d ((p, v) ∷ xs) = last_of p xs

abbrev pub node : Ptr → Ptr → Ptr → Node
node v p n = record { value = v; prev = p; next = n }

-- The nodes `xs` are on the heap, each linked to its neighbours. `pv` is what the first node holds
-- for its predecessor: `dequeue` leaves a dangling pointer there.
abbrev pub Links : Heap → Ptr → Cells → Type 0
Links h pv [] = Unit {0}
Links h pv ((p, v) ∷ xs) = (p ≢ null) × (h p ≡ some (node v pv (first_of xs))) × Links h p xs

-- The queue holds the nodes `xs`, and counts `extra` more than these.
pub record Holds (extra : ℕ) (q : Queue) (xs : Cells) : Type 0 where
  pub stale : Ptr
  pub links : Links q.heap stale xs
  pub distinct : IsDistinct xs
  pub front_is : q.front ≡ first_of xs
  pub back_is : q.back ≡ last_of null xs
  pub size_is : q.queue_size ≡ length xs + extra

-- A valid queue counts its nodes.
abbrev pub IsQueue : Queue → Cells → Type 0
IsQueue q xs = Holds 0 q xs

-- the processes that wait, the next one first
abbrev pub waiting : Cells → List Ptr
waiting xs = map (λ c. c.1) xs

pub write_self : (h : Heap) (a : Ptr) (c : Option Node) → write h a c a ≡ c
unfolding write
write_self h a c = ground arith

pub write_ne : (h : Heap) (a b : Ptr) (c : Option Node) → b ≢ a → write h a c b ≡ h b
unfolding write
write_ne h a b c ne = ground arith

-- Both halves of a node's absence from a list.
pub not-has-cons :
    (a p v : Ptr) (xs : Cells) → has a ((p, v) ∷ xs) ≡ false → (a ≢ p) × (has a xs ≡ false)
not-has-cons a p v xs out = (ground arith, ground arith)

pub Links-write :
    (h : Heap) (a : Ptr) (c : Option Node) (pv : Ptr) (xs : Cells)
    → has a xs ≡ false
    → Links h pv xs
    → Links (write h a c) pv xs
Links-write h a c pv [] out l = tt
Links-write h a c pv ((p, v) ∷ xs) out l =
    let (ne, out') = not-has-cons a p v xs out in
    (l.0, write_ne h a p c (λ e. ne (sym e)) ∙ l.1, Links-write h a c p xs out' l.2)

-- the heap behind `enqueue` on a list that ends at `b`
abbrev pub linked : Heap → Ptr → Ptr → Ptr → Node → Heap
linked h f v b n =
    write (write (write h f (some (node v null null))) b (some (record n { next = f }))) f
      (some (node v b null))

pub last_of-ne : (a d w : Ptr) (xs : Cells) → has a ((d, w) ∷ xs) ≡ false → last_of d xs ≢ a
last_of-ne a d w [] out = ground arith
last_of-ne a d w ((r, v) ∷ xs) out = last_of-ne a r v xs (ground arith)

linked_other : (h : Heap) (f v a b : Ptr) (n : Node) → b ≢ f → b ≢ a → linked h f v a n b ≡ h b
unfolding write
linked_other h f v a b n nf na = ground arith

pub Links-snoc :
    (h : Heap) (f v pv p u : Ptr) (xs : Cells)
    → f ≢ null
    → has f ((p, u) ∷ xs) ≡ false
    → IsDistinct ((p, u) ∷ xs)
    → Links h pv ((p, u) ∷ xs)
    → (n : Node) → h (last_of p xs) ≡ some n
    → Links (linked h f v (last_of p xs) n) pv ((p, u) ∷ xs ++ (f, v) ∷ [])
Links-snoc h f v pv p u [] nn out d l n e =
    let (ne, _) = not-has-cons f p u [] out in
    let e' : n ≡ node u pv null = some-eq (sym e ∙ l.1) in
    (
      l.0,
      write_ne _ f p _ (λ q. ne (sym q))
          ∙ write_self _ p _
          ∙ ap (λ (m : Node). some (node m.value m.prev f)) e',
      (nn, write_self _ f _, tt),
    )
Links-snoc h f v pv p u ((r, w) ∷ xs) nn out d l n e =
    let (ne, out') = not-has-cons f p u ((r, w) ∷ xs) out in
    (
      l.0,
      linked_other h f v (last_of r xs) p n (λ q. ne (sym q)) (λ q. last_of-ne p r w xs d.0 (sym q))
          ∙ l.1,
      Links-snoc h f v p r w xs nn out' d.1 l.2 n e,
    )

-- The node at the end of a list that is not empty.
pub Links-last :
    (h : Heap) (pv p u : Ptr) (xs : Cells)
    → Links h pv ((p, u) ∷ xs)
    → (n : Node) × (h (last_of p xs) ≡ some n) × (last_of p xs ≢ null)
Links-last h pv p u [] l = (node u pv null, l.1, l.0)
Links-last h pv p u ((r, w) ∷ xs) l = Links-last h p r w xs l.2

pub has-append : (a : Ptr) (xs ys : Cells) → has a (xs ++ ys) ≡ (has a xs || has a ys)
has-append a [] ys = refl
has-append a ((p, v) ∷ xs) ys = ground (arith, has-append a xs ys)

pub IsDistinct-snoc :
    (f v : Ptr) (xs : Cells) → IsDistinct xs → has f xs ≡ false → IsDistinct (xs ++ (f, v) ∷ [])
IsDistinct-snoc f v [] d out = (refl, tt)
IsDistinct-snoc f v ((p, u) ∷ xs) d out =
    (ground (arith, has-append p xs ((f, v) ∷ [])), IsDistinct-snoc f v xs d.1 (ground arith))

pub last_of-append : (d f v : Ptr) (xs : Cells) → last_of d (xs ++ (f, v) ∷ []) ≡ f
last_of-append d f v [] = refl
last_of-append d f v ((p, u) ∷ xs) = last_of-append p f v xs

pub first_of-append : (p u : Ptr) (xs ys : Cells) → first_of ((p, u) ∷ xs ++ ys) ≡ p
first_of-append p u xs ys = refl
