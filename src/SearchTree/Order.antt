-- ===== src/SearchTree/Order.antt =====
-- The entries of a tree of src/containers/binary_search_tree.h in order.
use mathlib.Core.List.{append_assoc}
use cros_kernel.Base.{
  ℕ, ◌+◌, ◌≤◌, ◌≡◌, refl, sym, ap, Bool, true, false, inl, inr, List, [], ◌∷◌, ◌++◌, arith, ltb,
  if◌then◌else◌, ℤ, pos_part, neg_part, ltb_ℤ, All, All-split, All-mono, Bool-cases,
}
use cros_kernel.SearchTree.{
  Tree, leaf, node, height, rotate_right, rotate_left, rebalance_node, rebalance, add_rec,
  leans_right, leans_left,
}

infix 50 ◌≤ℤ◌
abbrev pub ◌≤ℤ◌ : ℤ → ℤ → Type 0
a ≤ℤ b = pos_part a + neg_part b ≤ pos_part b + neg_part a

module _ {V : Type 0} where
  -- the entries from left to right
  abbrev pub inorder : Tree V → List (ℤ × V)
  inorder leaf = []
  inorder (node l k v h r) = inorder l ++ (k, v) ∷ inorder r

  -- The keys do not fall from left to right.
  abbrev pub IsSorted : List (ℤ × V) → Type 0
  IsSorted [] = Unit {0}
  IsSorted (e ∷ es) = All (λ (f : ℤ × V). e.0 ≤ℤ f.0) es × IsSorted es

  -- `insert` on the sequence of entries: behind those whose key is not greater
  abbrev pub insert_in : ℤ → V → List (ℤ × V) → List (ℤ × V)
  insert_in k v [] = (k, v) ∷ []
  insert_in k v (e ∷ es) = if ltb_ℤ k e.0 then (k, v) ∷ e ∷ es else e ∷ insert_in k v es

  inorder-rotate_right : (t : Tree V) → inorder (rotate_right t) ≡ inorder t
  unfolding rotate_right
  inorder-rotate_right leaf = refl
  inorder-rotate_right (node leaf k v h r) = refl
  inorder-rotate_right (node (node a j w g b) k v h r) = simp append_assoc

  inorder-rotate_left : (t : Tree V) → inorder (rotate_left t) ≡ inorder t
  unfolding rotate_left
  inorder-rotate_left leaf = refl
  inorder-rotate_left (node l k v h leaf) = refl
  inorder-rotate_left (node l k v h (node b j w g c)) = simp append_assoc

  -- Rebalancing moves nodes and keeps their order.
  inorder-rebalance_node :
      (l : Tree V) (k : ℤ) (v : V) (h : ℕ) (r : Tree V)
      → inorder (rebalance_node l k v h r) ≡ inorder l ++ (k, v) ∷ inorder r
  unfolding rebalance_node
  inorder-rebalance_node l k v h r = elim (Bool-cases (ltb (height r + 1) (height l))) [
    | inl p ↦ rw (p, inorder-rotate_right) (left-child (leans_right l))
    | inr p ↦ elim (Bool-cases (ltb (height l + 1) (height r))) [
      | inl q ↦ rw (p, q, inorder-rotate_left) (right-child (leans_left r))
      | inr q ↦ rw (p, q)
    ]
  ]
    where
      left-child :
          (b : Bool)
          → inorder (if b then rotate_left l else l) ++ (k, v) ∷ inorder r
            ≡ inorder l ++ (k, v) ∷ inorder r
      left-child true = rw inorder-rotate_left
      left-child false = refl

      right-child :
          (b : Bool)
          → inorder l ++ (k, v) ∷ inorder (if b then rotate_right r else r)
            ≡ inorder l ++ (k, v) ∷ inorder r
      right-child true = rw inorder-rotate_right
      right-child false = refl

  pub inorder-rebalance : (t : Tree V) → inorder (rebalance t) ≡ inorder t
  unfolding rebalance
  inorder-rebalance leaf = refl
  inorder-rebalance (node l k v h r) = inorder-rebalance_node l k v _ r

  pub IsSorted-append :
      (es fs : List (ℤ × V)) (k : ℤ) (v : V)
      → IsSorted (es ++ (k, v) ∷ fs)
      → IsSorted es
        × All (λ (e : ℤ × V). e.0 ≤ℤ k) es
        × All (λ (f : ℤ × V). k ≤ℤ f.0) fs
        × IsSorted fs
  IsSorted-append [] fs k v s = (tt, tt, s.0, s.1)
  IsSorted-append (e ∷ es) fs k v s =
      let (a, b, c, d) = IsSorted-append es fs k v s.1 in
      let (x, y) = All-split (λ (f : ℤ × V). e.0 ≤ℤ f.0) es ((k, v) ∷ fs) s.0 in
      ((x, a), (y.0, b), c, d)

  -- An entry whose key is smaller than that of `e` goes before it, any other behind it.
  insert_in-left :
      (k : ℤ) (v : V) (es : List (ℤ × V)) (e : ℤ × V) (fs : List (ℤ × V))
      → ltb_ℤ k e.0 ≡ true
      → insert_in k v (es ++ e ∷ fs) ≡ insert_in k v es ++ e ∷ fs
  insert_in-left k v [] e fs lt = rw lt
  insert_in-left k v (d ∷ es) e fs lt = elim (Bool-cases (ltb_ℤ k d.0)) [
    | inl p ↦ rw p
    | inr p ↦ rw p (ap (λ x. d ∷ x) (insert_in-left k v es e fs lt))
  ]

  insert_in-right :
      (k : ℤ) (v : V) (es : List (ℤ × V)) (e : ℤ × V) (fs : List (ℤ × V))
      → ltb_ℤ k e.0 ≡ false
      → All (λ (f : ℤ × V). f.0 ≤ℤ e.0) es
      → insert_in k v (es ++ e ∷ fs) ≡ es ++ e ∷ insert_in k v fs
  insert_in-right k v [] e fs ge a = rw ge
  insert_in-right k v (d ∷ es) e fs ge a =
      let p : ltb_ℤ k d.0 ≡ false = ground (arith, a.0) in
      rw p (ap (λ x. d ∷ x) (insert_in-right k v es e fs ge a.1))

  -- In a tree whose keys are in order, `insert` puts the new entry behind every entry whose key is
  -- not greater, and leaves the others in their order.
  pub inorder-add_rec :
      (t : Tree V) (k : ℤ) (v : V)
      → IsSorted (inorder t)
      → inorder (add_rec t k v) ≡ insert_in k v (inorder t)
  unfolding add_rec
  inorder-add_rec leaf k v s = refl
  inorder-add_rec (node l j w h r) k v s =
      let (sl, al, ar, sr) = IsSorted-append (inorder l) (inorder r) j w s in
      elim (Bool-cases (ltb_ℤ k j)) [
        | inl p ↦
            rw (p, inorder-rebalance, inorder-add_rec l k v sl)
              (sym (insert_in-left k v (inorder l) (j, w) (inorder r) p))
        | inr p ↦
            rw (p, inorder-rebalance, inorder-add_rec r k v sr)
              (sym (insert_in-right k v (inorder l) (j, w) (inorder r) p al))
      ]

  All-insert_in :
      (P : ℤ × V → Type 0) (k : ℤ) (v : V) (es : List (ℤ × V))
      → P (k, v)
      → All P es
      → All P (insert_in k v es)
  All-insert_in P k v [] p h = (p, tt)
  All-insert_in P k v (e ∷ es) p h = elim (Bool-cases (ltb_ℤ k e.0)) [
    | inl q ↦ rw q (p, h)
    | inr q ↦ rw q (h.0, All-insert_in P k v es p h.1)
  ]

  IsSorted-insert_in :
      (k : ℤ) (v : V) (es : List (ℤ × V)) → IsSorted es → IsSorted (insert_in k v es)
  IsSorted-insert_in k v [] s = (tt, tt)
  IsSorted-insert_in k v (e ∷ es) s = elim (Bool-cases (ltb_ℤ k e.0)) [
    | inl p ↦ rw p (
      (
        ground arith,
        All-mono (λ (f : ℤ × V). e.0 ≤ℤ f.0) (λ (f : ℤ × V). k ≤ℤ f.0) es (λ f le. ground arith)
            s.0,
      ),
      s,
    )
    | inr p ↦ rw p (
      All-insert_in (λ (f : ℤ × V). e.0 ≤ℤ f.0) k v es (ground arith) s.0,
      IsSorted-insert_in k v es s.1,
    )
  ]

  -- Inserting keeps the keys of the tree in order.
  pub add_rec-IsSorted :
      (t : Tree V) (k : ℤ) (v : V) → IsSorted (inorder t) → IsSorted (inorder (add_rec t k v))
  add_rec-IsSorted t k v s = rw (inorder-add_rec t k v s) (IsSorted-insert_in k v (inorder t) s)
