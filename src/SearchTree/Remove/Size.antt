-- ===== src/SearchTree/Remove/Size.antt =====
-- The size that the tree of src/containers/binary_search_tree.h reports.
use cros_kernel.Base.{
  ◌+◌, ◌≡◌, refl, if◌then◌else◌, ◌∷◌, arith, ℤ, ltb_ℤ, Bool-cases, inl, inr, length, length-append,
}
use cros_kernel.SearchTree.{Tree, leaf, node, SearchTree, add_rec, insert}
use cros_kernel.SearchTree.Order.{inorder, inorder-rebalance}
use cros_kernel.SearchTree.Remove.{remove_rec, remove}
use cros_kernel.SearchTree.Remove.Order.{inorder-rebalance_times, inorder-remove_here}

module _ {V : Type 0} where
  length-remove_rec :
      (t : Tree V) (k : ℤ)
      → length (inorder t)
        ≡ length (inorder (remove_rec t k).0) + (if (remove_rec t k).2 then 1 else 0)
  unfolding remove_rec
  length-remove_rec leaf k = refl
  length-remove_rec (node l j w h r) k = elim (Bool-cases (ltb_ℤ k j)) [
    | inl p ↦
        let a = length-append (inorder l) ((j, w) ∷ inorder r) in
        let b = length-append (inorder (remove_rec l k).0) ((j, w) ∷ inorder r) in
        rw (p, inorder-rebalance_times) (omega (arith, a, b, length-remove_rec l k))
    | inr p ↦ elim (Bool-cases (ltb_ℤ j k)) [
      | inl q ↦
          let a = length-append (inorder l) ((j, w) ∷ inorder r) in
          let b = length-append (inorder l) ((j, w) ∷ inorder (remove_rec r k).0) in
          rw (p, q, inorder-rebalance_times) (omega (arith, a, b, length-remove_rec r k))
      | inr q ↦
          let a = length-append (inorder l) ((j, w) ∷ inorder r) in
          let b = length-append (inorder l) (inorder r) in
          rw (p, q, inorder-remove_here) (omega (arith, a, b))
    ]
  ]

  length-add_rec :
      (t : Tree V) (k : ℤ) (v : V) → length (inorder (add_rec t k v)) ≡ length (inorder t) + 1
  unfolding add_rec
  length-add_rec leaf k v = refl
  length-add_rec (node l j w h r) k v = elim (Bool-cases (ltb_ℤ k j)) [
    | inl p ↦
        let a = length-append (inorder l) ((j, w) ∷ inorder r) in
        let b = length-append (inorder (add_rec l k v)) ((j, w) ∷ inorder r) in
        rw (p, inorder-rebalance) (omega (arith, a, b, length-add_rec l k v))
    | inr p ↦
        let a = length-append (inorder l) ((j, w) ∷ inorder r) in
        let b = length-append (inorder l) ((j, w) ∷ inorder (add_rec r k v)) in
        rw (p, inorder-rebalance) (omega (arith, a, b, length-add_rec r k v))
  ]

  -- The size that the tree reports is the number of its entries.
  abbrev pub IsCounted : SearchTree V → Type 0
  IsCounted s = s.size ≡ length (inorder s.root)

  -- Whatever the tree, inserting and removing keep the reported size at the number of entries, also
  -- where the key that is removed is not there.
  pub insert-remove-IsCounted :
      (s : SearchTree V) (k : ℤ) (v : V)
      → IsCounted s
      → IsCounted (insert s k v) × IsCounted (remove s k)
  unfolding remove
  insert-remove-IsCounted s k v c = (
    omega (arith, c, length-add_rec s.root k v),
    elim (Bool-cases (remove_rec s.root k).2) [
      | inl p ↦
          let e = length-remove_rec s.root k in rw p (let e' = rw p at e in omega (arith, c, e'))
      | inr p ↦
          let e = length-remove_rec s.root k in rw p (let e' = rw p at e in omega (arith, c, e'))
    ],
  )
