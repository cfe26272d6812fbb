-- ===== src/SearchTree/Remove/Lookup.antt =====
-- Removal from the tree of src/containers/binary_search_tree.h as an operation on a finite map.
use cros_kernel.Base.{
  ◌≡◌, true, none, if◌then◌else◌, List, [], ◌∷◌, arith, ℤ, ltb_ℤ, All, All-mono, Bool-cases, inl,
  inr,
}
use cros_kernel.SearchTree.{Tree, differs}
use cros_kernel.SearchTree.Order.{inorder}
use cros_kernel.SearchTree.Lookup.{IsStrict, lookup, lookup-none}
use cros_kernel.SearchTree.Remove.{remove_rec}
use cros_kernel.SearchTree.Remove.Order.{remove_in, inorder-remove_rec}

module _ {V : Type 0} where
  All-remove_in :
      (P : ℤ × V → Type 0) (k : ℤ) (es : List (ℤ × V)) → All P es → All P (remove_in k es)
  All-remove_in P k [] a = tt
  All-remove_in P k (e ∷ es) a = elim (Bool-cases (differs e.0 k)) [
    | inl x ↦ rw x (a.0, All-remove_in P k es a.1)
    | inr x ↦ rw x a.1
  ]

  IsStrict-remove_in : (k : ℤ) (es : List (ℤ × V)) → IsStrict es → IsStrict (remove_in k es)
  IsStrict-remove_in k [] s = tt
  IsStrict-remove_in k (e ∷ es) s = elim (Bool-cases (differs e.0 k)) [
    | inl x ↦
        rw x (
          All-remove_in (λ (f : ℤ × V). ltb_ℤ e.0 f.0 ≡ true) k es s.0,
          IsStrict-remove_in k es s.1,
        )
    | inr x ↦ rw x s.1
  ]

  lookup-remove_in :
      (k j : ℤ) (es : List (ℤ × V))
      → IsStrict es
      → lookup j (remove_in k es) ≡ (if differs k j then lookup j es else none)
  lookup-remove_in k j [] s = ground arith
  lookup-remove_in k j (e ∷ es) s = elim (Bool-cases (differs e.0 k)) [
    | inl x ↦ elim (Bool-cases (differs e.0 j)) [
      | inl y ↦ rw (x, y) (lookup-remove_in k j es s.1)
      | inr y ↦ let z : differs k j ≡ true = ground arith in rw (x, y, z)
    ]
    | inr x ↦ elim (Bool-cases (differs k j)) [
      | inl y ↦ let z : differs e.0 j ≡ true = ground arith in rw (x, y, z)
      | inr y ↦
          rw (x, y)
            (lookup-none j es (
              All-mono (λ (f : ℤ × V). ltb_ℤ e.0 f.0 ≡ true) (λ (f : ℤ × V). differs f.0 j ≡ true)
                es (λ f lt. ground arith) s.0))
    ]
  ]

  -- Removing a key from a tree without two entries of one key leaves the value of every other key,
  -- leaves the key without one, and leaves no two entries of one key, whatever rebalancing it does.
  pub remove_rec-lookup :
      (t : Tree V) (k : ℤ)
      → IsStrict (inorder t)
      → IsStrict (inorder (remove_rec t k).0)
        × ((j : ℤ)
            → lookup j (inorder (remove_rec t k).0)
              ≡ (if differs k j then lookup j (inorder t) else none))
  remove_rec-lookup t k s =
      rw (inorder-remove_rec t k s)
        (IsStrict-remove_in k (inorder t) s, λ j. lookup-remove_in k j (inorder t) s)
