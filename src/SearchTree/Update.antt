-- ===== src/SearchTree/Update.antt =====
-- Inserting into the tree of src/containers/binary_search_tree.h as a finite map.
use cros_kernel.Base.{
  ◌≡◌, refl, true, if◌then◌else◌, none, some, List, [], ◌∷◌, arith, ℤ, ltb_ℤ, All, All-mono,
  Bool-cases, inl, inr,
}
use cros_kernel.SearchTree.{Tree, add_rec, differs}
use cros_kernel.SearchTree.Order.{inorder, insert_in, inorder-add_rec}
use cros_kernel.SearchTree.Lookup.{IsStrict, lookup, IsStrict-IsSorted, lookup-none}

module _ {V : Type 0} where
  lookup-tail :
      (k : ℤ) (e : ℤ × V) (es : List (ℤ × V))
      → lookup k (e ∷ es) ≡ none
      → (differs e.0 k ≡ true) × (lookup k es ≡ none)
  lookup-tail k e es n = elim (Bool-cases (differs e.0 k)) [
    | inl d ↦ (d, rw d at n)
    | inr d ↦ let n' = rw d at n in cc
  ]

  lookup-insert_in :
      (k j : ℤ) (v : V) (es : List (ℤ × V))
      → lookup k es ≡ none
      → lookup j (insert_in k v es) ≡ (if differs k j then lookup j es else some v)
  lookup-insert_in k j v [] n = refl
  lookup-insert_in k j v (e ∷ es) n =
      let (d, n') = lookup-tail k e es n in
      elim (Bool-cases (ltb_ℤ k e.0)) [
        | inl p ↦ rw p
        | inr p ↦ elim (Bool-cases (differs e.0 j)) [
          | inl x ↦ rw (p, x) (lookup-insert_in k j v es n')
          | inr x ↦ let y : differs k j ≡ true = ground arith in rw (p, x, y)
        ]
      ]

  All-insert_in' :
      (P : ℤ × V → Type 0) (k : ℤ) (v : V) (es : List (ℤ × V))
      → P (k, v)
      → All P es
      → All P (insert_in k v es)
  All-insert_in' P k v [] p h = (p, tt)
  All-insert_in' P k v (e ∷ es) p h = elim (Bool-cases (ltb_ℤ k e.0)) [
    | inl q ↦ rw q (p, h)
    | inr q ↦ rw q (h.0, All-insert_in' P k v es p h.1)
  ]

  IsStrict-insert_in :
      (k : ℤ) (v : V) (es : List (ℤ × V))
      → lookup k es ≡ none
      → IsStrict es
      → IsStrict (insert_in k v es)
  IsStrict-insert_in k v [] n s = (tt, tt)
  IsStrict-insert_in k v (e ∷ es) n s =
      let (d, n') = lookup-tail k e es n in
      elim (Bool-cases (ltb_ℤ k e.0)) [
        | inl p ↦ rw p (
          (
            p,
            All-mono (λ (f : ℤ × V). ltb_ℤ e.0 f.0 ≡ true) (λ (f : ℤ × V). ltb_ℤ k f.0 ≡ true) es
                (λ f lt. ground arith) s.0,
          ),
          s,
        )
        | inr p ↦ rw p (
          All-insert_in' (λ (f : ℤ × V). ltb_ℤ e.0 f.0 ≡ true) k v es (ground arith) s.0,
          IsStrict-insert_in k v es n' s.1,
        )
      ]

  -- Inserting a new key into a tree without two entries of one key binds it to the value, leaves the
  -- value of every other key, and leaves no two entries of one key.
  pub add_rec-lookup :
      (t : Tree V) (k : ℤ) (v : V)
      → IsStrict (inorder t)
      → lookup k (inorder t) ≡ none
      → IsStrict (inorder (add_rec t k v))
        × ((j : ℤ)
            → lookup j (inorder (add_rec t k v))
              ≡ (if differs k j then lookup j (inorder t) else some v))
  add_rec-lookup t k v s n =
      let e = inorder-add_rec t k v (IsStrict-IsSorted (inorder t) s) in
      rw e (IsStrict-insert_in k v (inorder t) n s, λ j. lookup-insert_in k j v (inorder t) n)

  All-inserted :
      (P : ℤ × V → Type 0) (k : ℤ) (v : V) (es : List (ℤ × V)) → All P (insert_in k v es) → P (k, v)
  All-inserted P k v [] h = h.0
  All-inserted P k v (e ∷ es) h = elim (Bool-cases (ltb_ℤ k e.0)) [
    | inl q ↦ let h' = rw q at h in h'.0
    | inr q ↦ let h' = rw q at h in All-inserted P k v es h'.1
  ]

  insert_in-clash :
      (k : ℤ) (v w : V) (es : List (ℤ × V)) → lookup k es ≡ some w → IsStrict (insert_in k v es) → ⊥
  insert_in-clash k v w [] e s = cc
  insert_in-clash k v w (d ∷ es) e s = elim (Bool-cases (ltb_ℤ k d.0)) [
    | inl q ↦
        let s' = rw q at s in
        let none_there : lookup k (d ∷ es) ≡ none = lookup-none k (d ∷ es) (
          All-mono (λ (f : ℤ × V). ltb_ℤ k f.0 ≡ true) (λ (f : ℤ × V). differs f.0 k ≡ true)
            (d ∷ es) (λ f lt. ground arith) s'.0) in
        cc
    | inr q ↦
        let s' = rw q at s in
        elim (Bool-cases (differs d.0 k)) [
          | inl x ↦ let e' = rw x at e in insert_in-clash k v w es e' s'.1
          | inr x ↦
              let lt : ltb_ℤ d.0 k ≡ true =
                All-inserted (λ (f : ℤ × V). ltb_ℤ d.0 f.0 ≡ true) k v es s'.0 in
              ground arith
        ]
  ]

  -- Inserting a key that the tree has leaves two entries of one key.
  pub add_rec-clash :
      (t : Tree V) (k : ℤ) (v w : V)
      → IsStrict (inorder t)
      → lookup k (inorder t) ≡ some w
      → ¬ IsStrict (inorder (add_rec t k v))
  add_rec-clash t k v w s e s' =
      let eq = inorder-add_rec t k v (IsStrict-IsSorted (inorder t) s) in
      insert_in-clash k v w (inorder t) e (rw eq at s')
