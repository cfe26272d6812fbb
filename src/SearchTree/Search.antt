-- ===== src/SearchTree/Search.antt =====
-- `contains` and `get` of src/containers/binary_search_tree.h find the entries of the tree.
use cros_kernel.Base.{
  ◌≡◌, refl, ◌∙◌, Bool, true, false, not, ◌||◌, inl, inr, Option, none, some, List, [], ◌∷◌, ◌++◌,
  arith, ℤ, ltb_ℤ, All, Bool-cases,
}
use cros_kernel.SearchTree.{Tree, leaf, node, or_here, search_rec, differs, contains}
use cros_kernel.SearchTree.Order.{◌≤ℤ◌, inorder, IsSorted, IsSorted-append}

module _ {V : Type 0} where
  -- an entry with the key stands in the list
  abbrev pub has_key : ℤ → List (ℤ × V) → Bool
  has_key k [] = false
  has_key k (e ∷ es) = not (differs e.0 k) || has_key k es

  has_key-append :
      (k : ℤ) (es fs : List (ℤ × V)) → has_key k (es ++ fs) ≡ (has_key k es || has_key k fs)
  has_key-append k [] fs = refl
  has_key-append k (e ∷ es) fs = ground (arith, has_key-append k es fs)

  -- no entry of the key among greater ones, or among smaller ones
  has_key-greater :
      (k j : ℤ) (es : List (ℤ × V))
      → ltb_ℤ k j ≡ true
      → All (λ (e : ℤ × V). j ≤ℤ e.0) es
      → has_key k es ≡ false
  has_key-greater k j [] lt a = refl
  has_key-greater k j (e ∷ es) lt a = ground (arith, a.0, has_key-greater k j es lt a.1)

  has_key-smaller :
      (k j : ℤ) (es : List (ℤ × V))
      → ltb_ℤ j k ≡ true
      → All (λ (e : ℤ × V). e.0 ≤ℤ j) es
      → has_key k es ≡ false
  has_key-smaller k j [] lt a = refl
  has_key-smaller k j (e ∷ es) lt a = ground (arith, a.0, has_key-smaller k j es lt a.1)

  -- `contains` of what the walk stopped at
  abbrev hits : Option (ℤ × V) → ℤ → Bool
  hits none k = false
  hits (some e) k = not (differs e.0 k)

  contains-hits : (t : Tree V) (k : ℤ) → contains t k ≡ hits (search_rec t k) k
  unfolding contains
  contains-hits t k = agree (search_rec t k)
    where
      agree :
          (o : Option (ℤ × V))
          → elim o [ none ↦ false | some (j, w) ↦ not (differs j k) ] ≡ hits o k
      agree none = refl
      agree (some e) = refl

  -- The walk that stops at this node for want of a child does not hit.
  hits-or_here :
      (o : Option (ℤ × V)) (j k : ℤ) (w : V)
      → differs j k ≡ true
      → hits (or_here o j w) k ≡ hits o k
  hits-or_here none j k w d = rw d
  hits-or_here (some e) j k w d = refl

  hits-has_key :
      (t : Tree V) (k : ℤ) → IsSorted (inorder t) → hits (search_rec t k) k ≡ has_key k (inorder t)
  unfolding search_rec
  hits-has_key leaf k s = refl
  hits-has_key (node l j w h r) k s =
      let (sl, al, ar, sr) = IsSorted-append (inorder l) (inorder r) j w s in
      elim (Bool-cases (ltb_ℤ k j)) [
        | inl p ↦
            let d : differs j k ≡ true = ground arith in
            let g = has_key-greater k j (inorder r) p ar in
            rw
              (
                p,
                hits-or_here _ j k w d,
                hits-has_key l k sl,
                has_key-append k (inorder l) ((j, w) ∷ inorder r),
                d,
                g,
              )
              (ground arith)
        | inr p ↦ elim (Bool-cases (ltb_ℤ j k)) [
          | inl q ↦
              let d : differs j k ≡ true = ground arith in
              let g = has_key-smaller k j (inorder l) q al in
              rw
                (
                  p,
                  q,
                  hits-or_here _ j k w d,
                  hits-has_key r k sr,
                  has_key-append k (inorder l) ((j, w) ∷ inorder r),
                  g,
                  d,
                )
                refl
          | inr q ↦
              let d : differs j k ≡ false = ground arith in
              rw (p, q, has_key-append k (inorder l) ((j, w) ∷ inorder r), d) (ground arith)
        ]
      ]

  -- In a tree whose keys are in order, `contains` is true exactly of the keys of its entries.
  pub contains-has_key :
      (t : Tree V) (k : ℤ) → IsSorted (inorder t) → contains t k ≡ has_key k (inorder t)
  contains-has_key t k s = contains-hits t k ∙ hits-has_key t k s
