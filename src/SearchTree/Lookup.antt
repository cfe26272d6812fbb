-- ===== src/SearchTree/Lookup.antt =====
-- The tree of src/containers/binary_search_tree.h as a finite map, where no two entries have one key.
use cros_kernel.Base.{
  ◌≡◌, refl, sym, ap, ◌∙◌, Bool, true, false, not, if◌then◌else◌, Option, none, some, List, [], ◌∷◌,
  ◌++◌, arith, ℤ, ltb_ℤ, All, All-split, All-mono, Bool-cases, inl, inr, ok, some-eq,
}
use cros_kernel.SearchTree.{
  Tree, leaf, node, or_here, search_rec, differs, contains, root_value, get,
}
use cros_kernel.SearchTree.Order.{◌≤ℤ◌, inorder, IsSorted}

module _ {V : Type 0} where
  -- The keys rise from left to right.
  abbrev pub IsStrict : List (ℤ × V) → Type 0
  IsStrict [] = Unit {0}
  IsStrict (e ∷ es) = All (λ (f : ℤ × V). ltb_ℤ e.0 f.0 ≡ true) es × IsStrict es

  -- the value of the first entry with the key
  abbrev pub lookup : ℤ → List (ℤ × V) → Option V
  lookup k [] = none
  lookup k (e ∷ es) = if differs e.0 k then lookup k es else some e.1

  abbrev pub found : Option V → Bool
  found none = false
  found (some v) = true

  abbrev or_else : Option V → Option V → Option V
  or_else none o = o
  or_else (some v) o = some v

  pub IsStrict-IsSorted : (es : List (ℤ × V)) → IsStrict es → IsSorted es
  IsStrict-IsSorted [] s = tt
  IsStrict-IsSorted (e ∷ es) s = (
    All-mono (λ (f : ℤ × V). ltb_ℤ e.0 f.0 ≡ true) (λ (f : ℤ × V). e.0 ≤ℤ f.0) es
        (λ f lt. ground arith) s.0,
    IsStrict-IsSorted es s.1,
  )

  pub IsStrict-append :
      (es fs : List (ℤ × V)) (k : ℤ) (v : V)
      → IsStrict (es ++ (k, v) ∷ fs)
      → IsStrict es
        × All (λ (e : ℤ × V). ltb_ℤ e.0 k ≡ true) es
        × All (λ (f : ℤ × V). ltb_ℤ k f.0 ≡ true) fs
        × IsStrict fs
  IsStrict-append [] fs k v s = (tt, tt, s.0, s.1)
  IsStrict-append (e ∷ es) fs k v s =
      let (a, b, c, d) = IsStrict-append es fs k v s.1 in
      let (x, y) = All-split (λ (f : ℤ × V). ltb_ℤ e.0 f.0 ≡ true) es ((k, v) ∷ fs) s.0 in
      ((x, a), (y.0, b), c, d)

  lookup-append :
      (k : ℤ) (es fs : List (ℤ × V)) → lookup k (es ++ fs) ≡ or_else (lookup k es) (lookup k fs)
  lookup-append k [] fs = refl
  lookup-append k (e ∷ es) fs = elim (Bool-cases (differs e.0 k)) [
    | inl d ↦ rw d (lookup-append k es fs)
    | inr d ↦ rw d
  ]

  pub lookup-none :
      (k : ℤ) (es : List (ℤ × V))
      → All (λ (e : ℤ × V). differs e.0 k ≡ true) es
      → lookup k es ≡ none
  lookup-none k [] a = refl
  lookup-none k (e ∷ es) a = rw a.0 (lookup-none k es a.1)

  or_else-none : (o : Option V) → or_else o none ≡ o
  or_else-none none = refl
  or_else-none (some v) = refl

  -- the entry that the walk stopped at, if it has the key
  abbrev match : Option (ℤ × V) → ℤ → Option V
  match none k = none
  match (some e) k = if differs e.0 k then none else some e.1

  match-or_here :
      (o : Option (ℤ × V)) (j k : ℤ) (w : V)
      → differs j k ≡ true
      → match (or_here o j w) k ≡ match o k
  match-or_here none j k w d = rw d
  match-or_here (some e) j k w d = refl

  match-lookup :
      (t : Tree V) (k : ℤ) → IsStrict (inorder t) → match (search_rec t k) k ≡ lookup k (inorder t)
  unfolding search_rec
  match-lookup leaf k s = refl
  match-lookup (node l j w h r) k s =
      let (sl, al, ar, sr) = IsStrict-append (inorder l) (inorder r) j w s in
      elim (Bool-cases (ltb_ℤ k j)) [
        | inl p ↦
            let d : differs j k ≡ true = ground arith in
            let g : lookup k (inorder r) ≡ none = lookup-none k (inorder r) (
              All-mono (λ (f : ℤ × V). ltb_ℤ j f.0 ≡ true) (λ (f : ℤ × V). differs f.0 k ≡ true)
                (inorder r) (λ f lt. ground arith) ar) in
            rw
              (
                p,
                match-or_here _ j k w d,
                match-lookup l k sl,
                lookup-append k (inorder l) ((j, w) ∷ inorder r),
                d,
                g,
              )
              (sym (or_else-none (lookup k (inorder l))))
        | inr p ↦
            let below = λ (le : ltb_ℤ k j ≡ false). lookup-none k (inorder l) (
              All-mono (λ (e : ℤ × V). ltb_ℤ e.0 j ≡ true) (λ (e : ℤ × V). differs e.0 k ≡ true)
                (inorder l) (λ e lt. ground arith) al) in
            elim (Bool-cases (ltb_ℤ j k)) [
              | inl q ↦
                  let d : differs j k ≡ true = ground arith in
                  rw (
                    p,
                    q,
                    match-or_here _ j k w d,
                    match-lookup r k sr,
                    lookup-append k (inorder l) ((j, w) ∷ inorder r),
                    below p,
                    d,
                  )
              | inr q ↦
                  let d : differs j k ≡ false = ground arith in
                  rw (p, q, lookup-append k (inorder l) ((j, w) ∷ inorder r), below p, d)
            ]
      ]

  -- `contains` and `get` by the walk's match
  by_match :
      (o : Option (ℤ × V)) (t : Tree V) (k : ℤ)
      → (elim o [ none ↦ false | some (j, w) ↦ not (differs j k) ] ≡ found (match o k))
        × ((v : V)
            → match o k ≡ some v
            → elim o [
              | none ↦ root_value t
              | some (j, w) ↦ if differs j k then root_value t else ok w
            ]
              ≡ ok v)
  by_match none t k = (refl, λ v e. cc)
  by_match (some e) t k = elim (Bool-cases (differs e.0 k)) [
    | inl d ↦ rw d (refl, λ v f. cc)
    | inr d ↦ rw d (refl, λ v f. ap ok (some-eq f))
  ]

  -- In a tree without two entries of one key, `contains` and `get` read the map of its entries:
  -- `contains` says whether the key has a value, and `get` returns the value where it has one.
  pub get-lookup :
      (t : Tree V) (k : ℤ)
      → IsStrict (inorder t)
      → (contains t k ≡ found (lookup k (inorder t)))
        × ((v : V) → lookup k (inorder t) ≡ some v → get t k ≡ ok v)
  unfolding contains get
  get-lookup t k s =
      let m = match-lookup t k s in
      let (a, b) = by_match (search_rec t k) t k in (a ∙ ap found m, λ v e. b v (m ∙ e))
