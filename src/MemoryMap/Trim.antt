-- ===== src/MemoryMap/Trim.antt =====
-- `trim` of src/memory/memorymap.cpp changes no address: the strongest type there stays.
use mathlib.Core.Path.{subst, subst₂, ap₂}
use native.Mathlib.Decide.{dec_lt}
use cros_kernel.Base.{
  ℕ, zero, suc, ◌+◌, ◌≤◌, ◌<◌, ◌≡◌, refl, sym, ap, ◌∙◌, true, false, ◌&&◌, inl, inr, ltb, leb, ◌==◌,
  if◌then◌else◌, max, Option, none, some, [], ◌∷◌, ◌++◌, length, get_elem?, All, All-append,
  All-split, arith, ok, Bool-cases, some-eq, leb→le, length-append, get_elem?-lt, ◌>>=◌,
}
use cros_kernel.MemoryMap.{
  rank, sub64, Region, end_of, overlaps, contains, capacity, Map, remove, carry, insert, cut_size,
  split, trim_pair, trim,
}
use cros_kernel.MemoryMap.Cover.{
  Fits, value, strongest, strongest-append, strongest-carry, value-union, value-under, value-cut,
  value-split, value-split_gone, value-over, value-push, value-join,
}
use cros_kernel.MemoryMap.Regions.{
  set-at, set-next, remove-at, remove-next, Keeps, keeps, overruns, by_cover, All-carry,
}

-- The regions stand by their locations.
abbrev pub IsOrdered : Map → Type 0
IsOrdered [] = Unit {0}
IsOrdered (r ∷ []) = Unit {0}
IsOrdered (r ∷ s ∷ m) = (r.location ≤ s.location) × IsOrdered (s ∷ m)

module _ (pre : Map) (l r : Region) (post : Map) (h : All Fits (pre ++ l ∷ r ∷ post)) where
  abbrev at : Map
  at = pre ++ l ∷ r ∷ post

  fits : All Fits pre × Fits l × Fits r × All Fits post
  fits = let (a, b) = All-split Fits pre (l ∷ r ∷ post) h in (a, b.0, b.1.0, b.1.1)

  -- The result with `xs` in the place of the two regions.
  by_result :
      (next : Option ℕ) (xs m' : Map)
      → m' ≡ pre ++ (xs ++ post)
      → ((a : ℕ) → strongest xs a ≡ max (value l a) (value r a))
      → All Fits xs
      → Keeps at (ok (next, m'))
  by_result next xs m' e same f =
      keeps next m' (rw e (by_cover pre l r post xs same))
        (rw e (All-append Fits pre (xs ++ post) fits.0 (All-append Fits xs post f fits.3)))

  -- The branch that inserts what stands behind `r`, into the map with `l` cut off or gone.
  insert-Keeps :
      (xs : Map) (new : Region) (m' : Map)
      → m' ≡ pre ++ (xs ++ post)
      → ((a : ℕ) → max (value new a) (strongest xs a) ≡ max (value l a) (value r a))
      → All Fits (new ∷ xs)
      → length xs ≤ 2
      → (next : Option ℕ) → Keeps at (insert new m' >>= λ m''. ok (next, m''))
  unfolding insert
  insert-Keeps xs new m' e same f n next = elim (Bool-cases (leb capacity (length m'))) [
    | inl full ↦ rw full (
        overruns (
          omega (
            arith,
            leb→le capacity (length m') full,
            ap length e,
            length-append pre (xs ++ post),
            length-append xs post,
            length-append pre (l ∷ r ∷ post),
          )))
    | inr room ↦ rw room (
        keeps next (carry new m')
          (λ a. omega (
            arith,
            strongest-carry new m' a,
            ap (λ m. strongest m a) e,
            strongest-append pre (xs ++ post) a,
            strongest-append xs post a,
            strongest-append pre (l ∷ r ∷ post) a,
            same a,
          ))
          (All-carry new m' f.0
            (rw e (All-append Fits pre (xs ++ post) fits.0 (All-append Fits xs post f.1 fits.3)))))
  ]

  split-Keeps :
      rank l.type < rank r.type
      → overlaps l r ≡ true
      → end_of r < end_of l
      → Keeps at (split (length pre) at l r)
  unfolding split
  split-Keeps t o e = elim (Bool-cases (cut_size l r == 0)) [
    | inl z ↦ rw z (
        insert-Keeps (r ∷ []) (record l { location = end_of r; size = sub64 (end_of l) (end_of r) })
          _ (ap (remove (length pre)) (set-at _ r post pre l r) ∙ remove-at pre _ r post)
          (λ a. omega (arith, value-split_gone l r fits.1 fits.2 a t o e (ground arith)))
          (ground (arith, fits.1, fits.2), (fits.2, tt)) (omega arith) _)
    | inr nz ↦ rw nz (
        insert-Keeps (record l { size = cut_size l r } ∷ r ∷ [])
          (record l { location = end_of r; size = sub64 (end_of l) (end_of r) }) _
          (set-at _ r post pre l r) (λ a. omega (arith, value-split l r fits.1 fits.2 a t o e))
          (ground (arith, fits.1, fits.2), (ground (arith, fits.1, fits.2), (fits.2, tt)))
          (omega arith) _)
  ]

  weaker-Keeps :
      rank l.type < rank r.type → overlaps l r ≡ true → Keeps at (trim_pair (length pre) at l r)
  unfolding trim_pair
  weaker-Keeps t o =
      let t1 : (rank l.type == rank r.type) ≡ false = ground arith in
      let t2 : ltb (rank l.type) (rank r.type) ≡ true = ground arith in
      elim (Bool-cases (contains r l)) [
        | inl c ↦
            rw (o, t1, t2, c)
              (by_result _ (r ∷ []) _ (remove-at pre l r post)
                (λ a. omega (arith, value-under l r fits.1 fits.2 a t c)) (fits.2, tt))
        | inr nc ↦ elim (Bool-cases (leb (end_of l) (end_of r))) [
          | inl e ↦
              rw (o, t1, t2, nc, e)
                (by_result _ (record l { size = cut_size l r } ∷ r ∷ []) _ (set-at _ r post pre l r)
                  (λ a. omega (arith, value-cut l r fits.1 fits.2 a t o (ground arith)))
                  (ground (arith, fits.1, fits.2), (fits.2, tt)))
          | inr ne ↦ rw (o, t1, t2, nc, ne) (split-Keeps t o (ground arith))
        ]
      ]

  stronger-Keeps :
      rank r.type < rank l.type
      → overlaps l r ≡ true
      → l.location ≤ r.location
      → Keeps at (trim_pair (length pre) at l r)
  unfolding trim_pair
  stronger-Keeps t o s =
      let t1 : (rank l.type == rank r.type) ≡ false = ground arith in
      let t2 : ltb (rank l.type) (rank r.type) ≡ false = ground arith in
      elim (Bool-cases (contains l r)) [
        | inl c ↦
            rw (o, t1, t2, c)
              (by_result _ (l ∷ []) _ (remove-next pre l r post)
                (λ a. omega (arith, value-over l r fits.1 fits.2 a t c)) (fits.1, tt))
        | inr nc ↦
            rw (o, t1, t2, nc)
              (by_result _
                (l ∷ record r { size = sub64 (end_of r) (end_of l); location = end_of l } ∷ []) _
                (set-next l _ post pre l r)
                (λ a. omega (arith, value-push l r fits.1 fits.2 a t o s (ground arith)))
                (fits.1, (ground (arith, fits.1, fits.2), tt)))
      ]

  equal-Keeps :
      rank l.type ≡ rank r.type
      → overlaps l r ≡ true
      → l.location ≤ r.location
      → Keeps at (trim_pair (length pre) at l r)
  unfolding trim_pair
  equal-Keeps t o s =
      let t1 : (rank l.type == rank r.type) ≡ true = ground arith in
      let top : ℕ = if ltb (end_of l) (end_of r) then end_of r else end_of l in
      rw (o, t1)
        (by_result _ (record l { size = sub64 top l.location } ∷ []) _
          (ap (remove (length pre + 1)) (set-at _ r post pre l r) ∙ remove-next pre _ r post)
          (λ a. omega (arith, value-union l r fits.1 fits.2 a o t s))
          (ground (arith, fits.1, fits.2), tt))

  apart-Keeps : overlaps l r ≡ false → Keeps at (trim_pair (length pre) at l r)
  unfolding trim_pair
  apart-Keeps o = elim (Bool-cases (end_of l == r.location && rank l.type == rank r.type)) [
    | inl e ↦
        rw (o, e)
          (by_result _ (record l { size = sub64 (end_of r) l.location } ∷ []) _
            (ap (remove (length pre + 1)) (set-at _ r post pre l r) ∙ remove-next pre _ r post)
            (λ a. omega (arith, value-join l r fits.1 fits.2 a (ground arith) (ground arith)))
            (ground (arith, fits.1, fits.2), tt))
    | inr ne ↦ rw (o, ne) (keeps _ at (λ a. refl) h)
  ]

  trim_pair-Keeps : l.location ≤ r.location → Keeps at (trim_pair (length pre) at l r)
  trim_pair-Keeps s = elim (Bool-cases (overlaps l r)) [
    | inl o ↦ elim (dec_lt (rank l.type) (rank r.type)) [
      | yes t ↦ weaker-Keeps t o
      | no nt ↦ elim (dec_lt (rank r.type) (rank l.type)) [
        | yes t ↦ stronger-Keeps t o s
        | no nt' ↦ equal-Keeps (omega arith) o s
      ]
    ]
    | inr o ↦ apart-Keeps o
  ]

nth-split :
    (i : ℕ) (m : Map) {l r : Region}
    → get_elem? m i ≡ some l
    → get_elem? m (i + 1) ≡ some r
    → (pre post : Map) × (m ≡ pre ++ l ∷ r ∷ post) × (length pre ≡ i)
nth-split i [] e f = cc
nth-split zero (a ∷ []) e f = cc
nth-split zero (a ∷ b ∷ m) e f = ([], m, ap₂ (λ x y. x ∷ y ∷ m) (some-eq e) (some-eq f), refl)
nth-split (suc i) (a ∷ m) e f =
    let n : suc i + 1 ≡ suc (i + 1) = omega arith in
    let (pre, post, p, q) = nth-split i m e (ap (get_elem? (a ∷ m)) (sym n) ∙ f) in
    (a ∷ pre, post, ap (λ x. a ∷ x) p, ap suc q)

IsOrdered-at :
    (pre : Map) (l r : Region) (post : Map)
    → IsOrdered (pre ++ l ∷ r ∷ post)
    → l.location ≤ r.location
IsOrdered-at [] l r post h = h.0
IsOrdered-at (p ∷ []) l r post h = h.1.0
IsOrdered-at (p ∷ q ∷ pre) l r post h = IsOrdered-at (q ∷ pre) l r post h.1

-- Where the regions stand by their locations and none reaches round the end of the address space,
-- `trim` leaves every address the type that it had (the strongest of the regions that hold it), and
-- regions that do not reach round the end; or, in a map whose array is full, it writes past the
-- array. It does so on each of its branches and at any index.
pub trim-Keeps : (i : ℕ) (m : Map) → All Fits m → IsOrdered m → Keeps m (trim i m)
unfolding trim
trim-Keeps i m h o = elim (Bool-cases (leb (length m) (i + 1))) [
  | inl last ↦ rw last (keeps none m (λ a. refl) h)
  | inr more ↦
      let (l, e) = get_elem?-lt m i (ground arith) in
      let (r, f) = get_elem?-lt m (i + 1) (ground arith) in
      let (pre, post, p, q) = nth-split i m e f in
      rw (more, e, f)
        (subst₂ (λ n j. Keeps n (trim_pair j n l r)) (sym p) q
          (trim_pair-Keeps pre l r post (subst (All Fits) p h)
            (IsOrdered-at pre l r post (subst IsOrdered p o))))
]
