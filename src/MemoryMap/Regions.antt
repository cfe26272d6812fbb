-- ===== src/MemoryMap/Regions.antt =====
-- The regions at a place of the map of src/memory/memorymap.cpp: replacing and removing them, and what
-- the map still says.
use cros_kernel.Base.{
  ℕ, zero, suc, ◌+◌, ◌≤◌, ◌≡◌, refl, ap, inl, inr, max, Option, [], ◌∷◌, ◌++◌, length, set, All,
  arith, Run, ok, fault, Bool-cases,
}
use cros_kernel.MemoryMap.{Region, less, capacity, Map, remove, carry}
use cros_kernel.MemoryMap.Cover.{Fits, value, strongest, strongest-append}

module _ (x y : Region) (post : Map) where
  pub set-at :
      (pre : Map) (l r : Region) → set (pre ++ l ∷ r ∷ post) (length pre) x ≡ pre ++ x ∷ r ∷ post
  set-at [] l r = refl
  set-at (p ∷ pre) l r = ap (λ m. p ∷ m) (set-at pre l r)

  pub set-next :
      (pre : Map) (l r : Region)
      → set (pre ++ l ∷ r ∷ post) (length pre + 1) y ≡ pre ++ l ∷ y ∷ post
  set-next [] l r = refl
  set-next (p ∷ pre) l r =
      let e : suc (length pre) + 1 ≡ suc (length pre + 1) = omega arith in
      rw e (ap (λ m. p ∷ m) (set-next pre l r))

pub remove-at :
    (pre : Map) (l r : Region) (post : Map)
    → remove (length pre) (pre ++ l ∷ r ∷ post) ≡ pre ++ r ∷ post
unfolding remove
remove-at [] l r post = refl
remove-at (p ∷ pre) l r post = ap (λ m. p ∷ m) (remove-at pre l r post)

pub remove-next :
    (pre : Map) (l r : Region) (post : Map)
    → remove (length pre + 1) (pre ++ l ∷ r ∷ post) ≡ pre ++ l ∷ post
unfolding remove
remove-next [] l r post = refl
remove-next (p ∷ pre) l r post =
    let e : suc (length pre) + 1 ≡ suc (length pre + 1) = omega arith in
    rw e (ap (λ m. p ∷ m) (remove-next pre l r post))

-- The two maps say the same of every address.
abbrev pub Same : Map → Map → Type 0
Same m m' = (a : ℕ) → strongest m' a ≡ strongest m a

-- What a result of `trim` must satisfy.
pub data Keeps (m : Map) : Run (Option ℕ × Map) → Type 0 where
  keeps : (next : Option ℕ) (m' : Map) → Same m m' → All Fits m' → Keeps m (ok (next, m'))
  overruns : capacity ≤ length m → Keeps m fault

module _ (pre : Map) (l r : Region) (post : Map) where
  abbrev pub whole : Map
  whole = pre ++ l ∷ r ∷ post

  -- Replacing the two regions by others of the same joint value.
  pub by_cover :
      (xs : Map)
      → ((a : ℕ) → strongest xs a ≡ max (value l a) (value r a))
      → Same whole (pre ++ (xs ++ post))
  by_cover xs h a = omega (
    arith,
    strongest-append pre (xs ++ post) a,
    strongest-append xs post a,
    strongest-append pre (l ∷ r ∷ post) a,
    h a,
  )

pub length-remove : (i : ℕ) (m : Map) → length (remove i m) ≤ length m
unfolding remove
length-remove i [] = omega arith
length-remove zero (r ∷ m) = omega arith
length-remove (suc i) (r ∷ m) = omega (arith, length-remove i m)

pub All-carry : (new : Region) (m : Map) → Fits new → All Fits m → All Fits (carry new m)
unfolding carry
All-carry new [] f h = (f, tt)
All-carry new (r ∷ m) f h = elim (Bool-cases (less new r)) [
  | inl c ↦ rw c (f, All-carry r m h.0 h.1)
  | inr c ↦ rw c (h.0, All-carry new m f h.1)
]
