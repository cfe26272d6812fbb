-- ===== src/MemoryMap/Ends.antt =====
-- The loop of `MemoryMap::place` ends: each call of `trim` brings the next index nearer to the end.
use cros_kernel.Base.{
  ℕ, zero, suc, ◌+◌, ◌-◌, ◌≤◌, ◌<◌, ◌≡◌, refl, ◌≢◌, Bool, true, false, inl, inr, ◌&&◌, ltb, leb,
  if◌then◌else◌, Option, none, some, [], ◌∷◌, length, length-set, set, get_elem?, ℤ, pos, arith,
  Run, ok, fault, out_of_fuel, Bool-cases, ◌==◌, ◌>>=◌, get_elem?-lt,
}
use cros_kernel.MemoryMap.{
  Region, rank, overlaps, contains, end_of, sub64, less, capacity, Map, remove, carry, insert,
  cut_size, split, trim_pair, trim, trim_loop, place,
}

-- A result of `trim` at index `i` of a map of `n` regions: the end, or an index nearer to it.
pub data Nearer (i n : ℕ) : Run (Option ℕ × Map) → Type 0 where
  at_end : (m : Map) → Nearer i n (ok (none, m))
  nearer : (j : ℕ) (m : Map) → i + 1 < n → length m + i < n + j → Nearer i n (ok (some j, m))
  overruns : Nearer i n fault

length-carry : (new : Region) (m : Map) → length (carry new m) ≡ length m + 1
unfolding carry
length-carry new [] = omega arith
length-carry new (r ∷ m) = omega (arith, length-carry (if less new r then r else new) m)

length-remove : (i : ℕ) (m : Map) → i < length m → length (remove i m) + 1 ≡ length m
unfolding remove
length-remove i [] h = absurd (omega arith)
length-remove zero (r ∷ m) h = omega arith
length-remove (suc i) (r ∷ m) h = omega (arith, length-remove i m (omega arith))

module _ (i : ℕ) (m : Map) (h : i + 1 < length m) where
  insert-Nearer :
      (new : Region) (m' : Map)
      → length m' ≤ length m
      → Nearer i (length m) (insert new m' >>= λ m''. ok (some (i + 2), m''))
  unfolding insert
  insert-Nearer new m' le = elim (Bool-cases (leb capacity (length m'))) [
    | inl full ↦ rw full overruns
    | inr room ↦ rw room (nearer (i + 2) (carry new m') h (omega (arith, length-carry new m')))
  ]

  -- On both sides of a test.
  either :
      (b : Bool) (x y : Run (Option ℕ × Map))
      → Nearer i (length m) x
      → Nearer i (length m) y
      → Nearer i (length m) (if b then x else y)
  either true x y a b = a
  either false x y a b = b

  -- One region less at the same place.
  removed :
      (k : ℕ) (m' : Map)
      → k < length m
      → length m' ≡ length m
      → Nearer i (length m) (ok (some i, remove k m'))
  removed k m' lt e = nearer i (remove k m') h (omega (arith, length-remove k m'))

  stepped : (m' : Map) → length m' ≡ length m → Nearer i (length m) (ok (some (i + 1), m'))
  stepped m' e = nearer (i + 1) m' h (omega arith)

  shorter :
      (k : ℕ)
      → k < length m
      → (j : ℕ) (x : Region) → Nearer i (length m) (ok (some i, remove k (set m j x)))
  shorter k lt j x = removed k (set m j x) lt (length-set m j x)

  changed : (j : ℕ) (x : Region) → Nearer i (length m) (ok (some (i + 1), set m j x))
  changed j x = stepped (set m j x) (length-set m j x)

  split-Nearer : (l r : Region) → Nearer i (length m) (split i m l r)
  unfolding split
  split-Nearer l r = insert-Nearer _ _ (shrinks (cut_size l r == 0) (set m i _) (length-set m i _))
    where
      shrinks :
          (b : Bool) (m' : Map)
          → length m' ≡ length m
          → length (if b then remove i m' else m') ≤ length m
      shrinks true m' e = omega (arith, length-remove i m')
      shrinks false m' e = omega arith

  trim_pair-Nearer : (l r : Region) → Nearer i (length m) (trim_pair i m l r)
  unfolding trim_pair
  trim_pair-Nearer l r =
      let o : Bool = overlaps l r in
      let same : Bool = rank l.type == rank r.type in
      let weaker : Bool = ltb (rank l.type) (rank r.type) in
      let top : ℕ = if ltb (end_of l) (end_of r) then end_of r else end_of l in
      either (o && same) _ _ (shorter (i + 1) h i (record l { size = sub64 top l.location })) (
        either (o && (weaker && contains r l)) _ _ (removed i m (omega arith) refl) (
          either (o && (weaker && leb (end_of l) (end_of r))) _ _
            (changed i (record l { size = cut_size l r }))
            (either (o && weaker) _ _ (split-Nearer l r) (
              either (o && contains l r) _ _ (removed (i + 1) m h refl) (
                either o _ _
                  (changed (i + 1)
                    (record r { size = sub64 (end_of r) (end_of l); location = end_of l }))
                  (either (end_of l == r.location && same) _ _
                    (shorter (i + 1) h i (record l { size = sub64 (end_of r) l.location }))
                    (stepped m refl)))))))

at_pair :
    (i : ℕ) (m : Map)
    → i + 1 < length m
    → leb (length m) (i + 1) ≡ false
    → ((l : Region) × (get_elem? m i ≡ some l))
    → ((r : Region) × (get_elem? m (i + 1) ≡ some r))
    → Nearer i (length m) (trim i m)
unfolding trim
at_pair i m lt more (l, e) (r, f) = rw (more, e, f) (trim_pair-Nearer i m lt l r)

trim-Nearer : (i : ℕ) (m : Map) → Nearer i (length m) (trim i m)
unfolding trim
trim-Nearer i m = elim (Bool-cases (leb (length m) (i + 1))) [
  | inl last ↦ rw last (at_end m)
  | inr more ↦
      let lt : i + 1 < length m = ground arith in
      at_pair i m lt more (get_elem?-lt m i (omega arith)) (get_elem?-lt m (i + 1) lt)
]

-- what follows a call of `trim` in the loop, with fuel for every step that is left
next-ends :
    (fuel i n : ℕ) {x : Run (Option ℕ × Map)}
    → ((j : ℕ) (m : Map) → length m < fuel + j → 0 < fuel → trim_loop fuel j m ≢ out_of_fuel)
    → n < suc fuel + i
    → Nearer i n x
    → (x >>= λ (next, m'). elim next [ none ↦ ok m' | some j ↦ trim_loop fuel j m' ]) ≢ out_of_fuel
next-ends fuel i n ih lt (at_end m) = cc
next-ends fuel i n ih lt (nearer j m more le) = ih j m (omega arith) (omega arith)
next-ends fuel i n ih lt overruns = cc

trim_loop-ends :
    (fuel i : ℕ) (m : Map) → length m < fuel + i → 0 < fuel → trim_loop fuel i m ≢ out_of_fuel
unfolding trim_loop
trim_loop-ends zero i m h p = absurd (omega arith)
trim_loop-ends (suc fuel) i m h p =
    next-ends fuel i (length m) (λ j m'. trim_loop-ends fuel j m') h (trim-Nearer i m)

ends-bind :
    {x : Run Map} → x ≢ out_of_fuel → ◌>>=◌ {B = ℤ × Map} x (λ m. ok (pos 0, m)) ≢ out_of_fuel
ends-bind {x = ok m} h = λ e. cc
ends-bind {x = fault} h = λ e. cc
ends-bind {x = out_of_fuel} h = absurd (h refl)

insert-length : (new : Region) (m : Map) → length m < capacity → insert new m ≡ ok (carry new m)
unfolding insert
insert-length new m h = let e : leb capacity (length m) ≡ false = ground arith in rw e

-- With fuel for as many rounds as the array has entries, the loop of `place` ends, whatever the
-- region and the map: the call returns, or it writes past the array.
pub place-ends :
    (fuel : ℕ) (new : Region) (m : Map) → capacity ≤ fuel → place fuel new m ≢ out_of_fuel
unfolding place
place-ends fuel new m h = elim (Bool-cases (leb (length m) (capacity - 2))) [
  | inl room ↦
      rw (room, insert-length new m (ground arith))
        (ends-bind
          (trim_loop-ends fuel 0 (carry new m) (ground (arith, length-carry new m)) (omega arith)))
  | inr full ↦ rw full (λ e. cc)
]
