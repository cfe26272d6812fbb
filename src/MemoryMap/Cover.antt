-- ===== src/MemoryMap/Cover.antt =====
-- What a map of src/memory/memorymap.cpp says of an address: the strongest type among the regions
-- that hold it. How the list operations and each branch of `trim` act on that.
use cros_kernel.Base.{
  ℕ, ◌+◌, ◌≤◌, ◌<◌, ◌≡◌, refl, Bool, true, ◌&&◌, ltb, leb, if◌then◌else◌, max, [], ◌∷◌, ◌++◌, arith,
}
use cros_kernel.MemoryMap.{
  rank, word, sub64, Region, end_of, less, overlaps, contains, Map, carry, cut_size,
}

-- The region does not reach round the end of the address space.
abbrev pub Fits : Region → Type 0
Fits r = r.location + r.size < word

abbrev pub holds : Region → ℕ → Bool
holds r a = leb r.location a && ltb a (r.location + r.size)

-- the type of the region at address `a`, 0 outside it
unfoldable pub value : Region → ℕ → ℕ
value r a = if holds r a then rank r.type else 0

-- the strongest type at address `a`, 0 where no region holds it
abbrev pub strongest : Map → ℕ → ℕ
strongest [] a = 0
strongest (r ∷ m) a = max (value r a) (strongest m a)

pub strongest-append :
    (pre post : Map) (a : ℕ) → strongest (pre ++ post) a ≡ max (strongest pre a) (strongest post a)
strongest-append [] post a = omega arith
strongest-append (r ∷ pre) post a = omega (arith, strongest-append pre post a)

-- Carrying a region into the array adds it.
pub strongest-carry :
    (new : Region) (m : Map) (a : ℕ) → strongest (carry new m) a ≡ max (value new a) (strongest m a)
unfolding carry
strongest-carry new [] a = refl
strongest-carry new (r ∷ m) a = ground (arith, strongest-carry (if less new r then r else new) m a)

module _ (l r : Region) (fl : Fits l) (fr : Fits r) (a : ℕ) where
  pub value-union :
      overlaps l r ≡ true
      → rank l.type ≡ rank r.type
      → l.location ≤ r.location
      → value
          (record l {
            size = sub64 (if ltb (end_of l) (end_of r) then end_of r else end_of l) l.location;
          })
          a
        ≡ max (value l a) (value r a)
  unfolding value
  value-union o t s = ground arith

  pub value-under :
      rank l.type < rank r.type → contains r l ≡ true → value r a ≡ max (value l a) (value r a)
  unfolding value
  value-under t c = ground arith

  pub value-cut :
      rank l.type < rank r.type
      → overlaps l r ≡ true
      → end_of l ≤ end_of r
      → max (value (record l { size = cut_size l r }) a) (value r a) ≡ max (value l a) (value r a)
  unfolding value
  value-cut t o e = ground arith

  pub value-split :
      rank l.type < rank r.type
      → overlaps l r ≡ true
      → end_of r < end_of l
      → max (value (record l { size = cut_size l r }) a) (
          max
            (value r a)
            (value (record l { location = end_of r; size = sub64 (end_of l) (end_of r) }) a))
        ≡ max (value l a) (value r a)
  unfolding value
  value-split t o e = ground arith

  pub value-split_gone :
      rank l.type < rank r.type
      → overlaps l r ≡ true
      → end_of r < end_of l
      → cut_size l r ≡ 0
      → max
          (value (record l { location = end_of r; size = sub64 (end_of l) (end_of r) }) a)
          (value r a)
        ≡ max (value l a) (value r a)
  unfolding value
  value-split_gone t o e z = ground arith

  pub value-over :
      rank r.type < rank l.type → contains l r ≡ true → value l a ≡ max (value l a) (value r a)
  unfolding value
  value-over t c = ground arith

  pub value-push :
      rank r.type < rank l.type
      → overlaps l r ≡ true
      → l.location ≤ r.location
      → end_of l < end_of r
      → max
          (value l a)
          (value (record r { size = sub64 (end_of r) (end_of l); location = end_of l }) a)
        ≡ max (value l a) (value r a)
  unfolding value
  value-push t o s e = ground arith

  pub value-join :
      rank l.type ≡ rank r.type
      → end_of l ≡ r.location
      → value (record l { size = sub64 (end_of r) l.location }) a ≡ max (value l a) (value r a)
  unfolding value
  value-join t e = ground arith
