-- ===== src/MemoryMap.antt =====
-- src/memory/memorymap.h and src/memory/memorymap.cpp: a map of the physical address space, kept as
-- an array of typed regions. The used part of the array is a list.
pub mod Cover
pub mod Regions
pub mod Trim
pub mod Ends
mod Tests
use cros_kernel.Base.{
  ℕ, zero, suc, ◌+◌, ◌-◌, ◌%◌, ◌^◌, Bool, true, false, ◌&&◌, ltb, leb, ◌==◌, if◌then◌else◌, Option,
  none, some, List, [], ◌∷◌, length, get_elem?, set, ℤ, pos, negsuc, Run, ok, fault, out_of_fuel,
  ◌>>=◌, ◌>>◌, need,
}

-- `enum class MemoryType`
pub data MemoryType : Type 0 where
  available unavailable mmio defective : MemoryType

-- the values of the enumerators
abbrev pub rank : MemoryType → ℕ
rank available = 1
rank unavailable = 2
rank mmio = 3
rank defective = 4

-- Arithmetic on `unsigned long`.
abbrev pub word : ℕ
word = 2 ^ 64

abbrev pub add64 : ℕ → ℕ → ℕ
add64 a b = (a + b) % word

abbrev pub sub64 : ℕ → ℕ → ℕ
sub64 a b = (a + word - b) % word

-- `class MemoryRegion`
pub record Region : Type 0 where
  pub type : MemoryType
  pub location : ℕ
  pub size : ℕ

-- `MemoryRegion::end`
abbrev pub end_of : Region → ℕ
end_of r = add64 r.location r.size

-- `operator<` and `operator>`
abbrev pub less : Region → Region → Bool
less a b = if a.location == b.location then ltb a.size b.size else ltb a.location b.location

abbrev pub greater : Region → Region → Bool
greater a b = if a.location == b.location then ltb b.size a.size else ltb b.location a.location

-- `overlaps` and `contains`
abbrev pub overlaps : Region → Region → Bool
overlaps a b =
    if ltb b.location a.location then ltb a.location (end_of b) else ltb b.location (end_of a)

abbrev pub contains : Region → Region → Bool
contains a b = leb a.location b.location && leb (end_of b) (end_of a)

-- the length of the array
abbrev pub capacity : ℕ
capacity = 16

abbrev pub Map : Type 0
Map = List Region

-- `remove(index)`: the entries behind move up; an index that is not there changes nothing.
pub remove : ℕ → Map → Map
remove i [] = []
remove zero (r ∷ m) = m
remove (suc i) (r ∷ m) = r ∷ remove i m

-- The loop of `insert`: the new region is put down where it is the smaller, and the one that stood
-- there is carried on.
pub carry : Region → Map → Map
carry new [] = new ∷ []
carry new (r ∷ m) = (if less new r then new else r) ∷ carry (if less new r then r else new) m

-- `insert(type, location, size)`: a fault where it writes past the array.
pub insert : Region → Map → Run Map
insert new m = if leb capacity (length m) then fault else ok (carry new m)

-- the size of `left` where it is cut off at `right`
abbrev pub cut_size : Region → Region → ℕ
cut_size left right =
    if ltb left.location right.location then sub64 right.location left.location else 0

-- the branch of `trim` in which `left` reaches past `right`, which is stronger
pub split : ℕ → Map → Region → Region → Run (Option ℕ × Map)
split index m left right =
    let new_right : Region = record left {
      location = end_of right;
      size = sub64 (end_of left) (end_of right);
    } in
    let left' : Region = record left { size = cut_size left right } in
    let m' : Map =
      if left'.size == 0 then remove index (set m index left') else set m index left' in
    (insert new_right m' >>= λ m''. ok (some (index + 2), m''))

-- `trim` at two neighbours, the branches in the order of the code
pub trim_pair : ℕ → Map → Region → Region → Run (Option ℕ × Map)
trim_pair index m left right =
    if overlaps left right && rank left.type == rank right.type
    then ok (
      some index,
      remove (index + 1) (
          set m index (record left {
            size =
                sub64 (if ltb (end_of left) (end_of right) then end_of right else end_of left)
                  left.location;
          })),
    )
    else if overlaps left right && (ltb (rank left.type) (rank right.type) && contains right left)
    then ok (some index, remove index m)
    else if overlaps left right
        && (ltb (rank left.type) (rank right.type) && leb (end_of left) (end_of right))
    then ok (some (index + 1), set m index (record left { size = cut_size left right }))
    else if overlaps left right && ltb (rank left.type) (rank right.type)
    then split index m left right
    else if overlaps left right && contains left right
    then ok (some index, remove (index + 1) m)
    else if overlaps left right
    then ok (
      some (index + 1),
      set m (index + 1)
          (record right { size = sub64 (end_of right) (end_of left); location = end_of left }),
    )
    else if end_of left == right.location && rank left.type == rank right.type
    then ok (
      some index,
      remove (index + 1) (set m index (record left { size = sub64 (end_of right) left.location })),
    )
    else ok (some (index + 1), m)

-- `trim(index)`: the next index, or `none` for -1 at the end of the array
pub trim : ℕ → Map → Run (Option ℕ × Map)
trim index m = if leb (length m) (index + 1) then ok (none, m) else (do
  left ← need (get_elem? m index)
  right ← need (get_elem? m (index + 1))
  trim_pair index m left right)

-- the loop of `place`, on fuel
pub trim_loop : ℕ → ℕ → Map → Run Map
trim_loop zero i m = out_of_fuel
trim_loop (suc fuel) i m =
    trim i m >>= λ (next, m'). elim next [ none ↦ ok m' | some j ↦ trim_loop fuel j m' ]

-- `place(type, location, size)`, on fuel for its loop: 0, or -1 where there is little room
pub place : ℕ → Region → Map → Run (ℤ × Map)
place fuel new m =
    if leb (length m) (capacity - 2)
    then (do m' ← insert new m; m'' ← trim_loop fuel 0 m'; ok (pos 0, m''))
    else ok (negsuc 0, m)
