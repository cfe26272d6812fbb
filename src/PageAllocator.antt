-- ===== src/PageAllocator.antt =====
-- src/memory/pageallocator.h and src/memory/pageallocator.cpp with `llog2` of src/util/math.h: the
-- buddy allocator of physical pages. A list of `availList`, a ring of blocks through its head, is the
-- sequence of the blocks' indexes from `linkf` of the head to `linkb`.
pub mod Log
pub mod Pages
pub mod Sound
pub mod Insert
pub mod Keeps
pub mod Free
pub mod Split
pub mod Reserve
pub mod Build
mod Tests
use cros_kernel.Base.{
  ℕ, zero, suc, ◌+◌, ◌-◌, ◌*◌, ◌/◌, ◌%◌, ◌^◌, Bool, true, false, not, ◌||◌, ◌&&◌, ltb, leb, ◌==◌,
  if◌then◌else◌, Option, none, some, List, [], ◌∷◌, update, Run, ok, fault, out_of_fuel, ◌>>=◌,
  need,
}
use cros_kernel.MemoryMap.{Map, Region, MemoryType, available, rank, end_of, add64, sub64, word}

-- the number of binary digits of a number below 2 ^ n, which is `64 - __builtin_clzl(x)` for n = 64
unfoldable pub bit_length : ℕ → ℕ → ℕ
bit_length zero x = 0
bit_length (suc n) x = let rest = bit_length n (x / 2) in if x == 0 then 0 else 1 + rest

-- `llog2(x)`
abbrev pub llog2 : ℕ → ℕ
llog2 x = if leb x 1 then 0 else bit_length 64 (x - 1)

-- `class Block` without its links
pub record Block : Type 0 where
  pub kval : ℕ
  pub is_free : Bool

-- `class PageAllocator`
pub record PageAllocator : Type 0 where
  pub avail_list : ℕ → List ℕ
  pub block_map : ℕ → Block
  pub max_k_val : ℕ
  pub block_size : ℕ
  pub offset : ℕ
  pub free_block_count : ℕ

-- `NOMEM`
abbrev pub nomem : ℕ
nomem = word - 1

abbrev pub reserved : ℕ → Block
reserved k = record { kval = k; is_free = false }

abbrev pub free_block : ℕ → Block
free_block k = record { kval = k; is_free = true }

-- `index ^ (1UL << k)`
abbrev pub buddy_of : ℕ → ℕ → ℕ
buddy_of i k = if (i / 2 ^ k) % 2 == 0 then i + 2 ^ k else i - 2 ^ k

-- A block is taken out of its ring.
abbrev pub unlink : ℕ → List ℕ → List ℕ
unlink i [] = []
unlink i (j ∷ js) = if j == i then js else j ∷ unlink i js

-- a round of the loop of `insert`, on a buddy that is free
abbrev pub take_buddy : ℕ → ℕ → PageAllocator → PageAllocator
take_buddy b k s = record s {
  avail_list = update s.avail_list k (unlink b (s.avail_list k));
  block_map = update s.block_map b (reserved (s.block_map b).kval);
}

-- the end of `insert`
abbrev pub put_block : ℕ → ℕ → PageAllocator → PageAllocator
put_block i k s = record s {
  avail_list = update s.avail_list k (i ∷ s.avail_list k);
  block_map = update s.block_map i (free_block k);
}

-- `blockMap[b].tag == FREE && blockMap[b].kval == k`
abbrev pub is_mate : ℕ → ℕ → PageAllocator → Bool
is_mate b k s = (s.block_map b).is_free && (s.block_map b).kval == k

-- The loop of `insert`, with so many sizes above `k`.
pub insert_loop : ℕ → ℕ → ℕ → PageAllocator → PageAllocator
insert_loop zero i k s = put_block i k s
insert_loop (suc n) i k s =
    let b = buddy_of i k in
    let merged = insert_loop n (if ltb b i then b else i) (suc k) (take_buddy b k s) in
    if is_mate b k s then merged else put_block i k s

-- `insert(index, k)`
pub insert : ℕ → ℕ → PageAllocator → PageAllocator
insert i k s =
    insert_loop (s.max_k_val - k) i k
      (record s { free_block_count = add64 s.free_block_count (2 ^ k) })

-- The loop of the constructor over the pages of a region from `location` on, on fuel.
pub fill_loop : ℕ → ℕ → ℕ → PageAllocator → Run PageAllocator
fill_loop zero location stop s = out_of_fuel
fill_loop (suc n) location stop s =
    let t = insert (location / s.block_size) 0 s in
    let rest =
      fill_loop n (add64 location s.block_size) stop
        (record t { free_block_count = add64 t.free_block_count 1 }) in
    if leb (add64 location s.block_size) stop then rest else ok s

-- `location` at the start of that loop: the start of the region, rounded up
abbrev pub first_page : ℕ → ℕ → ℕ
first_page location block_size =
    let l = sub64 (add64 location block_size) 1 in sub64 l (l % block_size)

abbrev pub is_available : Region → Bool
is_available r = rank r.type == rank available

-- the loop of the constructor over the regions of the map
pub fill_map : ℕ → Map → PageAllocator → Run PageAllocator
fill_map fuel [] s = ok s
fill_map fuel (r ∷ m) s =
    if is_available r
    then (do
      s' ← fill_loop fuel (first_page r.location s.block_size) (end_of r) s
      fill_map fuel m s')
    else fill_map fuel m s

-- `mapSize(map, blockSize)`: the walk down the map has no end where no region is available.
pub last_available : Map → Option Region
last_available [] = none
last_available (r ∷ m) = elim (last_available m) [
  | some x ↦ some x
  | none ↦ if is_available r then some r else none
]

-- `sizeof(PageAllocator::Block)`
abbrev pub sizeof_block : ℕ
sizeof_block = 32

abbrev pub map_size : Map → ℕ → Run ℕ
map_size m block_size = need (last_available m) >>= λ r.
    ok (2 ^ llog2 (((sizeof_block * end_of r) % word) / block_size))

-- The state behind the first two loops of the constructor.
abbrev pub empty_allocator : ℕ → ℕ → PageAllocator
empty_allocator map_size block_size = record {
  avail_list = λ k. [];
  block_map = λ i. reserved 0;
  max_k_val = llog2 (map_size / sizeof_block);
  block_size = block_size;
  offset = 0;
  free_block_count = 0;
}

-- the constructor, on fuel for each region
pub new_allocator : ℕ → Map → ℕ → Run PageAllocator
new_allocator fuel m block_size =
    map_size m block_size >>= λ n. fill_map fuel m (empty_allocator n block_size)

-- the last block of a list, and the list without it
abbrev pub last_from : ℕ → List ℕ → ℕ
last_from i [] = i
last_from i (j ∷ js) = last_from j js

abbrev pub front_from : ℕ → List ℕ → List ℕ
front_from i [] = []
front_from i (j ∷ js) = i ∷ front_from j js

-- The inner loop of `reserve`: a block of size `k + n` is halved `n` times, and each time the upper
-- half becomes the only block of its list.
unfoldable pub split_loop : ℕ → ℕ → ℕ → PageAllocator → PageAllocator
split_loop zero b k s = s
split_loop (suc n) b k s = split_loop n b k (record s {
  avail_list = update s.avail_list (k + n) ((b + 2 ^ (k + n)) ∷ []);
  block_map =
      update (update s.block_map (b + 2 ^ (k + n)) (free_block (k + n))) b
        (record (s.block_map b) { kval = k + n });
})

-- a round of the outer loop of `reserve` on the list of size `k + n`
abbrev pub take_from : ℕ → ℕ → List ℕ → PageAllocator → Option (ℕ × PageAllocator)
take_from n k [] s = none
take_from n k (i ∷ is) s =
    let b = last_from i is in
    some (
      b,
      split_loop n b k (record s {
        avail_list = update s.avail_list (k + n) (front_from i is);
        block_map = update s.block_map b (record (s.block_map b) { is_free = false });
      }),
    )

abbrev pub or_next :
    Option (ℕ × PageAllocator) → Option (ℕ × PageAllocator) → Option (ℕ × PageAllocator)
or_next none r = r
or_next (some x) r = some x

-- The outer loop of `reserve`, with so many lists left from `k + n` on.
unfoldable pub reserve_loop : ℕ → ℕ → ℕ → PageAllocator → Option (ℕ × PageAllocator)
reserve_loop zero n k s = none
reserve_loop (suc m) n k s =
    or_next (take_from n k (s.avail_list (k + n)) s) (reserve_loop m (n + 1) k s)

-- The block of size `k` that `reserve` finds.
abbrev pub reserve_block : ℕ → PageAllocator → Option (ℕ × PageAllocator)
reserve_block k s = reserve_loop ((s.max_k_val + 1) - k) 0 k s

-- the size of the block that `reserve(size)` looks for
abbrev pub size_class : ℕ → ℕ → ℕ
size_class size block_size = llog2 (sub64 size 1 / block_size + 1)

abbrev pub address_of : ℕ → PageAllocator → ℕ
address_of i s = (s.offset + i * s.block_size) % word

abbrev pub hand_out : ℕ → PageAllocator → Option (ℕ × PageAllocator) → ℕ × PageAllocator
hand_out k s none = (nomem, s)
hand_out k s (some (b, s')) =
    (address_of b s', record s' { free_block_count = sub64 s'.free_block_count (2 ^ k) })

-- `reserve(size)`
unfoldable pub reserve : ℕ → PageAllocator → ℕ × PageAllocator
reserve size s = let k = size_class size s.block_size in hand_out k s (reserve_block k s)

-- `free(location)`
pub free : ℕ → PageAllocator → ℕ × PageAllocator
free location s =
    let i = sub64 location s.offset / s.block_size in
    let k = (s.block_map i).kval in ((2 ^ k * s.block_size) % word, insert i k s)
