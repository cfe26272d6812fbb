-- ===== src/Heap.antt =====
-- src/memory/heap.h and src/memory/heap.cpp: the blocks of the kernel's heap. Addresses count words of
-- eight bytes, and a pointer in memory is the address that it leads to.
pub mod Blocks
mod Tests
use cros_kernel.Base.{
  ℕ, zero, suc, ◌+◌, ◌-◌, ◌*◌, ◌/◌, ◌%◌, ◌^◌, Bool, not, ◌&&◌, ltb, leb, ◌==◌, if◌then◌else◌,
  update, Run, ok, out_of_fuel, ◌>>=◌,
}
use cros_kernel.MemoryMap.{word, add64, sub64}

-- the variables of heap.cpp and the words of memory
pub record HeapState : Type 0 where
  pub words : ℕ → ℕ
  pub heap : ℕ
  pub linked_list_start : ℕ
  pub search_start : ℕ
  pub search_previous : ℕ
  pub search_current : ℕ
  pub heap_end : ℕ

-- `OVERHEAD`
abbrev pub overhead : ℕ
overhead = 5

-- `p + i` and `p - i` for pointers to words, whose addresses in bytes have 64 bits
abbrev pub forward : ℕ → ℕ → ℕ
forward p i = (p + i) % 2 ^ 61

abbrev pub backward : ℕ → ℕ → ℕ
backward p i = (p + 2 ^ 61 - i % 2 ^ 61) % 2 ^ 61

-- `ALIGN(size)`
abbrev pub align : ℕ → ℕ
align size = add64 size 7 / 8 * 8

-- `(unsigned long)(int)n`
abbrev pub extend_int : ℕ → ℕ
extend_int n = let k = n % 2 ^ 32 in if ltb k (2 ^ 31) then k else k + word - 2 ^ 32

-- `init_heap(heap_ptr, mem_size)`
pub init_heap : (ℕ → ℕ) → ℕ → ℕ → HeapState
init_heap w heap_ptr mem_size =
    let n = extend_int (sub64 mem_size 40) / 8 in
    let w1 = update (update (update w heap_ptr n) (forward heap_ptr 1) 0) (forward heap_ptr 2) 0 in
    let w2 = update w1 (backward (forward heap_ptr (mem_size / 8)) 2) (w1 heap_ptr) in
    record {
      words = update w2 (backward (forward heap_ptr (mem_size / 8)) 1) (w2 (forward heap_ptr 1));
      heap = heap_ptr;
      linked_list_start = heap_ptr;
      search_start = heap_ptr;
      search_previous = 0;
      search_current = heap_ptr;
      heap_end = forward heap_ptr (mem_size / 8);
    }

-- The header and the footer of a block: its size in words, the next one of the list, and its flag.
pub write_block : ℕ → ℕ → ℕ → ℕ → (ℕ → ℕ) → (ℕ → ℕ)
write_block blk n next flag w =
    let header = update (update (update w blk n) (forward blk 1) next) (forward blk 2) flag in
    update (update header (forward blk (n + 3)) n) (forward blk (n + 4)) flag

-- `search_previous[1] = blk`, where it has a next block already
pub link_previous : ℕ → ℕ → (ℕ → ℕ) → (ℕ → ℕ)
link_previous previous blk w =
    if not (previous == 0) && not (w (forward previous 1) == 0)
    then update w (forward previous 1) blk
    else w

-- `split_blk(size, blk)`
pub split_blk : ℕ → ℕ → HeapState → ℕ × HeapState
split_blk size blk h =
    let n = size / 8 in
    let split = forward blk (n + overhead) in
    let left = sub64 (sub64 (h.words blk) n) overhead in
    let next = update h.words split left (forward blk 1) in
    let w = link_previous h.search_previous split (write_block split left next 0 h.words) in
    (
      forward blk 3,
      record h {
        words = write_block blk n 0 1 w;
        linked_list_start = if blk == h.linked_list_start then split else h.linked_list_start;
        search_previous = if blk == h.search_previous then split else h.search_previous;
        search_current = if blk == h.search_current then split else h.search_current;
      },
    )

-- `find_fit` on a block that it takes for one of the size
pub take_exact : HeapState → ℕ × HeapState
take_exact h =
    let blk = h.search_current in
    let linked = not (h.search_previous == 0) && not (blk == h.search_start) in
    let w1 =
      if linked
      then update h.words (forward h.search_previous 1) (h.words (forward blk 1))
      else h.words in
    let w2 = update w1 (forward blk 2) 1 in
    (
      forward blk 3,
      record h {
        words = update w2 (forward blk (w2 blk + 2)) 1;
        search_current = w1 (forward blk 1);
      },
    )

-- the step to the next block of the list, or from its end to its start
abbrev pub next_block : HeapState → HeapState
next_block h =
    let next = h.words (forward h.search_current 1) in
    record h {
      search_previous = h.search_current;
      search_current = if next == 0 then h.linked_list_start else next;
    }

-- the loop of `find_fit`, on fuel; the null pointer where no block fits
pub fit_loop : ℕ → ℕ → HeapState → Run (ℕ × HeapState)
fit_loop zero size h = out_of_fuel
fit_loop (suc fuel) size h =
    let bytes = h.words h.search_current * 8 % word in
    let h' = next_block h in
    let rest = fit_loop fuel size h' in
    let more =
      not (h'.search_previous == 0)
      && not (h'.search_start == h'.search_current)
      && ltb h'.search_current h'.heap_end in
    if bytes == add64 size overhead
    then ok (take_exact h)
    else if ltb (align (add64 size 96)) bytes
    then ok (split_blk size h.search_current h)
    else if more
    then rest
    else ok (0, h')

-- `find_fit(size)`
abbrev pub find_fit : ℕ → ℕ → HeapState → Run (ℕ × HeapState)
find_fit fuel size h = fit_loop fuel size (record h { search_start = h.search_current })

-- the inner loop of `rebuild_list`, on fuel
pub skip_used : ℕ → ℕ → (ℕ → ℕ) → Run ℕ
skip_used zero cur w = out_of_fuel
skip_used (suc fuel) cur w =
    let rest = skip_used fuel (forward cur (w cur + overhead)) w in
    if w (forward cur 2) == 0 then ok cur else rest

-- the outer loop of `rebuild_list`, on fuel, with the last block that was linked
pub rebuild_loop : ℕ → ℕ → ℕ → ℕ → HeapState → Run (ℕ × HeapState)
rebuild_loop zero current cur prev h = out_of_fuel
rebuild_loop (suc fuel) current cur prev h =
    let rest = rebuild_loop fuel current in
    let round = skip_used fuel cur h.words >>= λ c.
    let w = update h.words (forward prev 1) c in
    let h' = record h { words = w } in
    let behind = rest (forward c (w c + overhead)) c in
    if c == h.linked_list_start
    then ok (prev, h)
    else behind
        (if c == current then record h' { search_previous = prev; search_current = c } else h') in
    if ltb cur h.heap_end then round else ok (prev, h)

-- `rebuild_list(current)`
pub rebuild_list : ℕ → ℕ → HeapState → Run HeapState
rebuild_list fuel current h =
    rebuild_loop fuel current h.heap h.linked_list_start h >>= λ (prev, h').
    let start = h'.linked_list_start in
    let next = h'.words (forward start 1) in
    let h'' =
      if current == start && not (next == 0)
      then record h' { search_previous = start; search_current = next }
      else h' in
    ok (record h'' { words = update h''.words (forward prev 1) 0 })

-- `from` becomes part of the block `into`, which comes to have the size `n`.
pub absorb : ℕ → ℕ → ℕ → HeapState → HeapState
absorb from into n h =
    let w = update (update h.words into n) (forward from 1) 0 in
    record h {
      words = update w (forward into (w into + 3)) (w into);
      linked_list_start = if from == h.linked_list_start then into else h.linked_list_start;
      search_current = if from == h.search_current then into else h.search_current;
    }

-- `previous` and `next` of `merge(current)`, null where there is no free block
abbrev pub free_before : ℕ → HeapState → ℕ
free_before current h =
    if not (current == h.heap) && h.words (backward current 1) == 0
    then backward current (h.words (backward current 2) + overhead)
    else 0

abbrev pub free_behind : ℕ → HeapState → ℕ
free_behind current h =
    let next = forward current (h.words current + overhead) in
    if h.words (forward next 2) == 0 && ltb (forward next 2) h.heap_end then next else 0

-- the size of two blocks in one
abbrev pub joined : ℕ → ℕ → HeapState → ℕ
joined a b h = add64 (add64 (h.words a) (h.words b)) overhead

-- `merge(current)`
pub merge : ℕ → ℕ → HeapState → Run HeapState
merge fuel current h =
    let previous = free_before current h in
    let next = free_behind current h in
    let h1 = if previous == 0 then h else absorb current previous (joined previous current h) h in
    let cur = if previous == 0 then current else previous in
    let h2 = if next == 0 then h1 else absorb next cur (joined cur next h1) h1 in
    if previous == 0 && next == 0 then ok h2 else rebuild_list fuel cur h2

-- `rfree(ptr)`
pub rfree : ℕ → ℕ → HeapState → Run HeapState
rfree fuel ptr h =
    let blk = backward ptr 3 in
    let w1 = update h.words (forward blk 2) 0 in
    let w2 = update w1 (forward blk (w1 blk + 4)) 0 in
    let previous = if h.search_previous == 0 then h.linked_list_start else h.search_previous in
    let w3 =
      if h.search_previous == 0 then w2 else update w2 (forward blk 1) (w2 (forward previous 1)) in
    merge fuel blk (record h {
      words = update w3 (forward previous 1) blk;
      search_previous = previous;
      search_current = blk;
    })
