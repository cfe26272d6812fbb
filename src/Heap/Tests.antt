-- ===== src/Heap/Tests.antt =====
-- Runs of src/memory/heap.cpp on a heap of twenty words from the word 100 on.
use cros_kernel.Base.{ℕ, ◌≡◌, refl, inl, arith, Run, ok, fault, out_of_fuel}
use cros_kernel.Heap.{
  HeapState, init_heap, write_block, link_previous, split_blk, take_exact, fit_loop, find_fit,
  skip_used, rebuild_loop, rebuild_list, absorb, merge, rfree,
}
use cros_kernel.Heap.Blocks.{IsBlock, Splits, Apart, split_blk-Splits, init_heap-IsBlock}

abbrev no_words : ℕ → ℕ
no_words i = 0

abbrev fresh : HeapState
fresh = init_heap no_words 100 160

fresh-IsBlock : IsBlock fresh.words 100 15 0
fresh-IsBlock = init_heap-IsBlock no_words 100 160 (omega arith) (omega arith) (omega arith)

split_blk-Splits_example :
    ((split_blk 16 100 fresh).0 ≡ 103)
    × Splits fresh.words (split_blk 16 100 fresh).1.words 100 2 8 (fresh.words 101) 0
unfolding init_heap Apart
split_blk-Splits_example =
    split_blk-Splits 16 100 15 fresh fresh-IsBlock (omega arith) (omega arith) (inl (omega arith))

abbrev found : Run (ℕ × HeapState) → ℕ × HeapState
found (ok r) = r
found fault = (1, fresh)
found out_of_fuel = (2, fresh)

abbrev first : ℕ × HeapState
first = found (find_fit 1 16 fresh)

-- The first request splits the block.
first-split : (first.0 ≡ 103) × (first.1.search_current ≡ 107) × (first.1.words 107 ≡ 8)
unfolding fit_loop init_heap split_blk write_block link_previous
first-split = (refl, refl, refl)

-- A block of just the size that is asked for is not found: sizes in bytes are compared with the size
-- and five more.
exact_is_missed : (found (find_fit 1 120 fresh)).0 ≡ 0
unfolding fit_loop init_heap split_blk write_block link_previous take_exact
exact_is_missed = refl

abbrev freed : Run HeapState → HeapState
freed (ok h) = h
freed fault = fresh
freed out_of_fuel = fresh

-- Giving the words back makes the one block again.
freed_merges :
    ((freed (rfree 5 103 first.1)).words 100 ≡ 15) × ((freed (rfree 5 103 first.1)).words 118 ≡ 15)
unfolding fit_loop init_heap split_blk write_block link_previous rfree merge rebuild_list
    rebuild_loop skip_used absorb
freed_merges = (refl, refl)
