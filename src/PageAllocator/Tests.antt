-- ===== src/PageAllocator/Tests.antt =====
-- Runs of src/memory/pageallocator.cpp on a memory of eight pages, of which four are available.
use mathlib.Core.Path.{subst}
use cros_kernel.Base.{
  ℕ, ◌+◌, ◌*◌, ◌%◌, ◌^◌, ◌≤◌, ◌<◌, ◌≡◌, ◌≢◌, refl, sym, ◌∙◌, ap, ◌⊎◌, none, some, [], ◌∷◌, arith,
  Run, ok, fault, out_of_fuel,
}
use cros_kernel.MemoryMap.{word}
use cros_kernel.PageAllocator.{
  PageAllocator, llog2, bit_length, insert, insert_loop, fill_loop, empty_allocator, reserve_block,
  reserve_loop, split_loop, reserve, free, size_class, nomem,
}
use cros_kernel.PageAllocator.Log.{llog2_lem}
use cros_kernel.PageAllocator.Pages.{hit, free_blocks}
use cros_kernel.PageAllocator.Sound.{Sound}
use cros_kernel.PageAllocator.Insert.{insert-Sound}
use cros_kernel.PageAllocator.Reserve.{Reserved, reserve_block-Reserved}
use cros_kernel.PageAllocator.Free.{IsAddressed, free-reserve}
use cros_kernel.PageAllocator.Build.{Filled, fill_loop-Filled}

abbrev no_pages : PageAllocator
no_pages = record (empty_allocator 256 4096) { max_k_val = 3 }

no_pages-Sound : Sound no_pages
no_pages-Sound = record { marked = λ i k h. refl; once = λ p. omega arith; aligned = λ k h. tt }

abbrev result : Run PageAllocator → PageAllocator
result (ok s) = s
result fault = no_pages
result out_of_fuel = no_pages

-- The pages from 1 to 4 are available.
abbrev memory : PageAllocator
memory = result (fill_loop 5 4096 20480 no_pages)

memory-lists : (memory.avail_list 0 ≡ 4 ∷ 1 ∷ []) × (memory.avail_list 1 ≡ 2 ∷ [])
unfolding fill_loop insert insert_loop
memory-lists = (refl, refl)

-- The pages are counted twice.
memory-count : memory.free_block_count ≡ 8
unfolding fill_loop insert insert_loop
memory-count = refl

fill_loop-Filled_example :
    (s' : PageAllocator) × (fill_loop 5 4096 20480 no_pages ≡ ok s') × Filled 1 5 no_pages s'
fill_loop-Filled_example =
    fill_loop-Filled 4 1 4096 20480 no_pages refl (omega arith) (omega arith) (omega arith)
      no_pages-Sound (λ p h. refl) (omega arith) (omega arith)

memory-Filled : Filled 1 5 no_pages memory
memory-Filled =
    let (s, e, f) =
      fill_loop-Filled 4 1 4096 20480 no_pages refl (omega arith) (omega arith) (omega arith)
        no_pages-Sound (λ p h. refl) (omega arith) (omega arith) in
    subst (Filled 1 5 no_pages) (sym (ap result e)) f

memory-IsAddressed : IsAddressed memory
unfolding fill_loop insert insert_loop
memory-IsAddressed = record {
  size_positive = omega arith;
  below = λ p h. let e = memory-Filled.pages p in let q : p < 5 = ground (arith, e) in omega arith;
}

reserve_block-Reserved_example :
    ((reserve_block 1 memory ≡ none)
      × ((j : ℕ) → 1 ≤ j → j < memory.max_k_val + 1 → memory.avail_list j ≡ []))
    ⊎ ((b : ℕ) × (s' : PageAllocator) × (reserve_block 1 memory ≡ some (b, s'))
        × Reserved 1 b memory s')
reserve_block-Reserved_example = reserve_block-Reserved 1 memory memory-Filled.sound

-- a block of one page is cut off a larger one
memory-reserve : (reserve 8192 memory).0 ≡ 8192
unfolding reserve reserve_loop split_loop fill_loop insert insert_loop bit_length
memory-reserve = refl

memory-found : (reserve 8192 memory).0 ≢ nomem
memory-found e = let f : 8192 ≡ nomem = sym memory-reserve ∙ e in omega arith

free-reserve_example :
    Sound (free (reserve 8192 memory).0 (reserve 8192 memory).1).1
    × ((p : ℕ)
        → free_blocks (free (reserve 8192 memory).0 (reserve 8192 memory).1).1 p
          ≡ free_blocks memory p)
    × ((free (reserve 8192 memory).0 (reserve 8192 memory).1).0
        ≡ (2 ^ size_class 8192 memory.block_size * memory.block_size) % word)
free-reserve_example =
    free-reserve 8192 memory (reserve 8192 memory).0 (reserve 8192 memory).1 memory-Filled.sound
      memory-IsAddressed refl memory-found

insert-Sound_example :
    Sound (insert 4 2 no_pages)
    × ((p : ℕ) → free_blocks (insert 4 2 no_pages) p ≡ free_blocks no_pages p + hit 2 4 p)
insert-Sound_example =
    insert-Sound 4 2 no_pages no_pages-Sound (omega arith) (1, refl) (λ p. ground arith)

llog2_lem_example : (5 ≤ 2 ^ llog2 5) × ((j : ℕ) → 5 ≤ 2 ^ j → llog2 5 ≤ j)
llog2_lem_example = llog2_lem 5 (omega arith)
