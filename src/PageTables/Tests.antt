-- ===== src/PageTables/Tests.antt =====
-- Runs of src/memory/aarch64/mmu.cpp and src/memory/mmap.cpp on an address space of three tables, and on
-- one with none but the top table.
use mathlib.Core.List.{[], ◌∷◌}
use cros_kernel.Base.{ℕ, ◌≡◌, refl, ◌&&◌, ◌==◌, if◌then◌else◌, inl, arith, Run, ok, ◌>>=◌, Option}
use cros_kernel.PageAllocator.{empty_allocator, bit_length, reserve, reserve_loop, split_loop}
use cros_kernel.PageTables.{
  PageTableEntry, Mmu, cleared, table_descriptor, page_descriptor, table_of, read_entry,
  write_entry, write_present, missing, fill_translation_table, set_page_entry, clear_entry,
  get_page_frame,
}
use cros_kernel.PageTables.Spaces.{
  AddressSpace, initialize_top_table, zero_entries, create_address_space, unmap_loop, unmap_region,
}
use cros_kernel.PageTables.Walk.{Reaches, get_page_frame-set_page_entry}

abbrev mmu : Mmu
mmu = record {
  entries = λ f j.
      if f == 4096 && j == 0
      then table_descriptor 8192
      else if f == 8192 && j == 0
      then table_descriptor 12288
      else cleared;
  kernel_top = 16384;
  user_top = 4096;
  pages = empty_allocator 256 4096;
}

mmu-Reaches : Reaches mmu 4096 5 12288
unfolding table_of
mmu-Reaches = record {
  middle = 8192;
  to_middle = refl;
  to_table = refl;
  not_top = λ e. omega arith;
  not_middle = λ e. omega arith;
}

get_page_frame-set_page_entry_example :
    (m' : Mmu) × (set_page_entry 0 20480 28672 7 mmu ≡ ok m') × (get_page_frame 20480 m' ≡ ok 28672)
get_page_frame-set_page_entry_example =
    get_page_frame-set_page_entry 20480 28672 7 12288 mmu (inl (omega arith)) refl (omega arith)
      mmu-Reaches

-- Clearing the entry takes the frame back.
cleared_page :
    (set_page_entry 0 20480 28672 7 mmu >>= clear_entry 0 20480 >>= get_page_frame 20480) ≡ ok 0
unfolding set_page_entry clear_entry get_page_frame read_entry write_entry write_present missing
    fill_translation_table table_of
cleared_page = refl

-- two free pages, the page 6 with what it had when it was given back
abbrev sparse : Mmu
sparse = record mmu {
  entries = λ f j. if f == 24576 && j == 6 then page_descriptor 4096 7 else cleared;
  pages = record (empty_allocator 256 4096) {
    max_k_val = 0;
    avail_list = λ k. if k == 0 then 5 ∷ 6 ∷ [] else [];
  };
}

-- The tables on the way are filled in, from the last page of the list on.
filled : (set_page_entry 0 20480 28672 7 sparse >>= get_page_frame 20480) ≡ ok 28672
unfolding set_page_entry get_page_frame read_entry write_entry write_present missing
    fill_translation_table table_of reserve reserve_loop split_loop bit_length
filled = refl

-- A table that is filled in keeps what was in its page: a page that nobody mapped has a frame.
stale_entry :
    (get_page_frame 12582912 sparse ≡ ok 0)
    × ((set_page_entry 0 20480 28672 7 sparse >>= get_page_frame 12582912) ≡ ok 24576)
unfolding set_page_entry get_page_frame read_entry write_entry write_present missing
    fill_translation_table table_of reserve reserve_loop split_loop bit_length
stale_entry = (refl, refl)

-- the tables of the kernel above the scratch page
abbrev kernel : Mmu
kernel = record sparse {
  entries = λ f j.
      if f == 16384 && j == 510
      then table_descriptor 20480
      else if f == 20480 && j == 511
      then table_descriptor 36864
      else page_descriptor 0 7;
}

abbrev made : Run (Option AddressSpace × ℕ × Mmu)
made = create_address_space 1 kernel

abbrev entry_of_made : ℕ → Run PageTableEntry
entry_of_made j = made >>= λ r. ok (r.2.entries 24576 j)

-- The new top table is empty but for its last entry, which leads to itself.
made-entries :
    (entry_of_made 0 ≡ ok cleared)
    × (entry_of_made 510 ≡ ok cleared)
    × (entry_of_made 511 ≡ ok (table_descriptor 24576))
unfolding set_page_entry get_page_frame read_entry write_entry write_present missing
    fill_translation_table table_of reserve reserve_loop split_loop bit_length initialize_top_table
    zero_entries create_address_space
made-entries = (refl, refl, refl)

-- `unmap_region` takes the frame of each page of the range.
unmapped :
    (set_page_entry 0 20480 28672 7 mmu >>= unmap_region 3 16384 8192 >>= get_page_frame 20480)
    ≡ ok 0
unfolding set_page_entry clear_entry get_page_frame read_entry write_entry write_present missing
    fill_translation_table table_of unmap_loop
unmapped = refl
