-- ===== src/PageTables/Spaces.antt =====
-- `initializeTopTable` of src/memory/aarch64/mmu.cpp, and the address spaces and `unmap_region` of
-- src/memory/mmap.cpp.
use cros_kernel.Base.{
  ℕ, zero, suc, ◌+◌, ltb, ◌==◌, if◌then◌else◌, Option, none, some, Run, ok, out_of_fuel, ◌>>=◌,
}
use cros_kernel.MemoryMap.{add64}
use cros_kernel.PageAllocator.{reserve, nomem}
use cros_kernel.PageTables.{
  Mmu, cleared, physical_address, page_descriptor, table_descriptor, set_entry, set_page_entry,
  clear_entry, get_page_frame,
}

-- `scratchAddr`
abbrev pub scratch : ℕ
scratch = 18446744072635805696

-- the first `n` entries of a table, from the entry `i` on, become 0
unfoldable pub zero_entries : ℕ → ℕ → ℕ → Mmu → Mmu
zero_entries zero i table m = m
zero_entries (suc n) i table m = zero_entries n (i + 1) table (set_entry table i cleared m)

-- `initializeTopTable(frame)`: the page at `scratch` leads to the new table for a while.
unfoldable pub initialize_top_table : ℕ → Mmu → Run Mmu
initialize_top_table frame m =
    let table = physical_address (page_descriptor frame 1) in
    get_page_frame scratch m >>= λ buffer. set_page_entry 0 scratch frame 1 m >>= λ m1.
    set_page_entry 0 scratch buffer 1
      (set_entry table 511 (table_descriptor frame) (zero_entries 511 0 table m1))

-- `class AddressSpace`, with the references of `HasRefcount` left out
pub record AddressSpace : Type 0 where
  pub top_level_table : ℕ
  pub id : ℕ

-- `createAddressSpace()` on the counter of ids, which starts at 1; `none` is the null pointer
unfoldable pub create_address_space : ℕ → Mmu → Run (Option AddressSpace × ℕ × Mmu)
create_address_space id_counter m =
    let (frame, pages) = reserve 4096 m.pages in
    let made = initialize_top_table frame (record m { pages = pages }) >>= λ m'.
    ok (some (record { top_level_table = frame; id = id_counter }), id_counter + 1, m') in
    if frame == nomem then ok (none, id_counter, record m { pages = pages }) else made

-- the loop of `unmap_region`, on fuel
unfoldable pub unmap_loop : ℕ → ℕ → ℕ → ℕ → Mmu → Run Mmu
unmap_loop zero p addr size m = out_of_fuel
unmap_loop (suc fuel) p addr size m =
    let rest = unmap_loop fuel (add64 p 4096) addr size in
    if ltb p size then (clear_entry 0 (add64 addr p) m >>= rest) else ok m

-- `unmap_region(addr, size)`
abbrev pub unmap_region : ℕ → ℕ → ℕ → Mmu → Run Mmu
unmap_region fuel addr size m = unmap_loop fuel 0 addr size m
