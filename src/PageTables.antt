-- ===== src/PageTables.antt =====
-- src/memory/aarch64/mmu.cpp: the translation tables. The code reaches the tables through windows of
-- virtual memory, as the last entry of a top table leads to the table itself; an entry of a window is
-- found here by the walk that the processor makes for it. A Run faults where the kernel stops with a
-- panic.
pub mod Walk
pub mod Spaces
mod Tests
use cros_kernel.Base.{
  ℕ, zero, suc, ◌+◌, ◌-◌, ◌*◌, ◌/◌, ◌%◌, ◌^◌, Bool, true, false, not, ◌&&◌, ltb, leb, ◌==◌,
  if◌then◌else◌, Option, none, some, update, Run, ok, fault, ◌>>=◌, need,
}
use cros_kernel.PageAllocator.{PageAllocator, reserve, nomem}

-- `class PageTableEntry`, the bits that are ever set
pub record PageTableEntry : Type 0 where
  pub present : Bool
  pub type : Bool
  pub ap_el0 : Bool
  pub ap_read_only : Bool
  pub af : Bool
  pub xn : Bool
  pub output_address : ℕ

-- `clear`
abbrev pub cleared : PageTableEntry
cleared = record {
  present = false;
  type = false;
  ap_el0 = false;
  ap_read_only = false;
  af = false;
  xn = false;
  output_address = 0;
}

-- the two methods `physicalAddress`
abbrev pub with_address : ℕ → PageTableEntry → PageTableEntry
with_address addr e = record e { output_address = addr / 2 ^ 12 % 2 ^ 40 }

abbrev pub physical_address : PageTableEntry → ℕ
physical_address e = e.output_address * 2 ^ 12

-- `makeTableDescriptor`
abbrev pub table_descriptor : ℕ → PageTableEntry
table_descriptor next =
    with_address next (record cleared { present = true; type = true; af = true })

-- `permissions & bit`, for a power of two
abbrev pub has_flag : ℕ → ℕ → Bool
has_flag permissions bit = permissions / bit % 2 == 1

-- `makeBlockDescriptor`
abbrev pub block_descriptor : ℕ → ℕ → PageTableEntry
block_descriptor frame permissions = with_address frame (record cleared {
  present = true;
  ap_el0 = has_flag permissions 2;
  ap_read_only = not (has_flag permissions 1);
  xn = not (has_flag permissions 4);
  af = true;
})

-- `makePageDescriptor`
abbrev pub page_descriptor : ℕ → ℕ → PageTableEntry
page_descriptor frame permissions = record (block_descriptor frame permissions) { type = true }

-- the entries of the tables at physical addresses, the top tables of the kernel and of the address space
-- that is loaded, and the allocator
pub record Mmu : Type 0 where
  pub entries : ℕ → ℕ → PageTableEntry
  pub kernel_top : ℕ
  pub user_top : ℕ
  pub pages : PageAllocator

-- `__high_mem`, where the addresses of the kernel start
abbrev pub high_mem : ℕ
high_mem = 2 ^ 64 - 2 ^ 39

-- an entry that the walk goes on from
abbrev pub leads_on : PageTableEntry → Bool
leads_on e = e.present && e.type

-- The table in which `tables[i][index]` lies, where the walk reaches it.
pub table_of : Mmu → ℕ → ℕ → ℕ → Option ℕ
table_of m top zero index = some top
table_of m top (suc i) index = elim (table_of m top i (index / 512)) [
  | none ↦ none
  | some f ↦
      let e = m.entries f (index / 512 % 512) in
      if leads_on e then some (physical_address e) else none
]

-- a read of `tables[i][index]`, where a translation fault is a panic
pub read_entry : Mmu → ℕ → ℕ → ℕ → Run PageTableEntry
read_entry m top i index = need (table_of m top i index) >>= λ f. ok (m.entries f (index % 512))

abbrev pub set_entry : ℕ → ℕ → PageTableEntry → Mmu → Mmu
set_entry f j e m = record m { entries = update m.entries f (update (m.entries f) j e) }

-- a write of `tables[i][index]` where the walk reaches it
pub write_present : ℕ → ℕ → ℕ → PageTableEntry → Mmu → Run Mmu
write_present top i index e m =
    need (table_of m top i index) >>= λ f. ok (set_entry f (index % 512) e m)

-- how many of the entries on the way to `tables[i][index]` have to be filled in, from the first that is
-- missing on: `targetLevel` less the start of the loop of `fillTranslationTable`
pub missing : Mmu → ℕ → ℕ → ℕ → ℕ
missing m top zero index = 0
missing m top (suc i) index =
    let above = missing m top i (index / 512) in
    elim (table_of m top (suc i) index) [ none ↦ above + 1 | some f ↦ 0 ]

-- the loop of `fillTranslationTable` on the `n` entries left. The new tables are not cleared.
pub fill_translation_table : ℕ → ℕ → ℕ → ℕ → Mmu → Run Mmu
fill_translation_table zero top target index m = ok m
fill_translation_table (suc n) top target index m =
    let (frame, pages) = reserve 4096 m.pages in
    let rest = fill_translation_table n top target index in
    if frame == nomem
    then fault
    else (write_present top (target - suc n) (index / 512 ^ suc n) (table_descriptor frame)
          (record m { pages = pages })
        >>= rest)

-- a write of `tables[i][index]`: a translation fault is handled, and the write done again
pub write_entry : ℕ → ℕ → ℕ → PageTableEntry → Mmu → Run Mmu
write_entry top i index e m =
    fill_translation_table (missing m top i index) top i index m >>= write_present top i index e

-- `entry` of `setPageEntry`, `setTableEntry` and `clearEntry`: the top table and the index. The pointer
-- is not set for an address that is neither the user's nor the kernel's.
abbrev pub entry_index : ℕ → ℕ → Mmu → Run (ℕ × ℕ)
entry_index level page m =
    if leb high_mem page
    then ok (m.kernel_top, (page - high_mem) / 2 ^ (12 + 9 * level))
    else if ltb page (2 ^ 39)
    then ok (m.user_top, page / 2 ^ (12 + 9 * level))
    else fault

-- `setPageEntry(level, page, frame, flags)`
pub set_page_entry : ℕ → ℕ → ℕ → ℕ → Mmu → Run Mmu
set_page_entry level page frame flags m =
    let e = if level == 0 then page_descriptor frame flags else block_descriptor frame flags in
    if ltb 2 level
    then ok m
    else (entry_index level page m >>= λ (top, index). write_entry top (2 - level) index e m)

-- `setTableEntry(level, page, table)`
pub set_table_entry : ℕ → ℕ → ℕ → Mmu → Run Mmu
set_table_entry level page table m =
    if level == 0
    then ok m
    else (entry_index level page m >>= λ (top, index).
        write_entry top (2 - level) index (table_descriptor table) m)

-- `clearEntry(level, page)`
pub clear_entry : ℕ → ℕ → Mmu → Run Mmu
clear_entry level page m =
    entry_index level page m >>= λ (top, index). write_entry top (2 - level) index cleared m

-- `getPageFrame(page)`: the kernel's table is taken above `__high_mem` only.
pub get_page_frame : ℕ → Mmu → Run ℕ
get_page_frame page m =
    let top = if ltb high_mem page then m.kernel_top else m.user_top in
    let linear = page % 2 ^ 39 in
    read_entry m top 0 (linear / 2 ^ 30) >>= λ e0.
    let deeper = read_entry m top 1 (linear / 2 ^ 21) >>= λ e1.
    let page_entry = read_entry m top 2 (linear / 2 ^ 12) >>= λ e.
    ok (if e.present then physical_address e else 0) in
    if not e1.present then ok 0 else if not e1.type then ok (physical_address e1) else page_entry in
    if not e0.present then ok 0 else if not e0.type then ok (physical_address e0) else deeper
