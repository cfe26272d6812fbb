-- ===== src/Loader.antt =====
-- src/loader/elf.h and src/loader/elf.cpp, with `map_region` of src/memory/mmap.cpp: an ELF file is
-- unpacked into the address space that is loaded. The address space, page tables and the bytes they lead
-- to, is an interface, `Machine`.
pub mod Sections
pub mod Mapping
mod Tests
use cros_kernel.Base.{
  ℕ, zero, suc, ◌+◌, ◌-◌, ◌*◌, ◌/◌, ◌%◌, ◌^◌, Bool, true, false, not, ◌&&◌, ltb, leb, ◌==◌,
  if◌then◌else◌, ℤ, pos, negsuc, Run, ok, out_of_fuel, ◌>>=◌,
}
use cros_kernel.Strings.{Memory}
use cros_kernel.Fat32.Bytes.{bytes_to_short, bytes_to_int, bytes_to_long}
use cros_kernel.MemoryMap.{add64, sub64}
use cros_kernel.PageAllocator.{PageAllocator, reserve, nomem}

-- the fields of `class ELFFileHeader` and `class ELFProgramHeader` that the code uses
pub record FileHeader : Type 0 where
  pub magic : ℕ
  pub entry : ℕ
  pub phoffset : ℕ
  pub phcount : ℕ

pub record ProgramHeader : Type 0 where
  pub type : ℕ
  pub offset : ℕ
  pub vaddr : ℕ
  pub filesize : ℕ
  pub memsize : ℕ

-- The headers as they lie in memory, little-endian.
abbrev pub file_header : Memory → ℕ → FileHeader
file_header mem file = record {
  magic = bytes_to_int mem file;
  entry = bytes_to_long mem (file + 24);
  phoffset = bytes_to_long mem (file + 32);
  phcount = bytes_to_short mem (file + 56);
}

abbrev pub program_header : Memory → ℕ → ProgramHeader
program_header mem a = record {
  type = bytes_to_int mem a;
  offset = bytes_to_long mem (a + 8);
  vaddr = bytes_to_long mem (a + 16);
  filesize = bytes_to_long mem (a + 32);
  memsize = bytes_to_long mem (a + 40);
}

-- `class ELF`, with what its pointer leads to. The headers are read once: the file is a buffer of the
-- kernel, which no segment is loaded over.
pub record Elf : Type 0 where
  pub file : ℕ
  pub header : FileHeader
  pub sections : ℕ → ProgramHeader
  pub section_index : ℕ

abbrev pub new_elf : Memory → ℕ → Elf
new_elf mem file = record {
  file = file;
  header = file_header mem file;
  sections = λ i. program_header mem (file + (file_header mem file).phoffset + i * 56);
  section_index = 0;
}

-- `isValid`
abbrev pub is_valid : Elf → Bool
is_valid elf = elf.header.magic == 1179403647 && ltb 0 elf.header.phcount

-- `currentSection`
abbrev pub current_section : Elf → ProgramHeader
current_section elf = elf.sections elf.section_index

-- `nextSection`
abbrev pub next_section : Elf → Bool × Elf
next_section elf =
    let next = elf.section_index + 1 in
    let i = if leb elf.header.phcount next then 0 else next in
    (ltb 0 i, record elf { section_index = i })

-- `page_size`, which is `getBlockSize(0)` too
abbrev pub page_size : ℕ
page_size = 4096

-- What the loader uses of the address space that is loaded. The tables take pages of the allocator. A
-- call may be a fault: `setPageEntry` panics where no page is left for a table, and has no entry for an
-- address between those of the user and those of the kernel.
pub record Machine (S : Type 0) : Type 0 where
  pub get_page_frame : ℕ → S → Run ℕ
  pub set_page_entry : ℕ → ℕ → ℕ → S × PageAllocator → Run (S × PageAllocator)
  pub byte : ℕ → S → Run ℕ
  pub set_byte : ℕ → ℕ → S → Run S

-- the address space and the allocator
pub record Space (S : Type 0) : Type 0 where
  pub space : S
  pub pages : PageAllocator

-- `PAGE_RW | PAGE_USER | PAGE_EXE`
abbrev pub image_flags : ℕ
image_flags = 7

-- an `unsigned long` passed as the `int size` of `memset`, whose loop does nothing where it is negative
abbrev pub int_size : ℕ → ℕ
int_size n = if ltb (n % 2 ^ 32) (2 ^ 31) then n % 2 ^ 32 else 0

-- `mapPtr` and `mapSize`, where `mapped` says whether the page of `dest` has a frame
abbrev pub map_place : Bool → ℕ → ℕ → ℕ × ℕ
map_place mapped dest size =
    let diff = dest % page_size in
    if mapped
    then (add64 dest (page_size - diff), sub64 size (page_size - diff))
    else (sub64 dest diff, add64 size diff)

module _ {S : Type 0} (t : Machine S) where
  -- the loop of `map_region`, on fuel
  pub map_loop : ℕ → ℕ → ℕ → ℕ → ℕ → ℕ → S × PageAllocator → Run (S × PageAllocator)
  map_loop zero p addr size frame flags s = out_of_fuel
  map_loop (suc fuel) p addr size frame flags s =
      let rest =
        t.set_page_entry (add64 addr p) (add64 frame p) flags s
        >>= map_loop fuel (add64 p page_size) addr size frame flags in
      if ltb p size then rest else ok s

  -- `map_region(addr, size, frame, flags)`
  abbrev pub map_region : ℕ → ℕ → ℕ → ℕ → ℕ → S × PageAllocator → Run (S × PageAllocator)
  map_region fuel addr size frame flags s = map_loop fuel 0 addr size frame flags s

  -- `memset(dest, size, 0)` and `memcpy(dest, src, count)` in the address space
  pub set_zero : ℕ → ℕ → S → Run S
  set_zero dest zero s = ok s
  set_zero dest (suc k) s = t.set_byte dest 0 s >>= set_zero (dest + 1) k

  pub copy_image : ℕ → ℕ → ℕ → S → Run S
  copy_image dest src zero s = ok s
  copy_image dest src (suc k) s =
      t.byte src s >>= λ b. t.set_byte dest b s >>= copy_image (dest + 1) (src + 1) k

  -- what a section of type LOAD needs behind its pages, which `frame` begins
  pub place_section : ℕ → ℕ → ℕ → ProgramHeader → S × PageAllocator → Run (Bool × Space S)
  place_section fuel file frame ph (space, pages) = t.get_page_frame ph.vaddr space >>= λ old.
      let (map_ptr, map_size) = map_place (not (old == 0)) ph.vaddr ph.memsize in
      map_region fuel map_ptr map_size frame image_flags (space, pages) >>= λ (space1, pages').
      set_zero ph.vaddr (int_size ph.memsize) space1 >>= λ space2.
      copy_image ph.vaddr (file + ph.offset) ph.filesize space2 >>= λ space3.
      ok (true, record { space = space3; pages = pages' })

  -- a section of type LOAD, `fuel` for the loop that maps it; false where no memory is left
  pub load_section : ℕ → ℕ → ProgramHeader → Space S → Run (Bool × Space S)
  load_section fuel file ph s =
      let (frame, pages) = reserve ph.memsize s.pages in
      if frame == nomem
      then ok (false, record s { pages = pages })
      else place_section fuel file frame ph (s.space, pages)

  -- the body of the loop of `buildProgramImage`: other sections are left out
  abbrev pub visit : ℕ → ℕ → ProgramHeader → Space S → Run (Bool × Space S)
  visit fuel file ph s = if ph.type == 1 then load_section fuel file ph s else ok (true, s)

  -- the loop, on fuel `n`
  pub build_loop : ℕ → ℕ → Elf → Space S → Run (ℤ × Space S)
  build_loop zero fuel elf s = out_of_fuel
  build_loop (suc n) fuel elf s =
      let (more, elf') = next_section elf in
      let rest = build_loop n fuel elf' in
      visit fuel elf.file (current_section elf) s >>= λ (fine, s').
      if not fine then ok (negsuc 0, s') else if more then rest s' else ok (pos 0, s')

  -- `buildProgramImage(elf)`
  pub build_program_image : ℕ → ℕ → Elf → Space S → Run (ℤ × Space S)
  build_program_image n fuel elf s =
      let image = build_loop n fuel elf s in if is_valid elf then image else ok (negsuc 0, s)
