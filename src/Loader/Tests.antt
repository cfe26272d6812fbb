-- ===== src/Loader/Tests.antt =====
-- An ELF file of two sections in memory, of which src/loader/elf.cpp loads the second one.
use mathlib.Core.List.{[], ◌∷◌}
use cros_kernel.Base.{
  ℕ, ltb, ◌^◌, ◌≢◌, Bool-cases, inl, inr, ◌/◌, ◌≡◌, refl, ◌==◌, if◌then◌else◌, arith, ℤ, pos,
  negsuc, update, Run, ok, fault, out_of_fuel,
}
use cros_kernel.Strings.{Memory}
use cros_kernel.Fat32.Bytes.{read_number, bytes_to_short, bytes_to_int, bytes_to_long}
use cros_kernel.PageAllocator.{
  PageAllocator, empty_allocator, bit_length, reserve, reserve_loop, split_loop,
}
use cros_kernel.Loader.{
  ProgramHeader, Machine, Space, new_elf, map_loop, map_region, set_zero, copy_image, place_section,
  load_section, build_loop, build_program_image, page_size, image_flags,
}
use cros_kernel.Loader.Sections.{sections_from, load_all, build_program_image_lem}
use cros_kernel.Loader.Mapping.{map_pages, map_region-map_pages, load_section_fault}

abbrev file_bytes : Memory
file_bytes i =
    if i == 9000
    then 127
    else if i == 9001
    then 69
    else if i == 9002
    then 76
    else if i == 9003
    then 70
    else if i == 9032
    then 64
    else if i == 9056
    then 2
    else if i == 9064
    then 6
    else if i == 9120
    then 1
    else if i == 9128
    then 176
    else if i == 9137
    then 16
    else if i == 9152
    then 2
    else if i == 9160
    then 3
    else if i == 9176
    then 5
    else if i == 9177
    then 7
    else 0

-- the frames of the pages and the bytes at the addresses
abbrev Tables : Type 0
Tables = (ℕ → ℕ) × (ℕ → ℕ)

-- There is no entry from 2 ^ 39 on.
abbrev set_entry : ℕ → ℕ → ℕ → Tables × PageAllocator → Run (Tables × PageAllocator)
set_entry a frame flags s =
    if ltb a (2 ^ 39) then ok ((update s.0.0 (a / page_size) frame, s.0.1), s.1) else fault

abbrev machine : Machine Tables
machine = record {
  get_page_frame = λ a s. ok (s.0 (a / page_size));
  set_page_entry = set_entry;
  byte = λ a s. ok (s.1 a);
  set_byte = λ a b s. ok (s.0, update s.1 a b);
}

abbrev start : Space Tables
start = record {
  space = (λ i. if i == 3 then 40960 else 0, file_bytes);
  pages = record (empty_allocator 256 4096) {
    max_k_val = 0;
    avail_list = λ k. if k == 0 then 5 ∷ [] else [];
  };
}

abbrev section : ℕ → ℕ → ProgramHeader
section type vaddr = record { type = type; offset = 176; vaddr = vaddr; filesize = 2; memsize = 3 }

abbrev other : ProgramHeader
other = record { type = 6; offset = 0; vaddr = 0; filesize = 0; memsize = 0 }

build_program_image_lem_example :
    build_program_image machine 2 2 (new_elf file_bytes 9000) start
    ≡ load_all machine 2 9000 (other ∷ section 1 4096 ∷ []) start
unfolding bytes_to_short bytes_to_int bytes_to_long read_number sections_from
build_program_image_lem_example =
    build_program_image_lem machine file_bytes 9000 2 2 start (omega arith)

abbrev image : Run (ℤ × Space Tables) → ℤ × Space Tables
image (ok r) = r
image fault = (negsuc 1, start)
image out_of_fuel = (negsuc 2, start)

abbrev loaded : ℤ × Space Tables
loaded = image (build_program_image machine 2 2 (new_elf file_bytes 9000) start)

-- The section is in its place, and its last byte is 0.
loaded-bytes :
    (loaded.0 ≡ pos 0)
    × (loaded.1.space.1 4096 ≡ 5)
    × (loaded.1.space.1 4097 ≡ 7)
    × (loaded.1.space.1 4098 ≡ 0)
    × (loaded.1.space.0 1 ≡ 20480)
unfolding bytes_to_short bytes_to_int bytes_to_long read_number build_program_image build_loop
    load_section place_section map_loop set_zero copy_image reserve reserve_loop split_loop
    bit_length
loaded-bytes = (refl, refl, refl, refl, refl)

-- Without pages the loader fails at the section.
no_memory :
    (image (
      build_program_image machine 2 2
        (new_elf file_bytes 9000)
        (record start { pages = empty_allocator 256 4096 }))).0
    ≡ negsuc 0
unfolding bytes_to_short bytes_to_int bytes_to_long read_number build_program_image build_loop
    load_section place_section map_loop set_zero copy_image reserve reserve_loop split_loop
    bit_length
no_memory = refl

map_region-map_pages_example :
    map_region machine 3 4096 5000 20480 image_flags (start.space, start.pages)
    ≡ map_pages machine 2 0 4096 20480 image_flags (start.space, start.pages)
map_region-map_pages_example =
    map_region-map_pages machine 3 4096 5000 20480 image_flags (start.space, start.pages)
      (omega arith) (omega arith)

set_entry-ends :
    (page frame : ℕ) (s : Tables × PageAllocator) → set_entry page frame image_flags s ≢ out_of_fuel
set_entry-ends page frame s = elim (Bool-cases (ltb page (2 ^ 39))) [
  | inl y ↦ rw y (λ e. cc)
  | inr y ↦ rw y (λ e. cc)
]

load_section_fault_example : load_section machine (2 ^ 52) 9000 (section 1 12290) start ≡ fault
unfolding reserve reserve_loop split_loop bit_length
load_section_fault_example =
    load_section_fault machine (2 ^ 52) 9000 40960 (section 1 12290) start refl (λ e. omega arith)
      (λ e. omega arith) (omega arith) (omega arith) (λ frame s. refl) set_entry-ends (omega arith)
