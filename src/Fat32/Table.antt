-- ===== src/Fat32/Table.antt =====
-- src/fs/fat32/fat32.cpp, entry.cpp and entry_helpers.cpp: the file allocation table, in which each
-- cluster has an entry with the number of the next one, and the clusters of a file or directory.
pub mod Chains
pub mod Free
pub mod Places
pub mod Grow
mod Tests
use cros_kernel.Base.{
  ℕ, zero, suc, ◌+◌, ◌-◌, ◌*◌, ◌/◌, ◌%◌, ◌^◌, Bool, true, false, not, ◌&&◌, ltb, leb, ◌==◌,
  if◌then◌else◌, Option, none, some, List, [], ◌∷◌, ◌++◌, length, get_elem?, update, Run, ok, fault,
  out_of_fuel, ◌>>=◌, need,
}
use cros_kernel.Fat32.Bytes.{bytes_to_short, bytes_to_int, short_to_bytes, int_to_bytes}
use cros_kernel.Fat32.Disk.{Disk, read_sector, write_sector}

-- the fields of `class FAT32` but for the tree of entries
pub record Volume : Type 0 where
  pub di : Disk
  pub data_region_start_cluster_offset : ℕ
  pub bytes_per_fat_entry : ℕ
  pub bytes_per_dir_entry : ℕ
  pub bytes_per_cluster : ℕ
  pub bytes_per_sector : ℕ
  pub sectors_per_cluster : ℕ
  pub sectors_per_fat : ℕ
  pub reserved_sectors : ℕ
  pub reserved_fat_entries : ℕ
  pub total_sectors : ℕ
  pub fat_count : ℕ

-- `init` up to the search of the tree, on the boot sector
pub init : Disk → (ℕ → ℕ) → Volume
init di root_sector =
    let bytes_per_sector = bytes_to_short root_sector 11 in
    let sectors_per_cluster = root_sector 13 in
    let reserved_sectors = bytes_to_short root_sector 14 in
    let fat_count = root_sector 16 in
    let large = bytes_to_int root_sector 32 in
    let sectors_per_fat = bytes_to_int root_sector 36 in
    record {
      di = di;
      data_region_start_cluster_offset =
          (reserved_sectors + fat_count * sectors_per_fat) / sectors_per_cluster;
      bytes_per_fat_entry = 4;
      bytes_per_dir_entry = 32;
      bytes_per_cluster = bytes_per_sector * sectors_per_cluster;
      bytes_per_sector = bytes_per_sector;
      sectors_per_cluster = sectors_per_cluster;
      sectors_per_fat = sectors_per_fat;
      reserved_sectors = reserved_sectors;
      reserved_fat_entries = 2;
      total_sectors = if large == 0 then bytes_to_short root_sector 19 else large;
      fat_count = fat_count;
    }

-- `enum EntryAttribute` and `enum FatEntryType`
pub data EntryAttribute : Type 0 where
  file empty directory long_name root_entry : EntryAttribute

pub data FatEntryType : Type 0 where
  end_mark free_mark reserved_mark allocated defective : FatEntryType

-- `switch (attribute)`
abbrev pub attribute_of : ℕ → EntryAttribute
attribute_of a =
    if a == 8
    then root_entry
    else if a == 16
    then directory
    else if a == 32
    then file
    else if a == 15
    then long_name
    else empty

-- `check_fat_entry_type(val)`, on `unsigned int`
pub check_fat_entry_type : Volume → ℕ → FatEntryType
check_fat_entry_type fs v =
    let snipped = v % 2 ^ 28 in
    if v == 4294967295
    then end_mark
    else if snipped == 0
    then free_mark
    else if snipped == 268435454
    then defective
    else if ltb v (fs.total_sectors / fs.sectors_per_cluster)
    then allocated
    else reserved_mark

abbrev pub is_allocated : FatEntryType → Bool
is_allocated allocated = true
is_allocated _ = false

abbrev pub is_free : FatEntryType → Bool
is_free free_mark = true
is_free _ = false

abbrev pub is_directory : EntryAttribute → Bool
is_directory directory = true
is_directory _ = false

abbrev pub is_file : EntryAttribute → Bool
is_file file = true
is_file _ = false

-- `fat_entry_to_cluster_offset(fat_entry)`, on `unsigned int`
abbrev pub fat_entry_to_cluster_offset : Volume → ℕ → ℕ
fat_entry_to_cluster_offset fs entry =
    ((entry + 2 ^ 32 - fs.reserved_fat_entries) + fs.data_region_start_cluster_offset) % 2 ^ 32

-- the sector of an entry of the table, and the place there, in `find_cluster_allocations`
abbrev pub fat_sector : Volume → ℕ → ℕ
fat_sector fs entry =
    fs.reserved_sectors + ((entry * fs.bytes_per_fat_entry) % 2 ^ 32) / fs.bytes_per_sector

abbrev pub fat_offset : Volume → ℕ → ℕ
fat_offset fs entry = ((entry * fs.bytes_per_fat_entry) % 2 ^ 32) % fs.bytes_per_sector

-- The same in the functions that allocate. They reckon with `int`; a number that is negative stands
-- here with 2 ^ 32 more.
abbrev pub entry_byte : Volume → ℕ → ℕ
entry_byte fs entry =
    (fs.reserved_sectors * fs.bytes_per_sector + entry * fs.bytes_per_fat_entry) % 2 ^ 32

-- Division of such a number goes towards 0.
abbrev pub int_div : ℕ → ℕ → ℕ
int_div b n = if ltb b (2 ^ 31) then b / n else (2 ^ 32 - (2 ^ 32 - b) / n) % 2 ^ 32

abbrev pub int_mod : ℕ → ℕ → ℕ
int_mod b n = if ltb b (2 ^ 31) then b % n else (2 ^ 32 - (2 ^ 32 - b) % n) % 2 ^ 32

abbrev pub entry_sector : Volume → ℕ → ℕ
entry_sector fs entry = int_div (entry_byte fs entry) fs.bytes_per_sector

abbrev pub entry_offset : Volume → ℕ → ℕ
entry_offset fs entry = int_mod (entry_byte fs entry) fs.bytes_per_sector

-- the fields of `class Entry` that its clusters depend on, and those of its parent
pub record Entry : Type 0 where
  pub type : EntryAttribute
  pub file_size_bytes : ℕ
  pub byte_offset : ℕ
  pub fat_allocations : List ℕ
  pub parent_allocations : List ℕ
  pub parent_size : ℕ

-- `buffer[i] = 0` for so many bytes from `i` on
unfoldable pub clear_loop : ℕ → (ℕ → ℕ) → ℕ → ℕ → ℕ
clear_loop zero buffer i = buffer
clear_loop (suc n) buffer i = clear_loop n (update buffer i 0) (i + 1)

abbrev pub write : Volume → ℕ → (ℕ → ℕ) → Volume
write fs sector buffer = record fs { di = write_sector fs.di sector buffer }

abbrev pub last_from : ℕ → List ℕ → ℕ
last_from x [] = x
last_from x (y ∷ ys) = last_from y ys

abbrev pub last_of : List ℕ → Option ℕ
last_of [] = none
last_of (x ∷ xs) = some (last_from x xs)

abbrev pub end_value : ℕ
end_value = 4294967295

abbrev pub success : ℕ
success = 1

abbrev pub failure : ℕ
failure = 0

abbrev pub clusters_per_fat : Volume → ℕ
clusters_per_fat fs = fs.sectors_per_fat / fs.sectors_per_cluster

abbrev pub push_back : ℕ → Entry → Entry
push_back cluster e = record e { fat_allocations = e.fat_allocations ++ cluster ∷ [] }

-- The sectors are read into new buffers that hold `raw`.
module _ (raw : ℕ → ℕ) where
  abbrev pub read : Volume → ℕ → ℕ → ℕ
  read fs sector = read_sector raw fs.di sector

  -- `parse_attribute(byte_offset)`
  unfoldable pub parse_attribute : Volume → ℕ → EntryAttribute
  parse_attribute fs byte_offset =
      attribute_of
        (read fs (byte_offset / fs.bytes_per_sector) (11 + byte_offset % fs.bytes_per_sector) % 64)

  -- The loop of `find_cluster_allocations`, on fuel, with the buffer of the sector that was read last.
  pub find_loop : ℕ → Volume → (ℕ → ℕ) → ℕ → ℕ → FatEntryType → Run (List ℕ)
  find_loop zero fs buffer sector current type = out_of_fuel
  find_loop (suc fuel) fs buffer sector current type =
      let next = bytes_to_int buffer (fat_offset fs current) in
      let next_sector = fat_sector fs next in
      let next_type = check_fat_entry_type fs next in
      let buffer' =
        if is_allocated next_type && not (next_sector == sector)
        then read fs next_sector
        else buffer in
      let rest = find_loop fuel fs buffer' next_sector next next_type in
      if is_allocated type then (rest >>= λ found. ok (current ∷ found)) else ok (current ∷ [])

  -- `find_cluster_allocations(first)`: the list of clusters
  pub find_cluster_allocations : ℕ → Volume → ℕ → Run (List ℕ)
  find_cluster_allocations fuel fs first =
      let sector = fat_sector fs first in
      let buffer = read fs sector in
      let found =
        find_loop fuel fs buffer sector first
          (check_fat_entry_type fs (bytes_to_int buffer (fat_offset fs first))) in
      if first == 0 then ok [] else found

  -- `read_data(sector_offset)` of an entry with the attribute and the clusters
  pub read_data : Volume → EntryAttribute → List ℕ → ℕ → Option (ℕ → ℕ)
  read_data fs type allocations sector_offset =
      if not (is_file type)
      then none
      else elim (get_elem? allocations (sector_offset / fs.sectors_per_cluster)) [
        | none ↦ none
        | some cluster ↦ some (
            read fs (
              fat_entry_to_cluster_offset fs cluster * fs.sectors_per_cluster
              + sector_offset % fs.sectors_per_cluster))
      ]

  -- The loop of `find_free_cluster`, with so many entries left; 0 is `failure`.
  pub free_loop : ℕ → Volume → (ℕ → ℕ) → ℕ → ℕ
  free_loop zero fs buffer current = failure
  free_loop (suc n) fs buffer current =
      let next = current + 1 in
      let buffer' =
        if entry_sector fs next == entry_sector fs current
        then buffer
        else read fs (entry_sector fs next) in
      let rest = free_loop n fs buffer' next in
      if is_free (check_fat_entry_type fs (bytes_to_int buffer (entry_offset fs current)))
      then current
      else rest

  -- `find_free_cluster()`
  pub find_free_cluster : Volume → ℕ
  find_free_cluster fs = free_loop (clusters_per_fat fs - 2) fs (read fs (entry_sector fs 2)) 2

  -- `clear_entry(byte_offset)`
  unfoldable pub clear_entry : Volume → ℕ → Volume
  clear_entry fs byte_offset =
      let sector = byte_offset / fs.bytes_per_sector in
      write fs sector
        (clear_loop fs.bytes_per_dir_entry (read fs sector) (byte_offset % fs.bytes_per_sector))
