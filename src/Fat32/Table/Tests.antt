-- ===== src/Fat32/Table/Tests.antt =====
-- Runs on two small tables of src/fs/fat32: in `linked` the clusters 2 and 3 are a chain, in `single`
-- the cluster 2 is one, and 3 is free.
use cros_kernel.Base.{ℕ, ◌<◌, ◌≡◌, refl, ◌&&◌, ltb, leb, ◌==◌, if◌then◌else◌, [], ◌∷◌, arith, ok}
use cros_kernel.Fat32.Bytes.{bytes_to_int}
use cros_kernel.Fat32.Disk.{read_sector}
use cros_kernel.Fat32.Reader.{copy_bytes}
use cros_kernel.Fat32.Table.{
  Volume, Entry, file, check_fat_entry_type, find_cluster_allocations, find_free_cluster, free_loop,
  push_back, end_value, success, clusters_per_fat,
}
use cros_kernel.Fat32.Table.Grow.{allocate_more_clusters}
use cros_kernel.Fat32.Table.Chains.{IsChain, find_cluster_allocations-IsChain}
use cros_kernel.Fat32.Table.Free.{entry_value, IsFirstFree, find_free_cluster-IsFirstFree}
use cros_kernel.Fat32.Table.Grow.Twice.{Grows, allocate_one, allocate_two}

abbrev no_bytes : ℕ → ℕ
no_bytes i = 0

abbrev linked_bytes : ℕ → ℕ
linked_bytes i = if i == 24 then 3 else if leb 28 i && ltb i 32 then 255 else 0

abbrev single_bytes : ℕ → ℕ
single_bytes i = if leb 24 i && ltb i 28 then 255 else 0

abbrev volume : (ℕ → ℕ) → Volume
volume bytes = record {
  di = record { bytes_per_sector = 16; disk = bytes };
  data_region_start_cluster_offset = 5;
  bytes_per_fat_entry = 4;
  bytes_per_dir_entry = 32;
  bytes_per_cluster = 16;
  bytes_per_sector = 16;
  sectors_per_cluster = 1;
  sectors_per_fat = 4;
  reserved_sectors = 1;
  reserved_fat_entries = 2;
  total_sectors = 100;
  fat_count = 1;
}

abbrev linked : Volume
linked = volume linked_bytes

abbrev single : Volume
single = volume single_bytes

linked-IsChain : IsChain no_bytes linked 2 (3 ∷ []) end_value
unfolding read_sector copy_bytes bytes_to_int check_fat_entry_type
linked-IsChain = (refl, refl, (refl, refl))

find_cluster_allocations-IsChain_example :
    find_cluster_allocations no_bytes 5 linked 2 ≡ ok (2 ∷ 3 ∷ end_value ∷ [])
find_cluster_allocations-IsChain_example =
    find_cluster_allocations-IsChain no_bytes linked 5 2 (3 ∷ []) end_value (λ e. omega arith)
      linked-IsChain (omega arith)

find_free_cluster-IsFirstFree_example :
    IsFirstFree no_bytes single 2 4 (find_free_cluster no_bytes single)
find_free_cluster-IsFirstFree_example = find_free_cluster-IsFirstFree no_bytes single (omega arith)

abbrev data_file : Entry
data_file = record {
  type = file;
  file_size_bytes = 16;
  byte_offset = 80;
  fat_allocations = 2 ∷ [];
  parent_allocations = 2 ∷ [];
  parent_size = 0;
}

single-Grows : Grows no_bytes single data_file 2 3
unfolding read_sector copy_bytes bytes_to_int check_fat_entry_type find_free_cluster free_loop
single-Grows = record {
  table = record {
    per_sector = 4;
    some_entries = omega arith;
    sector_is = refl;
    disk_is = refl;
    entry_is = refl;
    room = omega arith;
  };
  is_file = refl;
  last = refl;
  last_in = omega arith;
  last_used = refl;
  room = omega arith;
  small = omega arith;
  next = refl;
  found = λ e. omega arith;
}

allocate_one_example :
    (fs' : Volume) × (allocate_more_clusters no_bytes 1 single data_file
      ≡ ok (success, fs', push_back 3 data_file))
    × ((i : ℕ)
        → i < clusters_per_fat single
        → entry_value no_bytes fs' i
          ≡ (if i == 3 then end_value else if i == 2 then 3 else entry_value no_bytes single i))
allocate_one_example = allocate_one no_bytes single data_file 2 3 single-Grows

allocate_two_example :
    (fs' : Volume) × (allocate_more_clusters no_bytes 2 single data_file
      ≡ ok (success, fs', push_back 3 (push_back 3 data_file)))
    × (entry_value no_bytes fs' 2 ≡ 3)
    × (entry_value no_bytes fs' 3 ≡ end_value)
allocate_two_example = allocate_two no_bytes single data_file 2 3 single-Grows
