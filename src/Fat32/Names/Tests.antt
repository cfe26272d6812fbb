-- ===== src/Fat32/Names/Tests.antt =====
-- Runs of the names of src/fs/fat32/entry_helpers.cpp on a small disk.
use cros_kernel.Base.{
  ℕ, ◌%◌, ◌≡◌, ◌≢◌, refl, Bool, true, false, ltb, ◌&&◌, [], ◌∷◌, All, ok, ◌>>=◌, arith,
}
use cros_kernel.Fat32.Paths.{Str}
use cros_kernel.Fat32.Table.{Volume, file, parse_attribute, find_cluster_allocations}
use cros_kernel.Fat32.Names.{LongName, Named, short_char, short_loop}
use cros_kernel.Fat32.Names.Entries.{
  parse_dir_entry, write_dir_entry, find_long_name_entries, parse_long_name, write_long_name_entry,
}
use cros_kernel.Fat32.Names.Entries.Short.{parse_dir_entry-write_dir_entry}
use cros_kernel.Fat32.Names.Entries.Long.{parse_long_name-write_long_name_entry}

abbrev no_bytes : ℕ → ℕ
no_bytes i = 0

abbrev volume : Volume
volume = record {
  di = record { bytes_per_sector = 64; disk = λ i. i % 256 };
  data_region_start_cluster_offset = 5;
  bytes_per_fat_entry = 4;
  bytes_per_dir_entry = 32;
  bytes_per_cluster = 64;
  bytes_per_sector = 64;
  sectors_per_cluster = 1;
  sectors_per_fat = 4;
  reserved_sectors = 1;
  reserved_fat_entries = 2;
  total_sectors = 100;
  fat_count = 1;
}

-- init.rc
abbrev init_file : Named
init_file = record {
  entry = record {
    type = file;
    file_size_bytes = 70000;
    byte_offset = 96;
    fat_allocations = 70002 ∷ [];
    parent_allocations = 2 ∷ [];
    parent_size = 0;
  };
  name = 105 ∷ 110 ∷ 105 ∷ 116 ∷ [];
  extension = 114 ∷ 99 ∷ [];
  long_name_entries = [];
}

parse_dir_entry-write_dir_entry_example :
    (fs' : Volume) × (write_dir_entry no_bytes no_bytes volume init_file ≡ ok fs')
    × (parse_attribute no_bytes fs' 96 ≡ file)
    × (parse_dir_entry no_bytes no_bytes 5 fs' init_file.entry ≡ (
        find_cluster_allocations no_bytes 5 fs' 70002 >>= λ clusters. ok (
          find_long_name_entries no_bytes no_bytes fs' (record {
            entry = record init_file.entry { fat_allocations = clusters };
            name = 73 ∷ 78 ∷ 73 ∷ 84 ∷ [];
            extension = 82 ∷ 67 ∷ [];
            long_name_entries = [];
          }))))
unfolding short_loop short_char
parse_dir_entry-write_dir_entry_example =
    parse_dir_entry-write_dir_entry no_bytes no_bytes 5 volume init_file 70002 refl refl refl
      (omega arith) (omega arith) (omega arith)

has_no_zero : Str → Bool
has_no_zero [] = true
has_no_zero (c ∷ s) = ltb 0 c && has_no_zero s

has_no_zero-All : (s : Str) → has_no_zero s ≡ true → All (λ c. c ≢ 0) s
unfolding has_no_zero
has_no_zero-All [] e = tt
has_no_zero-All (c ∷ s) e = (ground arith, has_no_zero-All s (ground arith))

-- a long name of 15 characters, of which 13 fit
abbrev long_one : LongName
long_one = record {
  byte_offset = 160;
  order = 1;
  last = true;
  name = 97 ∷ 98 ∷ 99 ∷ 100 ∷ 101 ∷ 102 ∷ 103 ∷ 104 ∷ 105 ∷ 106 ∷ 107 ∷ 108 ∷ 109 ∷ 110 ∷ 111 ∷ [];
}

parse_long_name-write_long_name_entry_example :
    parse_long_name no_bytes no_bytes
      (write_long_name_entry no_bytes no_bytes (105 ∷ 110 ∷ []) volume long_one)
      160
    ≡ record {
      byte_offset = 160;
      order = 1;
      last = false;
      name = 97 ∷ 98 ∷ 99 ∷ 100 ∷ 101 ∷ 102 ∷ 103 ∷ 104 ∷ 105 ∷ 106 ∷ 107 ∷ 108 ∷ 109 ∷ [];
    }
unfolding has_no_zero
parse_long_name-write_long_name_entry_example =
    parse_long_name-write_long_name_entry no_bytes no_bytes (105 ∷ 110 ∷ []) volume long_one refl
      refl (omega arith) (omega arith) (has_no_zero-All long_one.name refl)
