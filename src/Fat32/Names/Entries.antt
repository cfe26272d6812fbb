-- ===== src/Fat32/Names/Entries.antt =====
-- src/fs/fat32/entry_helpers.cpp: an entry and its long names on the disk, read and written.
pub mod Short
pub mod Search
pub mod Long
use cros_kernel.Base.{
  ℕ, zero, suc, ◌+◌, ◌-◌, ◌*◌, ◌/◌, ◌%◌, ◌^◌, Bool, true, false, ◌||◌, ◌&&◌, ltb, leb, ◌==◌,
  if◌then◌else◌, Option, none, some, List, [], ◌∷◌, ◌++◌, length, drop, get_elem?, update, Run, ok,
  ◌>>=◌, need,
}
use cros_kernel.Fat32.Bytes.{bytes_to_short, bytes_to_int, short_to_bytes, int_to_bytes}
use cros_kernel.Fat32.Paths.{Str, substr}
use cros_kernel.Fat32.Table as Table
use cros_kernel.Fat32.Table.{
  Volume, EntryAttribute, file, directory, empty, long_name, root_entry, is_file, Entry, read,
  write, parse_attribute, clear_entry, find_cluster_allocations,
}
use cros_kernel.Fat32.Names.{
  LongName, Named, short_char, long_to_short_name, read_chars, append_char, name_piece,
  long_name_bytes, dir_entry_bytes,
}

-- The sectors are read into new buffers that hold `raw`.
module _ (raw behind : ℕ → ℕ) where
  -- the bytes of an entry on disk, from its first one on
  abbrev pub sector_at : Volume → ℕ → ℕ → ℕ
  sector_at fs byte_offset = read raw fs (byte_offset / fs.bytes_per_sector)

  -- `parse_short_file_name(byte_offset)`
  pub parse_short_file_name : Volume → ℕ → Str
  parse_short_file_name fs byte_offset =
      read_chars (sector_at fs byte_offset) (byte_offset % fs.bytes_per_sector) 8 []

  -- the extension in `parse_dir_entry`
  pub parse_extension : Volume → ℕ → Str
  parse_extension fs byte_offset =
      read_chars (sector_at fs byte_offset) (byte_offset % fs.bytes_per_sector + 8) 3 []

  -- `first_cluster_offset` in `parse_dir_entry`
  pub first_cluster : Volume → ℕ → ℕ
  first_cluster fs byte_offset =
      let i = byte_offset % fs.bytes_per_sector in
      bytes_to_short (sector_at fs byte_offset) (i + 20) * 2 ^ 16
      + bytes_to_short (sector_at fs byte_offset) (i + 26)

  -- `file_size_bytes` in `parse_dir_entry`
  pub file_size : Volume → ℕ → ℕ
  file_size fs byte_offset =
      bytes_to_int (sector_at fs byte_offset) (byte_offset % fs.bytes_per_sector + 28)

  -- `parse_long_name()`
  pub parse_long_name : Volume → ℕ → LongName
  parse_long_name fs byte_offset =
      let buffer = sector_at fs byte_offset in
      let i = byte_offset % fs.bytes_per_sector in
      record {
        byte_offset = byte_offset;
        order = buffer i % 32;
        last = false;
        name =
            name_piece buffer (i + 28) 2
              (name_piece buffer (i + 14) 6 (name_piece buffer (i + 1) 5 []));
      }

  abbrev pub is_long_name : EntryAttribute → Bool
  is_long_name long_name = true
  is_long_name _ = false

  -- The loop of `find_long_name_entries`, of at most `n` rounds, down from the byte `search`. It ends at
  -- the number of the cluster, not at its first byte.
  pub long_name_loop : ℕ → Volume → ℕ → ℕ → List LongName
  long_name_loop zero fs stop search = []
  long_name_loop (suc n) fs stop search =
      let rest = long_name_loop n fs stop (search - fs.bytes_per_dir_entry) in
      if leb stop search && is_long_name (parse_attribute raw fs search)
      then (parse_long_name fs search ∷ (if ltb search fs.bytes_per_dir_entry then [] else rest))
      else []

  -- `long_name_entries.back()->last = true`
  abbrev pub mark_last : LongName → List LongName → List LongName
  mark_last l [] = record l { last = true } ∷ []
  mark_last l (m ∷ ms) = l ∷ mark_last m ms

  abbrev pub join_names : List LongName → Str
  join_names [] = []
  join_names (l ∷ ls) = l.name ++ join_names ls

  -- `find_long_name_entries()`, which takes the name from the entries that it finds
  abbrev pub with_long_names : List LongName → Named → Named
  with_long_names [] e = e
  with_long_names (l ∷ ls) e = record e {
    name = join_names (l ∷ ls);
    long_name_entries = mark_last l ls;
  }

  pub find_long_name_entries : Volume → Named → Named
  find_long_name_entries fs e =
      let b = e.entry.byte_offset in
      with_long_names
        (if ltb b fs.bytes_per_dir_entry
          then []
          else long_name_loop (b / fs.bytes_per_dir_entry + 1) fs (b / fs.bytes_per_cluster)
              (b - fs.bytes_per_dir_entry))
        e

  -- `parse_dir_entry()` up to the search of a directory, with the clusters found on fuel
  pub parse_dir_entry : ℕ → Volume → Entry → Run Named
  parse_dir_entry fuel fs e =
      find_cluster_allocations raw fuel fs (first_cluster fs e.byte_offset) >>= λ clusters. ok (
        find_long_name_entries fs (record {
          entry = record e {
            fat_allocations = clusters;
            file_size_bytes = file_size fs e.byte_offset;
          };
          name = parse_short_file_name fs e.byte_offset;
          extension = parse_extension fs e.byte_offset;
          long_name_entries = [];
        }))

  -- `write_long_name_entry()` below an entry of the name `parent`
  pub write_long_name_entry : Str → Volume → LongName → Volume
  write_long_name_entry parent fs l =
      let fs' = clear_entry raw fs l.byte_offset in
      write fs' (l.byte_offset / fs.bytes_per_sector) (
        long_name_bytes behind parent l (l.byte_offset % fs.bytes_per_sector)
          (sector_at fs' l.byte_offset))

  pub write_long_names : Str → Volume → List LongName → Volume
  write_long_names parent fs [] = fs
  write_long_names parent fs (l ∷ ls) =
      write_long_names parent (write_long_name_entry parent fs l) ls

  -- `write_dir_entry()` up to the long names
  pub write_own_entry : Volume → Named → ℕ → Volume
  write_own_entry fs e cluster =
      let b = e.entry.byte_offset in
      let fs' = clear_entry raw fs b in
      write fs' (b / fs.bytes_per_sector)
        (dir_entry_bytes behind e cluster (b % fs.bytes_per_sector) (sector_at fs' b))

  -- `write_dir_entry()`, a fault where the entry has no cluster
  pub write_dir_entry : Volume → Named → Run Volume
  write_dir_entry fs e = need (get_elem? e.entry.fat_allocations 0) >>= λ cluster.
      ok (write_long_names e.name (write_own_entry fs e cluster) e.long_name_entries)
