-- ===== src/Fat32/Names/Entries/Short.antt =====
-- `write_dir_entry` of src/fs/fat32/entry_helpers.cpp writes what `parse_dir_entry` reads.
use cros_kernel.Base.{
  List, [], get_elem?, some, ok, ◌>>=◌, ℕ, ◌+◌, ◌/◌, ◌%◌, ◌^◌, ◌≤◌, ◌<◌, ◌≡◌, refl, ◌∙◌, ap, true,
  false, if◌then◌else◌, Bool, inl, length, update, update_ne, arith,
}
use cros_kernel.Fat32.Bytes.{
  bytes_to_short, bytes_to_int, short_to_bytes, short_round_trip, int_round_trip,
}
use cros_kernel.Fat32.Disk.{write_sector_size}
use cros_kernel.Fat32.Paths.{Str}
use cros_kernel.Fat32.Table.{
  find_cluster_allocations, Volume, file, directory, attribute_of, is_file, clear_entry,
  parse_attribute,
}
use cros_kernel.Fat32.Names.{Named, short_loop, long_to_short_name, put_chars, dir_entry_bytes}
use cros_kernel.Fat32.Names.Entries.{
  write_dir_entry, write_long_names, parse_dir_entry, find_long_name_entries, sector_at,
  parse_short_file_name, parse_extension, first_cluster, file_size, write_own_entry,
}
use cros_kernel.Fat32.Names.Text.{At, length-long_to_short_name, read_chars-long_to_short_name}
use cros_kernel.Fat32.Names.Buffers.{
  within, put_chars_lem, bytes_to_short-ap, bytes_to_int-ap, At-ap, At-put_chars, read-write,
}

-- What the bytes of an entry from `i` on say.
pub record Says (buffer : ℕ → ℕ) (i : ℕ) (name extension : Str) (kind cluster size : ℕ)
    : Type 0 where
  pub name_at : At buffer i name
  pub extension_at : At buffer (i + 8) extension
  pub kind_at : buffer (i + 11) ≡ kind
  pub high_at : bytes_to_short buffer (i + 20) ≡ cluster / 2 ^ 16
  pub low_at : bytes_to_short buffer (i + 26) ≡ cluster % 2 ^ 16
  pub size_at : bytes_to_int buffer (i + 28) ≡ size

dir_entry_bytes-Says :
    (behind : ℕ → ℕ) (e : Named) (cluster i : ℕ) (buffer : ℕ → ℕ)
    → cluster < 2 ^ 32
    → e.entry.file_size_bytes < 2 ^ 32
    → Says
        (dir_entry_bytes behind e cluster i buffer)
        i
        (long_to_short_name behind e.name 8)
        (long_to_short_name behind e.extension 3)
        (if is_file e.entry.type then 32 else 16)
        cluster
        e.entry.file_size_bytes
dir_entry_bytes-Says behind e cluster i buffer small small' =
    let name = long_to_short_name behind e.name 8 in
    let ext = long_to_short_name behind e.extension 3 in
    let kind : ℕ = if is_file e.entry.type then 32 else 16 in
    let b1 = put_chars behind name i 0 8 buffer in
    let b2 = put_chars behind ext (i + 8) 0 3 b1 in
    let b3 = update b2 (i + 11) kind in
    let b4 = short_to_bytes (cluster / 2 ^ 16 % 2 ^ 16) b3 (i + 20) in
    let b5 = short_to_bytes (cluster % 2 ^ 16) b4 (i + 26) in
    let (high, keep4) = short_round_trip (cluster / 2 ^ 16 % 2 ^ 16) b3 (i + 20) (omega arith) in
    let (low, keep5) = short_round_trip (cluster % 2 ^ 16) b4 (i + 26) (omega arith) in
    let (size, keep6) = int_round_trip e.entry.file_size_bytes b5 (i + 28) small' in
    let b6 = dir_entry_bytes behind e cluster i buffer in
    let old : (j : ℕ) → j < i + 20 → b6 j ≡ b3 j =
      λ j lt. keep6 j (inl (omega arith)) ∙ keep5 j (inl (omega arith)) ∙ keep4 j (inl lt) in
    let n8 = length-long_to_short_name behind e.name 8 in
    let before : (j : ℕ) → j < i + length name → b2 j ≡ b1 j = λ j lt.
      let out : within ((i + 8) + 0) 3 j ≡ false = ground (arith, n8) in
      put_chars_lem behind ext (i + 8) 0 3 b1 j ∙ rw out refl in
    let n3 = length-long_to_short_name behind e.extension 3 in
    record {
      name_at =
          At-ap b6 b1 i name
            (λ j a b. old j (omega arith) ∙ update_ne b2 (i + 11) kind j (omega arith) ∙ before j b)
            (At-put_chars behind name i 8 buffer n8);
      extension_at =
          At-ap b6 b2 (i + 8) ext
            (λ j a b. old j (omega arith) ∙ update_ne b2 (i + 11) kind j (omega arith))
            (At-put_chars behind ext (i + 8) 3 b1 n3);
      kind_at = old (i + 11) (omega arith) ∙ ground arith;
      high_at =
          bytes_to_short-ap b6 b4 (i + 20)
            (keep6 _ (inl (omega arith)) ∙ keep5 _ (inl (omega arith)))
            (keep6 _ (inl (omega arith)) ∙ keep5 _ (inl (omega arith)))
          ∙ high
          ∙ omega arith;
      low_at =
          bytes_to_short-ap b6 b5 (i + 26) (keep6 _ (inl (omega arith)))
            (keep6 _ (inl (omega arith)))
          ∙ low;
      size_at = size;
    }

-- The bytes of an entry that is written, read back from its sector.
written :
    (raw behind : ℕ → ℕ) (fs : Volume) (e : Named) (cluster : ℕ)
    → fs.di.bytes_per_sector ≡ fs.bytes_per_sector
    → e.entry.byte_offset % fs.bytes_per_sector + 32 ≤ fs.bytes_per_sector
    → (buffer : ℕ → ℕ) × ((j : ℕ)
        → j < e.entry.byte_offset % fs.bytes_per_sector + 32
        → (sector_at raw behind (write_own_entry raw behind fs e cluster) e.entry.byte_offset j
            ≡ dir_entry_bytes behind e cluster
                (e.entry.byte_offset % fs.bytes_per_sector)
                buffer
                j))
unfolding write_own_entry clear_entry
written raw behind fs e cluster same room =
    let b = e.entry.byte_offset in
    let cleared = clear_entry raw fs b in
    let size : cleared.di.bytes_per_sector ≡ fs.di.bytes_per_sector =
      write_sector_size fs.di (b / fs.bytes_per_sector) _ in
    let buffer = sector_at raw behind cleared b in
    (
      buffer,
      λ j lt.
          read-write raw cleared (b / fs.bytes_per_sector)
            (dir_entry_bytes behind e cluster (b % fs.bytes_per_sector) buffer) j
            (omega (arith, size, same)),
    )

attribute_of-kind :
    (b : Bool) (k : ℕ)
    → k ≡ (if b then 32 else 16)
    → attribute_of (k % 64) ≡ (if b then file else directory)
attribute_of-kind true k e = rw e refl
attribute_of-kind false k e = rw e refl

-- What `write_dir_entry` writes for an entry that lies in one sector is read back: its cluster, its size,
-- its kind, and the name and the extension as short names have them.
parse-write_own_entry :
    (raw behind : ℕ → ℕ) (fs : Volume) (e : Named) (cluster : ℕ)
    → fs.di.bytes_per_sector ≡ fs.bytes_per_sector
    → e.entry.byte_offset % fs.bytes_per_sector + 32 ≤ fs.bytes_per_sector
    → cluster < 2 ^ 32
    → e.entry.file_size_bytes < 2 ^ 32
    → (parse_short_file_name raw behind
          (write_own_entry raw behind fs e cluster)
          e.entry.byte_offset
        ≡ short_loop behind e.name 0 8)
      × (parse_extension raw behind (write_own_entry raw behind fs e cluster) e.entry.byte_offset
          ≡ short_loop behind e.extension 0 3)
      × (first_cluster raw behind (write_own_entry raw behind fs e cluster) e.entry.byte_offset
          ≡ cluster)
      × (file_size raw behind (write_own_entry raw behind fs e cluster) e.entry.byte_offset
          ≡ e.entry.file_size_bytes)
      × (parse_attribute raw (write_own_entry raw behind fs e cluster) e.entry.byte_offset
          ≡ (if is_file e.entry.type then file else directory))
unfolding parse_short_file_name parse_extension first_cluster file_size parse_attribute
    write_own_entry clear_entry
parse-write_own_entry raw behind fs e cluster same room small small' =
    let b = e.entry.byte_offset in
    let i = b % fs.bytes_per_sector in
    let (buffer, back) = written raw behind fs e cluster same room in
    let new = sector_at raw behind (write_own_entry raw behind fs e cluster) b in
    let f = dir_entry_bytes behind e cluster i buffer in
    let s = dir_entry_bytes-Says behind e cluster i buffer small small' in
    let n8 = length-long_to_short_name behind e.name 8 in
    let n3 = length-long_to_short_name behind e.extension 3 in
    let at : (j : ℕ) → j < 32 → new (i + j) ≡ f (i + j) = λ j lt. back (i + j) (omega arith) in
    let high =
      bytes_to_short-ap new f (i + 20) (at 20 (omega arith)) (back _ (omega arith)) ∙ s.high_at in
    let low =
      bytes_to_short-ap new f (i + 26) (at 26 (omega arith)) (back _ (omega arith)) ∙ s.low_at in
    (
      read_chars-long_to_short_name behind new i 8 e.name
          (At-ap new f i _ (λ j x y. back j (omega arith)) s.name_at),
      read_chars-long_to_short_name behind new (i + 8) 3 e.extension
          (At-ap new f (i + 8) _ (λ j x y. back j (omega arith)) s.extension_at),
      omega (arith, high, low),
      bytes_to_int-ap new f (i + 28) (λ j x y. back j (omega arith)) ∙ s.size_at,
      attribute_of-kind (is_file e.entry.type) _
          (ap new (omega arith) ∙ at 11 (omega arith) ∙ s.kind_at),
    )

-- An entry as `parse_dir_entry` leaves it, for the clusters that its table gives.
abbrev pub reread : (ℕ → ℕ) → Named → List ℕ → Named
reread behind e clusters = record {
  entry = record e.entry { fat_allocations = clusters };
  name = short_loop behind e.name 0 8;
  extension = short_loop behind e.extension 0 3;
  long_name_entries = [];
}

-- `write_dir_entry` of an entry in one sector, with a first cluster and no long names, succeeds, and on
-- the disk that it leaves `parse_dir_entry` finds the kind of the entry, its size, its names as short
-- ones, the clusters from the first one on, and the long names in front of it.
pub parse_dir_entry-write_dir_entry :
    (raw behind : ℕ → ℕ) (fuel : ℕ) (fs : Volume) (e : Named) (cluster : ℕ)
    → get_elem? e.entry.fat_allocations 0 ≡ some cluster
    → e.long_name_entries ≡ []
    → fs.di.bytes_per_sector ≡ fs.bytes_per_sector
    → e.entry.byte_offset % fs.bytes_per_sector + 32 ≤ fs.bytes_per_sector
    → cluster < 2 ^ 32
    → e.entry.file_size_bytes < 2 ^ 32
    → (fs' : Volume) × (write_dir_entry raw behind fs e ≡ ok fs')
      × (parse_attribute raw fs' e.entry.byte_offset
          ≡ (if is_file e.entry.type then file else directory))
      × (parse_dir_entry raw behind fuel fs' e.entry ≡ (
          find_cluster_allocations raw fuel fs' cluster >>= λ clusters.
          ok (find_long_name_entries raw behind fs' (reread behind e clusters))))
unfolding write_dir_entry write_long_names parse_dir_entry
parse_dir_entry-write_dir_entry raw behind fuel fs e cluster first none_long same room small
      small' =
    let fs' = write_own_entry raw behind fs e cluster in
    let (name, ext, start, size, kind) =
      parse-write_own_entry raw behind fs e cluster same room small small' in
    (fs', rw (first, none_long) refl, kind, rw (name, ext, start, size) refl)
