-- ===== src/Fat32/Table/Grow.antt =====
-- Allocating clusters in src/fs/fat32/entry_helpers.cpp.
pub mod Rounds
pub mod Twice
use cros_kernel.Base.{
  ℕ, zero, suc, ◌+◌, ◌-◌, ◌*◌, ◌/◌, ◌%◌, ◌^◌, Bool, true, false, not, ◌&&◌, ltb, leb, ◌==◌,
  if◌then◌else◌, Option, none, some, List, [], ◌∷◌, ◌++◌, length, get_elem?, update, Run, ok, fault,
  out_of_fuel, ◌>>=◌, need,
}
use cros_kernel.Fat32.Bytes.{bytes_to_short, bytes_to_int, short_to_bytes, int_to_bytes}
use cros_kernel.Fat32.Disk.{Disk, read_sector, write_sector}
use cros_kernel.Fat32.Table.{
  Volume, Entry, is_directory, fat_entry_to_cluster_offset, entry_sector, entry_offset, write, read,
  last_of, end_value, success, failure, push_back, find_free_cluster, clear_entry,
}

-- One of the two entries of `init_dir_cluster`, from `i` on. The second `'.'` of the name is written
-- over the first.
abbrev pub dot_entry : ℕ → ℕ → (ℕ → ℕ) → ℕ → ℕ → ℕ
dot_entry cluster size buffer i =
    let b1 = update (update buffer i 46) (11 + i) 16 in
    let b2 = short_to_bytes ((cluster / 2 ^ 16) % 2 ^ 16) b1 (20 + i) in
    let b3 = short_to_bytes (cluster % 2 ^ 16) b2 (26 + i) in int_to_bytes size b3 (28 + i)

module _ (raw : ℕ → ℕ) where
  -- `init_dir_cluster(cluster_offset)`: the two entries are cleared in the cluster, but written over
  -- the directory's own entry.
  pub init_dir_cluster : Volume → Entry → ℕ → Run Volume
  init_dir_cluster fs e cluster_offset = do
    let start = cluster_offset * fs.bytes_per_cluster
    let fs' = clear_entry raw (clear_entry raw fs start) (start + fs.bytes_per_dir_entry)
    let sector = e.byte_offset / fs.bytes_per_sector
    let i = e.byte_offset % fs.bytes_per_sector
    own ← need (get_elem? e.fat_allocations 0)
    above ← need (get_elem? e.parent_allocations 0)
    let buffer = dot_entry own e.file_size_bytes (read raw fs' sector) i
    ok (write fs' sector (dot_entry above e.parent_size buffer (i + fs.bytes_per_dir_entry)))

  abbrev pub set_up : Volume → Entry → ℕ → Run Volume
  set_up fs e cluster =
      if is_directory e.type
      then init_dir_cluster fs e (fat_entry_to_cluster_offset fs cluster)
      else ok fs

  -- `initial_cluster()`
  pub initial_cluster : Volume → Entry → Run (ℕ × Volume × Entry)
  initial_cluster fs e =
      let cluster = find_free_cluster raw fs in
      if cluster == failure then ok (failure, fs, e) else (do
        let sector = entry_sector fs cluster
        let fs1 =
            write fs sector (int_to_bytes end_value (read raw fs sector) (entry_offset fs cluster))
        let e' = push_back cluster e
        fs2 ← set_up fs1 e' cluster
        ok (success, fs2, e'))

  -- The loop of `allocate_more_clusters` on the number of clusters left, with the buffer of the sector
  -- of the last entry: whether the table was full, and what the loop leaves.
  pub grow_loop : ℕ → Volume → Entry → (ℕ → ℕ) → ℕ → Run (Bool × Volume × Entry × (ℕ → ℕ) × ℕ)
  grow_loop zero fs e buffer current = ok (false, fs, e, buffer, current)
  grow_loop (suc n) fs e buffer current =
      let next = find_free_cluster raw fs in
      let fs1 =
        write fs (entry_sector fs current) (int_to_bytes next buffer (entry_offset fs current)) in
      let buffer' = read raw fs1 (entry_sector fs next) in
      if next == failure
      then ok (true, fs, e, buffer, current)
      else (do fs2 ← set_up fs1 e next; grow_loop n fs2 (push_back next e) buffer' next)

  -- the part behind the first cluster
  pub grow : ℕ → Volume → Entry → Run (ℕ × Volume × Entry)
  grow n fs e = do
    current ← need (last_of e.fat_allocations)
    (full, fs', e', buffer, current') ←
        grow_loop n fs e (read raw fs (entry_sector fs current)) current
    let buffer' = int_to_bytes end_value buffer (entry_offset fs' current')
    ok (if full then failure else success, write fs' (entry_sector fs' current') buffer', e')

  -- `allocate_more_clusters(n)`
  pub allocate_more_clusters : ℕ → Volume → Entry → Run (ℕ × Volume × Entry)
  allocate_more_clusters n fs e = if n == 0 then ok (failure, fs, e) else elim e.fat_allocations [
    | [] ↦ initial_cluster fs e >>= λ (r, fs', e').
        if r == failure then ok (failure, fs', e') else grow (n - 1) fs' e'
    | c ∷ cs ↦ grow n fs e
  ]
