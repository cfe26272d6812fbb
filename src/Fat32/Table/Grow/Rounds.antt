-- ===== src/Fat32/Table/Grow/Rounds.antt =====
-- The rounds of the loop of `allocate_more_clusters` of src/fs/fat32/entry_helpers.cpp, and its end.
use cros_kernel.Base.{
  ℕ, suc, ◌≡◌, ◌≢◌, ◌∙◌, ap, Bool, true, false, ◌==◌, if◌then◌else◌, arith, some, Run, ok, ◌>>=◌,
  need,
}
use cros_kernel.Fat32.Disk.{write_sector_size}
use cros_kernel.Fat32.Bytes.{int_to_bytes}
use cros_kernel.Fat32.Table.{
  Volume, Entry, EntryAttribute, file, is_directory, entry_sector, entry_offset, read, write,
  find_free_cluster, push_back, last_of, end_value, failure, success, fat_entry_to_cluster_offset,
}
use cros_kernel.Fat32.Table.Grow.{grow_loop, grow, set_up, init_dir_cluster}
use cros_kernel.Fat32.Table.Places.{IsTable, with_entry}

module _ (raw : ℕ → ℕ) where
  pub set_up-file : (fs : Volume) (e : Entry) (c : ℕ) → e.type ≡ file → set_up raw fs e c ≡ ok fs
  set_up-file fs e c t =
      ap
        (λ (ty : EntryAttribute).
          if is_directory ty
          then init_dir_cluster raw fs e (fat_entry_to_cluster_offset fs c)
          else ok fs)
        t

  pub IsTable-with_entry : (fs : Volume) (c v : ℕ) → IsTable fs → IsTable (with_entry raw fs c v)
  IsTable-with_entry fs c v t = record {
    per_sector = t.per_sector;
    some_entries = t.some_entries;
    sector_is = t.sector_is;
    disk_is = write_sector_size fs.di _ _ ∙ t.disk_is;
    entry_is = t.entry_is;
    room = t.room;
  }

  -- a round of the loop of `allocate_more_clusters`
  pub grow_round :
      (k : ℕ) (fs : Volume) (e : Entry) (c n : ℕ)
      → e.type ≡ file
      → find_free_cluster raw fs ≡ n
      → n ≢ 0
      → grow_loop raw (suc k) fs e (read raw fs (entry_sector fs c)) c
        ≡ grow_loop raw k
            (with_entry raw fs c n)
            (push_back n e)
            (read raw (with_entry raw fs c n) (entry_sector fs n))
            n
  unfolding grow_loop
  grow_round k fs e c n t f ne =
      let z : (n == failure) ≡ false = ground arith in
      let go : ℕ → Run (Bool × Volume × Entry × (ℕ → ℕ) × ℕ) = λ n.
        if n == failure
        then ok (true, fs, e, read raw fs (entry_sector fs c), c)
        else (set_up raw (with_entry raw fs c n) e n >>= λ fs2.
            grow_loop raw k fs2 (push_back n e)
              (read raw (with_entry raw fs c n) (entry_sector fs n)) n) in
      ap go f
      ∙ ap
          (λ b.
            if b
            then ok (true, fs, e, read raw fs (entry_sector fs c), c)
            else (set_up raw (with_entry raw fs c n) e n >>= λ fs2.
                grow_loop raw k fs2 (push_back n e)
                  (read raw (with_entry raw fs c n) (entry_sector fs n)) n))
          z
      ∙ ap
          (λ r. r >>= λ fs2.
            grow_loop raw k fs2 (push_back n e)
              (read raw (with_entry raw fs c n) (entry_sector fs n)) n)
          (set_up-file (with_entry raw fs c n) e n t)

  -- the end of the loop, where the entry of the last cluster is marked
  pub grow_end :
      (k : ℕ) (fs fs' : Volume) (e e' : Entry) (c n : ℕ)
      → last_of e.fat_allocations ≡ some c
      → grow_loop raw k fs e (read raw fs (entry_sector fs c)) c
        ≡ ok (false, fs', e', read raw fs' (entry_sector fs' n), n)
      → grow raw k fs e ≡ ok (success, with_entry raw fs' n end_value, e')
  unfolding grow grow_loop
  grow_end k fs fs' e e' c n l g =
      let finish : Bool × Volume × Entry × (ℕ → ℕ) × ℕ → Run (ℕ × Volume × Entry) = λ x. ok (
        if x.0 then failure else success,
        write x.1 (entry_sector x.1 x.4) (int_to_bytes end_value x.3 (entry_offset x.1 x.4)),
        x.2,
      ) in
      ap
        (λ o. need o >>= λ current.
          grow_loop raw k fs e (read raw fs (entry_sector fs current)) current >>= finish)
        l
      ∙ ap (λ r. r >>= finish) g
