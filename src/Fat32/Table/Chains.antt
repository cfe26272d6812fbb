-- ===== src/Fat32/Table/Chains.antt =====
-- The clusters that `find_cluster_allocations` of src/fs/fat32/entry_helpers.cpp finds.
use native.Mathlib.Nat.{mul-div_cancel}
use mathlib.Core.Path.{subst}
use cros_kernel.Base.{
  ℕ, zero, suc, ◌+◌, ◌-◌, ◌*◌, ◌/◌, ◌%◌, ◌^◌, ◌≤◌, ◌≡◌, ◌≢◌, refl, ◌∙◌, ap, Bool, true, false, not,
  ◌&&◌, ◌==◌, if◌then◌else◌, Option, none, some, List, [], ◌∷◌, ◌++◌, length, get_elem?, Bool-cases,
  inl, inr, arith, ok, ◌>>=◌,
}
use cros_kernel.Fat32.Bytes.{bytes_to_int}
use cros_kernel.Fat32.Table.{
  Volume, FatEntryType, file, check_fat_entry_type, is_allocated, fat_sector, fat_offset, read,
  find_loop, find_cluster_allocations, read_data, end_value, fat_entry_to_cluster_offset,
}

last_elem : (xs : List ℕ) (y : ℕ) → get_elem? (xs ++ y ∷ []) (length xs) ≡ some y
last_elem [] y = refl
last_elem (x ∷ xs) y = last_elem xs y

module _ (raw : ℕ → ℕ) (fs : Volume) where
  -- the entry of the table
  abbrev pub fat_value : ℕ → ℕ
  fat_value cluster = bytes_to_int (read raw fs (fat_sector fs cluster)) (fat_offset fs cluster)

  abbrev pub is_cluster : ℕ → Bool
  is_cluster value = is_allocated (check_fat_entry_type fs value)

  -- The entry of each cluster is the number of the next one, that of the last is no cluster's.
  abbrev pub IsChain : ℕ → List ℕ → ℕ → Type 0
  IsChain c [] stop = (fat_value c ≡ stop) × (is_cluster stop ≡ false)
  IsChain c (d ∷ ds) stop = (fat_value c ≡ d) × (is_cluster d ≡ true) × IsChain d ds stop

  -- a round of the loop at a cluster whose entry is `next`
  round :
      (fuel current next : ℕ) (type : FatEntryType)
      → is_allocated type ≡ true
      → fat_value current ≡ next
      → find_loop raw
          (suc fuel)
          fs
          (read raw fs (fat_sector fs current))
          (fat_sector fs current)
          current
          type
        ≡ (find_loop raw fuel fs
              (if is_cluster next && not (fat_sector fs next == fat_sector fs current)
                then read raw fs (fat_sector fs next)
                else read raw fs (fat_sector fs current))
              (fat_sector fs next)
              next
              (check_fat_entry_type fs next)
            >>= λ found. ok (current ∷ found))
  unfolding find_loop
  round fuel current next type a e = rw a (
      ap
        (λ n.
          find_loop raw fuel fs
            (if is_cluster n && not (fat_sector fs n == fat_sector fs current)
              then read raw fs (fat_sector fs n)
              else read raw fs (fat_sector fs current))
            (fat_sector fs n) n (check_fat_entry_type fs n)
          >>= λ found. ok (current ∷ found))
        e)

  -- The buffer is that of the next cluster's sector, whether it is read again or not.
  buffer_of :
      (next current : ℕ)
      → is_cluster next ≡ true
      → (if is_cluster next && not (fat_sector fs next == fat_sector fs current)
          then read raw fs (fat_sector fs next)
          else read raw fs (fat_sector fs current))
        ≡ read raw fs (fat_sector fs next)
  buffer_of next current a = elim (Bool-cases (fat_sector fs next == fat_sector fs current)) [
    | inl e ↦
        let same : fat_sector fs current ≡ fat_sector fs next = ground arith in
        rw (a, e) (ap (read raw fs) same)
    | inr e ↦ rw (a, e) refl
  ]

  -- The last round: it finds a value that is no cluster's, and keeps it.
  last_round :
      (fuel sector stop : ℕ) (buffer : ℕ → ℕ)
      → is_cluster stop ≡ false
      → find_loop raw (suc fuel) fs buffer sector stop (check_fat_entry_type fs stop)
        ≡ ok (stop ∷ [])
  unfolding find_loop
  last_round fuel sector stop buffer n = rw n refl

  find_loop-IsChain :
      (ds : List ℕ) (fuel current stop : ℕ) (type : FatEntryType)
      → is_allocated type ≡ true
      → IsChain current ds stop
      → length ds + 2 ≤ fuel
      → find_loop raw fuel fs
          (read raw fs (fat_sector fs current))
          (fat_sector fs current)
          current
          type
        ≡ ok (current ∷ ds ++ stop ∷ [])
  find_loop-IsChain ds zero current stop type a c h = absurd (omega arith)
  find_loop-IsChain [] (suc zero) current stop type a c h = absurd (omega arith)
  find_loop-IsChain [] (suc (suc fuel)) current stop type a c h =
      round (suc fuel) current stop type a c.0
      ∙ ap (λ r. r >>= λ found. ok (current ∷ found)) (last_round fuel _ stop _ c.1)
  find_loop-IsChain (d ∷ ds) (suc fuel) current stop type a c h =
      round fuel current d type a c.0
      ∙ ap
          (λ b. find_loop raw fuel fs b (fat_sector fs d) d (check_fat_entry_type fs d) >>= λ found.
            ok (current ∷ found))
          (buffer_of d current c.1)
      ∙ ap (λ r. r >>= λ found. ok (current ∷ found))
          (find_loop-IsChain ds fuel d stop (check_fat_entry_type fs d) c.1 c.2 (omega arith))

  -- what is found of a chain
  abbrev pub found_of : ℕ → List ℕ → ℕ → List ℕ
  found_of c [] stop = c ∷ []
  found_of c (d ∷ ds) stop = c ∷ d ∷ ds ++ stop ∷ []

  found_from :
      (fuel c : ℕ) (ds : List ℕ) (stop : ℕ)
      → IsChain c ds stop
      → length ds + 2 ≤ fuel
      → find_loop raw fuel fs
          (read raw fs (fat_sector fs c))
          (fat_sector fs c)
          c
          (check_fat_entry_type fs (fat_value c))
        ≡ ok (found_of c ds stop)
  unfolding find_loop
  found_from zero c ds stop chain h = absurd (omega arith)
  found_from (suc fuel) c [] stop chain h = rw (ap is_cluster chain.0 ∙ chain.1) refl
  found_from (suc fuel) c (d ∷ ds) stop chain h =
      find_loop-IsChain (d ∷ ds) (suc fuel) c stop _ (ap is_cluster chain.0 ∙ chain.1) chain h

  -- `find_cluster_allocations` follows a chain of the table to its end, with more fuel than the chain
  -- has clusters: a chain of one cluster gives that cluster; but one of two clusters or more gives
  -- the clusters and the value that marks the end, as if that were a cluster too.
  pub find_cluster_allocations-IsChain :
      (fuel c : ℕ) (ds : List ℕ) (stop : ℕ)
      → c ≢ 0
      → IsChain c ds stop
      → length ds + 2 ≤ fuel
      → find_cluster_allocations raw fuel fs c ≡ ok (found_of c ds stop)
  unfolding find_cluster_allocations
  find_cluster_allocations-IsChain fuel c ds stop ne chain h =
      let z : (c == 0) ≡ false = ground arith in rw z (found_from fuel c ds stop chain h)

  -- The value 0xFFFFFFFF that ends a chain of two clusters or more counts as a cluster: a read of the
  -- first sector behind the clusters of the file, which the code means to refuse, reads a sector of
  -- the third cluster in front of the data region.
  pub read_data_past :
      (c d : ℕ) (ds : List ℕ)
      → fs.reserved_fat_entries ≡ 2
      → 1 ≤ fs.sectors_per_cluster
      → 3 ≤ fs.data_region_start_cluster_offset
      → fs.data_region_start_cluster_offset ≤ 2 ^ 31
      → read_data raw fs file
          (found_of c (d ∷ ds) end_value)
          ((length ds + 2) * fs.sectors_per_cluster)
        ≡ some (
            read raw fs (
              (fs.data_region_start_cluster_offset - 3) * fs.sectors_per_cluster
              + (length ds + 2) * fs.sectors_per_cluster % fs.sectors_per_cluster))
  unfolding read_data
  read_data_past c d ds two pos low high =
      let n = length ds in
      let w = fs.sectors_per_cluster in
      let index : (n + 2) * w / w ≡ n + 2 = mul-div_cancel (n + 2) pos in
      let count : suc (suc n) ≡ n + 2 = omega arith in
      let there : get_elem? (c ∷ d ∷ ds ++ end_value ∷ []) (n + 2) ≡ some end_value =
        subst (λ k. get_elem? (c ∷ d ∷ ds ++ end_value ∷ []) k ≡ some end_value) count
          (last_elem ds end_value) in
      let place : fat_entry_to_cluster_offset fs end_value
          ≡ fs.data_region_start_cluster_offset - 3 =
        omega (arith, two) in
      let at : Option ℕ → Option (ℕ → ℕ) = λ o. elim o [
        | none ↦ none
        | some cluster ↦
            some (read raw fs (fat_entry_to_cluster_offset fs cluster * w + (n + 2) * w % w))
      ] in
      ap (λ i. at (get_elem? (c ∷ d ∷ ds ++ end_value ∷ []) i)) index
      ∙ ap at there
      ∙ ap (λ x. some (read raw fs (x * w + (n + 2) * w % w))) place
