-- ===== src/Fat32/Table/Free.antt =====
-- The search for a free cluster, `find_free_cluster` of src/fs/fat32/entry_helpers.cpp.
use mathlib.Core.Path.{subst}
use cros_kernel.Base.{
  ℕ, zero, suc, ◌+◌, ◌-◌, ◌≤◌, ◌<◌, ◌≡◌, refl, sym, ap, ◌⊎◌, inl, inr, Bool, true, false, ◌==◌,
  if◌then◌else◌, Bool-cases, arith,
}
use cros_kernel.Fat32.Bytes.{bytes_to_int}
use cros_kernel.Fat32.Table.{
  Volume, check_fat_entry_type, is_free, entry_sector, entry_offset, read, free_loop,
  find_free_cluster, clusters_per_fat,
}

module _ (raw : ℕ → ℕ) (fs : Volume) where
  -- the entry of the table, as the functions that allocate read it
  abbrev pub entry_value : ℕ → ℕ
  entry_value cluster =
      bytes_to_int (read raw fs (entry_sector fs cluster)) (entry_offset fs cluster)

  abbrev pub is_free_cluster : ℕ → Bool
  is_free_cluster cluster = is_free (check_fat_entry_type fs (entry_value cluster))

  -- The first free cluster of a range, or 0.
  abbrev pub IsFirstFree : ℕ → ℕ → ℕ → Type 0
  IsFirstFree first limit r =
      ((r ≡ 0) × ((i : ℕ) → first ≤ i → i < limit → is_free_cluster i ≡ false))
      ⊎ ((first ≤ r)
          × (r < limit)
          × (is_free_cluster r ≡ true)
          × ((i : ℕ) → first ≤ i → i < r → is_free_cluster i ≡ false))

  -- The buffer is that of the next entry's sector, whether it is read again or not.
  next_buffer :
      (current : ℕ)
      → (if entry_sector fs (current + 1) == entry_sector fs current
          then read raw fs (entry_sector fs current)
          else read raw fs (entry_sector fs (current + 1)))
        ≡ read raw fs (entry_sector fs (current + 1))
  next_buffer current =
      elim (Bool-cases (entry_sector fs (current + 1) == entry_sector fs current)) [
        | inl e ↦
            let same : entry_sector fs current ≡ entry_sector fs (current + 1) = ground arith in
            rw e (ap (read raw fs) same)
        | inr e ↦ rw e refl
      ]

  free_round :
      (n current : ℕ)
      → free_loop raw (suc n) fs (read raw fs (entry_sector fs current)) current ≡ (
          if is_free_cluster current
          then current
          else free_loop raw n fs (read raw fs (entry_sector fs (current + 1))) (current + 1))
  unfolding free_loop
  free_round n current =
      ap (λ b. if is_free_cluster current then current else free_loop raw n fs b (current + 1))
        (next_buffer current)

  free_from :
      (current j : ℕ)
      → is_free_cluster current ≡ false
      → ((i : ℕ) → current + 1 ≤ i → i < j → is_free_cluster i ≡ false)
      → (i : ℕ) → current ≤ i
      → i < j
      → is_free_cluster i ≡ false
  free_from current j e rest i a b = elim (Bool-cases (current == i)) [
    | inl x ↦ let same : current ≡ i = ground arith in subst (λ k. is_free_cluster k ≡ false) same e
    | inr x ↦ rest i (ground arith) b
  ]

  -- an entry in front that is not free
  IsFirstFree-cons :
      (n current r : ℕ)
      → is_free_cluster current ≡ false
      → IsFirstFree (current + 1) (current + 1 + n) r
      → IsFirstFree current (current + suc n) r
  IsFirstFree-cons n current r e (inl (z, rest)) =
      inl (z, free_from current (current + suc n) e (λ i a b. rest i a (omega arith)))
  IsFirstFree-cons n current r e (inr (a, b, f, rest)) =
      inr (omega arith, omega arith, f, free_from current r e rest)

  free_loop-IsFirstFree :
      (n current : ℕ)
      → IsFirstFree current
          (current + n)
          (free_loop raw n fs (read raw fs (entry_sector fs current)) current)
  unfolding free_loop
  free_loop-IsFirstFree zero current = inl (refl, λ i a b. absurd (omega arith))
  free_loop-IsFirstFree (suc n) current =
      subst (IsFirstFree current (current + suc n)) (sym (free_round n current))
        (elim (Bool-cases (is_free_cluster current)) [
          | inl e ↦ rw e (inr (omega arith, omega arith, e, λ i a b. absurd (omega arith)))
          | inr e ↦ rw e (IsFirstFree-cons n current _ e (free_loop-IsFirstFree n (current + 1)))
        ])

  -- `find_free_cluster` ends, and returns the first cluster from 2 on whose entry is free, below the
  -- number that it takes for that of the clusters, and 0, the failure, just where none is.
  pub find_free_cluster-IsFirstFree :
      2 ≤ clusters_per_fat fs → IsFirstFree 2 (clusters_per_fat fs) (find_free_cluster raw fs)
  unfolding find_free_cluster
  find_free_cluster-IsFirstFree h =
      let e : 2 + (clusters_per_fat fs - 2) ≡ clusters_per_fat fs = omega arith in
      subst (λ x. IsFirstFree 2 x (find_free_cluster raw fs)) e
        (free_loop-IsFirstFree (clusters_per_fat fs - 2) 2)
