-- ===== src/Fat32/Table/Grow/Twice.antt =====
-- Allocating one cluster, and two at once, with `allocate_more_clusters` of
-- src/fs/fat32/entry_helpers.cpp.
use mathlib.Core.Path.{subst}
use native.Mathlib.Decide.{dec_lt}
use cros_kernel.Base.{
  ℕ, suc, ◌/◌, ◌%◌, ◌^◌, ◌≤◌, ◌<◌, ◌≡◌, ◌≢◌, refl, ◌∙◌, ap, inl, inr, Bool, true, false, ltb, ◌==◌,
  if◌then◌else◌, Bool-cases, arith, some, List, [], ◌∷◌, ok,
}
use cros_kernel.Fat32.Table.{
  Volume, Entry, allocated, defective, reserved_mark, file, check_fat_entry_type, is_free,
  clusters_per_fat, find_free_cluster, push_back, last_of, end_value, success,
}
use cros_kernel.Fat32.Table.Grow.{grow_loop, grow, allocate_more_clusters}
use cros_kernel.Fat32.Table.Free.{
  entry_value, is_free_cluster, IsFirstFree, find_free_cluster-IsFirstFree,
}
use cros_kernel.Fat32.Table.Places.{IsTable, with_entry, entry_value-with_entry}
use cros_kernel.Fat32.Table.Grow.Rounds.{IsTable-with_entry, grow_round, grow_end}

module _ (raw : ℕ → ℕ) where
  -- what the allocation of a cluster to a file starts from
  pub record Grows (fs : Volume) (e : Entry) (c n : ℕ) : Type 0 where
    pub table : IsTable fs
    pub is_file : e.type ≡ file
    pub last : last_of e.fat_allocations ≡ some c
    pub last_in : c < clusters_per_fat fs
    pub last_used : is_free_cluster raw fs c ≡ false
    pub room : 2 ≤ clusters_per_fat fs
    pub small : clusters_per_fat fs ≤ 2 ^ 28
    pub next : find_free_cluster raw fs ≡ n
    pub found : n ≢ 0

  found_free :
      (fs : Volume) (e : Entry) (c n : ℕ)
      → Grows fs e c n
      → (2 ≤ n)
        × (n < clusters_per_fat fs)
        × (is_free_cluster raw fs n ≡ true)
        × ((i : ℕ) → 2 ≤ i → i < n → is_free_cluster raw fs i ≡ false)
  found_free fs e c n g =
      elim (subst (IsFirstFree raw fs 2 (clusters_per_fat fs)) g.next
        (find_free_cluster-IsFirstFree raw fs g.room)) [
          | inl (z, _) ↦ absurd (g.found z)
          | inr r ↦ r
        ]

  other_than_last : (fs : Volume) (e : Entry) (c n : ℕ) (g : Grows fs e c n) → n ≢ c
  other_than_last fs e c n g q =
      let (_, _, f, _) = found_free fs e c n g in
      let f' = subst (λ x. is_free_cluster raw fs x ≡ true) q f in let u = g.last_used in cc

  started :
      {A : Type 0} (xs : List ℕ) (c : ℕ) (a b : A)
      → last_of xs ≡ some c
      → (elim xs [ [] ↦ a | y ∷ ys ↦ b ]) ≡ b
  started [] c a b l = absurd cc
  started (y ∷ ys) c a b l = refl

  -- An entry that has a cluster starts from its last one.
  allocate_from_last :
      (k : ℕ) (fs : Volume) (e : Entry) (c : ℕ)
      → last_of e.fat_allocations ≡ some c
      → allocate_more_clusters raw (suc k) fs e ≡ grow raw (suc k) fs e
  unfolding allocate_more_clusters
  allocate_from_last k fs e c l =
      let z : (suc k == 0) ≡ false = ground arith in
      rw z (started e.fat_allocations c _ (grow raw (suc k) fs e) l)

  -- `allocate_more_clusters(1)` on a file whose last cluster is `c`, in a table with a free entry: it
  -- succeeds, takes the first free cluster, writes its number into the entry of the last cluster and
  -- the end mark into its own, and leaves every other entry of the table.
  pub allocate_one :
      (fs : Volume) (e : Entry) (c n : ℕ)
      → Grows fs e c n
      → (fs' : Volume) × (allocate_more_clusters raw 1 fs e ≡ ok (success, fs', push_back n e))
        × ((i : ℕ)
            → i < clusters_per_fat fs
            → entry_value raw fs' i
              ≡ (if i == n then end_value else if i == c then n else entry_value raw fs i))
  unfolding grow_loop
  allocate_one fs e c n g =
      let (low, high, _, _) = found_free fs e c n g in
      let fs1 = with_entry raw fs c n in
      (
        with_entry raw fs1 n end_value,
        allocate_from_last 0 fs e c g.last
            ∙ grow_end raw 1 fs fs1 e (push_back n e) c n g.last
                (grow_round raw 0 fs e c n g.is_file g.next g.found),
        λ i lt.
            entry_value-with_entry raw fs1 n end_value (IsTable-with_entry raw fs c n g.table) high
              (omega arith) i lt
            ∙ ap (λ v. if i == n then end_value else v)
                (entry_value-with_entry raw fs c n g.table g.last_in (omega (arith, g.small)) i lt),
      )

  in_use :
      (d l : Bool)
      → is_free (if d then defective else if l then allocated else reserved_mark) ≡ false
  in_use true l = refl
  in_use false true = refl
  in_use false false = refl

  -- a cluster's number is not the mark of a free entry
  number_used :
      (fs : Volume) (n : ℕ) → n ≢ 0 → n < 2 ^ 28 → is_free (check_fat_entry_type fs n) ≡ false
  unfolding check_fat_entry_type
  number_used fs n ne lt =
      let z : (n == 4294967295) ≡ false = ground arith in
      let m : n % 2 ^ 28 ≡ n = omega arith in
      let y : (n == 0) ≡ false = ground arith in
      rw (z, m, y) (in_use (n == 268435454) (ltb n (fs.total_sectors / fs.sectors_per_cluster)))

  free_as_before :
      (fs : Volume) (e : Entry) (c n : ℕ)
      → Grows fs e c n
      → (i : ℕ) → i < clusters_per_fat fs
      → is_free_cluster raw (with_entry raw fs c n) i
        ≡ (if i == c then false else is_free_cluster raw fs i)
  unfolding check_fat_entry_type
  free_as_before fs e c n g i lt =
      let (low, high, _, _) = found_free fs e c n g in
      let v = entry_value-with_entry raw fs c n g.table g.last_in (omega (arith, g.small)) i lt in
      ap (λ x. is_free (check_fat_entry_type fs x)) v ∙ elim (Bool-cases (i == c)) [
        | inl p ↦ rw p (number_used fs n g.found (omega (arith, g.small)))
        | inr p ↦ rw p refl
      ]

  -- The entry of the cluster that was taken is still free, so it is found again.
  found_again :
      (fs : Volume) (e : Entry) (c n : ℕ)
      → Grows fs e c n
      → find_free_cluster raw (with_entry raw fs c n) ≡ n
  found_again fs e c n g =
      let fs1 = with_entry raw fs c n in
      let (low, high, f, before) = found_free fs e c n g in
      let free = free_as_before fs e c n g in
      let ne = other_than_last fs e c n g in
      let n_free : is_free_cluster raw fs1 n ≡ true =
        let q : (n == c) ≡ false = ground arith in
        free n high ∙ ap (λ b. if b then false else is_free_cluster raw fs n) q ∙ f in
      let not_before : (i : ℕ) → 2 ≤ i → i < n → is_free_cluster raw fs1 i ≡ false = λ i a b.
        free i (omega arith)
        ∙ elim (Bool-cases (i == c)) [ inl p ↦ rw p refl | inr p ↦ rw p (before i a b) ] in
      elim (find_free_cluster-IsFirstFree raw fs1 g.room) [
        | inl (_, none_free) ↦ let x = none_free n low high in absurd cc
        | inr (a, b, r_free, r_before) ↦
            let r = find_free_cluster raw fs1 in
            elim (dec_lt r n) [
              | yes l ↦ let x = not_before r a l in absurd cc
              | no l ↦ elim (dec_lt n r) [
                | yes m ↦ let x = r_before n low m in absurd cc
                | no m ↦ omega arith
              ]
            ]
      ]

  -- `allocate_more_clusters(2)` on a file: the entry of the first cluster that is taken is still free
  -- when the second is looked for, so the call succeeds with the same cluster twice.
  pub allocate_two :
      (fs : Volume) (e : Entry) (c n : ℕ)
      → Grows fs e c n
      → (fs' : Volume) × (allocate_more_clusters raw 2 fs e
          ≡ ok (success, fs', push_back n (push_back n e)))
        × (entry_value raw fs' c ≡ n)
        × (entry_value raw fs' n ≡ end_value)
  unfolding grow_loop
  allocate_two fs e c n g =
      let (low, high, _, _) = found_free fs e c n g in
      let fs1 = with_entry raw fs c n in
      let fs2 = with_entry raw fs1 n n in
      let t1 = IsTable-with_entry raw fs c n g.table in
      let t2 = IsTable-with_entry raw fs1 n n t1 in
      let small : n < 2 ^ 32 = omega (arith, g.small) in
      let ne : (c == n) ≡ false = let x = other_than_last fs e c n g in ground arith in
      let self : (n == n) ≡ true = ground arith in
      let self_c : (c == c) ≡ true = ground arith in
      (
        with_entry raw fs2 n end_value,
        allocate_from_last 1 fs e c g.last
            ∙ grow_end raw 2 fs fs2 e (push_back n (push_back n e)) c n g.last (
                grow_round raw 1 fs e c n g.is_file g.next g.found
                ∙ grow_round raw 0 fs1 (push_back n e) n n g.is_file (found_again fs e c n g)
                    g.found),
        entry_value-with_entry raw fs2 n end_value t2 high (omega arith) c g.last_in
            ∙ ap (λ b. if b then end_value else entry_value raw fs2 c) ne
            ∙ entry_value-with_entry raw fs1 n n t1 high small c g.last_in
            ∙ ap (λ b. if b then n else entry_value raw fs1 c) ne
            ∙ entry_value-with_entry raw fs c n g.table g.last_in small c g.last_in
            ∙ ap (λ b. if b then n else entry_value raw fs c) self_c,
        entry_value-with_entry raw fs2 n end_value t2 high (omega arith) n high
            ∙ ap (λ b. if b then end_value else entry_value raw fs2 n) self,
      )
