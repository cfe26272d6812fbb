-- ===== src/Fat32/Names/Entries/Search.antt =====
-- The search for long names, `find_long_name_entries` of src/fs/fat32/entry_helpers.cpp, ends.
use native.Mathlib.Nat.{div-add-mod, mod-lt}
use cros_kernel.Base.{
  ℕ, zero, suc, ◌+◌, ◌-◌, ◌*◌, ◌/◌, ◌<◌, ◌≡◌, refl, ap, ltb, if◌then◌else◌, Bool-cases, inl, inr,
  [], arith,
}
use cros_kernel.Fat32.Table.{Volume}
use cros_kernel.Fat32.Names.{Named}
use cros_kernel.Fat32.Names.Entries.{find_long_name_entries, with_long_names, long_name_loop}

-- From the byte `search` on, any two numbers of rounds that pass the start of the disk find the same.
long_name_loop-enough :
    (raw behind : ℕ → ℕ) (n m : ℕ) (fs : Volume) (stop search : ℕ)
    → search < n * fs.bytes_per_dir_entry
    → search < m * fs.bytes_per_dir_entry
    → long_name_loop raw behind n fs stop search ≡ long_name_loop raw behind m fs stop search
unfolding long_name_loop
long_name_loop-enough raw behind zero m fs stop search a b = ground arith
long_name_loop-enough raw behind (suc n) zero fs stop search a b = ground arith
long_name_loop-enough raw behind (suc n) (suc m) fs stop search a b =
    elim (Bool-cases (ltb search fs.bytes_per_dir_entry)) [
      | inl y ↦ rw y refl
      | inr y ↦
          let x : search - fs.bytes_per_dir_entry < n * fs.bytes_per_dir_entry = grind arith in
          let z : search - fs.bytes_per_dir_entry < m * fs.bytes_per_dir_entry = grind arith in
          rw (long_name_loop-enough raw behind n m fs stop (search - fs.bytes_per_dir_entry) x z)
            refl
    ]

-- `find_long_name_entries` finds what the loop finds in any number of rounds that pass the start of the
-- disk, so the rounds that it is given are enough.
find_long_name_entries-enough :
    (raw behind : ℕ → ℕ) (n : ℕ) (fs : Volume) (e : Named)
    → 0 < fs.bytes_per_dir_entry
    → e.entry.byte_offset < n * fs.bytes_per_dir_entry
    → (find_long_name_entries raw behind fs e
        ≡ with_long_names raw behind
            (if ltb e.entry.byte_offset fs.bytes_per_dir_entry
              then []
              else long_name_loop raw behind n fs
                  (e.entry.byte_offset / fs.bytes_per_cluster)
                  (e.entry.byte_offset - fs.bytes_per_dir_entry))
            e)
unfolding find_long_name_entries
find_long_name_entries-enough raw behind n fs e pos lt =
    let b = e.entry.byte_offset in
    let k = fs.bytes_per_dir_entry in
    let d = div-add-mod b k in
    let r = mod-lt b pos in
    let rounds : b - k < (b / k + 1) * k = grind (arith, d, r) in
    ap (λ found. with_long_names raw behind (if ltb b k then [] else found) e)
      (long_name_loop-enough raw behind (b / k + 1) n fs (b / fs.bytes_per_cluster) (b - k) rounds
        (omega arith))
