-- ===== src/Fat32/Table/Places.antt =====
-- The places of the entries of the file allocation table, and an entry that is written, in
-- src/fs/fat32/entry_helpers.cpp.
use native.Mathlib.Nat.{mul-div-mul_left, mod-eq-sub-mul-div, mod-lt, div-add-mod}
use native.Mathlib.Decide.{dec_lt}
use mathlib.Core.Path.{subst}
use cros_kernel.Base.{
  ltb, true, false, refl, ℕ, ◌+◌, ◌*◌, ◌/◌, ◌%◌, ◌^◌, ◌≤◌, ◌<◌, ◌≡◌, ◌≢◌, sym, ◌∙◌, ap, ◌⊎◌, inl,
  inr, ◌==◌, if◌then◌else◌, Bool-cases, arith,
}
use cros_kernel.Fat32.Bytes.{int_to_bytes, int_round_trip, bytes_to_int-same}
use cros_kernel.Fat32.Disk.{read_sector-write_sector}
use cros_kernel.Fat32.Table.{
  Volume, entry_byte, entry_sector, entry_offset, read, write, clusters_per_fat,
}
use cros_kernel.Fat32.Table.Free.{entry_value}

-- The table's entries are four bytes each, a sector has a whole number of them, and the table lies
-- in the first 2 ^ 31 bytes, which an `int` can count.
pub record IsTable (fs : Volume) : Type 0 where
  pub per_sector : ℕ
  pub some_entries : 1 ≤ per_sector
  pub sector_is : fs.bytes_per_sector ≡ 4 * per_sector
  pub disk_is : fs.di.bytes_per_sector ≡ fs.bytes_per_sector
  pub entry_is : fs.bytes_per_fat_entry ≡ 4
  pub room : fs.reserved_sectors * fs.bytes_per_sector + clusters_per_fat fs * 4 ≤ 2 ^ 31

-- the place of an entry, counted in entries
entry_place : (m x : ℕ) → 1 ≤ m → (4 * x / (4 * m) ≡ x / m) × (4 * x % (4 * m) ≡ 4 * (x % m))
entry_place m x pos =
    let d = mul-div-mul_left {m = 4} x m (omega arith) in
    let e = mod-eq-sub-mul-div (4 * x) (4 * m) in
    let f = mod-eq-sub-mul-div x m in (d, grind (arith, d, e, f))

four_out : (a m : ℕ) → a * (4 * m) ≡ 4 * (a * m)
four_out a m = grind arith

-- Different entries of one sector do not overlap, and none crosses the end of its sector.
entries_apart :
    (fs : Volume) (t : IsTable fs) (i : ℕ)
    → i < clusters_per_fat fs
    → let m = t.per_sector in
      let x = fs.reserved_sectors * m + i in
      (entry_sector fs i ≡ x / m)
      × (entry_offset fs i ≡ 4 * (x % m))
      × (fs.di.bytes_per_sector * (x / m) < 2 ^ 32)
entries_apart fs t i lt =
    let m = t.per_sector in
    let x = fs.reserved_sectors * m + i in
    let p : fs.reserved_sectors * fs.bytes_per_sector ≡ 4 * (fs.reserved_sectors * m) =
      ap (λ y. fs.reserved_sectors * y) t.sector_is ∙ four_out fs.reserved_sectors m in
    let q : i * fs.bytes_per_fat_entry ≡ i * 4 = ap (λ y. i * y) t.entry_is in
    let b : entry_byte fs i ≡ 4 * x = omega (arith, p, q, t.room, lt) in
    let (d, e) = entry_place m x t.some_entries in
    let low : ltb (entry_byte fs i) (2 ^ 31) ≡ true = ground (arith, b, p, t.room, lt) in
    let start : fs.di.bytes_per_sector * (x / m) ≡ 4 * (m * (x / m)) =
      ap (λ y. y * (x / m)) (t.disk_is ∙ t.sector_is) ∙ grind arith in
    (
      rw low refl ∙ ap (λ y. y / fs.bytes_per_sector) b ∙ ap (λ y. 4 * x / y) t.sector_is ∙ d,
      rw low refl ∙ ap (λ y. y % fs.bytes_per_sector) b ∙ ap (λ y. 4 * x % y) t.sector_is ∙ e,
      omega (arith, start, div-add-mod x m, p, t.room, lt),
    )

-- an entry of the table with a new value
abbrev pub with_entry : (ℕ → ℕ) → Volume → ℕ → ℕ → Volume
with_entry raw fs c v =
    write fs (entry_sector fs c)
      (int_to_bytes v (read raw fs (entry_sector fs c)) (entry_offset fs c))

-- Different numbers with one quotient have different remainders.
remainders_apart : (m x y : ℕ) → x / m ≡ y / m → x ≢ y → (x % m < y % m) ⊎ (y % m < x % m)
remainders_apart m x y e ne = elim (dec_lt (x % m) (y % m)) [
  | yes l ↦ inl l
  | no l ↦ elim (dec_lt (y % m) (x % m)) [
    | yes g ↦ inr g
    | no g ↦
        let p = ap (λ q. m * q) e in
        let same : x % m ≡ y % m = omega arith in
        absurd (
          ne (
            sym (div-add-mod x m)
            ∙ ap (λ q. q + x % m) p
            ∙ ap (λ r. m * (y / m) + r) same
            ∙ div-add-mod y m))
  ]
]

==-true : (a b : ℕ) → (a == b) ≡ true → a ≡ b
==-true a b e = ground arith

==-false : (a b : ℕ) → (a == b) ≡ false → a ≢ b
==-false a b e = ground arith

-- Writing an entry of the table in its sector changes that entry and no other.
pub entry_value-with_entry :
    (raw : ℕ → ℕ) (fs : Volume) (c v : ℕ)
    → IsTable fs
    → c < clusters_per_fat fs
    → v < 2 ^ 32
    → (i : ℕ) → i < clusters_per_fat fs
    → entry_value raw (with_entry raw fs c v) i ≡ (if i == c then v else entry_value raw fs i)
entry_value-with_entry raw fs c v t in_c small i in_i =
    let m = t.per_sector in
    let xi = fs.reserved_sectors * m + i in
    let xc = fs.reserved_sectors * m + c in
    let (si, oi, low_i) = entries_apart fs t i in_i in
    let (sc, oc, low_c) = entries_apart fs t c in_c in
    let buffer = int_to_bytes v (read raw fs (entry_sector fs c)) (entry_offset fs c) in
    let (back, others) =
      int_round_trip v (read raw fs (entry_sector fs c)) (entry_offset fs c) small in
    let in_sector : (x : ℕ) → 4 * (x % m) + 4 ≤ fs.di.bytes_per_sector =
      λ x. omega (arith, t.disk_is, t.sector_is, mod-lt x t.some_entries) in
    let written : (k j : ℕ)
        → j < fs.di.bytes_per_sector
        → (read raw (with_entry raw fs c v) (entry_sector fs c) j ≡ buffer j)
          × (k ≢ entry_sector fs c
              → fs.di.bytes_per_sector * k < 2 ^ 32
              → read raw (with_entry raw fs c v) k j ≡ read raw fs k j) =
      λ k j lt.
        let (x, y) = read_sector-write_sector raw fs.di (entry_sector fs c) buffer j lt in
        (
          x,
          λ ne low_k.
              y k ne low_k (subst (λ q. fs.di.bytes_per_sector * q < 2 ^ 32) (sym sc) low_c),
        ) in
    elim (Bool-cases (i == c)) [
      | inl e ↦
          let q : i ≡ c = ==-true i c e in
          rw e (
            ap (entry_value raw (with_entry raw fs c v)) q
            ∙ bytes_to_int-same buffer (read raw (with_entry raw fs c v) (entry_sector fs c))
                (entry_offset fs c) (λ j a b. (written 0 j (omega (arith, oc, in_sector xc))).0)
            ∙ back)
      | inr e ↦ rw e (elim (Bool-cases (entry_sector fs i == entry_sector fs c)) [
        | inl s ↦
            let same : entry_sector fs i ≡ entry_sector fs c = ==-true _ _ s in
            let x_ne : xi ≢ xc = λ z. ==-false i c e (omega arith) in
            let apart = remainders_apart m xi xc (sym si ∙ same ∙ sc) x_ne in
            bytes_to_int-same (read raw fs (entry_sector fs i))
              (read raw (with_entry raw fs c v) (entry_sector fs i)) (entry_offset fs i)
              (λ j a b.
                ap (λ k. read raw (with_entry raw fs c v) k j) same
                ∙ (written 0 j (omega (arith, oi, in_sector xi))).0
                ∙ others j (elim apart [
                  | inl l ↦ inl (omega (arith, oi, oc))
                  | inr l ↦ inr (omega (arith, oi, oc))
                ])
                ∙ ap (λ k. read raw fs k j) (sym same))
        | inr s ↦
            let ne : entry_sector fs i ≢ entry_sector fs c = ==-false _ _ s in
            bytes_to_int-same (read raw fs (entry_sector fs i))
              (read raw (with_entry raw fs c v) (entry_sector fs i)) (entry_offset fs i)
              (λ j a b.
                (written (entry_sector fs i) j (omega (arith, oi, in_sector xi))).1 ne
                  (subst (λ q. fs.di.bytes_per_sector * q < 2 ^ 32) (sym si) low_i))
      ])
    ]
