-- ===== src/Fat32/Reader.antt =====
-- src/fs/fat32/filecontextfat32.cpp: reading a file through the sectors that the file system gives.
-- The file system is used through `file_size` and `read_file` at the context's path, and through its
-- sector size; memory is a function from addresses to bytes. `n` is an `int` that is not negative.
pub mod Sectors
use cros_kernel.Base.{
  ℕ, zero, suc, ◌+◌, ◌-◌, ◌/◌, ◌%◌, ◌≤◌, ◌<◌, ◌≡◌, refl, ◌≢◌, ◌⊎◌, inl, inr, min, Bool, true, false,
  ltb, leb, ◌==◌, if◌then◌else◌, Option, none, some, ℤ, pos, update, Run, ok, out_of_fuel, ◌>>=◌,
  arith, Bool-cases,
}
use cros_kernel.Status.{eio, eeof}

-- What the context uses of the file system, at its path.
pub record Source : Type 0 where
  pub sector_size : ℕ
  pub file_size : Option ℕ
  pub read_file : ℕ → Option (ℕ → ℕ)

-- `memcpy`, byte after byte, on the bytes left
unfoldable pub copy_bytes : ℕ → (ℕ → ℕ) → ℕ → (ℕ → ℕ) → ℕ → ℕ → ℕ
copy_bytes zero dest d from s = dest
copy_bytes (suc k) dest d from s = copy_bytes k (update dest d (from s)) (d + 1) from (s + 1)

-- the number of bytes of one round: `n` or the rest of the sector
abbrev pub chunk : ℕ → ℕ → ℕ → ℕ
chunk size position n = let left = size - position % size in if ltb left n then left else n

-- The loop of `read`, on fuel: the bytes copied, the caller's buffer and the position. The sector is
-- read again in every round, as `lastSector` keeps its first value, -1. A round that cannot read
-- its sector ends the loop.
pub read_loop : ℕ → Source → ℕ → ℕ → (ℕ → ℕ) → ℕ → Run (ℕ × (ℕ → ℕ) × ℕ)
read_loop zero fs n count buffer position = out_of_fuel
read_loop (suc fuel) fs n count buffer position =
    if leb n count
    then ok (count, buffer, position)
    else elim (fs.read_file (position / fs.sector_size)) [
      | none ↦ ok (count, buffer, position)
      | some sector ↦
          let c = chunk fs.sector_size position n in
          read_loop fuel fs n (count + c)
            (copy_bytes c buffer count sector (position % fs.sector_size)) (position + c)
    ]

-- `read(buffer, n)` behind the call of `file_size`
pub read_sized : Option ℕ → ℕ → Source → ℕ → (ℕ → ℕ) → ℕ → Run (ℤ × (ℕ → ℕ) × ℕ)
read_sized none fuel fs n buffer position = ok (eio, buffer, position)
read_sized (some size) fuel fs n buffer position =
    if leb size position
    then ok (eeof, buffer, position)
    else (read_loop fuel fs (if ltb size (position + n) then size - position else n) 0 buffer
          position
        >>= λ (count, buffer', position'). ok (pos count, buffer', position'))

-- `read(buffer, n)` at a position: the result, the caller's buffer and the next position
pub read : ℕ → Source → ℕ → (ℕ → ℕ) → ℕ → Run (ℤ × (ℕ → ℕ) × ℕ)
read fuel fs n buffer position = read_sized fs.file_size fuel fs n buffer position
