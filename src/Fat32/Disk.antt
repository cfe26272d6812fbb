-- ===== src/Fat32/Disk.antt =====
-- src/fs/fat32/disk_interface/disk_interface.cpp: the sectors of a disk that stands in memory.
use native.Mathlib.Decide.{dec_lt}
use native.Mathlib.Nat.{mul-le-mul_left, mul-suc}
use cros_kernel.Base.{
  ℕ, ◌%◌, ◌^◌, ◌+◌, ◌*◌, ◌≤◌, ◌<◌, ◌≡◌, refl, sym, ap, ◌∙◌, ◌≢◌, inl, inr, arith,
}
use cros_kernel.Fat32.Reader.{copy_bytes}
use cros_kernel.Fat32.Reader.Sectors.{copy_bytes-in, copy_bytes-out}

-- The fields of `class DiskInterface` that the code uses.
pub record Disk : Type 0 where
  pub bytes_per_sector : ℕ
  pub disk : ℕ → ℕ

-- `offset`, an `int`: a number that is negative stands here with 2 ^ 32 more.
abbrev pub sector_offset : Disk → ℕ → ℕ
sector_offset d sector_index = d.bytes_per_sector * sector_index % 2 ^ 32

-- `read(sector_index)`, into a new buffer that holds `raw`
unfoldable pub read_sector : (ℕ → ℕ) → Disk → ℕ → ℕ → ℕ
read_sector raw d sector_index =
    copy_bytes d.bytes_per_sector raw 0 d.disk (sector_offset d sector_index)

-- `write(sector_index, buffer)`
pub write_sector : Disk → ℕ → (ℕ → ℕ) → Disk
write_sector d sector_index buffer = record d {
  disk = copy_bytes d.bytes_per_sector d.disk (sector_offset d sector_index) buffer 0;
}

pub write_sector_size :
    (d : Disk) (sector_index : ℕ) (buffer : ℕ → ℕ)
    → (write_sector d sector_index buffer).bytes_per_sector ≡ d.bytes_per_sector
unfolding write_sector
write_sector_size d sector_index buffer = refl

-- Two sectors do not meet.
sectors_apart : (n i k : ℕ) → i < k → n * i + n ≤ n * k
sectors_apart n i k lt = omega (arith, mul-le-mul_left n lt, mul-suc n i)

read_sector-byte :
    (raw : ℕ → ℕ) (d : Disk) (sector_index j : ℕ)
    → j < d.bytes_per_sector
    → read_sector raw d sector_index j ≡ d.disk (sector_offset d sector_index + j)
unfolding read_sector
read_sector-byte raw d sector_index j lt =
    copy_bytes-in d.bytes_per_sector raw 0 d.disk (sector_offset d sector_index) j j lt
      (omega arith)

-- A sector that is written is read back, and every other sector is read as before, where both offsets
-- are below 2 ^ 32.
pub read_sector-write_sector :
    (raw : ℕ → ℕ) (d : Disk) (sector_index : ℕ) (buffer : ℕ → ℕ) (j : ℕ)
    → j < d.bytes_per_sector
    → let d' = write_sector d sector_index buffer in
      (read_sector raw d' sector_index j ≡ buffer j)
      × ((k : ℕ)
          → k ≢ sector_index
          → d.bytes_per_sector * k < 2 ^ 32
          → d.bytes_per_sector * sector_index < 2 ^ 32
          → read_sector raw d' k j ≡ read_sector raw d k j)
unfolding write_sector
read_sector-write_sector raw d i buffer j lt =
    let n : ℕ = d.bytes_per_sector in
    let z : 0 + j ≡ j = omega arith in
    (
      read_sector-byte raw _ i j lt
          ∙ copy_bytes-in n d.disk (sector_offset d i) buffer 0 j (sector_offset d i + j) lt refl
          ∙ ap buffer z,
      λ k ne low_k low_i.
          read_sector-byte raw _ k j lt
          ∙ copy_bytes-out n d.disk (sector_offset d i) buffer 0 (sector_offset d k + j)
              (elim (dec_lt k i) [
                | yes below ↦ inl (omega (arith, sectors_apart n k i below))
                | no above ↦ inr (omega (arith, sectors_apart n i k (omega arith)))
              ])
          ∙ sym (read_sector-byte raw d k j lt),
    )
