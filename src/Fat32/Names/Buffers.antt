-- ===== src/Fat32/Names/Buffers.antt =====
-- The loops of src/fs/fat32/entry_helpers.cpp that write into a sector, and the sector behind them.
use cros_kernel.Base.{
  Bool, true, false, ℕ, zero, suc, ◌+◌, ◌-◌, ◌≤◌, ◌<◌, ◌≡◌, refl, ◌∙◌, ap, ltb, leb, ◌==◌, ◌&&◌,
  if◌then◌else◌, Bool-cases, inl, inr, [], ◌∷◌, length, update, arith,
}
use cros_kernel.Fat32.Bytes.{bytes_to_short, bytes_to_int, read_number}
use cros_kernel.Fat32.Disk.{read_sector-write_sector}
use cros_kernel.Fat32.Paths.{Str}
use cros_kernel.Fat32.Table.{Volume, clear_loop, read, write}
use cros_kernel.Fat32.Names.{char_at, put_chars}
use cros_kernel.Fat32.Names.Text.{At}

-- the place is one of the `n` from `i` on
abbrev pub within : ℕ → ℕ → ℕ → Bool
within i n j = leb i j && ltb j (i + n)

pub clear_loop_lem :
    (n : ℕ) (buffer : ℕ → ℕ) (i j : ℕ)
    → clear_loop n buffer i j ≡ (if within i n j then 0 else buffer j)
unfolding clear_loop
clear_loop_lem zero buffer i j = ground arith
clear_loop_lem (suc n) buffer i j = clear_loop_lem n (update buffer i 0) (i + 1) j ∙ ground arith

next_char :
    (behind : ℕ → ℕ) (s : Str) (start j n : ℕ) (buffer : ℕ → ℕ) (k : ℕ)
    → (if within (start + (j + 1)) n k
        then char_at behind s (k - start)
        else update buffer (start + j) (char_at behind s j) k)
      ≡ (if within (start + j) (suc n) k then char_at behind s (k - start) else buffer k)
next_char behind s start j n buffer k = elim (Bool-cases (k == start + j)) [
  | inl y ↦
      let here : k - start ≡ j = ground arith in
      let out : within (start + (j + 1)) n k ≡ false = ground arith in
      let inside : within (start + j) (suc n) k ≡ true = ground arith in
      rw (out, inside, y, here) refl
  | inr y ↦
      let same : within (start + j) (suc n) k ≡ within (start + (j + 1)) n k = ground arith in
      rw (y, same) refl
]

pub put_chars_lem :
    (behind : ℕ → ℕ) (s : Str) (start j n : ℕ) (buffer : ℕ → ℕ) (k : ℕ)
    → (put_chars behind s start j n buffer k
        ≡ (if within (start + j) n k then char_at behind s (k - start) else buffer k))
unfolding put_chars
put_chars_lem behind s start j zero buffer k = ground arith
put_chars_lem behind s start j (suc n) buffer k =
    put_chars_lem behind s start (j + 1) n (update buffer (start + j) (char_at behind s j)) k
    ∙ next_char behind s start j n buffer k

-- Reading bytes that agree gives the same number.
pub bytes_to_short-ap :
    (f g : ℕ → ℕ) (i : ℕ)
    → f i ≡ g i
    → f (i + 1) ≡ g (i + 1)
    → bytes_to_short f i ≡ bytes_to_short g i
unfolding bytes_to_short read_number
bytes_to_short-ap f g i a b = rw (a, b) refl

pub bytes_to_int-ap :
    (f g : ℕ → ℕ) (i : ℕ)
    → ((j : ℕ) → i ≤ j → j < i + 4 → f j ≡ g j)
    → bytes_to_int f i ≡ bytes_to_int g i
unfolding bytes_to_int read_number
bytes_to_int-ap f g i h =
    let a = h i (omega arith) (omega arith) in
    let b = h (i + 1) (omega arith) (omega arith) in
    let c = h (i + 1 + 1) (omega arith) (omega arith) in
    let d = h (i + 1 + 1 + 1) (omega arith) (omega arith) in rw (a, b, c, d) refl

pub At-ap :
    (f g : ℕ → ℕ) (i : ℕ) (s : Str)
    → ((j : ℕ) → i ≤ j → j < i + length s → f j ≡ g j)
    → At g i s
    → At f i s
At-ap f g i [] h a = tt
At-ap f g i (c ∷ s) h a = (
  h i (omega arith) (omega arith) ∙ a.0,
  At-ap f g (i + 1) s (λ j x y. h j (omega arith) (omega arith)) a.1,
)

At-chars :
    (behind buffer : ℕ → ℕ) (i : ℕ) (s : Str)
    → ((k : ℕ) → k < length s → buffer (i + k) ≡ char_at behind s k)
    → At buffer i s
At-chars behind buffer i [] h = tt
At-chars behind buffer i (c ∷ s) h = (
  ap buffer (omega arith) ∙ h 0 (omega arith),
  At-chars behind buffer (i + 1) s (λ k lt. ap buffer (omega arith) ∙ h (suc k) (omega arith)),
)

-- What `put_chars` writes stands in the buffer.
pub At-put_chars :
    (behind : ℕ → ℕ) (s : Str) (i n : ℕ) (buffer : ℕ → ℕ)
    → length s ≡ n
    → At (put_chars behind s i 0 n buffer) i s
At-put_chars behind s i n buffer e = At-chars behind (put_chars behind s i 0 n buffer) i s (λ k lt.
    put_chars_lem behind s i 0 n buffer (i + k)
    ∙ (let inside : within (i + 0) n (i + k) ≡ true = ground arith in
        let place : (i + k) - i ≡ k = omega arith in rw (inside, place) refl))

-- A sector that is written is read back.
pub read-write :
    (raw : ℕ → ℕ) (fs : Volume) (sector : ℕ) (buffer : ℕ → ℕ) (j : ℕ)
    → j < fs.di.bytes_per_sector
    → read raw (write fs sector buffer) sector j ≡ buffer j
read-write raw fs sector buffer j lt = (read_sector-write_sector raw fs.di sector buffer j lt).0
