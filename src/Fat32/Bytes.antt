-- ===== src/Fat32/Bytes.antt =====
-- src/fs/fat32/helpers.cpp: numbers as bytes of the disk, the lowest first. Reading a number from an
-- array of bytes as `reinterpret_cast` does takes the byte order of the machine, the same one.
use cros_kernel.Base.{
  ℕ, zero, suc, ◌+◌, ◌*◌, ◌/◌, ◌%◌, ◌^◌, ◌≤◌, ◌<◌, ◌≡◌, refl, ◌∙◌, update, ◌⊎◌, inl, arith,
}

-- the number of `k` bytes from `i` on
unfoldable pub read_number : ℕ → (ℕ → ℕ) → ℕ → ℕ
read_number zero bytes i = 0
read_number (suc k) bytes i = bytes i + 256 * read_number k bytes (i + 1)

-- the loop of the writers on the `k` bytes left, from byte `i` of the number on
pub write_loop : ℕ → ℕ → ℕ → (ℕ → ℕ) → ℕ → ℕ → ℕ
write_loop zero i num buffer offset = buffer
write_loop (suc k) i num buffer offset =
    write_loop k (i + 1) num (update buffer (i + offset) (num / 2 ^ (i * 8) % 256)) offset

unfoldable pub bytes_to_short : (ℕ → ℕ) → ℕ → ℕ
unfolding read_number
bytes_to_short bytes index = read_number 2 bytes index

unfoldable pub bytes_to_int : (ℕ → ℕ) → ℕ → ℕ
unfolding read_number
bytes_to_int bytes index = read_number 4 bytes index

unfoldable pub bytes_to_long : (ℕ → ℕ) → ℕ → ℕ
unfolding read_number
bytes_to_long bytes index = read_number 8 bytes index

pub short_to_bytes : ℕ → (ℕ → ℕ) → ℕ → ℕ → ℕ
unfolding write_loop
short_to_bytes num buffer offset = write_loop 2 0 num buffer offset

pub int_to_bytes : ℕ → (ℕ → ℕ) → ℕ → ℕ → ℕ
unfolding write_loop
int_to_bytes num buffer offset = write_loop 4 0 num buffer offset

pub long_to_bytes : ℕ → (ℕ → ℕ) → ℕ → ℕ → ℕ
long_to_bytes num buffer offset = write_loop 8 0 num buffer offset

-- `chars_to_unicode`, of two bytes
abbrev pub chars_to_unicode : ℕ → ℕ → ℕ
chars_to_unicode first second = first * 2 ^ 8 + second

-- A number depends on its bytes only.
read_number-same :
    (k : ℕ) (bytes bytes' : ℕ → ℕ) (i : ℕ)
    → ((j : ℕ) → i ≤ j → j < i + k → bytes' j ≡ bytes j)
    → read_number k bytes' i ≡ read_number k bytes i
unfolding read_number
read_number-same zero bytes bytes' i same = refl
read_number-same (suc k) bytes bytes' i same =
    let first : bytes' i ≡ bytes i = same i (omega arith) (omega arith) in
    let rest =
      read_number-same k bytes bytes' (i + 1) (λ j a b. same j (omega arith) (omega arith)) in
    rw (first, rest)

pub bytes_to_int-same :
    (bytes bytes' : ℕ → ℕ) (i : ℕ)
    → ((j : ℕ) → i ≤ j → j < i + 4 → bytes' j ≡ bytes j)
    → bytes_to_int bytes' i ≡ bytes_to_int bytes i
unfolding bytes_to_int
bytes_to_int-same bytes bytes' i same = read_number-same 4 bytes bytes' i same

pub bytes_to_long-same :
    (bytes bytes' : ℕ → ℕ) (i : ℕ)
    → ((j : ℕ) → i ≤ j → j < i + 8 → bytes' j ≡ bytes j)
    → bytes_to_long bytes' i ≡ bytes_to_long bytes i
unfolding bytes_to_long
bytes_to_long-same bytes bytes' i same = read_number-same 8 bytes bytes' i same

-- A short that is written is read back, and no other byte changes.
pub short_round_trip :
    (num : ℕ) (buffer : ℕ → ℕ) (offset : ℕ)
    → num < 2 ^ 16
    → (bytes_to_short (short_to_bytes num buffer offset) offset ≡ num)
      × ((j : ℕ) → (j < offset) ⊎ (offset + 2 ≤ j) → short_to_bytes num buffer offset j ≡ buffer j)
unfolding short_to_bytes bytes_to_short
short_round_trip num buffer offset h = (ground arith, λ j out. ground arith)

-- An int that is written is read back, and no other byte changes.
pub int_round_trip :
    (num : ℕ) (buffer : ℕ → ℕ) (offset : ℕ)
    → num < 2 ^ 32
    → (bytes_to_int (int_to_bytes num buffer offset) offset ≡ num)
      × ((j : ℕ) → (j < offset) ⊎ (offset + 4 ≤ j) → int_to_bytes num buffer offset j ≡ buffer j)
unfolding int_to_bytes bytes_to_int
int_round_trip num buffer offset h = (ground arith, λ j out. ground arith)

-- byte `i` of a number that is written, and the bytes around it
write_loop-ne :
    (k i num : ℕ) (buffer : ℕ → ℕ) (offset j : ℕ)
    → (j < i + offset) ⊎ (i + offset + k ≤ j)
    → write_loop k i num buffer offset j ≡ buffer j
unfolding write_loop
write_loop-ne zero i num buffer offset j out = refl
write_loop-ne (suc k) i num buffer offset j out =
    write_loop-ne k (i + 1) num _ offset j (ground arith) ∙ ground arith

write_loop-byte :
    (k i m num : ℕ) (buffer : ℕ → ℕ) (offset j : ℕ)
    → m < k
    → j ≡ i + m + offset
    → write_loop k i num buffer offset j ≡ num / 2 ^ ((i + m) * 8) % 256
unfolding write_loop
write_loop-byte zero i m num buffer offset j h e = absurd (omega arith)
write_loop-byte (suc k) i zero num buffer offset j h e =
    let same : i + 0 ≡ i = omega arith in
    rw same (write_loop-ne k (i + 1) num _ offset j (inl (omega arith)) ∙ ground arith)
write_loop-byte (suc k) i (suc m) num buffer offset j h e =
    let same : i + suc m ≡ i + 1 + m = omega arith in
    rw same (write_loop-byte k (i + 1) m num _ offset j (omega arith) (omega arith))

digits :
    (num : ℕ)
    → num < 2 ^ 64
    → num / 2 ^ 0 % 256
        + 256
          * (num / 2 ^ 8 % 256
              + 256
                * (num / 2 ^ 16 % 256
                    + 256
                      * (num / 2 ^ 24 % 256
                          + 256
                            * (num / 2 ^ 32 % 256
                                + 256
                                  * (num / 2 ^ 40 % 256
                                      + 256
                                        * (num / 2 ^ 48 % 256 + 256 * (num / 2 ^ 56 % 256 + 0)))))))
      ≡ num
digits num h = omega arith

-- A long that is written is read back, and no other byte changes.
pub long_round_trip :
    (num : ℕ) (buffer : ℕ → ℕ) (offset : ℕ)
    → num < 2 ^ 64
    → (bytes_to_long (long_to_bytes num buffer offset) offset ≡ num)
      × ((j : ℕ) → (j < offset) ⊎ (offset + 8 ≤ j) → long_to_bytes num buffer offset j ≡ buffer j)
unfolding long_to_bytes bytes_to_long
long_round_trip num buffer offset h =
    let byte = λ (m j : ℕ) (lt : m < 8) (e : j ≡ 0 + m + offset).
      write_loop-byte 8 0 m num buffer offset j lt e in
    (
      rw
          (
            byte 0 offset (omega arith) (omega arith),
            byte 1 (offset + 1) (omega arith) (omega arith),
            byte 2 (offset + 1 + 1) (omega arith) (omega arith),
            byte 3 (offset + 1 + 1 + 1) (omega arith) (omega arith),
            byte 4 (offset + 1 + 1 + 1 + 1) (omega arith) (omega arith),
            byte 5 (offset + 1 + 1 + 1 + 1 + 1) (omega arith) (omega arith),
            byte 6 (offset + 1 + 1 + 1 + 1 + 1 + 1) (omega arith) (omega arith),
            byte 7 (offset + 1 + 1 + 1 + 1 + 1 + 1 + 1) (omega arith) (omega arith),
          )
          (digits num h),
      λ j out. write_loop-ne 8 0 num buffer offset j (ground arith),
    )
