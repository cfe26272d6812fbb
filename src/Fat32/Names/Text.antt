-- ===== src/Fat32/Names/Text.antt =====
-- The characters of a short name in src/fs/fat32/entry_helpers.cpp.
use mathlib.Core.List.{append_assoc, append-nil}
use mathlib.Core.Path.{subst}
use cros_kernel.Base.{
  ℕ, zero, suc, ◌+◌, ◌-◌, ◌≤◌, ◌≡◌, ◌≢◌, refl, ◌∙◌, ap, true, false, leb, ◌==◌, ◌&&◌, Bool-cases,
  inl, inr, [], ◌∷◌, ◌++◌, length, length-append, All, All-append, arith,
}
use cros_kernel.Fat32.Paths.{Str}
use cros_kernel.Fat32.Names.{
  char_at, short_char, is_special, short_loop, spaces, long_to_short_name, read_chars,
}

-- A character of a short name is neither 0 nor a space.
abbrev pub IsShort : Str → Type 0
IsShort s = All (λ c. (c ≢ 0) × (c ≢ 32)) s

short_char-IsShort : (c : ℕ) → IsShort (short_char c) × (length (short_char c) ≤ 1)
unfolding short_char
short_char-IsShort c = elim (Bool-cases (leb 65 c && leb c 90)) [
  | inl y ↦ rw y ((ground arith, tt), omega arith)
  | inr y ↦ elim (Bool-cases (leb 97 c && leb c 122)) [
    | inl z ↦ rw (y, z) ((ground arith, tt), omega arith)
    | inr z ↦ elim (Bool-cases (is_special c)) [
      | inl w ↦ rw (y, z, w) ((ground arith, tt), omega arith)
      | inr w ↦ rw (y, z, w) (tt, omega arith)
    ]
  ]
]

pub short_loop-IsShort :
    (behind : ℕ → ℕ) (s : Str) (i n : ℕ)
    → IsShort (short_loop behind s i n) × (length (short_loop behind s i n) ≤ n)
unfolding short_loop
short_loop-IsShort behind s i zero = (tt, omega arith)
short_loop-IsShort behind s i (suc n) =
    let (a, b) = short_char-IsShort (char_at behind s i) in
    let (c, d) = short_loop-IsShort behind s (i + 1) n in
    (
      All-append (λ x. (x ≢ 0) × (x ≢ 32)) _ _ a c,
      omega
          (arith, length-append (short_char (char_at behind s i)) (short_loop behind s (i + 1) n)),
    )

length-spaces : (n : ℕ) → length (spaces n) ≡ n
unfolding spaces
length-spaces zero = refl
length-spaces (suc n) = ap (λ k. suc k) (length-spaces n)

-- A short name has just the length that is asked for.
pub length-long_to_short_name :
    (behind : ℕ → ℕ) (s : Str) (n : ℕ) → length (long_to_short_name behind s n) ≡ n
unfolding long_to_short_name
length-long_to_short_name behind s n =
    let (_, fits) = short_loop-IsShort behind s 0 n in
    length-append (short_loop behind s 0 n) (spaces (n - length (short_loop behind s 0 n)))
    ∙ ap (λ k. length (short_loop behind s 0 n) + k)
        (length-spaces (n - length (short_loop behind s 0 n)))
    ∙ omega arith

-- The characters stand in the buffer, from `i` on.
abbrev pub At : (ℕ → ℕ) → ℕ → Str → Type 0
At buffer i [] = Unit {0}
At buffer i (c ∷ s) = (buffer i ≡ c) × At buffer (i + 1) s

At-append :
    (buffer : ℕ → ℕ) (i : ℕ) (s t : Str)
    → At buffer i (s ++ t)
    → At buffer i s × At buffer (i + length s) t
At-append buffer i [] t a = (tt, subst (λ k. At buffer k t) (omega arith) a)
At-append buffer i (c ∷ s) t a =
    let (x, y) = At-append buffer (i + 1) s t a.1 in
    ((a.0, x), subst (λ k. At buffer k t) (omega arith) y)

read_chars-short :
    (buffer : ℕ → ℕ) (i m : ℕ) (s name : Str)
    → At buffer i s
    → IsShort s
    → read_chars buffer i (length s + m) name ≡ read_chars buffer (i + length s) m (name ++ s)
unfolding read_chars
read_chars-short buffer i m [] name a h =
    let e : 0 + m ≡ m = omega arith in
    let e' : i + 0 ≡ i = omega arith in rw (e, e', append-nil name) refl
read_chars-short buffer i m (c ∷ s) name a h =
    let e : length (c ∷ s) + m ≡ suc (length s + m) = omega arith in
    let e' : i + length (c ∷ s) ≡ (i + 1) + length s = omega arith in
    let not_space : (buffer i == 32) ≡ false = ground arith in
    let not_end : (buffer i == 0) ≡ false = ground arith in
    rw (e, e', read_chars, not_space, not_end, a.0)
      (read_chars-short buffer (i + 1) m s (name ++ c ∷ []) a.1 h.1
        ∙ ap (λ t. read_chars buffer ((i + 1) + length s) m t) (append_assoc name (c ∷ []) s))

read_chars-spaces :
    (buffer : ℕ → ℕ) (i m : ℕ) (name : Str)
    → At buffer i (spaces m)
    → read_chars buffer i m name ≡ name
unfolding read_chars spaces
read_chars-spaces buffer i zero name a = refl
read_chars-spaces buffer i (suc m) name a =
    let space : (buffer i == 32) ≡ true = ground arith in
    rw space (read_chars-spaces buffer (i + 1) m name a.1)

-- A short name in a buffer is read without its spaces.
pub read_chars-long_to_short_name :
    (behind buffer : ℕ → ℕ) (i n : ℕ) (s : Str)
    → At buffer i (long_to_short_name behind s n)
    → read_chars buffer i n [] ≡ short_loop behind s 0 n
unfolding long_to_short_name
read_chars-long_to_short_name behind buffer i n s a =
    let short = short_loop behind s 0 n in
    let (all, fits) = short_loop-IsShort behind s 0 n in
    let (x, y) = At-append buffer i short (spaces (n - length short)) a in
    let e : n ≡ length short + (n - length short) = omega arith in
    ap (λ k. read_chars buffer i k []) e
    ∙ read_chars-short buffer i (n - length short) short [] x all
    ∙ read_chars-spaces buffer (i + length short) (n - length short) short y
