-- ===== src/Fat32/Names/Pairs.antt =====
-- The long names of src/fs/fat32/entry_helpers.cpp: the bytes that `write_long_name_entry` writes for
-- one of the three parts of a name, and what `parse_long_name` reads of them.
use mathlib.Core.List.{append_assoc, append-nil}
use cros_kernel.Base.{
  ℕ, zero, suc, ◌+◌, ◌-◌, ◌*◌, ◌/◌, ◌%◌, ◌≤◌, ◌<◌, ◌≡◌, ◌≢◌, refl, sym, ◌∙◌, ap, ltb, ◌==◌, true,
  false, if◌then◌else◌, Bool-cases, inl, inr, [], ◌∷◌, ◌++◌, length, update, All, arith,
}
use cros_kernel.Fat32.Paths.{Str}
use cros_kernel.Fat32.Names.{char_at, name_piece, put_pairs}
use cros_kernel.Fat32.Names.Buffers.{within}

-- the two bytes of the place `j` of a part
abbrev pub low_byte : (ℕ → ℕ) → Str → ℕ → ℕ
low_byte behind part j =
    if j == length part then 0 else if ltb (length part) j then 255 else char_at behind part j

abbrev pub high_byte : Str → ℕ → ℕ → ℕ
high_byte part j old = if ltb (length part) j then 255 else old

abbrev pair_byte : (ℕ → ℕ) → Str → ℕ → ℕ → ℕ
pair_byte behind part m old =
    if m % 2 == 0 then low_byte behind part (m / 2) else high_byte part (m / 2) old

abbrev put_pair : (ℕ → ℕ) → Str → ℕ → ℕ → (ℕ → ℕ) → ℕ → ℕ
put_pair behind part start j buffer =
    if j == length part
    then update buffer (start + j * 2) 0
    else if ltb (length part) j
    then update (update buffer (start + j * 2) 255) (start + j * 2 + 1) 255
    else update buffer (start + j * 2) (char_at behind part j)

put_pair_lem :
    (behind : ℕ → ℕ) (part : Str) (start j : ℕ) (buffer : ℕ → ℕ) (k : ℕ)
    → put_pair behind part start j buffer k ≡ (
        if within (start + j * 2) 2 k
        then pair_byte behind part (k - start) (buffer k)
        else buffer k)
put_pair_lem behind part start j buffer k = elim (Bool-cases (k == start + j * 2)) [
  | inl y ↦
      let a : (k - start) / 2 ≡ j = ground arith in
      let b : ((k - start) % 2 == 0) ≡ true = ground arith in
      let c : within (start + j * 2) 2 k ≡ true = ground arith in
      let d : (k == start + j * 2 + 1) ≡ false = ground arith in rw (b, c, a) ground (arith, y, d)
  | inr y ↦ elim (Bool-cases (k == start + j * 2 + 1)) [
    | inl z ↦
        let a : (k - start) / 2 ≡ j = ground arith in
        let b : ((k - start) % 2 == 0) ≡ false = ground arith in
        let c : within (start + j * 2) 2 k ≡ true = ground arith in
        rw (b, c, a) ground (arith, y, z)
    | inr z ↦ let c : within (start + j * 2) 2 k ≡ false = ground arith in rw c ground (arith, y, z)
  ]
]

next_pair :
    (behind : ℕ → ℕ) (part : Str) (start j n : ℕ) (buffer : ℕ → ℕ) (k : ℕ)
    → (if within (start + (j + 1) * 2) (n * 2) k
        then pair_byte behind part (k - start) (put_pair behind part start j buffer k)
        else put_pair behind part start j buffer k)
      ≡ (if within (start + j * 2) (suc n * 2) k
          then pair_byte behind part (k - start) (buffer k)
          else buffer k)
next_pair behind part start j n buffer k = elim (Bool-cases (within (start + j * 2) 2 k)) [
  | inl y ↦
      let out : within (start + (j + 1) * 2) (n * 2) k ≡ false = ground arith in
      let inside : within (start + j * 2) (suc n * 2) k ≡ true = ground arith in
      rw (out, inside, put_pair_lem behind part start j buffer k, y) refl
  | inr y ↦
      let same : within (start + j * 2) (suc n * 2) k ≡ within (start + (j + 1) * 2) (n * 2) k =
        ground arith in
      rw (same, put_pair_lem behind part start j buffer k, y) refl
]

pub put_pairs_lem :
    (behind : ℕ → ℕ) (part : Str) (start j n : ℕ) (buffer : ℕ → ℕ) (k : ℕ)
    → (put_pairs behind part start j n buffer k ≡ (
        if within (start + j * 2) (n * 2) k
        then pair_byte behind part (k - start) (buffer k)
        else buffer k))
unfolding put_pairs
put_pairs_lem behind part start j zero buffer k =
    let out : within (start + j * 2) (0 * 2) k ≡ false = ground arith in rw out refl
put_pairs_lem behind part start j (suc n) buffer k =
    put_pairs_lem behind part start (j + 1) n (put_pair behind part start j buffer) k
    ∙ next_pair behind part start j n buffer k

-- The two bytes of each place of a part stand in the buffer, from `i` on.
abbrev pub Pairs : (ℕ → ℕ) → (ℕ → ℕ) → ℕ → Str → ℕ → Type 0
Pairs behind f i part n =
    (j : ℕ)
    → j < n
    → (f (i + j * 2) ≡ low_byte behind part j) × (f (i + j * 2 + 1) ≡ high_byte part j 0)

pub put_pairs-Pairs :
    (behind : ℕ → ℕ) (part : Str) (start n : ℕ) (buffer : ℕ → ℕ)
    → ((k : ℕ) → start ≤ k → k < start + n * 2 → buffer k ≡ 0)
    → Pairs behind (put_pairs behind part start 0 n buffer) start part n
put_pairs-Pairs behind part start n buffer clear j lt =
    let in0 : within (start + 0 * 2) (n * 2) (start + j * 2) ≡ true = ground arith in
    let in1 : within (start + 0 * 2) (n * 2) (start + j * 2 + 1) ≡ true = ground arith in
    let a0 : ((start + j * 2) - start) / 2 ≡ j = omega arith in
    let a1 : ((start + j * 2 + 1) - start) / 2 ≡ j = omega arith in
    let b0 : (((start + j * 2) - start) % 2 == 0) ≡ true = ground arith in
    let b1 : (((start + j * 2 + 1) - start) % 2 == 0) ≡ false = ground arith in
    let old = clear (start + j * 2 + 1) (omega arith) (omega arith) in
    (
      put_pairs_lem behind part start 0 n buffer (start + j * 2) ∙ (rw (in0, b0, a0) refl),
      put_pairs_lem behind part start 0 n buffer (start + j * 2 + 1) ∙ (rw (in1, b1, a1, old) refl),
    )

Pairs-tail :
    (behind f : ℕ → ℕ) (i c : ℕ) (part : Str) (n : ℕ)
    → Pairs behind f i (c ∷ part) (suc n)
    → Pairs behind f (i + 2) part n
Pairs-tail behind f i c part n h j lt =
    let (a, b) = h (suc j) (omega arith) in
    let same : (suc j == length (c ∷ part)) ≡ (j == length part) = ground arith in
    let less : ltb (length (c ∷ part)) (suc j) ≡ ltb (length part) j = ground arith in
    (ap f (omega arith) ∙ a ∙ (rw (same, less) refl), ap f (omega arith) ∙ b ∙ (rw less refl))

-- Nothing is read from where all bytes are ones.
name_piece-ones :
    (f : ℕ → ℕ) (i n : ℕ) (name : Str)
    → (0 < n → (f i ≡ 255) × (f (i + 1) ≡ 255))
    → name_piece f i n name ≡ name
unfolding name_piece
name_piece-ones f i zero name h = refl
name_piece-ones f i (suc n) name h =
    let (a, b) = h (omega arith) in
    let done : (f i * 256 + f (i + 1) == 65535) ≡ true = ground arith in rw done refl

-- A part is read up to its end.
pub name_piece-Pairs :
    (behind f : ℕ → ℕ) (i n : ℕ) (part name : Str)
    → length part ≤ n
    → All (λ c. c ≢ 0) part
    → Pairs behind f i part n
    → name_piece f i n name ≡ name ++ part
unfolding name_piece
name_piece-Pairs behind f i zero [] name le all h = sym (append-nil name)
name_piece-Pairs behind f i (suc n) [] name le all h =
    let (a, b) = h 0 (omega arith) in
    let z : f i ≡ 0 = ap f (omega arith) ∙ a in
    let odd : f (i + 1) ≡ 0 = ap f (omega arith) ∙ b in
    let more : (f i * 256 + f (i + 1) == 65535) ≡ false = ground arith in
    let next : (0 < n) → (f (i + 2) ≡ 255) × (f (i + 2 + 1) ≡ 255) =
      λ lt. let (c, d) = h 1 (omega arith) in (c, d) in
    rw (more, z) (name_piece-ones f (i + 2) n name next ∙ sym (append-nil name))
name_piece-Pairs behind f i zero (c ∷ part) name le all h = ground arith
name_piece-Pairs behind f i (suc n) (c ∷ part) name le all h =
    let (a, b) = h 0 (omega arith) in
    let some_left : (0 == length (c ∷ part)) ≡ false = ground arith in
    let inside : ltb (length (c ∷ part)) 0 ≡ false = ground arith in
    let here : f i ≡ c = ap f (omega arith) ∙ a ∙ (rw (some_left, inside) refl) in
    let odd : f (i + 1) ≡ 0 = ap f (omega arith) ∙ b ∙ (rw inside refl) in
    let more : (f i * 256 + f (i + 1) == 65535) ≡ false = ground arith in
    let char : (f i == 0) ≡ false = ground arith in
    rw (more, char, here)
      (name_piece-Pairs behind f (i + 2) n part (name ++ c ∷ []) (omega arith) all.1
          (Pairs-tail behind f i c part n h)
        ∙ append_assoc name (c ∷ []) part)
