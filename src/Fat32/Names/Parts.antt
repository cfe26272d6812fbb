-- ===== src/Fat32/Names/Parts.antt =====
-- The three parts that `write_long_name_entry` of src/fs/fat32/entry_helpers.cpp cuts a name into.
use cros_kernel.Base.{
  ℕ, zero, suc, ◌+◌, ◌-◌, ◌≤◌, ◌<◌, ◌≡◌, refl, sym, ◌∙◌, ap, ltb, leb, false, Bool-cases, inl, inr,
  [], ◌∷◌, ◌++◌, length, arith, take, drop, length-drop,
}
use cros_kernel.Fat32.Paths.{Str, substr}
use cros_kernel.Fat32.Names.{substr_from, name_part_1, name_part_2, name_part_3}

take-all : (n : ℕ) (s : Str) → length s ≤ n → take n s ≡ s
take-all zero [] le = refl
take-all zero (c ∷ s) le = ground arith
take-all (suc n) [] le = refl
take-all (suc n) (c ∷ s) le = ap (λ t. c ∷ t) (take-all n s (omega arith))

drop-all : (n : ℕ) (s : Str) → length s ≤ n → drop n s ≡ []
drop-all zero [] le = refl
drop-all zero (c ∷ s) le = ground arith
drop-all (suc n) [] le = refl
drop-all (suc n) (c ∷ s) le = drop-all n s (omega arith)

take-none : (n : ℕ) → take {A = ℕ} n [] ≡ []
take-none zero = refl
take-none (suc n) = refl

take-drop : (m n : ℕ) (s : Str) → take (m + n) s ≡ take m s ++ take n (drop m s)
take-drop zero n s = ap (λ k. take k s) (omega arith)
take-drop (suc m) n [] = let e : suc m + n ≡ suc (m + n) = omega arith in rw e (sym (take-none n))
take-drop (suc m) n (c ∷ s) =
    let e : suc m + n ≡ suc (m + n) = omega arith in rw e (ap (λ t. c ∷ t) (take-drop m n s))

substr_from_lem : (s : Str) (start : ℕ) → substr_from s start ≡ drop start s
substr_from_lem s start = elim (Bool-cases (leb (length s) start)) [
  | inl y ↦ rw y (sym (drop-all start s (ground arith)))
  | inr y ↦ rw y refl
]

substr_lem :
    (s : Str) (start end : ℕ)
    → start < end
    → end ≤ length s
    → substr s start end ≡ take (end - start) (drop start s)
substr_lem s start end lt le =
    let a : leb (length s) start ≡ false = ground arith in
    let b : leb end start ≡ false = ground arith in
    let c : ltb (length s) end ≡ false = ground arith in rw (a, b, c) refl

rest-take : (m n : ℕ) (s : Str) → length s ≤ m + n → drop m s ≡ take n (drop m s)
rest-take m n s le = sym (take-all n (drop m s) (omega (arith, length-drop m s)))

none-take-drop : (m n : ℕ) (s : Str) → length s ≤ m → [] ≡ take n (drop m s)
none-take-drop m n s le = sym (ap (λ t. take n t) (drop-all m s le) ∙ take-none n)

pub name_part_1_lem : (s : Str) → name_part_1 s ≡ take 5 s
name_part_1_lem s = elim (Bool-cases (leb (length s) 5)) [
  | inl y ↦ rw y (substr_from_lem s 0 ∙ sym (take-all 5 s (ground arith)))
  | inr y ↦ rw y (substr_lem s 0 5 (omega arith) (ground arith))
]

pub name_part_2_lem : (s : Str) → name_part_2 s ≡ take 6 (drop 5 s)
name_part_2_lem s = elim (Bool-cases (leb (length s) 5)) [
  | inl y ↦ rw y (none-take-drop 5 6 s (ground arith))
  | inr y ↦ elim (Bool-cases (leb (length s) 11)) [
    | inl z ↦ rw (y, z) (rest-take 5 6 s (ground arith))
    | inr z ↦
        let cut : name_part_2 s ≡ substr s 5 11 = rw (y, z) refl in
        cut ∙ substr_lem s 5 11 (omega arith) (ground arith)
  ]
]

pub name_part_3_lem : (s : Str) → name_part_3 s ≡ take 2 (drop 11 s)
name_part_3_lem s = elim (Bool-cases (leb (length s) 11)) [
  | inl y ↦ rw y (none-take-drop 11 2 s (ground arith))
  | inr y ↦ elim (Bool-cases (leb (length s) 13)) [
    | inl z ↦ rw (y, z) (rest-take 11 2 s (ground arith))
    | inr z ↦
        let cut : name_part_3 s ≡ substr s 11 13 = rw (y, z) refl in
        cut ∙ substr_lem s 11 13 (omega arith) (ground arith)
  ]
]

-- The three parts together are the first 13 characters of the name.
pub name_parts_lem : (s : Str) → (name_part_1 s ++ name_part_2 s) ++ name_part_3 s ≡ take 13 s
name_parts_lem s =
    ap (λ t. (t ++ name_part_2 s) ++ name_part_3 s) (name_part_1_lem s)
    ∙ ap (λ t. (take 5 s ++ t) ++ name_part_3 s) (name_part_2_lem s)
    ∙ ap (λ t. (take 5 s ++ take 6 (drop 5 s)) ++ t) (name_part_3_lem s)
    ∙ sym (take-drop 11 2 s ∙ ap (λ t. t ++ take 2 (drop 11 s)) (take-drop 5 6 s))
