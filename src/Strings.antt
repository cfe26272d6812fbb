-- ===== src/Strings.antt =====
-- src/util/string.cpp: bytes and strings in memory. Memory is a function from addresses to bytes; a
-- string is a run of bytes up to the first that is 0.
mod Tests
use native.Mathlib.Decide.{dec_lt}
use cros_kernel.Base.{
  ℕ, zero, suc, ◌+◌, ◌%◌, ◌≤◌, ◌<◌, ◌≡◌, refl, ◌∙◌, ◌≢◌, ◌⊎◌, inl, inr, ◌||◌, ◌==◌, ne→==, true,
  false, ap, Bool-cases, if◌then◌else◌, List, [], ◌∷◌, length, update, Run, ok, out_of_fuel, arith,
}

abbrev pub Memory : Type 0
Memory = ℕ → ℕ

-- `memcpy(dest, src, count)`
pub memcpy : Memory → ℕ → ℕ → ℕ → Memory
memcpy mem dest src zero = mem
memcpy mem dest src (suc k) = memcpy (update mem dest (mem src)) (dest + 1) (src + 1) k

-- `memset(s, size, v)`
pub memset : Memory → ℕ → ℕ → ℕ → Memory
memset mem s zero v = mem
memset mem s (suc k) v = memset (update mem s (v % 256)) (s + 1) k v

-- `strlen(s)`, its loop on fuel
pub strlen_loop : ℕ → Memory → ℕ → ℕ → Run ℕ
strlen_loop zero mem s c = out_of_fuel
strlen_loop (suc k) mem s c =
    let rest = strlen_loop k mem s (c + 1) in if mem (s + c) == 0 then ok c else rest

pub strlen : ℕ → Memory → ℕ → Run ℕ
strlen fuel mem s = if s == 0 then ok 0 else strlen_loop fuel mem s 0

-- `strcpy(dest, src)`, its loop on fuel
pub strcpy_loop : ℕ → Memory → ℕ → ℕ → Run Memory
strcpy_loop zero mem dest src = out_of_fuel
strcpy_loop (suc k) mem dest src =
    let rest = strcpy_loop k (update mem dest (mem src)) (dest + 1) (src + 1) in
    if mem src == 0 then ok (update mem dest 0) else rest

pub strcpy : ℕ → Memory → ℕ → ℕ → Run Memory
strcpy fuel mem dest src =
    if (dest == 0) || (src == 0) then ok mem else strcpy_loop fuel mem dest src

-- The string `xs` stands at `s`.
abbrev pub IsString : Memory → ℕ → List ℕ → Type 0
IsString mem s [] = mem s ≡ 0
IsString mem s (c ∷ xs) = (mem s ≡ c) × (c ≢ 0) × IsString mem (s + 1) xs

-- The addresses from `d` on, `n` and one more, are not among those from `s` on.
abbrev pub Apart : ℕ → ℕ → ℕ → Type 0
Apart d s n = (d + n < s) ⊎ (s + n < d)

-- A memory that is the same where the string stands holds it too.
pub IsString-same :
    (mem mem' : Memory) (s : ℕ) (xs : List ℕ)
    → ((j : ℕ) → s ≤ j → j ≤ s + length xs → mem' j ≡ mem j)
    → IsString mem s xs
    → IsString mem' s xs
IsString-same mem mem' s [] same h = same s (omega arith) (omega arith) ∙ h
IsString-same mem mem' s (c ∷ xs) same h = (
  same s (omega arith) (omega arith) ∙ h.0,
  h.1,
  IsString-same mem mem' (s + 1) xs (λ j a b. same j (omega arith) (omega arith)) h.2,
)

-- `memcpy` between two ranges that do not meet copies the bytes and changes no other.
pub memcpy_lem :
    (mem : Memory) (dest src count : ℕ)
    → (dest + count ≤ src) ⊎ (src + count ≤ dest)
    → ((j : ℕ) → j < count → memcpy mem dest src count (dest + j) ≡ mem (src + j))
      × ((j : ℕ) → (j < dest) ⊎ (dest + count ≤ j) → memcpy mem dest src count j ≡ mem j)
unfolding memcpy
memcpy_lem mem dest src zero apart = (λ j lt. absurd (omega arith), λ j out. refl)
memcpy_lem mem dest src (suc k) apart =
    let (inside, outside) =
      memcpy_lem (update mem dest (mem src)) (dest + 1) (src + 1) k (ground arith) in
    (λ j lt. first_or_later j lt inside outside, λ j out. outside j (ground arith) ∙ ground arith)
  where
    first_or_later :
        (j : ℕ)
        → j < suc k
        → ((i : ℕ)
            → i < k
            → memcpy (update mem dest (mem src)) (dest + 1) (src + 1) k (dest + 1 + i)
              ≡ update mem dest (mem src) (src + 1 + i))
        → ((i : ℕ)
            → (i < dest + 1) ⊎ (dest + 1 + k ≤ i)
            → memcpy (update mem dest (mem src)) (dest + 1) (src + 1) k i
              ≡ update mem dest (mem src) i)
        → memcpy (update mem dest (mem src)) (dest + 1) (src + 1) k (dest + j) ≡ mem (src + j)
    first_or_later zero lt inside outside =
        let e : dest + 0 ≡ dest = omega arith in
        let f : src + 0 ≡ src = omega arith in
        rw (e, f) (outside dest (inl (omega arith)) ∙ ground arith)
    first_or_later (suc j) lt inside outside =
        let e : dest + suc j ≡ dest + 1 + j = omega arith in
        let f : src + suc j ≡ src + 1 + j = omega arith in
        rw (e, f) (inside j (omega arith) ∙ ground arith)

strlen_loop-length :
    (fuel : ℕ) (mem : Memory) (s c at : ℕ) (xs : List ℕ)
    → at ≡ s + c
    → IsString mem at xs
    → length xs < fuel
    → strlen_loop fuel mem s c ≡ ok (c + length xs)
unfolding strlen_loop
strlen_loop-length zero mem s c at xs e h lt = absurd (omega arith)
strlen_loop-length (suc k) mem s c at [] e h lt =
    let z : (mem (s + c) == 0) ≡ true = ground arith in let n : c + 0 ≡ c = omega arith in rw (z, n)
strlen_loop-length (suc k) mem s c at (x ∷ xs) e h lt =
    let z : (mem (s + c) == 0) ≡ false = ground (arith, h.1) in
    let n : c + suc (length xs) ≡ c + 1 + length xs = omega arith in
    rw (z, n) (strlen_loop-length k mem s (c + 1) (at + 1) xs (omega arith) h.2 (omega arith))

-- `strlen` returns the length of the string, and 0 for the null pointer.
pub strlen-length :
    (fuel : ℕ) (mem : Memory) (s : ℕ) (xs : List ℕ)
    → IsString mem s xs
    → length xs < fuel
    → strlen fuel mem s ≡ ok (if s == 0 then 0 else length xs)
unfolding strlen
strlen-length fuel mem s xs h lt = elim (Bool-cases (s == 0)) [
  | inl z ↦ rw z
  | inr nz ↦
      let n : 0 + length xs ≡ length xs = omega arith in
      rw nz (strlen_loop-length fuel mem s 0 s xs (omega arith) h lt ∙ ap ok n)
]

strcpy_loop-IsString :
    (fuel : ℕ) (mem : Memory) (dest src : ℕ) (xs : List ℕ)
    → IsString mem src xs
    → Apart dest src (length xs)
    → length xs < fuel
    → (mem' : Memory) × (strcpy_loop fuel mem dest src ≡ ok mem')
      × IsString mem' dest xs
      × ((j : ℕ) → (j < dest) ⊎ (dest + length xs < j) → mem' j ≡ mem j)
unfolding strcpy_loop
strcpy_loop-IsString zero mem dest src xs h apart lt = absurd (omega arith)
strcpy_loop-IsString (suc k) mem dest src [] h apart lt =
    let z : (mem src == 0) ≡ true = ground arith in
    (update mem dest 0, rw z, ground arith, λ j out. ground arith)
strcpy_loop-IsString (suc k) mem dest src (x ∷ xs) h apart lt =
    let z : (mem src == 0) ≡ false = ground (arith, h.1) in
    let next : Memory = update mem dest (mem src) in
    let (mem', run, at, out) =
      strcpy_loop-IsString k next (dest + 1) (src + 1) xs
        (IsString-same mem next (src + 1) xs (λ j a b. ground arith) h.2) (ground arith)
        (omega arith) in
    (
      mem',
      rw z run,
      (out dest (inl (omega arith)) ∙ ground arith ∙ h.0, h.1, at),
      λ j o. out j (ground arith) ∙ ground arith,
    )

-- `strcpy` to a place apart from the string copies it, its 0 at the end included, and changes no
-- other byte.
pub strcpy-IsString :
    (fuel : ℕ) (mem : Memory) (dest src : ℕ) (xs : List ℕ)
    → dest ≢ 0
    → src ≢ 0
    → IsString mem src xs
    → Apart dest src (length xs)
    → length xs < fuel
    → (mem' : Memory) × (strcpy fuel mem dest src ≡ ok mem')
      × IsString mem' dest xs
      × ((j : ℕ) → (j < dest) ⊎ (dest + length xs < j) → mem' j ≡ mem j)
unfolding strcpy
strcpy-IsString fuel mem dest src xs nd ns h apart lt =
    let (mem', run, at, out) = strcpy_loop-IsString fuel mem dest src xs h apart lt in
    (mem', rw (ne→== dest 0 nd, ne→== src 0 ns) run, at, out)

-- `memset` sets the bytes of the range to the low byte of the value and changes no other.
memset_lem :
    (mem : Memory) (s size v : ℕ)
    → ((j : ℕ) → s ≤ j → j < s + size → memset mem s size v j ≡ v % 256)
      × ((j : ℕ) → (j < s) ⊎ (s + size ≤ j) → memset mem s size v j ≡ mem j)
unfolding memset
memset_lem mem s zero v = (λ j a b. absurd (omega arith), λ j out. refl)
memset_lem mem s (suc k) v =
    let (inside, outside) = memset_lem (update mem s (v % 256)) (s + 1) k v in
    (
      λ j a b. elim (dec_lt s j) [
        | yes later ↦ inside j (omega arith) (omega arith)
        | no first ↦ outside j (inl (omega arith)) ∙ ground arith
      ],
      λ j out. outside j (ground arith) ∙ ground arith,
    )
