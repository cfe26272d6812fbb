-- ===== src/PageAllocator/Log.antt =====
-- `llog2` of src/util/math.h.
use mathlib.Core.Path.{subst}
use cros_kernel.Base.{
  ℕ, zero, suc, ◌+◌, ◌-◌, ◌/◌, ◌^◌, ◌≤◌, ◌<◌, ◌≡◌, true, ◌==◌, leb, Bool-cases, inl, inr, arith,
}
use cros_kernel.PageAllocator.{bit_length, llog2}

bit_length-bound : (n x : ℕ) → x < 2 ^ n → x < 2 ^ bit_length n x
unfolding bit_length
bit_length-bound zero x h = h
bit_length-bound (suc n) x h = elim (Bool-cases (x == 0)) [
  | inl z ↦ rw z (ground arith)
  | inr z ↦
      let half : x / 2 < 2 ^ n = ground (arith) in
      let r = bit_length-bound n (x / 2) half in
      let b = bit_length n (x / 2) in
      let c : x < 2 ^ suc b = omega (arith, r) in
      let e : suc b ≡ 1 + b = omega arith in rw z (subst (λ m. x < 2 ^ m) e c)
]

bit_length-least : (n x j : ℕ) → x < 2 ^ j → bit_length n x ≤ j
unfolding bit_length
bit_length-least zero x j h = omega arith
bit_length-least (suc n) x zero h = let z : (x == 0) ≡ true = ground arith in rw z (omega arith)
bit_length-least (suc n) x (suc j) h = elim (Bool-cases (x == 0)) [
  | inl z ↦ rw z (omega arith)
  | inr z ↦ rw z (
      let half : x / 2 < 2 ^ j = ground (arith) in omega (arith, bit_length-least n (x / 2) j half))
]

-- On a 64-bit word `llog2` is the logarithm to base 2, rounded up: the least exponent of a power of
-- two that is not below the word.
pub llog2_lem : (x : ℕ) → x ≤ 2 ^ 64 → (x ≤ 2 ^ llog2 x) × ((j : ℕ) → x ≤ 2 ^ j → llog2 x ≤ j)
llog2_lem x h = elim (Bool-cases (leb x 1)) [
  | inl p ↦ rw p (ground arith, λ j le. omega arith)
  | inr p ↦
      let low : x - 1 < 2 ^ 64 = ground arith in
      let b = bit_length-bound 64 (x - 1) low in
      rw p (
        ground (arith, b),
        λ j le. let lt : x - 1 < 2 ^ j = ground arith in bit_length-least 64 (x - 1) j lt,
      )
]
