-- ===== src/PageAllocator/Pages.antt =====
-- The free pages of src/memory/pageallocator.cpp: how often each stands in a free block.
use native.Mathlib.Decide.{dec_lt}
use mathlib.Core.Path.{subst}
use cros_kernel.Base.{
  ℕ, zero, suc, ◌+◌, ◌-◌, ◌^◌, ◌≤◌, ◌<◌, ◌≡◌, refl, true, false, ◌&&◌, ◌==◌, if◌then◌else◌, leb,
  ltb, List, [], ◌∷◌, Bool-cases, inl, inr, arith, update,
}
use cros_kernel.PageAllocator.{PageAllocator, unlink, last_from, front_from}

-- 1 where the page is in the block of size `k` at `i`
abbrev pub hit : ℕ → ℕ → ℕ → ℕ
hit k i p = if leb i p && ltb p (i + 2 ^ k) then 1 else 0

-- how many of the blocks of size `k` have the page
abbrev pub hits : ℕ → ℕ → List ℕ → ℕ
hits k p [] = 0
hits k p (i ∷ is) = hit k i p + hits k p is

-- how many blocks of the sizes below `n` have the page
abbrev pub hits_below : ℕ → (ℕ → List ℕ) → ℕ → ℕ
hits_below zero avail p = 0
hits_below (suc n) avail p = hits_below n avail p + hits n p (avail n)

-- How many free blocks have the page: 1 for a free page, 0 for any other.
abbrev pub free_blocks : PageAllocator → ℕ → ℕ
free_blocks s p = hits_below (s.max_k_val + 1) s.avail_list p

-- how often the block stands in the list
abbrev pub times : ℕ → List ℕ → ℕ
times i [] = 0
times i (j ∷ js) = (if j == i then 1 else 0) + times i js

hits_below-update_above :
    (n k : ℕ) (avail : ℕ → List ℕ) (xs : List ℕ) (p : ℕ)
    → n ≤ k
    → hits_below n (update avail k xs) p ≡ hits_below n avail p
hits_below-update_above zero k avail xs p h = refl
hits_below-update_above (suc n) k avail xs p h =
    let e : (n == k) ≡ false = ground arith in
    rw (hits_below-update_above n k avail xs p (omega arith), e) refl

hits_below-update_top :
    (n : ℕ) (avail : ℕ → List ℕ) (xs : List ℕ) (p : ℕ)
    → hits_below (suc n) (update avail n xs) p + hits n p (avail n)
      ≡ hits_below (suc n) avail p + hits n p xs
hits_below-update_top n avail xs p =
    let self : (n == n) ≡ true = ground arith in
    rw (hits_below-update_above n n avail xs p (omega arith), self) (omega arith)

-- One list changes.
pub hits_below-update :
    (n k : ℕ) (avail : ℕ → List ℕ) (xs : List ℕ) (p : ℕ)
    → k < n
    → hits_below n (update avail k xs) p + hits k p (avail k) ≡ hits_below n avail p + hits k p xs
hits_below-update zero k avail xs p h = absurd (omega arith)
hits_below-update (suc n) k avail xs p h = elim (dec_lt k n) [
  | yes l ↦
      let e : (n == k) ≡ false = ground arith in
      rw e (omega (arith, hits_below-update n k avail xs p l))
  | no l ↦
      let e : n ≡ k = omega arith in
      subst
        (λ k.
          hits_below (suc n) (update avail k xs) p + hits k p (avail k)
          ≡ hits_below (suc n) avail p + hits k p xs)
        e (hits_below-update_top n avail xs p)
]

pub hits-unlink :
    (k p i : ℕ) (xs : List ℕ) → 1 ≤ times i xs → hits k p (unlink i xs) + hit k i p ≡ hits k p xs
hits-unlink k p i [] h = absurd (omega arith)
hits-unlink k p i (j ∷ js) h = elim (Bool-cases (j == i)) [
  | inl e ↦ let q : j ≡ i = ground arith in rw (e, q) (omega arith)
  | inr e ↦
      let h' = rw e at h in
      let h'' : 1 ≤ times i js = omega (arith, h') in rw e (omega (arith, hits-unlink k p i js h''))
]

pub times-unlink :
    (j i : ℕ) (xs : List ℕ)
    → times j (unlink i xs) ≡ (if j == i then times j xs - 1 else times j xs)
times-unlink j i [] = ground arith
times-unlink j i (x ∷ xs) =
    let ih = times-unlink j i xs in
    elim (Bool-cases (x == i)) [ inl e ↦ rw e (ground arith) | inr e ↦ rw e (ground (arith, ih)) ]

pub hits-front_from :
    (k p i : ℕ) (is : List ℕ)
    → hits k p (front_from i is) + hit k (last_from i is) p ≡ hits k p (i ∷ is)
hits-front_from k p i [] = omega arith
hits-front_from k p i (j ∷ js) = omega (arith, hits-front_from k p j js)

pub times-front_from :
    (x i : ℕ) (is : List ℕ)
    → times x (front_from i is) + (if last_from i is == x then 1 else 0) ≡ times x (i ∷ is)
times-front_from x i [] = omega arith
times-front_from x i (j ∷ js) = omega (arith, times-front_from x j js)

-- A block of twice the size is two blocks.
pub hit-suc : (k i p : ℕ) → hit (suc k) i p ≡ hit k i p + hit k (i + 2 ^ k) p
hit-suc k i p = ground arith
