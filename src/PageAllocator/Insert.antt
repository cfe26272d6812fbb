-- ===== src/PageAllocator/Insert.antt =====
-- `insert` of src/memory/pageallocator.cpp merges a block with its buddies.
use native.Mathlib.Nat.{add_comm, mul_assoc, mul-div_cancel}
use cros_kernel.Base.{
  ℕ, zero, suc, ◌+◌, ◌-◌, ◌*◌, ◌/◌, ◌%◌, ◌^◌, ◌≤◌, ◌≡◌, refl, ◌∙◌, ap, true, false, ◌==◌,
  if◌then◌else◌, ltb, Bool-cases, inl, inr, arith,
}
use cros_kernel.MemoryMap.{add64}
use cros_kernel.PageAllocator.{PageAllocator, buddy_of, take_buddy, is_mate, insert_loop, insert}
use cros_kernel.PageAllocator.Pages.{hit, free_blocks, hit-suc}
use cros_kernel.PageAllocator.Sound.{
  IsAligned, Sound, power_positive, put_block-Sound, take_buddy-Sound,
}

-- the lower one of a block and its buddy
abbrev lower : ℕ → ℕ → ℕ
lower i k = if ltb (buddy_of i k) i then buddy_of i k else i

pub twice : (h k : ℕ) → (h * 2) * 2 ^ k ≡ h * 2 ^ suc k
twice h k =
    let double : 2 * 2 ^ k ≡ 2 ^ suc k = omega arith in
    mul_assoc h 2 (2 ^ k) ∙ ap (λ x. h * x) double

pub twice_and_one : (h k : ℕ) → (h * 2 + 1) * 2 ^ k ≡ h * 2 ^ suc k + 2 ^ k
twice_and_one h k = let e = twice h k in grind (arith, e)

-- A block and its buddy are the two halves of a block of the next size.
lower-IsAligned :
    (i k : ℕ)
    → IsAligned k i
    → IsAligned (suc k) (lower i k)
      × ((p : ℕ) → hit (suc k) (lower i k) p ≡ hit k i p + hit k (buddy_of i k) p)
lower-IsAligned i k (m, e) =
    let pos_w = power_positive k in
    let quotient : i / 2 ^ k ≡ m = ap (λ x. x / 2 ^ k) e ∙ mul-div_cancel m pos_w in
    let h = m / 2 in
    elim (Bool-cases (m % 2 == 0)) [
      | inl even ↦
          let half : m ≡ h * 2 = ground arith in
          let at : i ≡ h * 2 ^ suc k = e ∙ ap (λ x. x * 2 ^ k) half ∙ twice h k in
          let b : buddy_of i k ≡ i + 2 ^ k = rw (quotient, even) refl in
          let up : ltb (i + 2 ^ k) i ≡ false = ground arith in rw (b, up) ((h, at), hit-suc k i)
      | inr odd ↦
          let half : m ≡ h * 2 + 1 = ground arith in
          let at : i ≡ h * 2 ^ suc k + 2 ^ k = e ∙ ap (λ x. x * 2 ^ k) half ∙ twice_and_one h k in
          let b : buddy_of i k ≡ i - 2 ^ k = rw (quotient, odd) refl in
          let down : ltb (i - 2 ^ k) i ≡ true = ground arith in
          let low : i - 2 ^ k ≡ h * 2 ^ suc k = omega arith in
          let back : (i - 2 ^ k) + 2 ^ k ≡ i = omega arith in
          rw (b, down)
            (
              (h, low),
              λ p.
                  hit-suc k (i - 2 ^ k) p
                  ∙ ap (λ x. hit k (i - 2 ^ k) p + hit k x p) back
                  ∙ add_comm (hit k (i - 2 ^ k) p) (hit k i p),
            )
    ]

insert_loop-Sound :
    (n i k : ℕ) (s : PageAllocator)
    → Sound s
    → k + n ≡ s.max_k_val
    → IsAligned k i
    → ((p : ℕ) → free_blocks s p + hit k i p ≤ 1)
    → let s' = insert_loop n i k s in
      Sound s'
      × (s'.max_k_val ≡ s.max_k_val)
      × ((p : ℕ) → free_blocks s' p ≡ free_blocks s p + hit k i p)
unfolding insert_loop
insert_loop-Sound zero i k s sound e al apart =
    let (x, y) = put_block-Sound i k s sound (omega arith) al apart in (x, refl, y)
insert_loop-Sound (suc n) i k s sound e al apart = elim (Bool-cases (is_mate (buddy_of i k) k s)) [
  | inl mate ↦
      let (sound', counts) = take_buddy-Sound (buddy_of i k) k s sound (omega arith) mate in
      let (al', halves) = lower-IsAligned i k al in
      let (x, y, z) =
        insert_loop-Sound n (lower i k) (suc k) (take_buddy (buddy_of i k) k s) sound' (omega arith)
          al' (λ p. omega (arith, counts p, halves p, apart p)) in
      rw mate (x, y, λ p. omega (arith, z p, counts p, halves p))
  | inr lone ↦
      let (x, y) = put_block-Sound i k s sound (omega arith) al apart in rw lone (x, refl, y)
]

-- `insert(index, k)` of a block that is aligned to its size and has no free page keeps the allocator
-- sound, whatever it merges the block with: just the pages of the block become free.
pub insert-Sound :
    (i k : ℕ) (s : PageAllocator)
    → Sound s
    → k ≤ s.max_k_val
    → IsAligned k i
    → ((p : ℕ) → free_blocks s p + hit k i p ≤ 1)
    → Sound (insert i k s) × ((p : ℕ) → free_blocks (insert i k s) p ≡ free_blocks s p + hit k i p)
unfolding insert
insert-Sound i k s sound le al apart =
    let counted : Sound (record s { free_block_count = add64 s.free_block_count (2 ^ k) }) =
      record { marked = sound.marked; once = sound.once; aligned = sound.aligned } in
    let (x, y, z) = insert_loop-Sound (s.max_k_val - k) i k _ counted (omega arith) al apart in
    (x, z)
