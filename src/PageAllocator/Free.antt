-- ===== src/PageAllocator/Free.antt =====
-- Giving back what src/memory/pageallocator.cpp reserved.
use native.Mathlib.Nat.{
  mul-div_cancel, div-le_self, lt-div-mul-add, mul-le-mul_right, div-lt_iff_lt-mul,
}
use mathlib.Core.Path.{subst}
use cros_kernel.Base.{
  ℕ, ◌+◌, ◌-◌, ◌*◌, ◌/◌, ◌%◌, ◌^◌, ◌≤◌, ◌<◌, ◌≡◌, ◌≢◌, sym, ◌∙◌, ap, inl, inr, arith,
}
use cros_kernel.MemoryMap.{word, sub64}
use cros_kernel.PageAllocator.{
  PageAllocator, nomem, address_of, llog2, size_class, hand_out, reserve, free, insert,
}
use cros_kernel.PageAllocator.Log.{llog2_lem}
use cros_kernel.PageAllocator.Pages.{free_blocks}
use cros_kernel.PageAllocator.Sound.{Sound, hit_self}
use cros_kernel.PageAllocator.Insert.{insert-Sound}
use cros_kernel.PageAllocator.Reserve.{reserve_block-Reserved}

-- The pages of the allocator have addresses, below `NOMEM`.
pub record IsAddressed (s : PageAllocator) : Type 0 where
  pub size_positive : 1 ≤ s.block_size
  pub below : (p : ℕ) → 1 ≤ free_blocks s p → s.offset + p * s.block_size < nomem

-- the block of an address
index_of : (o b w : ℕ) → 1 ≤ w → o + b * w < nomem → sub64 ((o + b * w) % word) o / w ≡ b
index_of o b w pos lt = ap (λ x. x / w) (back (b * w) lt) ∙ mul-div_cancel b pos
  where
    back : (y : ℕ) → o + y < nomem → sub64 ((o + y) % word) o ≡ y
    back y h = omega arith

free_lem :
    (a b k : ℕ) (t : PageAllocator)
    → sub64 a t.offset / t.block_size ≡ b
    → (t.block_map b).kval ≡ k
    → free a t ≡ ((2 ^ k * t.block_size) % word, insert b k t)
unfolding free
free_lem a b k t e f =
    ap (λ i. ((2 ^ (t.block_map i).kval * t.block_size) % word, insert i (t.block_map i).kval t)) e
    ∙ ap (λ j. ((2 ^ j * t.block_size) % word, insert b j t)) f

-- Freeing what was reserved, in an allocator whose pages have addresses below NOMEM: `free` takes the
-- address that `reserve` returned, answers with the size of the block, and leaves the allocator
-- sound, with just the pages free that were free before, whatever was split and is merged again.
pub free-reserve :
    (size : ℕ) (s : PageAllocator) (a : ℕ) (t : PageAllocator)
    → Sound s
    → IsAddressed s
    → reserve size s ≡ (a, t)
    → a ≢ nomem
    → Sound (free a t).1
      × ((p : ℕ) → free_blocks (free a t).1 p ≡ free_blocks s p)
      × ((free a t).0 ≡ (2 ^ size_class size s.block_size * s.block_size) % word)
unfolding reserve
free-reserve size s a t sound at e got =
    let k = size_class size s.block_size in
    elim (reserve_block-Reserved k s sound) [
      | inl (f, _) ↦ absurd (got (ap (λ x. x.0) (sym e ∙ ap (hand_out k s) f)))
      | inr (b, s', f, r) ↦
          let t' : PageAllocator = record s' {
            free_block_count = sub64 s'.free_block_count (2 ^ k);
          } in
          let first_free : 1 ≤ free_blocks s b = omega (arith, r.pages b, hit_self k b) in
          let place : s'.offset + b * s'.block_size ≡ s.offset + b * s.block_size =
            ap (λ x. x + b * s'.block_size) r.offset_is ∙ ap (λ x. s.offset + b * x) r.size_is in
          let i =
            index_of s'.offset b s'.block_size (omega (arith, at.size_positive, r.size_is))
              (omega (arith, at.below b first_free, place)) in
          let u = free_lem (address_of b s') b k t' i r.kval_is in
          let sound' : Sound t' = record {
            marked = r.sound.marked;
            once = r.sound.once;
            aligned = r.sound.aligned;
          } in
          let (v, w) =
            insert-Sound b k t' sound' (omega (arith, r.small, r.max_is)) r.aligned
              (λ p. omega (arith, r.pages p, sound.once p)) in
          subst
            (λ (x : ℕ × PageAllocator).
              Sound (free x.0 x.1).1
              × ((p : ℕ) → free_blocks (free x.0 x.1).1 p ≡ free_blocks s p)
              × ((free x.0 x.1).0 ≡ (2 ^ k * s.block_size) % word))
            (ap (hand_out k s) (sym f) ∙ e)
            (subst
              (λ (x : ℕ × PageAllocator).
                Sound x.1
                × ((p : ℕ) → free_blocks x.1 p ≡ free_blocks s p)
                × (x.0 ≡ (2 ^ k * s.block_size) % word))
              (sym u) (v, λ p. w p ∙ r.pages p, ap (λ x. (2 ^ k * x) % word) r.size_is))
    ]

-- `reserve` finds room for the size that is asked for: where it returns an address, the block there
-- has at least `size` bytes, and no smaller size of a block would do.
pub size_class_lem :
    (size w : ℕ)
    → 1 ≤ size
    → size ≤ word - 1
    → 1 ≤ w
    → (size ≤ 2 ^ size_class size w * w) × ((j : ℕ) → size ≤ 2 ^ j * w → size_class size w ≤ j)
size_class_lem size w one le pos =
    let e : sub64 size 1 ≡ size - 1 = omega arith in
    let q = (size - 1) / w in
    let small : q + 1 ≤ 2 ^ 64 = omega (arith, div-le_self (size - 1) w) in
    let (up, least) = llog2_lem (q + 1) small in
    let c : size_class size w ≡ llog2 (q + 1) = ap (λ x. llog2 (x / w + 1)) e in
    let enough : size ≤ (q + 1) * w = grind (arith, lt-div-mul-add pos) in
    (
      subst (λ x. size ≤ 2 ^ x * w) (sym c) (omega (arith, enough, mul-le-mul_right w up)),
      λ j h.
          let l = (div-lt_iff_lt-mul {x = size - 1} {y = 2 ^ j} pos).1 (omega (arith, h)) in
          subst (λ x. x ≤ j) (sym c) (least j (omega (arith, l))),
    )
