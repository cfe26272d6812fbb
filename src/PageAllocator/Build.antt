-- ===== src/PageAllocator/Build.antt =====
-- The constructor of src/memory/pageallocator.cpp frees the pages of the available regions.
use native.Mathlib.Nat.{mul-div_cancel, div-lt_iff_lt-mul, le-div_iff_mul-le}
use cros_kernel.Base.{
  ℕ, zero, suc, ◌+◌, ◌-◌, ◌*◌, ◌/◌, ◌%◌, ◌≤◌, ◌<◌, ◌≡◌, refl, ◌∙◌, ap, false, ◌&&◌, leb, ltb,
  if◌then◌else◌, Bool-cases, inl, inr, arith, ok, [],
}
use cros_kernel.MemoryMap.{word, add64}
use cros_kernel.PageAllocator.{PageAllocator, insert, fill_loop, empty_allocator}
use cros_kernel.PageAllocator.Pages.{free_blocks, hits_below}
use cros_kernel.PageAllocator.Sound.{Sound}
use cros_kernel.PageAllocator.Insert.{insert-Sound}
use cros_kernel.PageAllocator.Keeps.{insert-Keeps}

-- 1 for a page of the range
abbrev pub in_range : ℕ → ℕ → ℕ → ℕ
in_range first stop p = if leb first p && ltb p stop then 1 else 0

-- The state in which the pages of a range have been freed one by one.
pub record Filled (first stop : ℕ) (s s' : PageAllocator) : Type 0 where
  pub sound : Sound s'
  pub pages : (p : ℕ) → free_blocks s' p ≡ free_blocks s p + in_range first stop p
  pub size_is : s'.block_size ≡ s.block_size
  pub max_is : s'.max_k_val ≡ s.max_k_val
  pub count_is : s'.free_block_count ≡ (s.free_block_count + 2 * (stop - first)) % word

-- one page, with the second count of the constructor
abbrev with_page : ℕ → PageAllocator → PageAllocator
with_page i s = let t = insert i 0 s in record t { free_block_count = add64 t.free_block_count 1 }

with_page-Filled :
    (q : ℕ) (s : PageAllocator) → Sound s → free_blocks s q ≡ 0 → Filled q (q + 1) s (with_page q s)
with_page-Filled q s sound free =
    let (x, y) =
      insert-Sound q 0 s sound (omega arith) (q, omega arith)
        (λ p. elim (Bool-cases (leb q p && ltb p (q + 1))) [
          | inl e ↦
              let at : p ≡ q = ground arith in
              let none_free : free_blocks s p ≡ 0 = ap (free_blocks s) at ∙ free in
              rw e (omega (arith, none_free))
          | inr e ↦ rw e (omega (arith, sound.once p))
        ]) in
    let keeps = insert-Keeps q 0 s in
    record {
      sound = record { marked = x.marked; once = x.once; aligned = x.aligned };
      pages = y;
      size_is = keeps.size_is;
      max_is = keeps.max_is;
      count_is = ap (λ c. add64 c 1) keeps.count_is ∙ omega arith;
    }

in_range_split :
    (q e p : ℕ) → q + 1 ≤ e → in_range q (q + 1) p + in_range (q + 1) e p ≡ in_range q e p
in_range_split q e p h = ground arith

-- one page and the pages behind it
Filled-append :
    (q e : ℕ) (s t s' : PageAllocator)
    → Filled q (q + 1) s t
    → Filled (q + 1) e t s'
    → q + 1 ≤ e
    → Filled q e s s'
Filled-append q e s t s' f g h = record {
  sound = g.sound;
  pages = λ p. omega (arith, f.pages p, g.pages p, in_range_split q e p h);
  size_is = g.size_is ∙ f.size_is;
  max_is = g.max_is ∙ f.max_is;
  count_is = omega (arith, f.count_is, g.count_is);
}

suc_times : (q w : ℕ) → (q + 1) * w ≡ q * w + w
suc_times q w = grind arith

-- a round of the loop at the page `q`
fill_step :
    (n q w stop : ℕ) (s : PageAllocator)
    → s.block_size ≡ w
    → 1 ≤ w
    → stop + w < word
    → q ≤ stop / w
    → fill_loop (suc n) (q * w) stop s
      ≡ (if leb ((q + 1) * w) stop then fill_loop n ((q + 1) * w) stop (with_page q s) else ok s)
unfolding fill_loop
fill_step n q w stop s size pos room le =
    let low = (le-div_iff_mul-le {x = q} {y = stop} pos).0 le in
    let next : add64 (q * w) s.block_size ≡ (q + 1) * w =
      ap (add64 (q * w)) size ∙ omega (arith, low, suc_times q w) in
    let index : q * w / s.block_size ≡ q = ap (λ x. q * w / x) size ∙ mul-div_cancel q pos in
    ap (λ l. if leb l stop then fill_loop n l stop (with_page (q * w / s.block_size) s) else ok s)
      next
    ∙ ap
        (λ i.
          if leb ((q + 1) * w) stop then fill_loop n ((q + 1) * w) stop (with_page i s) else ok s)
        index

-- the end of the loop
Filled-refl :
    (q w stop : ℕ) (s : PageAllocator)
    → 1 ≤ w
    → s.free_block_count < word
    → Sound s
    → q ≤ stop / w
    → leb ((q + 1) * w) stop ≡ false
    → Filled q (stop / w) s s
Filled-refl q w stop s pos small sound le over =
    let high : stop < (q + 1) * w = ground arith in
    let last = (div-lt_iff_lt-mul {x = stop} {y = q + 1} pos).1 high in
    let e : stop / w ≡ q = omega (arith, last) in
    record {
      sound = sound;
      pages = λ p. ground arith;
      size_is = refl;
      max_is = refl;
      count_is = omega (arith, e);
    }

-- The loop of the constructor over a region that ends at `stop`, from the page `q` on, which no free
-- block has, nor has any block behind it: with enough fuel the loop ends, the allocator stays sound,
-- and just the whole pages up to the end of the region become free. `freeBlockCount` grows by two for
-- each of them.
pub fill_loop-Filled :
    (n q w stop : ℕ) (s : PageAllocator)
    → s.block_size ≡ w
    → 1 ≤ w
    → stop + w < word
    → s.free_block_count < word
    → Sound s
    → ((p : ℕ) → q ≤ p → free_blocks s p ≡ 0)
    → q ≤ stop / w
    → stop / w ≤ q + n
    → (s' : PageAllocator) × (fill_loop (suc n) (q * w) stop s ≡ ok s') × Filled q (stop / w) s s'
fill_loop-Filled zero q w stop s size pos room small sound fresh le fuel =
    elim (Bool-cases (leb ((q + 1) * w) stop)) [
      | inl p ↦
          let in_reach : (q + 1) * w ≤ stop = ground arith in
          let far = (le-div_iff_mul-le {x = q + 1} {y = stop} pos).1 in_reach in
          absurd (omega (arith, far))
      | inr p ↦ (
        s,
        fill_step zero q w stop s size pos room le
            ∙ ap (λ b. if b then fill_loop zero ((q + 1) * w) stop (with_page q s) else ok s) p,
        Filled-refl q w stop s pos small sound le p,
      )
    ]
fill_loop-Filled (suc n) q w stop s size pos room small sound fresh le fuel =
    elim (Bool-cases (leb ((q + 1) * w) stop)) [
      | inl p ↦
          let in_reach : (q + 1) * w ≤ stop = ground arith in
          let far = (le-div_iff_mul-le {x = q + 1} {y = stop} pos).1 in_reach in
          let f = with_page-Filled q s sound (fresh q (omega arith)) in
          let (s', e, g) =
            fill_loop-Filled n (q + 1) w stop (with_page q s) (f.size_is ∙ size) pos room
              (omega (arith, f.count_is)) f.sound
              (λ p h. f.pages p ∙ out_of_range p h (fresh p (omega arith))) far (omega arith) in
          (
            s',
            fill_step (suc n) q w stop s size pos room le
                ∙ ap (λ b. if b then fill_loop (suc n) ((q + 1) * w) stop (with_page q s) else ok s)
                    p
                ∙ e,
            Filled-append q (stop / w) s (with_page q s) s' f g far,
          )
      | inr p ↦ (
        s,
        fill_step (suc n) q w stop s size pos room le
            ∙ ap (λ b. if b then fill_loop (suc n) ((q + 1) * w) stop (with_page q s) else ok s) p,
        Filled-refl q w stop s pos small sound le p,
      )
    ]
  where
    out_of_range :
        (p : ℕ) → q + 1 ≤ p → free_blocks s p ≡ 0 → free_blocks s p + in_range q (q + 1) p ≡ 0
    out_of_range p h z = ground (arith, z)

hits_below-none : (n p : ℕ) → hits_below n (λ k. []) p ≡ 0
hits_below-none zero p = refl
hits_below-none (suc n) p = omega (arith, hits_below-none n p)

-- The first two loops of the constructor leave no page free.
pub empty_allocator-Sound :
    (n w : ℕ) → Sound (empty_allocator n w) × ((p : ℕ) → free_blocks (empty_allocator n w) p ≡ 0)
empty_allocator-Sound n w =
    let z = λ (p : ℕ). hits_below-none ((empty_allocator n w).max_k_val + 1) p in
    (record { marked = λ i k h. refl; once = λ p. omega (arith, z p); aligned = λ k h. tt }, z)
