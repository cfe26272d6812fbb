-- ===== src/PageAllocator/Split.antt =====
-- The splitting of a block in `reserve` of src/memory/pageallocator.cpp.
use mathlib.Core.Path.{subst}
use cros_kernel.Base.{
  ℕ, zero, suc, ◌+◌, ◌*◌, ◌^◌, ◌≤◌, ◌<◌, ◌≡◌, refl, sym, ◌∙◌, ap, false, ◌==◌, [], ◌∷◌, Bool-cases,
  inl, inr, arith, update,
}
use cros_kernel.PageAllocator.{PageAllocator, Block, split_loop, free_block}
use cros_kernel.PageAllocator.Pages.{hit, free_blocks, times, hit-suc}
use cros_kernel.PageAllocator.Sound.{IsAligned, power_positive, same, mark, Sound, put_block-Sound}
use cros_kernel.PageAllocator.Insert.{twice, twice_and_one}

not_marked : (c : Block) (k : ℕ) → c.is_free ≡ false → mark c k ≡ 0
not_marked c k e = rw e refl

-- What the map notes for a block in use is free to change, but for its being in use.
relabel-Sound :
    (b : ℕ) (c : Block) (s : PageAllocator)
    → Sound s
    → (s.block_map b).is_free ≡ false
    → c.is_free ≡ false
    → Sound (record s { block_map = update s.block_map b c })
relabel-Sound b c s sound busy busy' = record {
  marked = λ i k le. elim (Bool-cases (i == b)) [
    | inl e ↦
        let q : i ≡ b = ground arith in
        let m : times i (s.avail_list k) ≡ 0 =
          subst (λ x. times x (s.avail_list k) ≡ 0) (sym q)
            (sound.marked b k le ∙ not_marked (s.block_map b) k busy) in
        rw e (m ∙ sym (not_marked c k busy'))
    | inr e ↦ rw e (sound.marked i k le)
  ];
  once = sound.once;
  aligned = sound.aligned;
}

-- A block that is out of the lists.
pub record Held (k b : ℕ) (s : PageAllocator) : Type 0 where
  pub sound : Sound s
  pub apart : (p : ℕ) → free_blocks s p + hit k b p ≤ 1
  pub aligned : IsAligned k b
  pub kval_is : (s.block_map b).kval ≡ k
  pub busy : (s.block_map b).is_free ≡ false
  pub small : k ≤ s.max_k_val

-- The upper half of the block is freed.
abbrev halved : ℕ → ℕ → PageAllocator → PageAllocator
halved b j s = record s {
  avail_list = update s.avail_list j ((b + 2 ^ j) ∷ []);
  block_map =
      update (update s.block_map (b + 2 ^ j) (free_block j)) b
        (record (s.block_map b) { kval = j });
}

halved-Held :
    (b j : ℕ) (s : PageAllocator)
    → Held (suc j) b s
    → s.avail_list j ≡ []
    → Held j b (halved b j s)
      × ((p : ℕ) → free_blocks (halved b j s) p + hit j b p ≡ free_blocks s p + hit (suc j) b p)
halved-Held b j s held empty =
    let u = b + 2 ^ j in
    let c : Block = record (s.block_map b) { kval = j } in
    let (m, e) = held.aligned in
    let upper_aligned : IsAligned j u = (m * 2 + 1, omega (arith, e, twice_and_one m j)) in
    let put =
      put_block-Sound u j s held.sound (omega (arith, held.small)) upper_aligned
        (λ p. omega (arith, held.apart p, hit-suc j b p)) in
    let (sound, counts) =
      subst
        (λ xs.
          let t : PageAllocator = record s {
            avail_list = update s.avail_list j (u ∷ xs);
            block_map = update s.block_map u (free_block j);
          } in
          Sound t × ((p : ℕ) → free_blocks t p ≡ free_blocks s p + hit j u p))
        empty put in
    let ne : (b == u) ≡ false = ground (arith, power_positive j) in
    let total : (p : ℕ)
        → free_blocks (halved b j s) p + hit j b p ≡ free_blocks s p + hit (suc j) b p =
      λ p. omega (arith, counts p, hit-suc j b p) in
    (
      record {
        sound = relabel-Sound b c _ sound (rw ne held.busy) held.busy;
        apart = λ p. omega (arith, total p, held.apart p);
        aligned = (m * 2, e ∙ sym (twice m j));
        kval_is = rw (same b) refl;
        busy = rw (same b) held.busy;
        small = omega (arith, held.small);
      },
      total,
    )

pub split_loop-Reserved :
    (n b k : ℕ) (s : PageAllocator)
    → Held (k + n) b s
    → ((j : ℕ) → k ≤ j → j < k + n → s.avail_list j ≡ [])
    → let s' = split_loop n b k s in
      Sound s'
      × ((p : ℕ) → free_blocks s' p + hit k b p ≡ free_blocks s p + hit (k + n) b p)
      × IsAligned k b
      × ((s'.block_map b).kval ≡ k)
      × (s'.max_k_val ≡ s.max_k_val)
      × (s'.block_size ≡ s.block_size)
      × (s'.offset ≡ s.offset)
unfolding split_loop
split_loop-Reserved zero b k s held empty =
    let e : k + 0 ≡ k = omega arith in
    let h = subst (λ x. Held x b s) e held in
    (
      h.sound,
      λ p. ap (λ x. free_blocks s p + hit x b p) (sym e),
      h.aligned,
      h.kval_is,
      refl,
      refl,
      refl,
    )
split_loop-Reserved (suc n) b k s held empty =
    let e : k + suc n ≡ suc (k + n) = omega arith in
    let (held', total) =
      halved-Held b (k + n) s (subst (λ x. Held x b s) e held)
        (empty (k + n) (omega arith) (omega arith)) in
    let (sound, pages, al, kv, x, y, z) =
      split_loop-Reserved n b k (halved b (k + n) s) held' (λ j le lt.
        let f : (j == k + n) ≡ false = ground arith in rw f (empty j le (omega arith))) in
    (sound, λ p. pages p ∙ total p ∙ ap (λ x. free_blocks s p + hit x b p) (sym e), al, kv, x, y, z)
