-- ===== src/Heap/Blocks.antt =====
-- What src/memory/heap.cpp writes into the blocks of the heap.
use mathlib.Core.Path.{subst}
use cros_kernel.Base.{
  ℕ, ◌+◌, ◌-◌, ◌/◌, ◌^◌, ◌≤◌, ◌<◌, ◌≡◌, ◌≢◌, refl, ◌∙◌, ap, ◌⊎◌, inr, update, arith,
}
use cros_kernel.MemoryMap.{sub64}
use cros_kernel.Heap.{
  HeapState, extend_int, forward, backward, init_heap, write_block, link_previous, split_blk,
}

-- A block of `n` words of data, with one flag and size in its header and its footer.
pub record IsBlock (w : ℕ → ℕ) (blk n flag : ℕ) : Type 0 where
  pub fits : blk + n + 5 ≤ 2 ^ 61
  pub size_is : w blk ≡ n
  pub flag_is : w (blk + 2) ≡ flag
  pub footer_size : w (blk + n + 3) ≡ n
  pub footer_flag : w (blk + n + 4) ≡ flag

-- the words that a block's header and footer are not in
pub Outside : ℕ → ℕ → ℕ → Type 0
Outside blk n j = (j < blk) ⊎ (blk + 3 ≤ j) × (j < blk + n + 3) ⊎ (blk + n + 5 ≤ j)

forward_lem : (p i : ℕ) → p + i < 2 ^ 61 → forward p i ≡ p + i
forward_lem p i h = omega arith

write_block-IsBlock :
    (blk n next flag : ℕ) (w : ℕ → ℕ)
    → blk + n + 5 ≤ 2 ^ 61
    → IsBlock (write_block blk n next flag w) blk n flag
      × (write_block blk n next flag w (blk + 1) ≡ next)
      × ((j : ℕ) → Outside blk n j → write_block blk n next flag w j ≡ w j)
unfolding write_block Outside
write_block-IsBlock blk n next flag w fits =
    let a = forward_lem blk 1 (omega arith) in
    let b = forward_lem blk 2 (omega arith) in
    let c = forward_lem blk (n + 3) (omega arith) in
    let d = forward_lem blk (n + 4) (omega arith) in
    rw (a, b, c, d)
      (
        record {
          fits = fits;
          size_is = ground arith;
          flag_is = ground arith;
          footer_size = ground arith;
          footer_flag = ground arith;
        },
        ground arith,
        λ j out. ground arith,
      )

link_previous_lem :
    (sp blk j : ℕ) (w : ℕ → ℕ) → sp + 1 < 2 ^ 61 → j ≢ sp + 1 → link_previous sp blk w j ≡ w j
unfolding link_previous
link_previous_lem sp blk j w fits apart = let e = forward_lem sp 1 fits in rw e (ground arith)

-- A block that is in use with `m` words, and a free one behind it with `left`, in place of a block that
-- `w` has; `next` is the next one of the list.
pub record Splits (w w' : ℕ → ℕ) (blk m left next sp : ℕ) : Type 0 where
  pub used : IsBlock w' blk m 1
  pub free : IsBlock w' (blk + m + 5) left 0
  pub next_is : w' (blk + m + 5 + 1) ≡ next
  pub others : (j : ℕ) → (j < blk) ⊎ (blk + m + left + 10 ≤ j) → j ≢ sp + 1 → w' j ≡ w j

-- where the block of `search_previous` is, so that its header is not within other blocks
unfoldable pub Apart : ℕ → ℕ → ℕ → Type 0
Apart sp blk n = (sp + 2 ≤ blk) ⊎ (sp ≡ blk) ⊎ (blk + n + 5 ≤ sp)

split_words :
    (blk m left next sp : ℕ) (w : ℕ → ℕ)
    → blk + m + left + 10 ≤ 2 ^ 61
    → sp + 1 < 2 ^ 61
    → Apart sp blk (m + left + 5)
    → Splits w
        (write_block blk m 0 1
          (link_previous sp (blk + m + 5) (write_block (blk + m + 5) left next 0 w)))
        blk
        m
        left
        next
        sp
unfolding Apart Outside
split_words blk m left next sp w fits low apart =
    let w1 = write_block (blk + m + 5) left next 0 w in
    let w2 = link_previous sp (blk + m + 5) w1 in
    let (used, _, kept) = write_block-IsBlock blk m 0 1 w2 (omega arith) in
    let (free, next_is, same) = write_block-IsBlock (blk + m + 5) left next 0 w (omega arith) in
    let still : (j : ℕ)
        → blk + m + 5 ≤ j
        → j < blk + m + left + 10
        → write_block blk m 0 1 w2 j ≡ w1 j =
      λ j a b.
        kept j (inr (inr (omega arith)))
        ∙ link_previous_lem sp (blk + m + 5) j w1 low (ground arith) in
    record {
      used = used;
      free = record {
        fits = omega arith;
        size_is = still _ (omega arith) (omega arith) ∙ free.size_is;
        flag_is = still _ (omega arith) (omega arith) ∙ free.flag_is;
        footer_size = still _ (omega arith) (omega arith) ∙ free.footer_size;
        footer_flag = still _ (omega arith) (omega arith) ∙ free.footer_flag;
      };
      next_is = still _ (omega arith) (omega arith) ∙ next_is;
      others = λ j out away.
          kept j (ground arith)
          ∙ link_previous_lem sp (blk + m + 5) j w1 low away
          ∙ same j (ground arith);
    }

-- `split_blk` makes two blocks of one that is free and has five words or more to spare: the first one in
-- use, of the words asked for, from whose data it returns the address, and behind it a free one of the
-- rest, which has the next block of the list that the first one had. No word outside the block changes
-- but the next block of `search_previous`, which may be the block itself, but else is apart from it.
pub split_blk-Splits :
    (size blk n : ℕ) (h : HeapState)
    → IsBlock h.words blk n 0
    → size / 8 + 5 ≤ n
    → h.search_previous + 1 < 2 ^ 61
    → Apart h.search_previous blk n
    → ((split_blk size blk h).0 ≡ blk + 3)
      × Splits h.words
          (split_blk size blk h).1.words
          blk
          (size / 8)
          (n - (size / 8 + 5))
          (h.words (blk + 1))
          h.search_previous
unfolding split_blk Apart
split_blk-Splits size blk n h is room low apart =
    let fits = is.fits in
    let split : forward blk (size / 8 + 5) ≡ blk + size / 8 + 5 = omega arith in
    let third = forward_lem blk 3 (omega arith) in
    let left : sub64 (sub64 (h.words blk) (size / 8)) 5 ≡ n - (size / 8 + 5) =
      ap (λ k. sub64 (sub64 k (size / 8)) 5) is.size_is ∙ omega arith in
    let one = forward_lem blk 1 (omega arith) in
    let next : update h.words (blk + size / 8 + 5) (n - (size / 8 + 5)) (blk + 1)
        ≡ h.words (blk + 1) =
      ground arith in
    rw (split, third, left, one, next)
      (
        refl,
        split_words blk (size / 8) (n - (size / 8 + 5)) _ _ h.words (omega arith) low
            (subst (Apart h.search_previous blk) (omega arith) apart),
      )

-- `init_heap` on whole words makes one free block of them.
pub init_heap-IsBlock :
    (w : ℕ → ℕ) (heap_ptr mem_size : ℕ)
    → 40 ≤ mem_size
    → mem_size < 2 ^ 31
    → heap_ptr + mem_size / 8 < 2 ^ 61
    → IsBlock (init_heap w heap_ptr mem_size).words heap_ptr (mem_size / 8 - 5) 0
unfolding init_heap
init_heap-IsBlock w p size low high fits =
    let n : extend_int (sub64 size 40) / 8 ≡ size / 8 - 5 = ground arith in
    let a = forward_lem p 1 (omega arith) in
    let b = forward_lem p 2 (omega arith) in
    let c : backward (forward p (size / 8)) 2 ≡ p + (size / 8 - 5) + 3 = omega arith in
    let d : backward (forward p (size / 8)) 1 ≡ p + (size / 8 - 5) + 4 = omega arith in
    rw (n, a, b, c, d)
      (record {
        fits = omega arith;
        size_is = ground arith;
        flag_is = ground arith;
        footer_size = ground arith;
        footer_flag = ground arith;
      })
