-- ===== src/PageAllocator/Keeps.antt =====
-- What `insert` of src/memory/pageallocator.cpp leaves alone.
use cros_kernel.Base.{ℕ, zero, suc, ◌-◌, ◌^◌, ◌≡◌, refl, Bool-cases, inl, inr, ltb, if◌then◌else◌}
use cros_kernel.MemoryMap.{add64}
use cros_kernel.PageAllocator.{PageAllocator, buddy_of, take_buddy, is_mate, insert_loop, insert}

pub record Keeps (s s' : PageAllocator) : Type 0 where
  pub max_is : s'.max_k_val ≡ s.max_k_val
  pub size_is : s'.block_size ≡ s.block_size
  pub offset_is : s'.offset ≡ s.offset
  pub count_is : s'.free_block_count ≡ s.free_block_count

insert_loop-Keeps : (n i k : ℕ) (s : PageAllocator) → Keeps s (insert_loop n i k s)
unfolding insert_loop
insert_loop-Keeps zero i k s = record {
  max_is = refl;
  size_is = refl;
  offset_is = refl;
  count_is = refl;
}
insert_loop-Keeps (suc n) i k s = elim (Bool-cases (is_mate (buddy_of i k) k s)) [
  | inl p ↦
      let b = buddy_of i k in
      let h = insert_loop-Keeps n (if ltb b i then b else i) (suc k) (take_buddy b k s) in
      rw p (record {
        max_is = h.max_is;
        size_is = h.size_is;
        offset_is = h.offset_is;
        count_is = h.count_is;
      })
  | inr p ↦ rw p (record { max_is = refl; size_is = refl; offset_is = refl; count_is = refl })
]

pub insert-Keeps :
    (i k : ℕ) (s : PageAllocator)
    → Keeps (record s { free_block_count = add64 s.free_block_count (2 ^ k) }) (insert i k s)
unfolding insert
insert-Keeps i k s = insert_loop-Keeps (s.max_k_val - k) i k _
