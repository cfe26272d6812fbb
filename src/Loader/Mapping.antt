-- ===== src/Loader/Mapping.antt =====
-- How often the loop of `map_region` in src/memory/mmap.cpp runs.
use cros_kernel.Base.{
  ℕ, zero, suc, ◌+◌, ◌-◌, ◌*◌, ◌/◌, ◌%◌, ◌≤◌, ◌<◌, ◌≡◌, ◌≢◌, refl, ap, true, false, ltb, ◌==◌,
  arith, Run, ok, fault, out_of_fuel, ◌>>=◌, ◌^◌,
}
use cros_kernel.MemoryMap.{word, add64, sub64}
use cros_kernel.PageAllocator.{PageAllocator, reserve, nomem}
use cros_kernel.Loader.Sections.{>>=-ap}
use cros_kernel.Loader.{
  place_section, ProgramHeader, Machine, Space, page_size, map_loop, map_region, load_section,
  image_flags,
}

fault->>= : {A B : Type 0} (m : Run A) (f : A → Run B) → m ≡ fault → (m >>= f) ≡ fault
fault->>= m f e = ap (λ r. r >>= f) e

>>=-fault :
    {A B : Type 0} (m : Run A) (f : A → Run B)
    → m ≢ out_of_fuel
    → ((a : A) → f a ≡ fault)
    → (m >>= f) ≡ fault
>>=-fault (ok a) f ends e = e a
>>=-fault fault f ends e = refl
>>=-fault out_of_fuel f ends e = absurd (ends refl)

module _ {S : Type 0} (t : Machine S) where
  -- the pages from the byte `p` on, one after another
  pub map_pages : ℕ → ℕ → ℕ → ℕ → ℕ → S × PageAllocator → Run (S × PageAllocator)
  map_pages zero p addr frame flags s = ok s
  map_pages (suc n) p addr frame flags s =
      t.set_page_entry (add64 addr p) (add64 frame p) flags s
      >>= map_pages n (p + page_size) addr frame flags

  map_loop-map_pages :
      (n fuel p addr size frame flags : ℕ) (s : S × PageAllocator)
      → n < fuel
      → size ≤ p + n * page_size
      → p + n * page_size < size + page_size
      → size + page_size ≤ word
      → map_loop t fuel p addr size frame flags s ≡ map_pages n p addr frame flags s
  unfolding map_loop map_pages
  map_loop-map_pages n zero p addr size frame flags s h low high w = absurd (omega arith)
  map_loop-map_pages zero (suc fuel) p addr size frame flags s h low high w =
      let done : ltb p size ≡ false = ground arith in rw done refl
  map_loop-map_pages (suc n) (suc fuel) p addr size frame flags s h low high w =
      let more : ltb p size ≡ true = ground arith in
      let next : add64 p page_size ≡ p + page_size = omega arith in
      rw (more, next)
        (>>=-ap (t.set_page_entry (add64 addr p) (add64 frame p) flags s) _ _ (λ s'.
          map_loop-map_pages n fuel (p + page_size) addr size frame flags s' (omega arith)
            (omega arith) (omega arith) w))

  -- The size is too close to 2 ^ 64 for the loop to end, and a page that it comes to has no entry.
  map_loop-fault :
      (k fuel p addr size frame flags : ℕ) (s : S × PageAllocator)
      → k < fuel
      → p % page_size ≡ 0
      → p < word
      → word < size + page_size
      → add64 addr (add64 p (k * page_size)) ≡ 2 ^ 39
      → ((frame : ℕ) (s : S × PageAllocator) → t.set_page_entry (2 ^ 39) frame flags s ≡ fault)
      → ((page frame : ℕ) (s : S × PageAllocator)
          → t.set_page_entry page frame flags s ≢ out_of_fuel)
      → map_loop t fuel p addr size frame flags s ≡ fault
  unfolding map_loop
  map_loop-fault k zero p addr size frame flags s lt whole low big at none_there ends =
      absurd (omega arith)
  map_loop-fault zero (suc fuel) p addr size frame flags s lt whole low big at none_there ends =
      let more : ltb p size ≡ true = ground arith in
      let here : add64 addr p ≡ 2 ^ 39 = omega (arith, at) in
      rw (more, here, none_there (add64 frame p) s) refl
  map_loop-fault (suc k) (suc fuel) p addr size frame flags s lt whole low big at none_there ends =
      let more : ltb p size ≡ true = ground arith in
      rw more (
        >>=-fault _ _ (ends (add64 addr p) (add64 frame p) s) (λ s'.
          map_loop-fault k fuel (add64 p page_size) addr size frame flags s' (omega arith)
            (omega arith) (omega arith) big (omega (arith, at)) none_there ends))

  -- `map_region` maps the pages that the range has from its first byte on, in order, and ends, if the
  -- size is at least a page below 2 ^ 64 and the fuel is more than the number of pages.
  pub map_region-map_pages :
      (fuel addr size frame flags : ℕ) (s : S × PageAllocator)
      → size + page_size ≤ word
      → (size + (page_size - 1)) / page_size < fuel
      → map_region t fuel addr size frame flags s
        ≡ map_pages ((size + (page_size - 1)) / page_size) 0 addr frame flags s
  map_region-map_pages fuel addr size frame flags s w h =
      map_loop-map_pages ((size + (page_size - 1)) / page_size) fuel 0 addr size frame flags s h
        (omega arith) (omega arith) w

  -- A section in a page that has a frame already, which is smaller than the rest of that page and is not
  -- empty or does not start with the page, is never loaded, where memory is left: the loop that maps it
  -- goes on through the address space, until it fails at a page or comes to the end of the addresses of
  -- the user, where a page has no entry. It does so within 2 ^ 52 rounds, if `setPageEntry` has no entry
  -- there and its own loops end.
  pub load_section_fault :
      (fuel file f : ℕ) (ph : ProgramHeader) (s : Space S)
      → t.get_page_frame ph.vaddr s.space ≡ ok f
      → f ≢ 0
      → (reserve ph.memsize s.pages).0 ≢ nomem
      → 0 < ph.memsize + ph.vaddr % page_size
      → ph.memsize + ph.vaddr % page_size < page_size
      → ((frame : ℕ) (s : S × PageAllocator)
          → t.set_page_entry (2 ^ 39) frame image_flags s ≡ fault)
      → ((page frame : ℕ) (s : S × PageAllocator)
          → t.set_page_entry page frame image_flags s ≢ out_of_fuel)
      → 2 ^ 52 ≤ fuel
      → load_section t fuel file ph s ≡ fault
  unfolding load_section place_section
  load_section_fault fuel file f ph s mapped ne memory low high none_there ends enough =
      let granted : ((reserve ph.memsize s.pages).0 == nomem) ≡ false = ground arith in
      let used : (f == 0) ≡ false = ground arith in
      let first = add64 ph.vaddr (page_size - ph.vaddr % page_size) in
      let k = ((2 ^ 39 + word) - first) % word / page_size in
      rw (granted, mapped, used)
        (fault->>= _ _ (
          map_loop-fault k fuel 0 first (sub64 ph.memsize (page_size - ph.vaddr % page_size))
            (reserve ph.memsize s.pages).0 image_flags (s.space, (reserve ph.memsize s.pages).1)
            (omega arith) refl (omega arith) (omega arith) (omega arith) none_there ends))
