-- ===== src/PageTables/Walk.antt =====
-- The entries that `setPageEntry` of src/memory/aarch64/mmu.cpp writes and `getPageFrame` reads.
use mathlib.Core.Path.{subst}
use cros_kernel.Base.{
  fault, ◌≤◌, ℕ, zero, suc, ◌-◌, ◌/◌, ◌%◌, ◌^◌, ◌<◌, ◌≡◌, ◌≢◌, refl, ◌∙◌, ap, sym, ◌⊎◌, true, false,
  ltb, leb, if◌then◌else◌, Bool-cases, inl, inr, update, arith, some, ok, some-eq, update_ne,
  update_self,
}
use cros_kernel.PageTables.{
  PageTableEntry, Mmu, leads_on, physical_address, page_descriptor, table_of, read_entry, set_entry,
  write_present, missing, write_entry, fill_translation_table, high_mem, set_page_entry,
  get_page_frame, entry_index,
}

-- The entry on the way to a table that the walk reaches leads to it.
table_of_step :
    (m : Mmu) (top i index g f : ℕ)
    → table_of m top i (index / 512) ≡ some g
    → table_of m top (suc i) index ≡ some f
    → (leads_on (m.entries g (index / 512 % 512)) ≡ true)
      × (physical_address (m.entries g (index / 512 % 512)) ≡ f)
unfolding table_of
table_of_step m top i index g f e e' =
    elim (Bool-cases (leads_on (m.entries g (index / 512 % 512)))) [
      | inl y ↦ (y, some-eq (rw (e, y) at e'))
      | inr y ↦ absurd (let z = rw (e, y) at e' in cc)
    ]

missing_none :
    (m : Mmu) (top i index f : ℕ) → table_of m top i index ≡ some f → missing m top i index ≡ 0
unfolding missing
missing_none m top zero index f e = refl
missing_none m top (suc i) index f e = rw (missing, e) refl

-- Both tables above the page's entry are there, and its table is none of them.
pub record Reaches (m : Mmu) (top index f : ℕ) : Type 0 where
  pub middle : ℕ
  pub to_middle : table_of m top 1 (index / 512) ≡ some middle
  pub to_table : table_of m top 2 index ≡ some f
  pub not_top : f ≢ top
  pub not_middle : f ≢ middle

set_entry_other :
    (m : Mmu) (f j a b : ℕ) (e : PageTableEntry)
    → a ≢ f
    → (set_entry f j e m).entries a b ≡ m.entries a b
set_entry_other m f j a b e apart =
    ap (λ g. g b) (update_ne m.entries f (update (m.entries f) j e) a apart)

set_entry_same : (m : Mmu) (f j : ℕ) (e : PageTableEntry) → (set_entry f j e m).entries f j ≡ e
set_entry_same m f j e =
    ap (λ g. g j) (update_self m.entries f (update (m.entries f) j e))
    ∙ update_self (m.entries f) j e

table_of_next :
    (m : Mmu) (top i index g f : ℕ)
    → table_of m top i (index / 512) ≡ some g
    → leads_on (m.entries g (index / 512 % 512)) ≡ true
    → physical_address (m.entries g (index / 512 % 512)) ≡ f
    → table_of m top (suc i) index ≡ some f
unfolding table_of
table_of_next m top i index g f e y to = rw (e, y) (ap some to)

-- Writing the entry of the page leaves the way to it.
Reaches-set_entry :
    (m : Mmu) (top index f j : ℕ) (e : PageTableEntry)
    → (r : Reaches m top index f)
    → (table_of (set_entry f j e m) top 1 (index / 512) ≡ some r.middle)
      × (table_of (set_entry f j e m) top 2 index ≡ some f)
unfolding table_of
Reaches-set_entry m top index f j e r =
    let (y, to) = table_of_step m top 0 (index / 512) top r.middle refl r.to_middle in
    let (y', to') = table_of_step m top 1 index r.middle f r.to_middle r.to_table in
    let a = sym (set_entry_other m f j top (index / 512 / 512 % 512) e (λ z. r.not_top (sym z))) in
    let b =
      sym (set_entry_other m f j r.middle (index / 512 % 512) e (λ z. r.not_middle (sym z))) in
    let first =
      table_of_next (set_entry f j e m) top 0 (index / 512) top r.middle refl
        (subst (λ x. leads_on x ≡ true) a y) (subst (λ x. physical_address x ≡ r.middle) a to) in
    (
      first,
      table_of_next (set_entry f j e m) top 1 index r.middle f first
          (subst (λ x. leads_on x ≡ true) b y') (subst (λ x. physical_address x ≡ f) b to'),
    )

read_entry_lem :
    (m : Mmu) (top i index f : ℕ)
    → table_of m top i index ≡ some f
    → read_entry m top i index ≡ ok (m.entries f (index % 512))
unfolding read_entry
read_entry_lem m top i index f e = rw e refl

-- the top table that `getPageFrame` takes, and the index of the page in all tables of its space
abbrev pub top_of : ℕ → Mmu → ℕ
top_of page m = if ltb high_mem page then m.kernel_top else m.user_top

abbrev pub index_of : ℕ → ℕ
index_of page = page % 2 ^ 39 / 2 ^ 12

get_page_frame_walk :
    (m : Mmu) (page middle f : ℕ)
    → table_of m (top_of page m) 1 (index_of page / 512) ≡ some middle
    → table_of m (top_of page m) 2 (index_of page) ≡ some f
    → get_page_frame page m
      ≡ ok (
          if (m.entries f (index_of page % 512)).present
          then physical_address (m.entries f (index_of page % 512))
          else 0)
unfolding get_page_frame table_of
get_page_frame_walk m page middle f e e' =
    let top = top_of page m in
    let i = index_of page in
    let (y, to) = table_of_step m top 0 (i / 512) top middle refl e in
    let (y', to') = table_of_step m top 1 i middle f e e' in
    let r0 = read_entry_lem m top 0 (i / 512 / 512) top refl in
    let r1 = read_entry_lem m top 1 (i / 512) middle e in
    let r2 = read_entry_lem m top 2 i f e' in
    let a : page % 2 ^ 39 / 2 ^ 30 ≡ i / 512 / 512 = omega arith in
    let b : page % 2 ^ 39 / 2 ^ 21 ≡ i / 512 = omega arith in
    let p0 : (m.entries top (i / 512 / 512 % 512)).present ≡ true = ground arith in
    let t0 : (m.entries top (i / 512 / 512 % 512)).type ≡ true = ground arith in
    let p1 : (m.entries middle (i / 512 % 512)).present ≡ true = ground arith in
    let t1 : (m.entries middle (i / 512 % 512)).type ≡ true = ground arith in
    rw (a, r0, p0, t0, b, r1, p1, t1, r2) refl

write_entry_lem :
    (top i f : ℕ) (e : PageTableEntry) (m : Mmu)
    → table_of m top 2 i ≡ some f
    → write_entry top 2 i e m ≡ ok (set_entry f (i % 512) e m)
unfolding write_entry fill_translation_table write_present
write_entry_lem top i f e m to =
    let none_missing = missing_none m top 2 i f to in rw (none_missing, to) refl

entry_index_lem :
    (page : ℕ) (m : Mmu)
    → (page < 2 ^ 39) ⊎ (high_mem < page) × (page < 2 ^ 64)
    → entry_index 0 page m ≡ ok (top_of page m, index_of page)
entry_index_lem page m range = elim range [
  | inl low ↦
      let user : leb high_mem page ≡ false = ground arith in
      let user' : ltb high_mem page ≡ false = ground arith in
      let small : ltb page (2 ^ 39) ≡ true = ground arith in
      let all : page % 2 ^ 39 ≡ page = omega arith in rw (user, user', small, all) refl
  | inr high ↦
      let kernel : leb high_mem page ≡ true = ground arith in
      let kernel' : ltb high_mem page ≡ true = ground arith in
      let rest : page % 2 ^ 39 ≡ page - high_mem = omega arith in rw (kernel, kernel', rest) refl
]

-- `setPageEntry(0, page, frame, flags)` at a page whose tables are there writes its entry, and
-- `getPageFrame(page)` then gives back the frame, a page below 2 ^ 52, whatever the entry was before.
pub get_page_frame-set_page_entry :
    (page frame flags f : ℕ) (m : Mmu)
    → (page < 2 ^ 39) ⊎ (high_mem < page) × (page < 2 ^ 64)
    → frame % 4096 ≡ 0
    → frame < 2 ^ 52
    → Reaches m (top_of page m) (index_of page) f
    → (m' : Mmu) × (set_page_entry 0 page frame flags m ≡ ok m')
      × (get_page_frame page m' ≡ ok frame)
unfolding set_page_entry
get_page_frame-set_page_entry page frame flags f m range whole low r =
    let e = page_descriptor frame flags in
    let m' = set_entry f (index_of page % 512) e m in
    let (to_middle, to_table) =
      Reaches-set_entry m (top_of page m) (index_of page) f (index_of page % 512) e r in
    let place : entry_index 0 page m ≡ ok (top_of page m, index_of page) =
      entry_index_lem page m range in
    let same = set_entry_same m f (index_of page % 512) e in
    (
      m',
      rw place (write_entry_lem (top_of page m) (index_of page) f e m r.to_table),
      get_page_frame_walk m' page r.middle f to_middle to_table
          ∙ ap (λ x. ok (if x.present then physical_address x else 0)) same
          ∙ ap ok (omega arith),
    )

-- `setPageEntry` follows a pointer that is not set at a page between those of the user and of the kernel.
set_page_entry_hole :
    (page frame flags : ℕ) (m : Mmu)
    → 2 ^ 39 ≤ page
    → page < high_mem
    → set_page_entry 0 page frame flags m ≡ fault
unfolding set_page_entry
set_page_entry_hole page frame flags m low high =
    let user : ltb page (2 ^ 39) ≡ false = ground arith in
    let kernel : leb high_mem page ≡ false = ground arith in rw (kernel, user) refl
