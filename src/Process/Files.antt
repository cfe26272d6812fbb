-- ===== src/Process/Files.antt =====
-- The files of a process of src/sched/process.cpp: the map from descriptors to file objects, and the
-- references that are counted.
use cros_kernel.Base.{
  ℕ, ◌≡◌, refl, sym, ◌∙◌, ap, ◌⊎◌, inl, inr, true, false, if◌then◌else◌, Option, none, some,
  Option-cases, ℤ, pos, ok, arith,
}
use cros_kernel.Status.{enone, eexists}
use cros_kernel.SearchTree.{differs, contains, insert}
use cros_kernel.SearchTree.Order.{inorder}
use cros_kernel.SearchTree.Lookup.{IsStrict, lookup, found, get-lookup}
use cros_kernel.SearchTree.Update.{add_rec-lookup, add_rec-clash}
use cros_kernel.Process.{
  Process, Counts, add_reference, get_file_context, store_file_context, store_file_context_at,
}

-- No two files have one descriptor.
abbrev pub IsTable : Process → Type 0
IsTable p = IsStrict (inorder p.files.root)

-- the file of a descriptor
abbrev pub file_of : Process → ℤ → Option ℕ
file_of p fd = lookup fd (inorder p.files.root)

abbrev pub or_null : Option ℕ → ℕ
or_null none = 0
or_null (some f) = f

-- Where no two files have one descriptor, `getFileContext` returns the file of the descriptor, and
-- the null pointer where there is none.
pub get_file_context-file_of :
    (fd : ℤ) (p : Process) → IsTable p → get_file_context fd p ≡ ok (or_null (file_of p fd))
unfolding get_file_context
get_file_context-file_of fd p t =
    let (c, g) = get-lookup p.files.root fd t in
    elim (Option-cases (file_of p fd)) [
      | inl n ↦
          let no_entry : contains p.files.root fd ≡ false = c ∙ ap found n in
          rw no_entry (sym (ap (λ o. ok (or_null o)) n))
      | inr (f, e) ↦
          let entry : contains p.files.root fd ≡ true = c ∙ ap found e in
          rw entry (g f e ∙ sym (ap (λ o. ok (or_null o)) e))
    ]

-- `storeFileContext(f, fd)` where no two files have one descriptor: a descriptor in use gives EEXISTS
-- and changes nothing; a free one gives ENONE, is bound to the file, which counts one reference more,
-- and every other descriptor and count stays. No two files then have one descriptor.
pub store_file_context_at-file_of :
    (f : ℕ) (fd : ℤ) (p : Process) (counts : Counts)
    → IsTable p
    → let (r, p', counts') = store_file_context_at f fd (p, counts) in
      IsTable p'
      × (((found (file_of p fd) ≡ true) × (r ≡ eexists) × (p' ≡ p) × (counts' ≡ counts))
          ⊎ ((found (file_of p fd) ≡ false)
              × (r ≡ enone)
              × ((j : ℤ) → file_of p' j ≡ (if differs fd j then file_of p j else some f))
              × (counts' ≡ add_reference f counts)))
unfolding store_file_context_at
store_file_context_at-file_of f fd p counts t =
    let (c, g) = get-lookup p.files.root fd t in
    elim (Option-cases (file_of p fd)) [
      | inl n ↦
          let no_entry : contains p.files.root fd ≡ false = c ∙ ap found n in
          let (t', m) = add_rec-lookup p.files.root fd f t n in
          rw no_entry (t', inr (ap found n, refl, m, refl))
      | inr (e, q) ↦
          let entry : contains p.files.root fd ≡ true = c ∙ ap found q in
          rw entry (t, inl (ap found q, refl, refl, refl))
    ]

-- `storeFileContext(f)` takes the number of files as the new descriptor. Where no two files have one
-- descriptor and that one is free, the file is then found at the descriptor that is returned, which
-- counts one reference more; every other descriptor stays, and no two files have one descriptor.
pub store_file_context-file_of :
    (f : ℕ) (p : Process) (counts : Counts)
    → IsTable p
    → file_of p (pos p.files.size) ≡ none
    → let (fd, p', counts') = store_file_context f (p, counts) in
      IsTable p'
      × (get_file_context fd p' ≡ ok f)
      × ((j : ℤ) → differs fd j ≡ true → file_of p' j ≡ file_of p j)
      × (counts' ≡ add_reference f counts)
unfolding store_file_context
store_file_context-file_of f p counts t n =
    let fd : ℤ = pos p.files.size in
    let p' : Process = record p { files = insert p.files fd f } in
    let (t', m) = add_rec-lookup p.files.root fd f t n in
    let same : differs fd fd ≡ false = ground arith in
    (
      t',
      get_file_context-file_of fd p' t'
          ∙ ap (λ o. ok (or_null o)) (m fd ∙ ap (λ b. if b then file_of p fd else some f) same),
      λ j d. m j ∙ ap (λ b. if b then file_of p j else some f) d,
      refl,
    )

-- `storeFileContext(f)` does not look whether its descriptor is in use: if another file has it, then
-- two files have it afterwards.
pub store_file_context_clash :
    (f g : ℕ) (p : Process) (counts : Counts)
    → IsTable p
    → file_of p (pos p.files.size) ≡ some g
    → ¬ IsTable (store_file_context f (p, counts)).1
unfolding store_file_context
store_file_context_clash f g p counts t e = add_rec-clash p.files.root (pos p.files.size) f g t e
