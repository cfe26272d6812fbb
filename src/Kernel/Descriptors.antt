-- ===== src/Kernel/Descriptors.antt =====
-- The file descriptors behind the system calls of src/kernel.cpp.
use cros_kernel.Base.{
  ℕ, ◌==◌, ◌≡◌, ◌≢◌, refl, sym, ◌∙◌, ap, inl, inr, true, false, if◌then◌else◌, Option, none, some,
  Option-cases, Bool-cases, ℤ, pos, ok, arith,
}
use cros_kernel.Status.{enone}
use cros_kernel.SearchTree.{differs}
use cros_kernel.SearchTree.Remove.{remove}
use cros_kernel.SearchTree.Lookup.{found}
use cros_kernel.Process.{
  Process, Counts, add_reference, remove_reference, get_file_context, close_file_context,
  store_file_context_at,
}
use cros_kernel.Process.Files.{
  IsTable, file_of, or_null, get_file_context-file_of, store_file_context_at-file_of,
}
use cros_kernel.Process.Close.{unreferenced, close_file_context-some}
use cros_kernel.Kernel.{set_caller_return, store_copy, syscall_fddup}

-- No descriptor has the null pointer for its file.
abbrev pub IsProper : Process → Type 0
IsProper p = (j : ℤ) → file_of p j ≢ some 0

not_null : (f : ℕ) (fd : ℤ) (p : Process) → IsProper p → file_of p fd ≡ some f → (f == 0) ≡ false
not_null f fd p q e = elim (Bool-cases (f == 0)) [
  | inl z ↦ let null : f ≡ 0 = ground arith in absurd (q fd (e ∙ ap some null))
  | inr z ↦ z
]

-- A copy that is stored at a free descriptor.
store_copy_lem :
    (f : ℕ) (fd : ℤ) (p : Process) (counts : Counts) (freed : Option ℕ)
    → IsTable p
    → file_of p fd ≡ none
    → (p' : Process) × (store_copy f fd (p, counts, freed)
        ≡ (set_caller_return enone p', add_reference f counts, freed))
      × IsTable p'
      × ((j : ℤ) → file_of p' j ≡ (if differs fd j then file_of p j else some f))
store_copy_lem f fd p counts freed t n =
    let (t', o) = store_file_context_at-file_of f fd p counts t in
    elim o [
      | inl (a, _, _, _) ↦ let b = ap found n in absurd cc
      | inr (_, r, m, c) ↦
          let (_, p', _) = store_file_context_at f fd (p, counts) in (p', rw (r, c) refl, t', m)
    ]

-- the references and the deleted file where the file of a descriptor, if any, is closed
abbrev pub counts_without : Option ℕ → Counts → Counts
counts_without none counts = counts
counts_without (some g) counts = remove_reference g counts

abbrev pub deleted : Option ℕ → Counts → Option ℕ
deleted none counts = none
deleted (some g) counts = unreferenced (remove_reference g counts) g

-- `syscall_fddup` where the new descriptor is in use
replaced :
    (oldfd newfd : ℤ) (f g : ℕ) (p p1 : Process) (counts counts1 : Counts) (freed : Option ℕ)
    → get_file_context oldfd p ≡ ok f
    → (f == 0) ≡ false
    → get_file_context newfd p ≡ ok g
    → (g == 0) ≡ false
    → close_file_context newfd (p, counts) ≡ ok (enone, p1, counts1, freed)
    → syscall_fddup oldfd newfd (p, counts) ≡ ok (store_copy f newfd (p1, counts1, freed))
unfolding syscall_fddup
replaced oldfd newfd f g p p1 counts counts1 freed a b c d e = rw (a, b, c, d, e) refl

-- `syscall_fddup(oldfd, newfd)` of an open descriptor to another one gives ENONE, and both
-- descriptors then have the file, where the new one had another file or none; every other
-- descriptor stays. The file counts one reference more, and the file that the new descriptor had
-- counts one less, and is deleted just where none is left. No two files have one descriptor then.
pub syscall_fddup-file_of :
    (oldfd newfd : ℤ) (f : ℕ) (p : Process) (counts : Counts)
    → IsTable p
    → IsProper p
    → file_of p oldfd ≡ some f
    → differs oldfd newfd ≡ true
    → (p' : Process) × (syscall_fddup oldfd newfd (p, counts)
        ≡ ok (
          set_caller_return enone p',
          add_reference f (counts_without (file_of p newfd) counts),
          deleted (file_of p newfd) counts,
        ))
      × IsTable p'
      × ((j : ℤ) → file_of p' j ≡ (if differs newfd j then file_of p j else some f))
unfolding syscall_fddup
syscall_fddup-file_of oldfd newfd f p counts t q e d =
    let opened : get_file_context oldfd p ≡ ok f =
      get_file_context-file_of oldfd p t ∙ ap (λ o. ok (or_null o)) e in
    let at_new = get_file_context-file_of newfd p t in
    let f_null = not_null f oldfd p q e in
    elim (Option-cases (file_of p newfd)) [
      | inl n ↦
          let (p', s, t', m) = store_copy_lem f newfd p counts none t n in
          let runs : syscall_fddup oldfd newfd (p, counts)
              ≡ ok (store_copy f newfd (p, counts, none)) =
            rw (opened, f_null, at_new, n) refl in
          (
            p',
            runs
                ∙ ap ok s
                ∙ ap
                    (λ o. ok (
                      set_caller_return enone p',
                      add_reference f (counts_without o counts),
                      deleted o counts,
                    ))
                    (sym n),
            t',
            m,
          )
      | inr (g, e') ↦
          let (r, t1, m1) = close_file_context-some newfd g p counts t e' in
          let p1 : Process = record p { files = remove p.files newfd } in
          let same : differs newfd newfd ≡ false = ground arith in
          let free : file_of p1 newfd ≡ none =
            m1 newfd ∙ ap (λ b. if b then file_of p newfd else none) same in
          let counts1 = remove_reference g counts in
          let (p', s, t', m) = store_copy_lem f newfd p1 counts1 (unreferenced counts1 g) t1 free in
          (
            p',
            replaced oldfd newfd f g p p1 counts counts1 (unreferenced counts1 g) opened f_null
                  (at_new ∙ ap (λ o. ok (or_null o)) e') (not_null g newfd p q e') r
                ∙ ap ok s
                ∙ ap
                    (λ o. ok (
                      set_caller_return enone p',
                      add_reference f (counts_without o counts),
                      deleted o counts,
                    ))
                    (sym e'),
            t',
            λ j. m j ∙ elim (Bool-cases (differs newfd j)) [
              | inl x ↦ let y = m1 j in rw x (rw x at y)
              | inr x ↦ rw x
            ],
          )
    ]

-- `syscall_fddup(fd, fd)` closes the descriptor before it stores the file again: where nothing else
-- refers to the file, the file is deleted, and the descriptor then has the deleted file.
pub syscall_fddup_deletes :
    (fd : ℤ) (f : ℕ) (p : Process) (counts : Counts)
    → IsTable p
    → IsProper p
    → file_of p fd ≡ some f
    → counts f ≡ pos 1
    → (p' : Process) × (counts' : Counts) × (syscall_fddup fd fd (p, counts)
        ≡ ok (p', counts', some f))
      × (file_of p' fd ≡ some f)
unfolding syscall_fddup
syscall_fddup_deletes fd f p counts t q e one =
    let opened : get_file_context fd p ≡ ok f =
      get_file_context-file_of fd p t ∙ ap (λ o. ok (or_null o)) e in
    let (r, t1, m1) = close_file_context-some fd f p counts t e in
    let p1 : Process = record p { files = remove p.files fd } in
    let same : differs fd fd ≡ false = ground arith in
    let free : file_of p1 fd ≡ none = m1 fd ∙ ap (λ b. if b then file_of p fd else none) same in
    let counts1 = remove_reference f counts in
    let self : (f == f) ≡ true = ground arith in
    let last : unreferenced counts1 f ≡ some f = rw (self, one) refl in
    let (p', s, t', m) = store_copy_lem f fd p1 counts1 (unreferenced counts1 f) t1 free in
    (
      set_caller_return enone p',
      add_reference f counts1,
      replaced fd fd f f p p1 counts counts1 (unreferenced counts1 f) opened (not_null f fd p q e)
            opened (not_null f fd p q e) r
          ∙ (ap ok s ∙ ap (λ o. ok (set_caller_return enone p', add_reference f counts1, o)) last),
      m fd ∙ ap (λ b. if b then file_of p1 fd else some f) same,
    )
