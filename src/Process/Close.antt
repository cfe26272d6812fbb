-- ===== src/Process/Close.antt =====
-- Closing the files of a process of src/sched/process.cpp.
use cros_kernel.Base.{
  ℕ, zero, suc, ◌==◌, ◌≡◌, refl, sym, ◌∙◌, ap, ◌⊎◌, inl, inr, true, false, if◌then◌else◌, Option,
  none, some, Option-cases, ℤ, pos, negsuc, inc, dec, ltb_ℤ, ok, arith, Bool-cases,
}
use cros_kernel.Status.{enone, enofile}
use cros_kernel.SearchTree.{differs, contains}
use cros_kernel.SearchTree.Lookup.{found, get-lookup}
use cros_kernel.SearchTree.Remove.{remove}
use cros_kernel.SearchTree.Remove.Lookup.{remove_rec-lookup}
use cros_kernel.Process.{
  Process, Counts, add_reference, remove_reference, store_file_context_at, close_file_context,
}
use cros_kernel.Process.Files.{IsTable, file_of, store_file_context_at-file_of}

-- the file object, where nothing refers to it any longer
abbrev pub unreferenced : Counts → ℕ → Option ℕ
unreferenced counts f = if ltb_ℤ (pos 0) (counts f) then none else some f

-- `closeFileContext(fd)` on a descriptor in use
pub close_file_context-some :
    (fd : ℤ) (f : ℕ) (p : Process) (counts : Counts)
    → IsTable p
    → file_of p fd ≡ some f
    → let p' : Process = record p { files = remove p.files fd } in
      (close_file_context fd (p, counts)
        ≡ ok (enone, p', remove_reference f counts, unreferenced (remove_reference f counts) f))
      × IsTable p'
      × ((j : ℤ) → file_of p' j ≡ (if differs fd j then file_of p j else none))
unfolding close_file_context remove
close_file_context-some fd f p counts t e =
    let (c, g) = get-lookup p.files.root fd t in
    let entry : contains p.files.root fd ≡ true = c ∙ ap found e in
    let (t', m) = remove_rec-lookup p.files.root fd t in (rw (entry, g f e) refl, t', m)

-- `closeFileContext(fd)` where no two files have one descriptor: a descriptor that is not in use
-- gives ENOFILE and changes nothing; one that is gives ENONE and is free afterwards, every other
-- descriptor stays, its file counts one reference less, and is deleted just where none is left.
pub close_file_context-file_of :
    (fd : ℤ) (p : Process) (counts : Counts)
    → IsTable p
    → ((file_of p fd ≡ none) × (close_file_context fd (p, counts) ≡ ok (enofile, p, counts, none)))
      ⊎ ((f : ℕ) × (p' : Process) × (file_of p fd ≡ some f)
          × (close_file_context fd (p, counts)
              ≡ ok (
                enone,
                p',
                remove_reference f counts,
                unreferenced (remove_reference f counts) f,
              ))
          × IsTable p'
          × ((j : ℤ) → file_of p' j ≡ (if differs fd j then file_of p j else none)))
unfolding close_file_context
close_file_context-file_of fd p counts t = elim (Option-cases (file_of p fd)) [
  | inl n ↦
      let (c, g) = get-lookup p.files.root fd t in
      let no_entry : contains p.files.root fd ≡ false = c ∙ ap found n in inl (n, rw no_entry refl)
  | inr (f, e) ↦
      let (r, t', m) = close_file_context-some fd f p counts t e in
      inr (f, record p { files = remove p.files fd }, e, r, t', m)
]

differs_lem : (j k : ℤ) → differs j k ≡ false → j ≡ k
differs_lem (pos m) (pos n) d = ap pos (ground arith)
differs_lem (pos m) (negsuc n) d = absurd (ground arith)
differs_lem (negsuc m) (pos n) d = absurd (ground arith)
differs_lem (negsuc m) (negsuc n) d = ap negsuc (ground arith)

dec-inc : (a : ℤ) → dec (inc a) ≡ a
dec-inc (pos n) = refl
dec-inc (negsuc zero) = refl
dec-inc (negsuc (suc n)) = refl

remove_reference-add_reference :
    (f : ℕ) (counts : Counts) (g : ℕ) → remove_reference f (add_reference f counts) g ≡ counts g
remove_reference-add_reference f counts g =
    let self : (f == f) ≡ true = ground arith in
    elim (Bool-cases (g == f)) [
      | inl e ↦
          let same : g ≡ f = ground arith in rw (e, self, dec-inc (counts f)) (ap counts (sym same))
      | inr e ↦ rw e
    ]

-- Storing a file at a free descriptor and closing the descriptor gives ENONE both times, and takes
-- back what the storing did: every descriptor has the file that it had and every file as many
-- references, and the file is deleted just where it had none before.
pub close_file_context-store_file_context_at :
    (f : ℕ) (fd : ℤ) (p : Process) (counts : Counts)
    → IsTable p
    → file_of p fd ≡ none
    → let (r, p', counts') = store_file_context_at f fd (p, counts) in
      (r ≡ enone)
      × ((p'' : Process) × (counts'' : Counts) × (close_file_context fd (p', counts')
            ≡ ok (enone, p'', counts'', unreferenced counts f))
          × IsTable p''
          × ((j : ℤ) → file_of p'' j ≡ file_of p j)
          × ((g : ℕ) → counts'' g ≡ counts g))
close_file_context-store_file_context_at f fd p counts t n =
    let (t', o) = store_file_context_at-file_of f fd p counts t in
    elim o [
      | inl (a, _, _, _) ↦ let b = ap found n in absurd cc
      | inr (_, stored, m, c) ↦
          let (_, p', counts') = store_file_context_at f fd (p, counts) in
          let same : differs fd fd ≡ false = ground arith in
          let there : file_of p' fd ≡ some f =
            m fd ∙ ap (λ b. if b then file_of p fd else some f) same in
          let (q, t'', m') = close_file_context-some fd f p' counts' t' there in
          let closed : Process = record p' { files = remove p'.files fd } in
          let back : (g : ℕ) → remove_reference f counts' g ≡ counts g =
            λ g. ap (λ d. remove_reference f d g) c ∙ remove_reference-add_reference f counts g in
          (
            stored,
            (
              closed,
              remove_reference f counts',
              q
                  ∙ ap
                      (λ (c : ℤ). ok (
                        enone,
                        closed,
                        remove_reference f counts',
                        if ltb_ℤ (pos 0) c then none else some f,
                      ))
                      (back f),
              t'',
              λ j. m' j ∙ elim (Bool-cases (differs fd j)) [
                | inl d ↦ rw d (m j ∙ ap (λ b. if b then file_of p j else some f) d)
                | inr d ↦ rw d (sym n ∙ ap (file_of p) (differs_lem fd j d))
              ],
              back,
            ),
          )
    ]
