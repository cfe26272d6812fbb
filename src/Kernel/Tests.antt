-- ===== src/Kernel/Tests.antt =====
-- Runs of the system calls of src/kernel.cpp on small process states.
use cros_kernel.Base.{
  ℕ, suc, ◌≡◌, ◌≢◌, refl, inl, inr, Bool-cases, some, if◌then◌else◌, ℤ, pos, ok, arith, some-eq,
}
use cros_kernel.Status.{enone}
use cros_kernel.SearchTree.{SearchTree, leaf, node, differs}
use cros_kernel.Process.{Process, Counts, none_action, new_object, add_reference}
use cros_kernel.Process.Files.{IsTable, file_of}
use cros_kernel.Kernel.{set_caller_return, syscall_fddup}
use cros_kernel.Kernel.Descriptors.{
  IsProper, counts_without, deleted, syscall_fddup-file_of, syscall_fddup_deletes,
}

abbrev files : SearchTree ℕ
files = record { root = node leaf (pos 0) 9000 2 (node leaf (pos 1) 9100 1 leaf); size = 2 }

abbrev references : Counts
references f = pos 1

abbrev proc : Process
proc =
    record (new_object
      (λ i. record { type = none_action; handler = 0; trampoline = 0; userdata = 0 }) (pos 4)
      (pos 1) 64 4096 8192 1) { files = files }

proc-IsTable : IsTable proc
proc-IsTable = ((refl, tt), (tt, tt))

positive : (n : ℕ) → some (suc n) ≢ some 0
positive n e = let z : suc n ≡ 0 = some-eq e in omega arith

proc-IsProper : IsProper proc
proc-IsProper j e = elim (Bool-cases (differs (pos 0) j)) [
  | inl d ↦ elim (Bool-cases (differs (pos 1) j)) [
    | inl d' ↦ let e' = rw (d, d') at e in cc
    | inr d' ↦ let e' = rw (d, d') at e in positive 9099 e'
  ]
  | inr d ↦ let e' = rw d at e in positive 8999 e'
]

syscall_fddup-file_of_example :
    (p' : Process) × (syscall_fddup (pos 0) (pos 1) (proc, references)
      ≡ ok (
        set_caller_return enone p',
        add_reference 9000 (counts_without (some 9100) references),
        deleted (some 9100) references,
      ))
    × IsTable p'
    × ((j : ℤ) → file_of p' j ≡ (if differs (pos 1) j then file_of proc j else some 9000))
syscall_fddup-file_of_example =
    syscall_fddup-file_of (pos 0) (pos 1) 9000 proc references proc-IsTable proc-IsProper refl refl

syscall_fddup_deletes_example :
    (p' : Process) × (counts' : Counts) × (syscall_fddup (pos 1) (pos 1) (proc, references)
      ≡ ok (p', counts', some 9100))
    × (file_of p' (pos 1) ≡ some 9100)
syscall_fddup_deletes_example =
    syscall_fddup_deletes (pos 1) 9100 proc references proc-IsTable proc-IsProper refl refl
