-- ===== src/Kernel.antt =====
-- src/kernel.cpp: the system calls on the files of the process that runs. A file object that a call
-- deletes stands in the call's result.
pub mod Descriptors
pub mod Processes
mod Tests
use cros_kernel.Base.{
  ℕ, ◌+◌, ◌-◌, ◌%◌, ◌^◌, ◌==◌, if◌then◌else◌, Option, none, some, ℤ, pos, negsuc, is_zero, Run, ok,
  ◌>>=◌,
}
use cros_kernel.Status.{enone, eunknown, enosys, enofile}
use cros_kernel.Context.{set_return_value}
use cros_kernel.Process.{
  Process, Counts, set_signal_action, signal_return, get_file_context, store_file_context,
  store_file_context_at, close_file_context,
}

-- A C integer as the `unsigned long` that it converts to.
abbrev pub to_word : ℤ → ℕ
to_word (pos n) = n % 2 ^ 64
to_word (negsuc n) = (2 ^ 64 - 1) - n % 2 ^ 64

-- `setCallerReturn(v)`
abbrev pub set_caller_return : ℤ → Process → Process
set_caller_return v p = record p { ctx = set_return_value (to_word v) p.ctx }

-- `syscall_sigret`, `syscall_sigaction`, `syscall_create` and `syscall_unlink`
abbrev pub syscall_sigret : Process → Run Process
syscall_sigret p = signal_return p

abbrev pub syscall_sigaction : ℤ → ℕ → ℕ → ℕ → Process → Process
syscall_sigaction signum handler trampoline userdata p =
    set_caller_return enone (set_signal_action signum handler trampoline userdata p)

abbrev pub syscall_create : ℕ → ℤ → Process → Process
syscall_create path flags p = set_caller_return enosys p

abbrev pub syscall_unlink : ℤ → Process → Process
syscall_unlink fd p = set_caller_return enosys p

-- `syscall_close(fd)`
pub syscall_close : ℤ → Process × Counts → Run (Process × Counts × Option ℕ)
syscall_close fd s = do
  (r, p, counts, freed) ← close_file_context fd s
  ok (set_caller_return r p, counts, freed)

-- the end of `syscall_fddup`, behind the closing of the new descriptor
abbrev pub store_copy : ℕ → ℤ → Process × Counts × Option ℕ → Process × Counts × Option ℕ
store_copy f newfd (p, counts, freed) =
    let (r, p', counts') = store_file_context_at f newfd (p, counts) in
    (set_caller_return (if is_zero r then enone else eunknown) p', counts', freed)

-- `syscall_fddup(oldfd, newfd)`
pub syscall_fddup : ℤ → ℤ → Process × Counts → Run (Process × Counts × Option ℕ)
syscall_fddup oldfd newfd (p, counts) = do
  f ← get_file_context oldfd p
  if f == 0 then ok (set_caller_return enofile p, counts, none) else (do
    g ← get_file_context newfd p
    if g == 0 then ok (store_copy f newfd (p, counts, none)) else (do
      (r, p', counts', freed) ← close_file_context newfd (p, counts)
      if is_zero r
          then ok (store_copy f newfd (p', counts', freed))
          else ok (set_caller_return eunknown p', counts', freed)))

-- `syscall_read` and `syscall_write`, where the file object's own function `run` is called with the
-- buffer and the size; `S` is what that function changes.
module _ {S : Type 0} (run : ℕ → ℕ → ℕ → S → Run (ℤ × S)) where
  pub syscall_transfer : ℤ → ℕ → ℕ → Process × S → Run (Process × S)
  syscall_transfer fd buffer size (p, s) = do
    f ← get_file_context fd p
    if f == 0
        then ok (set_caller_return enofile p, s)
        else (do (count, s') ← run f buffer size s; ok (set_caller_return count p, s'))
