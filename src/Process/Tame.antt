-- ===== src/Process/Tame.antt =====
-- The signals of src/sched/process.cpp that do not kill a process.
use cros_kernel.Base.{ℕ, ◌≡◌, ◌≢◌, refl, ◌==◌, Bool-cases, inl, inr, update, ℤ, pos, pos_part}
use cros_kernel.Process.{
  State, active, signal, sigwait, ActionType, none_action, handler_action, kill_action,
  SignalAction, Process, new_object, out_of_range, set_signal_action, run_handler, act,
  signal_trigger,
}

-- No signal of the process is to kill it.
unfoldable pub IsTame : Process → Type 0
IsTame p = (i : ℕ) → (p.signal_handlers i).type ≢ kill_action

-- A new process has no such signal, and `setSignalAction` makes none.
pub new_object-IsTame :
    (raw : ℕ → SignalAction) (pid parent : ℤ) (entry stack kernel_stack address_space : ℕ)
    → IsTame (new_object raw pid parent entry stack kernel_stack address_space)
unfolding IsTame
new_object-IsTame raw pid parent entry stack kernel_stack address_space i e = cc

update-type :
    (handlers : ℕ → SignalAction) (j : ℕ) (a : SignalAction)
    → a.type ≢ kill_action
    → ((i : ℕ) → (handlers i).type ≢ kill_action)
    → (i : ℕ) → (update handlers j a i).type ≢ kill_action
update-type handlers j a na all i = elim (Bool-cases (i == j)) [
  | inl y ↦ rw y na
  | inr n ↦ rw n (all i)
]

pub set_signal_action-IsTame :
    (sig : ℤ) (handler trampoline userdata : ℕ) (p : Process)
    → IsTame p
    → IsTame (set_signal_action sig handler trampoline userdata p)
unfolding set_signal_action IsTame
set_signal_action-IsTame sig h t u p tame = elim (Bool-cases (out_of_range sig)) [
  | inl o ↦ rw o tame
  | inr o ↦ elim (Bool-cases (h == 0)) [
    | inl z ↦ rw (o, z) (update-type p.signal_handlers (pos_part sig) _ (λ e. cc) tame)
    | inr z ↦ rw (o, z) (update-type p.signal_handlers (pos_part sig) _ (λ e. cc) tame)
  ]
]

run_handler-zero :
    (a : SignalAction) (s : State) (p : Process) → s ≢ signal → (run_handler a s p).0 ≡ pos 0
unfolding run_handler
run_handler-zero a active p ns = refl
run_handler-zero a signal p ns = absurd (ns refl)
run_handler-zero a sigwait p ns = refl

act-zero :
    (t : ActionType) (a : SignalAction) (p : Process)
    → t ≢ kill_action
    → p.state ≢ signal
    → (act t a p).0 ≡ pos 0
unfolding act
act-zero none_action a p nk ns = refl
act-zero handler_action a p nk ns = run_handler-zero a p.state p ns
act-zero kill_action a p nk ns = absurd (nk refl)

-- A process outside of a handler takes each signal that does not kill it.
pub signal_trigger-zero :
    (sig : ℤ) (p : Process) → IsTame p → p.state ≢ signal → (signal_trigger sig p).0 ≡ pos 0
unfolding signal_trigger IsTame
signal_trigger-zero sig p tame ns = elim (Bool-cases (out_of_range sig)) [
  | inl o ↦ rw o refl
  | inr o ↦ rw o (act-zero _ _ p (tame (pos_part sig)) ns)
]

run_handler-address_space :
    (a : SignalAction) (s : State) (p : Process)
    → (run_handler a s p).1.address_space ≡ p.address_space
unfolding run_handler
run_handler-address_space a active p = refl
run_handler-address_space a signal p = refl
run_handler-address_space a sigwait p = refl

act-address_space :
    (t : ActionType) (a : SignalAction) (p : Process)
    → (act t a p).1.address_space ≡ p.address_space
unfolding act
act-address_space none_action a p = refl
act-address_space handler_action a p = run_handler-address_space a p.state p
act-address_space kill_action a p = refl

pub signal_trigger-address_space :
    (sig : ℤ) (p : Process) → (signal_trigger sig p).1.address_space ≡ p.address_space
unfolding signal_trigger
signal_trigger-address_space sig p = elim (Bool-cases (out_of_range sig)) [
  | inl o ↦ rw o refl
  | inr o ↦ rw o (act-address_space _ _ p)
]
