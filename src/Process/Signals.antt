-- ===== src/Process/Signals.antt =====
-- The signals of src/sched/process.cpp: a handler runs on the registers of the process and gives them
-- back, and the stored registers are there when they are needed.
use mathlib.Core.Path.{ap₂, subst}
use cros_kernel.Base.{
  ℕ, ◌≡◌, refl, sym, ◌∙◌, ap, inl, inr, false, Bool-cases, ◌==◌, none, some, ℤ, pos, negsuc,
  pos_part, ok, ◌>>=◌, need,
}
use cros_kernel.Context.{Context, function_call}
use cros_kernel.Process.{
  State, active, signal, sigwait, ActionType, none_action, handler_action, kill_action,
  SignalAction, Process, new_object, store_context, set_state, out_of_range, set_signal_action,
  run_handler, act, signal_trigger, return_from, signal_return,
}

-- A process that runs a handler has the registers to go back to.
abbrev pub IsWell : Process → Type 0
IsWell p = p.state ≡ signal → (c : Context) × (p.backup_ctx ≡ some c)

-- What happens to the signals and registers of a process: system calls and interrupts.
pub data Step : Process → Process → Type 0 where
  sets_action :
      (s : ℤ) (handler trampoline userdata : ℕ) (p : Process)
      → Step p (set_signal_action s handler trampoline userdata p)
  gets_signal : (s : ℤ) (p : Process) → Step p (signal_trigger s p).1
  returns : (p q : Process) → signal_return p ≡ ok q → Step p q
  stores : (c : Context) (p : Process) → Step p (store_context c p)
  waits : (p : Process) → Step p (set_state sigwait p)

pub data Reach (p : Process) : Process → Type 0 where
  here : Reach p p
  next : {q r : Process} → Reach p q → Step q r → Reach p r

set_signal_action-IsWell :
    (s : ℤ) (h t u : ℕ) (p : Process) → IsWell p → IsWell (set_signal_action s h t u p)
unfolding set_signal_action
set_signal_action-IsWell s h t u p w = elim (Bool-cases (out_of_range s)) [
  | inl o ↦ rw o w
  | inr i ↦ elim (Bool-cases (h == 0)) [ inl z ↦ rw (i, z) w | inr nz ↦ rw (i, nz) w ]
]

run_handler-IsWell :
    (a : SignalAction) (s : State) (p : Process) → IsWell p → IsWell (run_handler a s p).1
unfolding run_handler
run_handler-IsWell a active p w = λ e. (p.ctx, refl)
run_handler-IsWell a signal p w = w
run_handler-IsWell a sigwait p w = λ e. (p.ctx, refl)

act-IsWell : (t : ActionType) (a : SignalAction) (p : Process) → IsWell p → IsWell (act t a p).1
unfolding act
act-IsWell none_action a p w = w
act-IsWell handler_action a p w = run_handler-IsWell a p.state p w
act-IsWell kill_action a p w = w

signal_trigger-IsWell : (s : ℤ) (p : Process) → IsWell p → IsWell (signal_trigger s p).1
unfolding signal_trigger
signal_trigger-IsWell s p w = elim (Bool-cases (out_of_range s)) [
  | inl o ↦ rw o w
  | inr i ↦ rw i (act-IsWell _ _ p w)
]

-- What `signalReturn` does, on each of its branches.
return_from-cases :
    (s : State) (p : Process)
    → s ≡ p.state
    → IsWell p
    → (q : Process) × (return_from s p ≡ ok q) × IsWell q
unfolding return_from
return_from-cases active p e w = (p, refl, w)
return_from-cases signal p e w =
    let (c, b) = w (sym e) in
    (
      record p { ctx = c; backup_ctx = none; state = active },
      ap (λ o. need o >>= λ x. ok (record p { ctx = x; backup_ctx = none; state = active })) b,
      λ f. cc,
    )
return_from-cases sigwait p e w = (p, refl, w)

Step-IsWell : {p q : Process} → Step p q → IsWell p → IsWell q
unfolding signal_return
Step-IsWell (sets_action s h t u p) w = set_signal_action-IsWell s h t u p w
Step-IsWell (gets_signal s p) w = signal_trigger-IsWell s p w
Step-IsWell (returns p q e) w =
    let (q', e', w') = return_from-cases p.state p refl w in
    let same : q' ≡ q = cc in subst IsWell same w'
Step-IsWell (stores c p) w = w
Step-IsWell (waits p) w = λ e. cc

-- However signals, handlers and system calls follow one another in a new process, `signalReturn` does
-- not follow the null pointer: it returns.
pub signal_return-ok :
    (raw : ℕ → SignalAction) (pid parent : ℤ) (entry stack kernel_stack address_space : ℕ)
    → {p : Process} → Reach (new_object raw pid parent entry stack kernel_stack address_space) p
    → (q : Process) × (signal_return p ≡ ok q)
unfolding signal_return
signal_return-ok raw pid parent entry stack kernel_stack address_space {p} r =
    let (q, e, w) = return_from-cases p.state p refl (Reach-IsWell r) in (q, e)
  where
    Reach-IsWell :
        {q : Process}
        → Reach (new_object raw pid parent entry stack kernel_stack address_space) q
        → IsWell q
    Reach-IsWell here = λ e. cc
    Reach-IsWell (next s t) = Step-IsWell t (Reach-IsWell s)

-- a process in a handler
abbrev handling : SignalAction → Process → Process
handling a p = record p {
  backup_ctx = some p.ctx;
  ctx = function_call a.handler a.trampoline a.userdata p.ctx;
  state = signal;
}

signal_trigger-runs :
    (sig : ℤ) (p : Process)
    → out_of_range sig ≡ false
    → (p.signal_handlers (pos_part sig)).type ≡ handler_action
    → p.state ≡ active
    → signal_trigger sig p ≡ (pos 0, handling (p.signal_handlers (pos_part sig)) p)
unfolding signal_trigger act run_handler
signal_trigger-runs sig p i h s =
    let a : SignalAction = p.signal_handlers (pos_part sig) in
    rw i (ap (λ t. act t a p) h ∙ ap (λ t. run_handler a t p) s)

-- A process that is active and stores no registers takes a signal with a handler: `signalTrigger`
-- returns 0 and leads it into the handler with the handler's argument, to return to the trampoline.
-- Whatever registers the handler leaves, `signalReturn` then restores the process as it was.
pub signal_return-signal_trigger :
    (sig : ℤ) (p : Process) (left : Context)
    → out_of_range sig ≡ false
    → (p.signal_handlers (pos_part sig)).type ≡ handler_action
    → p.state ≡ active
    → p.backup_ctx ≡ none
    → let a = p.signal_handlers (pos_part sig) in
      ((signal_trigger sig p).0 ≡ pos 0)
      × ((signal_trigger sig p).1.ctx ≡ function_call a.handler a.trampoline a.userdata p.ctx)
      × (signal_return (store_context left (signal_trigger sig p).1) ≡ ok p)
unfolding signal_return return_from
signal_return-signal_trigger sig p left i h s b =
    let e = signal_trigger-runs sig p i h s in
    (
      ap (λ (r : ℤ × Process). r.0) e,
      ap (λ (r : ℤ × Process). r.1.ctx) e,
      ap (λ (r : ℤ × Process). signal_return (store_context left r.1)) e
          ∙ ap₂ (λ t o. ok (record p { backup_ctx = o; state = t })) (sym s) (sym b),
    )

-- While a handler runs, a signal with a handler is refused with -1 and changes nothing.
signal_trigger_refused :
    (sig : ℤ) (p : Process)
    → out_of_range sig ≡ false
    → (p.signal_handlers (pos_part sig)).type ≡ handler_action
    → p.state ≡ signal
    → signal_trigger sig p ≡ (negsuc 0, p)
unfolding signal_trigger act run_handler
signal_trigger_refused sig p i h s =
    let a : SignalAction = p.signal_handlers (pos_part sig) in
    rw i (ap (λ t. act t a p) h ∙ ap (λ t. run_handler a t p) s)
