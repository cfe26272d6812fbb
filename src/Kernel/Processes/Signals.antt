-- ===== src/Kernel/Processes/Signals.antt =====
-- `raiseSignal` of src/kernel.cpp: what a signal does to a process and to the scheduler.
use mathlib.Core.List.{map-append}
use mathlib.Core.Path.{subst}
use cros_kernel.Base.{
  ℕ, ◌≡◌, ◌≢◌, refl, sym, ◌∙◌, ap, true, some, List, [], ◌∷◌, ◌++◌, All-append, update_self,
  update_ne, ℤ, pos, negsuc, Run, ok,
}
use cros_kernel.SearchTree.{contains, get}
use cros_kernel.ReadyQueue.{null, Queue, enqueue}
use cros_kernel.ReadyQueue.Fifo.{IsFresh, enqueue-snoc}
use cros_kernel.ReadyQueue.Rounds.{Sched, Shows}
use cros_kernel.Process.{State, active, signal, sigwait, Process, signal_trigger}
use cros_kernel.Process.Tame.{IsTame, signal_trigger-zero, signal_trigger-address_space}
use cros_kernel.Kernel.Processes.{KernelState, set_process, enqueue_process, deliver, raise_signal}
use cros_kernel.Kernel.Processes.Turns.{Live, Runs, process_at-Live, changed-Runs}

-- What the signal does: the process that it is told to, who is ready behind it, and the status.
abbrev pub told : State → ℤ → Process → Process
told signal sig p = p
told active sig p = (signal_trigger sig p).1
told sigwait sig p = (signal_trigger sig p).1

abbrev pub woken : State → ℕ → Sched → Sched
woken active a s = s
woken signal a s = s
woken sigwait a s = record s { ready = s.ready ++ a ∷ [] }

abbrev pub answer : State → ℤ
answer signal = negsuc 0
answer active = pos 0
answer sigwait = pos 0

enqueue-Shows :
    {q : Queue} {s : Sched} (f a : ℕ)
    → Shows q s
    → IsFresh q f
    → (q' : Queue) × (enqueue f a q ≡ ok q') × Shows q' (record s { ready = s.ready ++ a ∷ [] })
enqueue-Shows {q} {s} f a sh fr =
    let (q', e, is', cur) = enqueue-snoc sh.cells f a sh.is_queue fr in
    (
      q',
      e,
      record {
        cells = sh.cells ++ (f, a) ∷ [];
        is_queue = is';
        ready_is =
            map-append (λ c. c.1) sh.cells ((f, a) ∷ [])
            ∙ ap (λ (l : List ℕ). l ++ a ∷ []) sh.ready_is;
        running_is = cur ∙ sh.running_is;
      },
    )

-- A process that is alive comes to be ready behind all others.
pub enqueue_process-Runs :
    (f a : ℕ) (k : KernelState) (s : Sched)
    → Runs k s
    → IsFresh k.scheduler f
    → Live k a
    → (q : Queue) × (enqueue_process f a k ≡ ok (record k { scheduler = q }))
      × Runs (record k { scheduler = q }) (record s { ready = s.ready ++ a ∷ [] })
enqueue_process-Runs f a k s r fr live =
    let (q, e, sh) = enqueue-Shows f a r.shows fr in
    (
      q,
      rw e refl,
      record {
        shows = sh;
        running_live = r.running_live;
        ready_live = All-append (Live k) s.ready (a ∷ []) r.ready_live (live, tt);
        loaded_is = r.loaded_is;
      },
    )

-- The states behind `deliver`.
Delivers : ℕ → ℕ → ℤ → ℤ → ℕ → State → Process → KernelState → Sched → Type 0
Delivers fuel f pid sig a st p k s =
    (k' : KernelState) × (deliver fuel f pid sig a st p k ≡ ok (answer st, k', []))
    × Runs k' (woken st a s)
    × (k'.process_table ≡ k.process_table)
    × (k'.processes a ≡ some (told st sig p))
    × ((b : ℕ) → b ≢ a → k'.processes b ≡ k.processes b)

deliver-Delivers :
    (fuel f : ℕ) (pid sig : ℤ) (a : ℕ) (st : State) (p : Process) (k : KernelState) (s : Sched)
    → st ≡ p.state
    → Runs k s
    → IsFresh k.scheduler f
    → a ≢ null
    → k.processes a ≡ some p
    → IsTame p
    → Delivers fuel f pid sig a st p k s
unfolding Delivers deliver
deliver-Delivers fuel f pid sig a signal p k s is r fr ne at_p tame =
    (k, refl, r, refl, at_p, λ b n. refl)
deliver-Delivers fuel f pid sig a active p k s is r fr ne at_p tame =
    let zero_status = signal_trigger-zero sig p tame (λ e. cc) in
    let p' = (signal_trigger sig p).1 in
    (
      set_process a p' k,
      rw zero_status refl,
      changed-Runs k s a p p' at_p (signal_trigger-address_space sig p) r,
      refl,
      update_self k.processes a (some p'),
      λ b n. update_ne k.processes a (some p') b n,
    )
deliver-Delivers fuel f pid sig a sigwait p k s is r fr ne at_p tame =
    let zero_status = signal_trigger-zero sig p tame (λ e. cc) in
    let p' = (signal_trigger sig p).1 in
    let r' = changed-Runs k s a p p' at_p (signal_trigger-address_space sig p) r in
    let (q, e, r2) =
      enqueue_process-Runs f a (set_process a p' k) s r'
        (record { not_null = fr.not_null; unused = fr.unused })
        (ne, p', update_self k.processes a (some p')) in
    (
      record (set_process a p' k) { scheduler = q },
      rw (zero_status, e) refl,
      r2,
      refl,
      update_self k.processes a (some p'),
      λ b n. update_ne k.processes a (some p') b n,
    )

-- The states behind `raiseSignal` for a process in the state `st`.
abbrev Raised : ℕ → ℕ → ℤ → ℤ → ℕ → State → Process → KernelState → Sched → Type 0
Raised fuel f pid sig a st p k s =
    (k' : KernelState) × (raise_signal fuel f pid sig k ≡ ok (answer st, k', []))
    × Runs k' (woken st a s)
    × (k'.process_table ≡ k.process_table)
    × (k'.processes a ≡ some (told st sig p))
    × ((b : ℕ) → b ≢ a → k'.processes b ≡ k.processes b)

ok-eq : {A : Type 0} {x y : A} → Run.ok x ≡ ok y → x ≡ y
ok-eq e = cc

-- `raiseSignal` for a process of the table that no signal kills: in a handler it takes no signal, and
-- the call fails; else the signal is told to it, and one that waited for a signal is ready again,
-- behind all others. No other process changes.
pub raise_signal-Runs :
    (fuel f : ℕ) (pid sig : ℤ) (a : ℕ) (p : Process) (k : KernelState) (s : Sched)
    → Runs k s
    → IsFresh k.scheduler f
    → contains k.process_table.root pid ≡ true
    → get k.process_table.root pid ≡ ok a
    → a ≢ null
    → k.processes a ≡ some p
    → IsTame p
    → (k' : KernelState) × (raise_signal fuel f pid sig k ≡ ok (answer p.state, k', []))
      × Runs k' (woken p.state a s)
      × (k'.process_table ≡ k.process_table)
      × (k'.processes a ≡ some (told p.state sig p))
      × ((b : ℕ) → b ≢ a → k'.processes b ≡ k.processes b)
unfolding raise_signal Delivers
raise_signal-Runs fuel f pid sig a p k s r fr there found ne at_p tame =
    let leads = process_at-Live a k p ne at_p in
    let (k', e, x, y, z, w) =
      deliver-Delivers fuel f pid sig a p.state p k s refl r fr ne at_p tame in
    (k', rw (there, found, leads) e, x, y, z, w)

-- A process that waits, is alive and ignores the signal is put into the line of those that are ready
-- by each of two signals, so that it stands there twice.
pub raise_signal-twice :
    (fuel f g : ℕ) (pid sig : ℤ) (a : ℕ) (p : Process) (k k' : KernelState) (s : Sched)
    → Runs k s
    → IsFresh k.scheduler f
    → contains k.process_table.root pid ≡ true
    → get k.process_table.root pid ≡ ok a
    → a ≢ null
    → k.processes a ≡ some p
    → IsTame p
    → p.state ≡ sigwait
    → (signal_trigger sig p).1 ≡ p
    → raise_signal fuel f pid sig k ≡ ok (pos 0, k', [])
    → IsFresh k'.scheduler g
    → (k'' : KernelState) × (raise_signal fuel g pid sig k' ≡ ok (pos 0, k'', []))
      × Runs k'' (record s { ready = (s.ready ++ a ∷ []) ++ a ∷ [] })
raise_signal-twice fuel f g pid sig a p k k' s r fr there found ne at_p tame waits ignored first
      fr' =
    let (k1, e1, r1, t1, p1, _) =
      subst (λ st. Raised fuel f pid sig a st p k s) waits
        (raise_signal-Runs fuel f pid sig a p k s r fr there found ne at_p tame) in
    let same : k1 ≡ k' = ap (λ x. x.1) (ok-eq (sym e1 ∙ first)) in
    let r' = subst (λ x. Runs x (record s { ready = s.ready ++ a ∷ [] })) same r1 in
    let t' = subst (λ x. x.process_table ≡ k.process_table) same t1 in
    let p' = subst (λ x. x.processes a ≡ some p) same (p1 ∙ ap some ignored) in
    let (k2, e2, r2, _, _, _) =
      subst (λ st. Raised fuel g pid sig a st p k' (record s { ready = s.ready ++ a ∷ [] })) waits
        (raise_signal-Runs fuel g pid sig a p k' (record s { ready = s.ready ++ a ∷ [] }) r' fr'
          (ap (λ t. contains t.root pid) t' ∙ there) (ap (λ t. get t.root pid) t' ∙ found) ne p'
          tame) in
    (k2, e2, r2)
