-- ===== src/Kernel/Processes/Turns.antt =====
-- Who runs and who is ready behind the calls of src/kernel.cpp that switch tasks.
use mathlib.Core.Path.{subst}
use cros_kernel.Base.{
  ℕ, ◌≡◌, ◌≢◌, refl, sym, ◌∙◌, ap, ◌==◌, some, List, [], ◌∷◌, ◌++◌, All, All-append, All-mono,
  arith, Bool-cases, inl, inr, update, ok, fault, ne→==, some-eq,
}
use cros_kernel.Status.{enone}
use cros_kernel.ReadyQueue.{null, Queue}
use cros_kernel.ReadyQueue.Fifo.{IsFresh}
use cros_kernel.ReadyQueue.Rounds.{Sched, Shows, pick, next_turn, sched_next_refines}
use cros_kernel.Process.{Process, sigwait, set_state}
use cros_kernel.Kernel.{set_caller_return}
use cros_kernel.Kernel.Processes.{
  KernelState, process_at, set_process, change_process, return_to_caller, switch_task,
  sleep_active_process, syscall_yield, syscall_sigwait,
}

-- The pointer leads to a process.
abbrev pub Live : KernelState → ℕ → Type 0
Live k a = (a ≢ null) × (p : Process) × (k.processes a ≡ some p)

-- A process runs, in its own address space, and the others of `s` wait for their turn.
pub record Runs (k : KernelState) (s : Sched) : Type 0 where
  pub shows : Shows k.scheduler s
  pub running_live : Live k s.running
  pub ready_live : All (Live k) s.ready
  pub loaded_is : (p : Process) → k.processes s.running ≡ some p → k.loaded ≡ p.address_space

pub process_at-Live :
    (a : ℕ) (k : KernelState) (p : Process)
    → a ≢ null
    → k.processes a ≡ some p
    → process_at a k ≡ ok p
process_at-Live a k p ne e = rw (ne→== a 0 ne, e) refl

-- Changing one process leaves the others alive.
pub Live-set_process :
    (k : KernelState) (a : ℕ) (p : Process) (b : ℕ) → Live k b → Live (set_process a p k) b
Live-set_process k a p b l = elim (Bool-cases (b == a)) [
  | inl e ↦ (l.0, p, rw e refl)
  | inr ne ↦ (l.0, l.1, rw ne l.2)
]

-- Each process has an address space.
abbrev pub HasSpaces : KernelState → Type 0
HasSpaces k = (a : ℕ) (p : Process) → k.processes a ≡ some p → p.address_space ≢ 0

-- Changing one process keeps that, where it stays in its address space.
HasSpaces-set_process :
    (k : KernelState) (a : ℕ) (p p' : Process)
    → k.processes a ≡ some p
    → p'.address_space ≡ p.address_space
    → HasSpaces k
    → HasSpaces (set_process a p' k)
HasSpaces-set_process k a p p' at_p same spaces b q e = elim (Bool-cases (b == a)) [
  | inl y ↦
      let z : some p' ≡ some q = rw y at e in
      let there = spaces a p at_p in
      λ n. there (sym same ∙ ap (λ x. x.address_space) (some-eq z) ∙ n)
  | inr y ↦ let z : k.processes b ≡ some q = rw y at e in spaces b q z
]

switch_task-Runs :
    (f : ℕ) (k : KernelState) (s : Sched)
    → HasSpaces k
    → Shows k.scheduler s
    → IsFresh k.scheduler f
    → Live k (next_turn s).1.running
    → All (Live k) (next_turn s).1.ready
    → (q : Queue) × (p : Process) × (switch_task f k
        ≡ ok (record k { scheduler = q; loaded = p.address_space }))
      × Runs (record k { scheduler = q; loaded = p.address_space }) (next_turn s).1
unfolding switch_task
switch_task-Runs f k s spaces sh fr live all =
    let (q, e, sh') = sched_next_refines f sh fr in
    let (ne, p, at_p) = live in
    let there : process_at q.cur_process k ≡ ok p =
      subst (λ a. process_at a k ≡ ok p) (sym sh'.running_is) (process_at-Live _ k p ne at_p) in
    let space = ne→== p.address_space 0 (spaces _ p at_p) in
    (
      q,
      p,
      rw (e, there, space) refl,
      record {
        shows = sh';
        running_live = live;
        ready_live = all;
        loaded_is = λ p' e'. ap (λ x. x.address_space) (some-eq (sym at_p ∙ e'));
      },
    )

-- changing one process, as `setCallerReturn` does
pub changed-Runs :
    (k : KernelState) (s : Sched) (a : ℕ) (p p' : Process)
    → k.processes a ≡ some p
    → p'.address_space ≡ p.address_space
    → Runs k s
    → Runs (set_process a p' k) s
changed-Runs k s a p p' at_p same r = record {
  shows = r.shows;
  running_live = Live-set_process k a p' s.running r.running_live;
  ready_live =
      All-mono (Live k) (Live (set_process a p' k)) s.ready (Live-set_process k a p') r.ready_live;
  loaded_is = λ x e. elim (Bool-cases (s.running == a)) [
    | inl y ↦
        let z : some p' ≡ some x = rw y at e in
        let there : k.processes s.running ≡ some p =
          subst (λ b. k.processes b ≡ some p) (sym (ground arith)) at_p in
        r.loaded_is p there ∙ sym same ∙ ap (λ q. q.address_space) (some-eq z)
    | inr y ↦ let z : k.processes s.running ≡ some x = rw y at e in r.loaded_is x z
  ];
}

pick-Live :
    (k : KernelState) (old : ℕ) (ws : List ℕ)
    → All (Live k) (ws ++ old ∷ [])
    → Live k (pick old (ws ++ old ∷ [])).1.running
      × All (Live k) (pick old (ws ++ old ∷ [])).1.ready
pick-Live k old [] all = all
pick-Live k old (w ∷ ws) all = all

pub change_process-Live :
    (a : ℕ) (f : Process → Process) (k : KernelState) (p : Process)
    → a ≢ null
    → k.processes a ≡ some p
    → change_process a f k ≡ ok (set_process a (f p) k)
change_process-Live a f k p ne at_p = let e = process_at-Live a k p ne at_p in rw e refl

-- `syscall_yield` in a state in which a process runs, and each has an address space, succeeds: the next one in line runs, in its own
-- address space, and the caller waits behind all others with 0 as its result; no other process changes.
pub syscall_yield-Runs :
    (f : ℕ) (k : KernelState) (s : Sched)
    → Runs k s
    → HasSpaces k
    → IsFresh k.scheduler f
    → (k' : KernelState) × (p : Process) × (syscall_yield f k ≡ ok k')
      × Runs k' (next_turn s).1
      × (k.processes s.running ≡ some p)
      × (k'.processes ≡ update k.processes s.running (some (set_caller_return enone p)))
unfolding syscall_yield
syscall_yield-Runs f k s r spaces fr =
    let (ne, p, at_p) = r.running_live in
    let p' = set_caller_return enone p in
    let k1 = set_process s.running p' k in
    let r1 = changed-Runs k s s.running p p' at_p refl r in
    let turn : next_turn s ≡ pick s.running (s.ready ++ s.running ∷ []) =
      rw (ne→== s.running 0 ne) refl in
    let line = All-append (Live k1) s.ready (s.running ∷ []) r1.ready_live (r1.running_live, tt) in
    let (a, b) = pick-Live k1 s.running s.ready line in
    let (q, p2, e, r2) =
      switch_task-Runs f k1 s (HasSpaces-set_process k s.running p p' at_p refl spaces) r1.shows fr
        (subst (λ (t : ℕ × Sched). Live k1 t.1.running) (sym turn) a)
        (subst (λ (t : ℕ × Sched). All (Live k1) t.1.ready) (sym turn) b) in
    let back : return_to_caller enone k ≡ ok k1 =
      subst (λ c. change_process c (set_caller_return enone) k ≡ ok k1) (sym r.shows.running_is)
        (change_process-Live s.running (set_caller_return enone) k p ne at_p) in
    (record k1 { scheduler = q; loaded = p2.address_space }, p, rw back e, r2, at_p, refl)

-- What `syscall_sigwait` promises for those that are ready: the first of them runs and the caller is in
-- no queue; without one, the kernel follows the null pointer.
abbrev pub Waits : ℕ → KernelState → ℕ → List ℕ → Type 0
Waits f k a [] = syscall_sigwait f k ≡ fault
Waits f k a (b ∷ ws) =
    (k' : KernelState) × (p : Process) × (syscall_sigwait f k ≡ ok k')
    × Runs k' (record { running = b; ready = ws })
    × (k.processes a ≡ some p)
    × (k'.processes ≡ update k.processes a (some (set_state sigwait p)))

sleep-Shows :
    (k : KernelState) (s : Sched)
    → Shows k.scheduler s
    → Shows (sleep_active_process k).scheduler (record { running = null; ready = s.ready })
sleep-Shows k s sh =
    let is = sh.is_queue in
    record {
      cells = sh.cells;
      is_queue = record {
        stale = is.stale;
        links = is.links;
        distinct = is.distinct;
        front_is = is.front_is;
        back_is = is.back_is;
        size_is = is.size_is;
      };
      ready_is = sh.ready_is;
      running_is = refl;
    }

switch_task-fault :
    (f : ℕ) (k : KernelState)
    → Shows k.scheduler (record { running = null; ready = [] })
    → IsFresh k.scheduler f
    → switch_task f k ≡ fault
unfolding switch_task
switch_task-fault f k sh fr =
    let (q, e, sh') = sched_next_refines f sh fr in
    let none_there : process_at q.cur_process k ≡ fault = rw sh'.running_is refl in
    rw (e, none_there) refl

asleep :
    (f : ℕ) (k : KernelState) (a : ℕ) (p : Process) (ws : List ℕ)
    → Runs (set_process a (set_state sigwait p) k) (record { running = a; ready = ws })
    → HasSpaces k
    → IsFresh k.scheduler f
    → k.processes a ≡ some p
    → syscall_sigwait f k
      ≡ switch_task f (sleep_active_process (set_process a (set_state sigwait p) k))
    → Waits f k a ws
asleep f k a p [] r spaces fr at_p e =
    let sh = sleep-Shows (set_process a (set_state sigwait p) k) _ r.shows in
    e
    ∙ switch_task-fault f (sleep_active_process (set_process a (set_state sigwait p) k)) sh
        (record { not_null = fr.not_null; unused = fr.unused })
asleep f k a p (b ∷ ws) r spaces fr at_p e =
    let k1 = set_process a (set_state sigwait p) k in
    let (q, p2, e2, r2) =
      switch_task-Runs f (sleep_active_process k1) (record { running = null; ready = b ∷ ws })
        (HasSpaces-set_process k a p (set_state sigwait p) at_p refl spaces)
        (sleep-Shows k1 _ r.shows) (record { not_null = fr.not_null; unused = fr.unused })
        r.ready_live.0 r.ready_live.1 in
    (record k1 { scheduler = q; loaded = p2.address_space }, p, e ∙ e2, r2, at_p, refl)

-- `syscall_sigwait` where a process runs and each has an address space: the first of those that are ready runs, in its own address
-- space, and the caller is in no queue; where none is ready, the kernel follows the null pointer.
pub syscall_sigwait-Waits :
    (f : ℕ) (k : KernelState) (s : Sched)
    → Runs k s
    → HasSpaces k
    → IsFresh k.scheduler f
    → Waits f k s.running s.ready
unfolding syscall_sigwait
syscall_sigwait-Waits f k s r spaces fr =
    let (ne, p, at_p) = r.running_live in
    let k1 = set_process s.running (set_state sigwait p) k in
    let slept : change_process k.scheduler.cur_process (set_state sigwait) k ≡ ok k1 =
      subst (λ c. change_process c (set_state sigwait) k ≡ ok k1) (sym r.shows.running_is)
        (change_process-Live s.running (set_state sigwait) k p ne at_p) in
    asleep f k s.running p s.ready (changed-Runs k s s.running p (set_state sigwait p) at_p refl r)
      spaces fr at_p (rw slept refl)
