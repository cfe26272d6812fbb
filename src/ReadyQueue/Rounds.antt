-- ===== src/ReadyQueue/Rounds.antt =====
-- `sched_next` of src/sched/queue.cpp takes turns: against a running process and a sequence of
-- ready ones, and over any number of calls.
use mathlib.Core.List.{map-append}
use mathlib.Core.Path.{subst, ap₂, subst₂}
use native.Mathlib.Decide.{ℕ_discrete}
use cros_kernel.Base.{
  ℕ, zero, suc, ◌≡◌, refl, ap, ◌∙◌, ◌≢◌, true, false, some, List, [], ◌∷◌, ◌++◌, arith, get_elem?,
  get_elem?-append, All, All-append, some-eq, ok, ne→==, if◌then◌else◌, ◌==◌,
}
use cros_kernel.ReadyQueue.{Ptr, null, Queue, take_next, set_cur_process, sched_next}
use cros_kernel.ReadyQueue.Links.{Cells, IsQueue, waiting}
use cros_kernel.ReadyQueue.Fifo.{IsFresh, enqueue-snoc, dequeue-cons}

-- What the scheduler promises: a running process (or null), and those that wait in order.
pub record Sched : Type 0 where
  pub running : Ptr
  pub ready : List Ptr

-- The queue stands for the abstract state.
pub record Shows (q : Queue) (s : Sched) : Type 0 where
  pub cells : Cells
  pub is_queue : IsQueue q cells
  pub ready_is : waiting cells ≡ s.ready
  pub running_is : q.cur_process ≡ s.running

-- The first of a list runs; with none the state stays and the call returns null.
abbrev pub pick : Ptr → List Ptr → Ptr × Sched
pick old [] = (null, record { running = old; ready = [] })
pick old (w ∷ ws) = (w, record { running = w; ready = ws })

-- The running process goes to the back of the line, the first in line runs.
abbrev pub next_turn : Sched → Ptr × Sched
next_turn s =
    if s.running == null then pick null s.ready else pick s.running (s.ready ++ s.running ∷ [])

take_next_refines :
    {q : Queue} (xs : Cells)
    → IsQueue q xs
    → (q' : Queue) × (take_next q ≡ ok ((pick q.cur_process (waiting xs)).0, q'))
      × Shows q' (pick q.cur_process (waiting xs)).1
unfolding take_next
take_next_refines {q} [] is = (
  q,
  (let e : (q.queue_size == 0) ≡ true = ground (arith, is.size_is) in rw e),
  record { cells = []; is_queue = is; ready_is = refl; running_is = refl },
)
take_next_refines {q} ((f, v) ∷ xs) is =
    let (q', e, is', _) = dequeue-cons f v xs is in
    (
      set_cur_process v q',
      rw (ne→== q.queue_size 0 (omega (arith, is.size_is)), e),
      record {
        cells = xs;
        is_queue = record {
          stale = is'.stale;
          links = is'.links;
          distinct = is'.distinct;
          front_is = is'.front_is;
          back_is = is'.back_is;
          size_is = is'.size_is;
        };
        ready_is = refl;
        running_is = refl;
      },
    )

abbrev Taken : Queue → Ptr → List Ptr → Type 0
Taken q c r = (q' : Queue) × (take_next q ≡ ok ((pick c r).0, q')) × Shows q' (pick c r).1

-- `sched_next` does what `next_turn` does: on a valid queue, given a fresh node if it needs one, it
-- succeeds, returns that process, and leaves a valid queue that stands for the next state.
pub sched_next_refines :
    {q : Queue} {s : Sched} (f : Ptr)
    → Shows q s
    → IsFresh q f
    → (q' : Queue) × (sched_next f q ≡ ok ((next_turn s).0, q')) × Shows q' (next_turn s).1
unfolding sched_next
sched_next_refines {q} {s} f sh fr = elim (ℕ_discrete s.running null) [
  | yes e ↦
      let t : (q.cur_process == null) ≡ true = ground arith in
      let u : (s.running == null) ≡ true = ground arith in
      rw (t, u)
        (subst₂ (Taken q) (sh.running_is ∙ e) sh.ready_is (take_next_refines sh.cells sh.is_queue))
  | no ne ↦
      let t : (q.cur_process == null) ≡ false = ground arith in
      let u : (s.running == null) ≡ false = ground arith in
      let (q', run, is', cur) = enqueue-snoc sh.cells f q.cur_process sh.is_queue fr in
      let w : waiting (sh.cells ++ (f, q.cur_process) ∷ []) ≡ s.ready ++ s.running ∷ [] =
        map-append (λ c. c.1) sh.cells ((f, q.cur_process) ∷ [])
        ∙ ap₂ (λ (a b : List Ptr). a ++ b) sh.ready_is (ap (λ (a : Ptr). a ∷ []) sh.running_is) in
      rw (t, u, run)
        (subst₂ (Taken q') (cur ∙ sh.running_is) w
          (take_next_refines (sh.cells ++ (f, q.cur_process) ∷ []) is'))
]

-- A number of calls of `sched_next`, each of which is given some fresh node by the allocator.
pub data Turns : ℕ → Queue → Queue → Type 0 where
  done : {q : Queue} → Turns zero q q
  turn :
      {n : ℕ} {q q' q'' : Queue} (f p : Ptr)
      → IsFresh q f
      → sched_next f q ≡ ok (p, q')
      → Turns n q' q''
      → Turns (suc n) q q''

-- The state behind one call, when a process runs.
step :
    {q q' : Queue} {v : Ptr} (ws : List Ptr) (f p : Ptr)
    → Shows q (record { running = v; ready = ws })
    → v ≢ null
    → IsFresh q f
    → sched_next f q ≡ ok (p, q')
    → Shows q' (pick v (ws ++ v ∷ [])).1
step {q} {q'} {v} ws f p sh ne fr e =
    let (q1, run, sh') = let r = sched_next_refines f sh fr in rw (ne→== v null ne) at r in
    let same : q1 ≡ q' = cc in subst (λ r. Shows r (pick v (ws ++ v ∷ [])).1) same sh'

progress :
    {q : Queue} {s : Sched}
    → Shows q s
    → (f : Ptr) → IsFresh q f
    → (r : Ptr × Queue) × (sched_next f q ≡ ok r)
progress sh f fr = let (q', run, _) = sched_next_refines f sh fr in (_, run)

-- On a valid queue with a running process, whatever fresh nodes the allocator hands out, the
-- process that waits at position `k` runs after `k + 1` calls of `sched_next`, and the running one
-- again after one call more than there are others: no process starves. The queue is then valid
-- again, so that the next call, with a fresh node, returns and does not fault.
pub sched_next_fair :
    {k : ℕ} {q q' : Queue} {v : Ptr} (ws : List Ptr) {w : Ptr}
    → Shows q (record { running = v; ready = ws })
    → All (λ p. p ≢ null) (v ∷ ws)
    → get_elem? (ws ++ v ∷ []) k ≡ some w
    → Turns (suc k) q q'
    → (q'.cur_process ≡ w)
      × ((f : Ptr) → IsFresh q' f → (r : Ptr × Queue) × (sched_next f q' ≡ ok r))
sched_next_fair {k = zero} [] sh nn e (turn f p fr run done) =
    let sh' = step [] f p sh nn.0 fr run in (sh'.running_is ∙ some-eq e, progress sh')
sched_next_fair {k = zero} (u ∷ us) sh nn e (turn f p fr run done) =
    let sh' = step (u ∷ us) f p sh nn.0 fr run in (sh'.running_is ∙ some-eq e, progress sh')
sched_next_fair {k = suc k} [] sh nn e t = cc
sched_next_fair {k = suc k} {v = v} (u ∷ us) sh nn e (turn f p fr run t) =
    sched_next_fair (us ++ v ∷ []) (step (u ∷ us) f p sh nn.0 fr run)
      (nn.1.0, All-append (λ p. p ≢ null) us (v ∷ []) nn.1.1 (nn.0, tt))
      (get_elem?-append (us ++ v ∷ []) (u ∷ []) k e) t
