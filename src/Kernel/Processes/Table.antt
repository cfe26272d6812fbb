-- ===== src/Kernel/Processes/Table.antt =====
-- `addProcess` of src/kernel.cpp: a process comes into the table and into the line of the scheduler.
use mathlib.Core.Path.{subst}
use cros_kernel.Base.{
  ℕ, ◌≡◌, ◌≢◌, refl, sym, ◌∙◌, ap, ◌==◌, if◌then◌else◌, Option, none, some, [], ◌∷◌, ◌++◌, All-mono,
  arith, Bool-cases, inl, inr, update_self, update_ne, ℤ, inc, ok,
}
use cros_kernel.SearchTree.{differs, insert, get}
use cros_kernel.SearchTree.Order.{inorder}
use cros_kernel.SearchTree.Lookup.{IsStrict, lookup, get-lookup}
use cros_kernel.SearchTree.Update.{add_rec-lookup}
use cros_kernel.ReadyQueue.{null}
use cros_kernel.ReadyQueue.Fifo.{IsFresh}
use cros_kernel.ReadyQueue.Rounds.{Sched}
use cros_kernel.Status.{enone}
use cros_kernel.Process.{active, SignalAction, Process}
use cros_kernel.Kernel.{set_caller_return}
use cros_kernel.Process.Files.{IsTable, file_of}
use cros_kernel.Process.Copy.Stored.{
  NoNull, file_list, copies, IsClone, copy_process-Stored, clone-IsClone,
}
use cros_kernel.Kernel.Processes.{
  KernelState, set_process, schedule_as, add_process, process_at, change_process, return_to_caller,
  syscall_clone,
}
use cros_kernel.Kernel.Processes.Turns.{
  Live, Runs, Live-set_process, process_at-Live, change_process-Live, changed-Runs,
}
use cros_kernel.Kernel.Processes.Signals.{enqueue_process-Runs}

-- No two processes of the table have one pid.
abbrev pub IsProcessTable : KernelState → Type 0
IsProcessTable k = IsStrict (inorder k.process_table.root)

-- the address of the process with a pid, if there is one
abbrev pub process_of : KernelState → ℤ → Option ℕ
process_of k pid = lookup pid (inorder k.process_table.root)

-- A process at an address that had none changes nothing for the others.
placed-Runs :
    (k : KernelState) (s : Sched) (a : ℕ) (p : Process)
    → k.processes a ≡ none
    → Runs k s
    → Runs (set_process a p k) s
placed-Runs k s a p free r = record {
  shows = r.shows;
  running_live = Live-set_process k a p s.running r.running_live;
  ready_live =
      All-mono (Live k) (Live (set_process a p k)) s.ready (Live-set_process k a p) r.ready_live;
  loaded_is = λ x e. elim (Bool-cases (s.running == a)) [
    | inl y ↦
        let same : s.running ≡ a = ground arith in
        let (_, q, there) = r.running_live in absurd (let z = ap k.processes same ∙ free in cc)
    | inr y ↦ let z : k.processes s.running ≡ some x = rw y at e in r.loaded_is x z
  ];
}

-- the state behind `addProcess`, with the object `p'` at the address `a`
pub record Added (k k' : KernelState) (s : Sched) (a : ℕ) (p p' : Process) : Type 0 where
  pub runs : Runs k' (record s { ready = s.ready ++ a ∷ [] })
  pub table : IsProcessTable k'
  pub process_is : (j : ℤ) → process_of k' j ≡ (if differs p.pid j then process_of k j else some a)
  pub object_is : k'.processes a ≡ some p'
  pub others_are : (b : ℕ) → b ≢ a → k'.processes b ≡ k.processes b
  pub files_are : (j : ℤ) → file_of p' j ≡ file_of p j
  pub rest_is : record p { files = p'.files } ≡ p'
  pub next_is : k'.curr_pid ≡ k.curr_pid

-- `addProcess` of an active process whose pid is not in the table, with a free node: the table has a
-- copy of it under its pid, with the same files, and the copy is ready behind all others.
pub add_process-Added :
    (f a : ℕ) (p : Process) (k : KernelState) (s : Sched)
    → Runs k s
    → IsFresh k.scheduler f
    → IsProcessTable k
    → process_of k p.pid ≡ none
    → a ≢ null
    → k.processes a ≡ none
    → p.state ≡ active
    → IsTable p
    → NoNull (file_list p)
    → (k' : KernelState) × (p' : Process) × (add_process f a p k ≡ ok k') × Added k k' s a p p'
unfolding add_process
add_process-Added f a p k s r fr table new ne free is_active files no_null =
    let (p', counts, copied, files', same, rest) = copy_process-Stored p k.counts files no_null in
    let (table', at) = add_rec-lookup k.process_table.root p.pid a table new in
    let k1 = record (set_process a p' k) {
      process_table = insert k.process_table p.pid a;
      counts = counts;
    } in
    let found : get k1.process_table.root p.pid ≡ ok a =
      (get-lookup k1.process_table.root p.pid table').1 a (at p.pid ∙ self p.pid _ a) in
    let r0 = placed-Runs k s a p' free r in
    let r1 : Runs k1 s = record {
      shows = r0.shows;
      running_live = r0.running_live;
      ready_live = r0.ready_live;
      loaded_is = r0.loaded_is;
    } in
    let (q, e, r2) =
      enqueue_process-Runs f a k1 s r1 (record { not_null = fr.not_null; unused = fr.unused })
        (ne, p', update_self k.processes a (some p')) in
    (
      record k1 { scheduler = q },
      p',
      rw (copied, found)
          (subst (λ st. schedule_as st f a k1 ≡ ok (record k1 { scheduler = q })) (sym is_active)
            e),
      record {
        runs = r2;
        table = table';
        process_is = at;
        object_is = update_self k.processes a (some p');
        others_are = λ b n. update_ne k.processes a (some p') b n;
        files_are = same;
        rest_is = rest;
        next_is = refl;
      },
    )
  where
    self : (j : ℤ) (o : Option ℕ) (v : ℕ) → (if differs j j then o else some v) ≡ some v
    self j o v = ground arith

-- `syscall_clone` in a state in which a process with an address space runs: with memory for the clone's
-- stack and node and for the copies of its files, and a next pid that the table does not have, the clone
-- is in the table under that pid and ready behind all others, and the caller goes on with 0 as its
-- result. Each descriptor of the clone has the object that the file's `copy` makes at its turn, in the
-- order of the descriptors, and the files are left in the state behind the last of these calls.
pub syscall_clone-Runs :
    {W : Type 0} (raw : ℕ → SignalAction) (copy : ℕ → W → ℕ × W)
    → (base a f fn stack userdata : ℕ) (k : KernelState) (w : W) (s : Sched) (p : Process)
    → Runs k s
    → IsFresh k.scheduler f
    → IsProcessTable k
    → process_of k k.curr_pid ≡ none
    → base ≢ 0
    → a ≢ null
    → k.processes a ≡ none
    → k.processes s.running ≡ some p
    → p.address_space ≢ 0
    → IsTable p
    → NoNull (file_list p)
    → NoNull (copies copy (file_list p) w).0
    → (k' : KernelState) × (c c' : Process) × (syscall_clone raw copy base a f fn stack userdata
          (k, w)
        ≡ ok (k', (copies copy (file_list p) w).1))
      × IsClone (copies copy (file_list p) w).0 base k.curr_pid fn stack userdata p c
      × Runs k' (record s { ready = s.ready ++ a ∷ [] })
      × ((j : ℤ) → process_of k' j ≡ (if differs k.curr_pid j then process_of k j else some a))
      × (k'.processes a ≡ some c')
      × ((j : ℤ) → file_of c' j ≡ file_of c j)
      × (record c { files = c'.files } ≡ c')
      × (k'.processes s.running ≡ some (set_caller_return enone p))
      × (k'.curr_pid ≡ inc k.curr_pid)
unfolding syscall_clone
syscall_clone-Runs raw copy base a f fn stack userdata k w s p r fr table new memory ne free at_p
      space files some_file some_copy =
    let (c, counts, cloned, is) =
      clone-IsClone raw copy base k.curr_pid fn stack userdata p k.counts w memory space files
        some_file some_copy in
    let k1 = record k { curr_pid = inc k.curr_pid; counts = counts } in
    let r1 : Runs k1 s = record {
      shows = r.shows;
      running_live = r.running_live;
      ready_live = r.ready_live;
      loaded_is = r.loaded_is;
    } in
    let (k2, c', added, x) =
      add_process-Added f a c k1 s r1 (record { not_null = fr.not_null; unused = fr.unused }) table
        (ap (process_of k) is.pid_is ∙ new) ne free is.state_is is.table is.no_null in
    let apart : s.running ≢ a = λ e. let z = sym at_p ∙ ap k.processes e ∙ free in cc in
    let there : k2.processes s.running ≡ some p = x.others_are s.running apart ∙ at_p in
    let p' = set_caller_return enone p in
    let leads : process_at k.scheduler.cur_process k ≡ ok p =
      subst (λ b. process_at b k ≡ ok p) (sym r.shows.running_is)
        (process_at-Live s.running k p r.running_live.0 at_p) in
    let back : return_to_caller enone k2 ≡ ok (set_process s.running p' k2) =
      subst (λ b. change_process b (set_caller_return enone) k2 ≡ ok (set_process s.running p' k2))
        (sym x.runs.shows.running_is)
        (change_process-Live s.running (set_caller_return enone) k2 p r.running_live.0 there) in
    (
      set_process s.running p' k2,
      c,
      c',
      rw (leads, cloned, added, back) refl,
      is,
      changed-Runs k2 _ s.running p p' there refl x.runs,
      λ j. x.process_is j ∙ ap (λ i. if differs i j then process_of k j else some a) is.pid_is,
      update_ne k2.processes s.running (some p') a (λ e. apart (sym e)) ∙ x.object_is,
      x.files_are,
      x.rest_is,
      update_self k2.processes s.running (some p'),
      x.next_is,
    )
