-- ===== src/Kernel/Processes.antt =====
-- The processes of src/kernel.cpp: the process table, whose nodes hold the process objects, and the
-- scheduler, which holds pointers to them.
pub mod Signals
pub mod Turns
pub mod Table
mod Tests
use cros_kernel.Base.{
  ℕ, ◌++◌, zero, suc, ◌+◌, Bool, not, ◌==◌, if◌then◌else◌, Option, none, some, List, [], ◌∷◌, ℤ,
  pos, negsuc, pos_part, inc, ltb_ℤ, is_zero, update, Run, ok, fault, ◌>>=◌, need,
}
use cros_kernel.Status.{enone}
use cros_kernel.SearchTree.{Tree, leaf, node, SearchTree, insert, contains, get, differs}
use cros_kernel.SearchTree.Remove.{remove}
use cros_kernel.ReadyQueue as ReadyQueue
use cros_kernel.ReadyQueue.{Queue, enqueue, sched_next, set_cur_process}
use cros_kernel.Process.{
  State, active, signal, sigwait, SignalAction, Process, Counts, set_state, signal_trigger,
}
use cros_kernel.Process.Copy.{copy_process, clone, assign, destroy}
use cros_kernel.Kernel.{set_caller_return}

-- `class Kernel` without the file system. The table has the address of the process in each node; the
-- process at an address, if there is one, is in `processes`. `loaded` is the address space that the
-- processor uses.
pub record KernelState : Type 0 where
  pub scheduler : Queue
  pub process_table : SearchTree ℕ
  pub processes : ℕ → Option Process
  pub counts : Counts
  pub curr_pid : ℤ
  pub loaded : ℕ

-- what a pointer to a process leads to
abbrev pub process_at : ℕ → KernelState → Run Process
process_at a k = if a == 0 then fault else need (k.processes a)

abbrev pub set_process : ℕ → Process → KernelState → KernelState
set_process a p k = record k { processes = update k.processes a (some p) }

abbrev pub change_process : ℕ → (Process → Process) → KernelState → Run KernelState
change_process a f k = process_at a k >>= λ p. ok (set_process a (f p) k)

-- `setCallerReturn(v)` for the process that runs
abbrev pub return_to_caller : ℤ → KernelState → Run KernelState
return_to_caller v k = change_process k.scheduler.cur_process (set_caller_return v) k

-- `nextPid()`
abbrev pub next_pid : KernelState → ℤ × KernelState
next_pid k = (k.curr_pid, record k { curr_pid = inc k.curr_pid })

-- `switchTask()`, where the allocator returns `fresh` for a node of the queue: a fault where the process
-- that is to run, or its address space, is null
unfoldable pub switch_task : ℕ → KernelState → Run KernelState
switch_task fresh k = do
  (next, q) ← sched_next fresh k.scheduler
  p ← process_at q.cur_process k
  let switched = ok (record k { scheduler = q; loaded = p.address_space })
  if p.address_space == 0 then fault else switched

-- `scheduler.enqueue(p)`
abbrev pub enqueue_process : ℕ → ℕ → KernelState → Run KernelState
enqueue_process fresh a k = enqueue fresh a k.scheduler >>= λ q. ok (record k { scheduler = q })

-- Only an active process is put into the queue.
abbrev pub schedule_as : State → ℕ → ℕ → KernelState → Run KernelState
schedule_as active fresh a k = enqueue_process fresh a k
schedule_as signal fresh a k = ok k
schedule_as sigwait fresh a k = ok k

-- `addProcess(p)`: the node `a` of the table gets a copy of the process.
unfoldable pub add_process : ℕ → ℕ → Process → KernelState → Run KernelState
add_process fresh a p k = do
  (p', counts) ← copy_process (p, k.counts)
  let k' = record k {
    process_table = insert k.process_table p.pid a;
    processes = update k.processes a (some p');
    counts = counts;
  }
  b ← get k'.process_table.root p.pid
  schedule_as p.state fresh b k'

-- The nodes whose entries a removal moves up, one to the next, behind the node of the key: the chain of
-- successors to the right, and to the left where there is none.
pub chain_min : Tree ℕ → List ℕ
chain_min leaf = []
chain_min (node leaf k v h r) = v ∷ chain_min r
chain_min (node (node a j w g b) k v h r) = chain_min (node a j w g b)

pub chain_max : Tree ℕ → List ℕ
chain_max leaf = []
chain_max (node l k v h leaf) = v ∷ chain_max l
chain_max (node l k v h (node a j w g b)) = chain_max (node a j w g b)

abbrev pub chain_below : Tree ℕ → Tree ℕ → List ℕ
chain_below l leaf = chain_max l
chain_below l (node a j w g b) = chain_min (node a j w g b)

pub chain : Tree ℕ → ℤ → List ℕ
chain leaf k = []
chain (node l j v h r) k =
    let left = chain l k in
    let right = chain r k in
    if ltb_ℤ k j then left else if ltb_ℤ j k then right else (v ∷ chain_below l r)

-- `node::replace` along a chain behind the node `a`: each object is assigned the next one, and the last
-- one is destroyed; with the address spaces that are deleted.
pub replace_nodes : ℕ → List ℕ → KernelState → Run (KernelState × List ℕ)
replace_nodes a [] k = do
  p ← need (k.processes a)
  (counts, freed) ← destroy (p, k.counts)
  ok (record k { processes = update k.processes a none; counts = counts }, freed)
replace_nodes a (b ∷ cs) k =
    let rest = replace_nodes b cs in
    do
      p ← need (k.processes a)
      q ← need (k.processes b)
      (p', counts, freed) ← assign q (p, k.counts)
      (k', freed') ← rest (record (set_process a p' k) { counts = counts })
      ok (k', freed ++ freed')

-- the node that the entry of the node `v` comes to stand in
pub relocate : List ℕ → ℕ → ℕ
relocate [] v = v
relocate (a ∷ []) v = v
relocate (a ∷ b ∷ cs) v = let rest = relocate (b ∷ cs) v in if v == b then a else rest

pub map_tree : (ℕ → ℕ) → Tree ℕ → Tree ℕ
map_tree f leaf = leaf
map_tree f (node l k v h r) = node (map_tree f l) k (f v) h (map_tree f r)

-- `processTable.remove(pid)`, with the address spaces that are deleted
pub remove_nodes : ℤ → List ℕ → KernelState → Run (KernelState × List ℕ)
remove_nodes pid [] k = ok (k, [])
remove_nodes pid (a ∷ cs) k = do
  (k', freed) ← replace_nodes a cs k
  let t = remove k.process_table pid
  ok (record k' { process_table = record t { root = map_tree (relocate (a ∷ cs)) t.root } }, freed)

abbrev pub remove_process : ℤ → KernelState → Run (KernelState × List ℕ)
remove_process pid k = remove_nodes pid (chain k.process_table.root pid) k

-- `sleepActiveProcess()`
abbrev pub sleep_active_process : KernelState → KernelState
sleep_active_process k = record k { scheduler = set_cur_process 0 k.scheduler }

-- `deleteActiveProcess()`
pub delete_active_process : KernelState → Run (KernelState × List ℕ)
delete_active_process k = do
  p ← process_at k.scheduler.cur_process k
  (k', freed) ← remove_process p.pid k
  ok (sleep_active_process k', freed)

-- the pid of the process at an address, as the queue reads it
abbrev pub pid_at : KernelState → ℕ → ℕ
pid_at k a = elim (k.processes a) [ none ↦ 0 | some p ↦ pos_part p.pid ]

-- the part of `raiseSignal` for a process that is to be killed and is in the queue or runs
pub unschedule : ℕ → ℕ → ℤ → KernelState → Run KernelState
unschedule fuel fresh pid k = do
  (found, q) ← ReadyQueue.remove (pid_at k) fuel (pos_part pid) k.scheduler
  let k' = record k { scheduler = q }
  p ← process_at q.cur_process k'
  if not (differs p.pid pid) then switch_task fresh (sleep_active_process k') else ok k'

-- `raiseSignal` for a process that is to be killed
pub kill_process : ℕ → ℕ → ℤ → ℤ → Process → KernelState → Run (ℤ × KernelState × List ℕ)
kill_process fuel fresh status pid p k = do
  k' ← elim p.state [ active ↦ unschedule fuel fresh pid k | signal ↦ ok k | sigwait ↦ ok k ]
  (k'', freed) ← remove_process pid k'
  ok (status, k'', freed)

-- `raiseSignal` behind `signalTrigger`, for the process at `a` that is now `p`
abbrev pub behind_trigger :
    ℕ → ℕ → ℤ → ℕ → Bool → ℤ → Process → KernelState → Run (ℤ × KernelState × List ℕ)
behind_trigger fuel fresh pid a schedule status p k =
    let kill = kill_process fuel fresh status pid p k in
    let wake = enqueue_process fresh a k >>= λ k'. ok (status, k', []) in
    if ltb_ℤ (pos 0) status
    then kill
    else if is_zero status
    then (if schedule then wake else ok (status, k, []))
    else ok (status, k, [])

-- `raiseSignal(pid, signal)` for a process in this state
pub deliver : ℕ → ℕ → ℤ → ℤ → ℕ → State → Process → KernelState → Run (ℤ × KernelState × List ℕ)
deliver fuel fresh pid sig a signal p k = ok (negsuc 0, k, [])
deliver fuel fresh pid sig a active p k =
    let (status, p') = signal_trigger sig p in
    behind_trigger fuel fresh pid a Bool.false status p' (set_process a p' k)
deliver fuel fresh pid sig a sigwait p k =
    let (status, p') = signal_trigger sig p in
    behind_trigger fuel fresh pid a Bool.true status p' (set_process a p' k)

-- `raiseSignal(pid, signal)`: the status, and the address spaces that are deleted. `fuel` is for
-- the search of the queue, `fresh` for a node of it.
unfoldable pub raise_signal : ℕ → ℕ → ℤ → ℤ → KernelState → Run (ℤ × KernelState × List ℕ)
raise_signal fuel fresh pid sig k =
    let there = do
      a ← get k.process_table.root pid
      p ← process_at a k
      deliver fuel fresh pid sig a p.state p k
    in if contains k.process_table.root pid then there else ok (negsuc 0, k, [])

-- `syscall_yield`
pub syscall_yield : ℕ → KernelState → Run KernelState
syscall_yield fresh k = return_to_caller enone k >>= switch_task fresh

-- `syscall_sigwait`
pub syscall_sigwait : ℕ → KernelState → Run KernelState
syscall_sigwait fresh k = change_process k.scheduler.cur_process (set_state sigwait) k >>= λ k'.
    switch_task fresh (sleep_active_process k')

-- `syscall_sigraise(pid, signal)`
pub syscall_sigraise : ℕ → ℕ → ℤ → ℤ → KernelState → Run (KernelState × List ℕ)
syscall_sigraise fuel fresh pid sig k = do
  (status, k', freed) ← raise_signal fuel fresh pid sig k
  let answer = return_to_caller status k' >>= λ k''. ok (k'', freed)
  if ltb_ℤ (pos 0) status then ok (k', freed) else answer

-- `syscall_terminate`, with the address spaces that are deleted
pub syscall_terminate : ℕ → ℕ → KernelState → Run (KernelState × List ℕ)
syscall_terminate fuel fresh k = do
  p ← process_at k.scheduler.cur_process k
  (status, k1, freed) ← raise_signal fuel fresh p.parent (pos 17) k
  (k2, freed') ← delete_active_process k1
  k3 ← switch_task fresh k2
  ok (k3, freed ++ freed')

-- `syscall_clone(fn, stack, userdata, flags)`, with the state of the files. The allocator returns `base`
-- for the stack of the kernel, `a` for the node of the table and `fresh` for that of the queue; the clone
-- itself is never deleted.
pub syscall_clone :
    {W : Type 0}
    → (ℕ → SignalAction)
    → (ℕ → W → ℕ × W)
    → ℕ
    → ℕ
    → ℕ
    → ℕ
    → ℕ
    → ℕ
    → KernelState × W
    → Run (KernelState × W)
syscall_clone raw copy base a fresh fn stack userdata (k, w) = do
  p ← process_at k.scheduler.cur_process k
  let (pid, k1) = next_pid k
  (made, counts, w') ← clone raw copy base pid fn stack userdata (p, k1.counts, w)
  c ← need made
  k2 ← add_process fresh a c (record k1 { counts = counts })
  k3 ← return_to_caller enone k2
  ok (k3, w')
