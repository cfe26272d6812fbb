-- ===== src/Kernel/Processes/Tests.antt =====
-- Runs of the calls of src/kernel.cpp that concern processes, with three processes in the table: 1 runs,
-- 2 is ready and 3 waits for a signal.
use cros_kernel.Base.{
  ℕ, ◌+◌, List, sym, ◌∙◌, some-eq, Bool-cases, inl, inr, arith, ◌≡◌, ◌≢◌, refl, ◌==◌, if◌then◌else◌,
  none, some, [], ◌∷◌, ℤ, pos, ap, update, Run, ok, fault, out_of_fuel,
}
use cros_kernel.Status.{enone}
use cros_kernel.SearchTree.{leaf, node, contains, search_rec, get, differs}
use cros_kernel.SearchTree.Remove.{remove, remove_rec, pull_min, pull_max, rebalance_times}
use cros_kernel.SearchTree.{rebalance, rebalance_node, rotate_left, rotate_right}
use cros_kernel.ReadyQueue.{Heap, enqueue, write}
use cros_kernel.ReadyQueue.Fifo.{IsFresh}
use cros_kernel.ReadyQueue.Links as Links
use cros_kernel.ReadyQueue.Rounds.{Sched}
use cros_kernel.Process.{
  sigwait, none_action, SignalAction, Process, Counts, new_object, set_state, signal_trigger, act,
}
use cros_kernel.Process.Files.{IsTable, file_of}
use cros_kernel.Process.Tame.{IsTame}
use cros_kernel.Process.Copy.{assign, store_files}
use cros_kernel.Process.Copy.Stored.{IsClone, copies}
use cros_kernel.Kernel.{set_caller_return}
use cros_kernel.Kernel.Processes.{
  KernelState, syscall_yield, raise_signal, deliver, syscall_clone, remove_process, remove_nodes,
  replace_nodes, chain, chain_min, chain_max, relocate, map_tree,
}
use cros_kernel.Kernel.Processes.Turns.{
  HasSpaces, changed-Runs, Runs, Waits, syscall_yield-Runs, syscall_sigwait-Waits,
}
use cros_kernel.Kernel.Processes.Signals.{raise_signal-Runs, raise_signal-twice}
use cros_kernel.Kernel.Processes.Table.{process_of, syscall_clone-Runs}

abbrev raw : ℕ → SignalAction
raw i = record { type = none_action; handler = 0; trampoline = 0; userdata = 0 }

abbrev references : Counts
references a = pos 1

abbrev proc : ℕ → ℕ → Process
proc pid address_space = (new_object raw (pos pid) (pos 1) 64 4096 8192 address_space)

abbrev waiting_proc : Process
waiting_proc = set_state sigwait (proc 3 70)

abbrev heap : Heap
heap p = if p == 10 then some (Links.node 200 0 0) else none

abbrev kernel : KernelState
kernel = record {
  scheduler = record { heap = heap; queue_size = 1; front = 10; back = 10; cur_process = 100 };
  process_table = record {
    root = node (node leaf (pos 1) 100 1 leaf) (pos 2) 200 2 (node leaf (pos 3) 300 1 leaf);
    size = 3;
  };
  processes = λ a.
      if a == 100
      then some (proc 1 50)
      else if a == 200
      then some (proc 2 60)
      else if a == 300
      then some waiting_proc
      else none;
  counts = references;
  curr_pid = pos 4;
  loaded = 50;
}

abbrev turns : Sched
turns = record { running = 100; ready = 200 ∷ [] }

kernel-Runs : Runs kernel turns
kernel-Runs = record {
  shows = record {
    cells = (10, 200) ∷ [];
    is_queue = record {
      stale = 0;
      links = ((λ e. cc), refl, tt);
      distinct = (refl, tt);
      front_is = refl;
      back_is = refl;
      size_is = refl;
    };
    ready_is = refl;
    running_is = refl;
  };
  running_live = ((λ e. cc), proc 1 50, refl);
  ready_live = (((λ e. cc), proc 2 60, refl), tt);
  loaded_is = λ p e. let same : proc 1 50 ≡ p = cc in ap (λ x. x.address_space) same;
}

kernel-HasSpaces : HasSpaces kernel
kernel-HasSpaces a p e = elim (Bool-cases (a == 100)) [
  | inl y ↦
      let z : some (proc 1 50) ≡ some p = rw y at e in has_space _ p 50 (λ n. omega arith) refl z
  | inr y ↦ elim (Bool-cases (a == 200)) [
    | inl x ↦
        let z : some (proc 2 60) ≡ some p = rw (y, x) at e in
        has_space _ p 60 (λ n. omega arith) refl z
    | inr x ↦ elim (Bool-cases (a == 300)) [
      | inl w ↦
          let z : some waiting_proc ≡ some p = rw (y, x, w) at e in
          has_space _ p 70 (λ n. omega arith) refl z
      | inr w ↦ let z : none ≡ some p = rw (y, x, w) at e in cc
    ]
  ]
]
  where
    has_space :
        (q p : Process) (b : ℕ)
        → b ≢ 0
        → q.address_space ≡ b
        → some q ≡ some p
        → p.address_space ≢ 0
    has_space q p b n s e = λ z. n (sym s ∙ ap (λ x. x.address_space) (some-eq e) ∙ z)

kernel-IsFresh : IsFresh kernel.scheduler 20
kernel-IsFresh = record { not_null = λ e. cc; unused = refl }

syscall_yield-Runs_example :
    (k' : KernelState) × (p : Process) × (syscall_yield 20 kernel ≡ ok k')
    × Runs k' (record { running = 200; ready = 100 ∷ [] })
    × (kernel.processes 100 ≡ some p)
    × (k'.processes ≡ update kernel.processes 100 (some (set_caller_return enone p)))
syscall_yield-Runs_example =
    syscall_yield-Runs 20 kernel turns kernel-Runs kernel-HasSpaces kernel-IsFresh

syscall_sigwait-Waits_example : Waits 20 kernel 100 (200 ∷ [])
syscall_sigwait-Waits_example =
    syscall_sigwait-Waits 20 kernel turns kernel-Runs kernel-HasSpaces kernel-IsFresh

waiting_proc-IsTame : IsTame waiting_proc
unfolding IsTame
waiting_proc-IsTame i e = cc

raise_signal-Runs_example :
    (k' : KernelState) × (raise_signal 5 20 (pos 3) (pos 7) kernel ≡ ok (pos 0, k', []))
    × Runs k' (record { running = 100; ready = 200 ∷ 300 ∷ [] })
    × (k'.process_table ≡ kernel.process_table)
    × (k'.processes 300 ≡ some (signal_trigger (pos 7) waiting_proc).1)
    × ((b : ℕ) → b ≢ 300 → k'.processes b ≡ kernel.processes b)
unfolding contains search_rec get
raise_signal-Runs_example =
    raise_signal-Runs 5 20 (pos 3) (pos 7) 300 waiting_proc kernel turns kernel-Runs kernel-IsFresh
      refl refl (λ e. cc) refl waiting_proc-IsTame

abbrev outcome : Run (ℤ × KernelState × List ℕ) → KernelState
outcome (ok r) = r.1
outcome fault = kernel
outcome out_of_fuel = kernel

abbrev woken_kernel : KernelState
woken_kernel = outcome (raise_signal 5 20 (pos 3) (pos 7) kernel)

-- A process that ignores the signal is put into the line twice.
raise_signal-twice_example :
    (k'' : KernelState) × (raise_signal 5 21 (pos 3) (pos 7) woken_kernel ≡ ok (pos 0, k'', []))
    × Runs k'' (record { running = 100; ready = 200 ∷ 300 ∷ 300 ∷ [] })
unfolding raise_signal contains search_rec get signal_trigger act enqueue deliver write
raise_signal-twice_example =
    raise_signal-twice 5 20 21 (pos 3) (pos 7) 300 waiting_proc kernel woken_kernel turns
      kernel-Runs kernel-IsFresh refl refl (λ e. cc) refl waiting_proc-IsTame refl refl refl
      (record { not_null = λ e. cc; unused = refl })

-- The process 1 with two descriptors of one file, in a state that has made `w` objects of files.
abbrev duplicated : Process
duplicated = record (proc 1 50) {
  files = record { root = node leaf (pos 0) 900 2 (node leaf (pos 1) 900 1 leaf); size = 2 };
}

abbrev with_files : KernelState
with_files = record kernel { processes = update kernel.processes 100 (some duplicated) }

abbrev copy_file : ℕ → ℕ → ℕ × ℕ
copy_file f w = (1000 + w, w + 1)

with_files-Runs : Runs with_files turns
with_files-Runs = changed-Runs kernel turns 100 (proc 1 50) duplicated refl refl kernel-Runs

duplicated-IsTable : IsTable duplicated
duplicated-IsTable = ((refl, tt), (tt, tt))

-- Each of the two descriptors gets an object of its own.
syscall_clone-Runs_example :
    (k' : KernelState) × (c c' : Process) × (syscall_clone raw copy_file 4096 400 20 64 9000 5
        (with_files, 7)
      ≡ ok (k', 9))
    × IsClone ((pos 0, 1007) ∷ (pos 1, 1008) ∷ []) 4096 (pos 4) 64 9000 5 duplicated c
    × Runs k' (record { running = 100; ready = 200 ∷ 400 ∷ [] })
    × ((j : ℤ) → process_of k' j ≡ (if differs (pos 4) j then process_of kernel j else some 400))
    × (k'.processes 400 ≡ some c')
    × ((j : ℤ) → file_of c' j ≡ file_of c j)
    × (record c { files = c'.files } ≡ c')
    × (k'.processes 100 ≡ some (set_caller_return enone duplicated))
    × (k'.curr_pid ≡ pos 5)
unfolding copies
syscall_clone-Runs_example =
    syscall_clone-Runs raw copy_file 4096 400 20 64 9000 5 with_files 7 turns duplicated
      with_files-Runs (record { not_null = λ e. cc; unused = refl })
      ((refl, (refl, tt)), ((refl, tt), (tt, tt))) refl (λ e. cc) (λ e. cc) refl refl (λ e. cc)
      duplicated-IsTable ((λ e. cc), ((λ e. cc), tt)) ((λ e. cc), ((λ e. cc), tt))

-- Removing the process 2 moves the process 3 to its node, and the node of 3 is gone. The address space of
-- 2 is given up, that of 3 keeps its reference.
abbrev left : Run (KernelState × List ℕ) → KernelState × List ℕ
left (ok r) = r
left fault = (kernel, [])
left out_of_fuel = (kernel, [])

abbrev shrunk : KernelState × List ℕ
shrunk = left (remove_process (pos 2) kernel)

shrunk-objects :
    (shrunk.0.processes 200 ≡ some waiting_proc)
    × (shrunk.0.processes 300 ≡ none)
    × (get shrunk.0.process_table.root (pos 3) ≡ ok 200)
    × (shrunk.1 ≡ 60 ∷ [])
    × (shrunk.0.counts 60 ≡ pos 0)
    × (shrunk.0.counts 70 ≡ pos 1)
unfolding remove_nodes replace_nodes assign store_files chain chain_min chain_max relocate map_tree
    remove remove_rec pull_min pull_max rebalance_times rebalance rebalance_node rotate_left
    rotate_right get search_rec
shrunk-objects = (refl, refl, refl, refl, refl, refl)
