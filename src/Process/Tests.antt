-- ===== src/Process/Tests.antt =====
-- Runs of src/sched/process.cpp on a process with one handler and two files.
use cros_kernel.Base.{ℕ, ◌≡◌, refl, if◌then◌else◌, ◌==◌, none, pos, ok}
use cros_kernel.Context.{new_context, function_call}
use cros_kernel.SearchTree.{leaf, node, SearchTree}
use cros_kernel.Process.{
  active, none_action, handler_action, SignalAction, Process, new_object, set_signal_action,
  signal_trigger, signal_return, store_context, Counts, get_file_context,
}
use cros_kernel.Process.Signals.{
  sets_action, gets_signal, Reach, here, next, signal_return-ok, signal_return-signal_trigger,
}
use cros_kernel.Process.Files.{IsTable, get_file_context-file_of}

abbrev no_references : Counts
no_references f = pos 0

abbrev no_action : ℕ → SignalAction
no_action i = record { type = none_action; handler = 0; trampoline = 0; userdata = 0 }

abbrev child_action : ℕ → SignalAction
child_action i =
    if i == 17
    then record { type = handler_action; handler = 400; trampoline = 500; userdata = 600 }
    else no_action i

abbrev two_files : SearchTree ℕ
two_files = record { root = node leaf (pos 0) 9000 2 (node leaf (pos 1) 9100 1 leaf); size = 2 }

abbrev proc : Process
proc = record {
  pid = pos 4;
  parent = pos 1;
  ctx = new_context 64 4096 8192;
  backup_ctx = none;
  state = active;
  address_space = 1;
  signal_handlers = child_action;
  files = two_files;
}

proc-Reach :
    Reach
      (new_object no_action (pos 4) (pos 1) 64 4096 8192 1)
      (signal_trigger (pos 17) (
        set_signal_action
          (pos 17)
          400
          500
          600
          (new_object no_action (pos 4) (pos 1) 64 4096 8192 1))).1
proc-Reach = next (next here (sets_action (pos 17) 400 500 600 _)) (gets_signal (pos 17) _)

signal_return-ok_example :
    (q : Process) × (signal_return
        (signal_trigger (pos 17) (
          set_signal_action
            (pos 17)
            400
            500
            600
            (new_object no_action (pos 4) (pos 1) 64 4096 8192 1))).1
      ≡ ok q)
signal_return-ok_example = signal_return-ok no_action (pos 4) (pos 1) 64 4096 8192 1 proc-Reach

signal_return-signal_trigger_example :
    ((signal_trigger (pos 17) proc).0 ≡ pos 0)
    × ((signal_trigger (pos 17) proc).1.ctx ≡ function_call 400 500 600 proc.ctx)
    × (signal_return (store_context (new_context 1 2 3) (signal_trigger (pos 17) proc).1) ≡ ok proc)
signal_return-signal_trigger_example =
    signal_return-signal_trigger (pos 17) proc (new_context 1 2 3) refl refl refl refl

proc-IsTable : IsTable proc
proc-IsTable = ((refl, tt), (tt, tt))

get_file_context-file_of_example : get_file_context (pos 1) proc ≡ ok 9100
get_file_context-file_of_example = get_file_context-file_of (pos 1) proc proc-IsTable

-- A third file at descriptor 3: the number of files is then a descriptor in use.
abbrev three_files : SearchTree ℕ
three_files = record {
  root = node (node leaf (pos 0) 9000 1 leaf) (pos 1) 9100 2 (node leaf (pos 3) 9200 1 leaf);
  size = 3;
}

abbrev clashing : Process
clashing = record proc { files = three_files }
