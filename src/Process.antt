-- ===== src/Process.antt =====
-- src/sched/process.h, src/sched/process.cpp and src/sched/signalaction.h: a process with its state,
-- its registers, its signal handlers and its files.
pub mod Signals
pub mod Files
pub mod Close
pub mod Arguments
pub mod Copy
pub mod Tame
mod Tests
use cros_kernel.Base.{
  ℕ, ◌+◌, Bool, true, false, ◌||◌, not, ltb, ◌==◌, if◌then◌else◌, Option, none, some, ℤ, pos,
  negsuc, pos_part, ltb_ℤ, inc, dec, update, Run, ok, fault, ◌>>=◌, need,
}
use cros_kernel.Status.{enone, eexists, enofile}
use cros_kernel.Context.{
  Context, new_context, function_call, set_program_counter, set_stack_pointer, set_kernel_stack,
}
use cros_kernel.SearchTree.{SearchTree, new_tree, insert, contains, get}
use cros_kernel.SearchTree.Remove.{remove}

-- `enum class State` and `enum class ActionType`
pub data State : Type 0 where
  active signal sigwait : State

pub data ActionType : Type 0 where
  none_action handler_action kill_action : ActionType

-- `struct SignalAction`
pub record SignalAction : Type 0 where
  pub type : ActionType
  pub handler : ℕ
  pub trampoline : ℕ
  pub userdata : ℕ

-- The fields of `class Process`. The context that `backupCtx` points to belongs to the process; an
-- address space and a file are the addresses of their objects, 0 the null pointer.
pub record Process : Type 0 where
  pub pid : ℤ
  pub parent : ℤ
  pub ctx : Context
  pub backup_ctx : Option Context
  pub state : State
  pub address_space : ℕ
  pub signal_handlers : ℕ → SignalAction
  pub files : SearchTree ℕ

-- `MAX_SIGNAL`
abbrev pub max_signal : ℕ
max_signal = 64

-- The count of references that each object keeps: address spaces and files, by their addresses.
abbrev pub Counts : Type 0
Counts = ℕ → ℤ

-- `addReference` of src/util/hasrefcount.cpp
abbrev pub add_reference : ℕ → Counts → Counts
add_reference f counts = update counts f (inc (counts f))

-- `removeReference`
abbrev pub remove_reference : ℕ → Counts → Counts
remove_reference f counts = update counts f (dec (counts f))

-- The object that the constructor makes. Only the types of the handlers are set, the rest is what the
-- memory held.
abbrev pub new_object : (ℕ → SignalAction) → ℤ → ℤ → ℕ → ℕ → ℕ → ℕ → Process
new_object raw pid parent entry stack kernel_stack address_space = record {
  pid = pid;
  parent = parent;
  ctx = new_context entry stack kernel_stack;
  backup_ctx = none;
  state = active;
  address_space = address_space;
  signal_handlers = λ i. record (raw i) { type = none_action };
  files = new_tree;
}

-- The constructor, which adds a reference to the address space: a fault where that is null.
abbrev pub new_process :
    (ℕ → SignalAction) → ℤ → ℤ → ℕ → ℕ → ℕ → ℕ → Counts → Run (Process × Counts)
new_process raw pid parent entry stack kernel_stack address_space counts =
    if address_space == 0
    then fault
    else ok (
      new_object raw pid parent entry stack kernel_stack address_space,
      add_reference address_space counts,
    )

abbrev pub store_context : Context → Process → Process
store_context new_ctx p = record p { ctx = new_ctx }

abbrev pub set_state : State → Process → Process
set_state new_state p = record p { state = new_state }

-- `sig < 0 || sig >= MAX_SIGNAL`
abbrev pub out_of_range : ℤ → Bool
out_of_range (pos n) = not (ltb n max_signal)
out_of_range (negsuc n) = true

-- `setSignalAction(signal, handler, trampoline, userdata)`
pub set_signal_action : ℤ → ℕ → ℕ → ℕ → Process → Process
set_signal_action sig handler trampoline userdata p =
    if out_of_range sig
    then p
    else if handler == 0
    then record p {
      signal_handlers =
          update p.signal_handlers (pos_part sig)
            (record { type = none_action; handler = 0; trampoline = 0; userdata = 0 });
    }
    else record p {
      signal_handlers = update p.signal_handlers (pos_part sig) (record {
        type = handler_action;
        handler = handler;
        trampoline = trampoline;
        userdata = userdata;
      });
    }

-- `signalTrigger(sig)` where the action of the signal is to call a handler
unfoldable pub run_handler : SignalAction → State → Process → ℤ × Process
run_handler a signal p = (negsuc 0, p)
run_handler a _ p = (
  pos 0,
  record p {
    backup_ctx = some p.ctx;
    ctx = function_call a.handler a.trampoline a.userdata p.ctx;
    state = signal;
  },
)

unfoldable pub act : ActionType → SignalAction → Process → ℤ × Process
act none_action a p = (pos 0, p)
act handler_action a p = run_handler a p.state p
act kill_action a p = (pos 1, p)

-- `signalTrigger(sig)`: 1 where the process is to be killed, -1 where it cannot take the signal
unfoldable pub signal_trigger : ℤ → Process → ℤ × Process
signal_trigger sig p =
    if out_of_range sig
    then (pos 0, p)
    else (let a = p.signal_handlers (pos_part sig) in act a.type a p)

-- `signalReturn()`, which follows the pointer to the stored context
pub return_from : State → Process → Run Process
return_from signal p =
    need p.backup_ctx >>= λ c. ok (record p { ctx = c; backup_ctx = none; state = active })
return_from _ p = ok p

pub signal_return : Process → Run Process
signal_return p = return_from p.state p

-- `getFileContext(fd)`: null where there is none
pub get_file_context : ℤ → Process → Run ℕ
get_file_context fd p =
    let there = get p.files.root fd in if contains p.files.root fd then there else ok 0

-- `storeFileContext(f)`: the descriptor is the number of files.
pub store_file_context : ℕ → Process × Counts → ℤ × Process × Counts
store_file_context f (p, counts) =
    let fd = pos p.files.size in
    (fd, record p { files = insert p.files fd f }, add_reference f counts)

-- `storeFileContext(f, fd)`
pub store_file_context_at : ℕ → ℤ → Process × Counts → ℤ × Process × Counts
store_file_context_at f fd (p, counts) =
    if contains p.files.root fd
    then (eexists, p, counts)
    else (enone, record p { files = insert p.files fd f }, add_reference f counts)

-- `closeFileContext(fd)`: the status, and the file object that is deleted, if any
pub close_file_context : ℤ → Process × Counts → Run (ℤ × Process × Counts × Option ℕ)
close_file_context fd (p, counts) =
    if contains p.files.root fd
    then (do
      f ← get p.files.root fd
      let counts' = remove_reference f counts
      ok (
        enone,
        record p { files = remove p.files fd },
        counts',
        if ltb_ℤ (pos 0) (counts' f) then none else some f,
      ))
    else ok (enofile, p, counts, none)
