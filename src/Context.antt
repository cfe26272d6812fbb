-- ===== src/Context.antt =====
-- src/sched/context.h and src/sched/aarch64/context.cpp: the registers of a process, and its stack in
-- memory. Registers and addresses are 64 bits wide; the machine stores the lowest byte first.
pub mod Stack
mod Tests
use cros_kernel.Base.{ℕ, zero, suc, ◌+◌, ◌-◌, ◌%◌, ◌^◌, if◌then◌else◌, update, Run, ok, ◌>>=◌}
use cros_kernel.Fat32.Bytes.{long_to_bytes}
use cros_kernel.Strings.{Memory, strlen, strcpy}

-- `class Context`
pub record Context : Type 0 where
  pub fp_regs : ℕ → ℕ
  pub gp_regs : ℕ → ℕ
  pub stack_pointer : ℕ
  pub program_counter : ℕ
  pub program_status : ℕ
  pub fpcr : ℕ
  pub fpsr : ℕ
  pub kernel_stack : ℕ

-- `a - b` on addresses
abbrev pub sub_addr : ℕ → ℕ → ℕ
sub_addr a b = (a + 2 ^ 64 - b) % 2 ^ 64

-- `Context(pc, sp, ksp)`. The 31 general registers begin with their own numbers.
abbrev pub new_context : ℕ → ℕ → ℕ → Context
new_context pc sp ksp = record {
  fp_regs = λ i. 0;
  gp_regs = λ i. i;
  stack_pointer = sp;
  program_counter = pc;
  program_status = 0;
  fpcr = 0;
  fpsr = 0;
  kernel_stack = ksp;
}

-- `Context(pc, sp)` and `Context(pc)`
abbrev pub context_on : ℕ → ℕ → Context
context_on pc sp = new_context pc sp 0

abbrev pub context_at : ℕ → Context
context_at pc = new_context pc 0 0

-- `Context()` leaves the kernel stack as the memory held it.
abbrev pub blank_context : ℕ → Context
blank_context raw = new_context 0 0 raw

-- `functionCall(func_ptr, returnLoc, arg)`
abbrev pub function_call : ℕ → ℕ → ℕ → Context → Context
function_call func_ptr return_loc arg ctx = record ctx {
  program_counter = func_ptr;
  gp_regs = update (update ctx.gp_regs 30 return_loc) 0 arg;
}

abbrev pub set_program_counter : ℕ → Context → Context
set_program_counter pc ctx = record ctx { program_counter = pc }

abbrev pub set_stack_pointer : ℕ → Context → Context
set_stack_pointer sp ctx = record ctx { stack_pointer = sp }

abbrev pub set_kernel_stack : ℕ → Context → Context
set_kernel_stack sp ctx = record ctx { kernel_stack = sp }

-- `setProcessArgs(argc, argv, envp)`
abbrev pub set_process_args : ℕ → ℕ → ℕ → Context → Context
set_process_args argc argv envp ctx = record ctx {
  gp_regs = update (update (update ctx.gp_regs 0 argc) 1 argv) 2 envp;
}

abbrev pub set_return_value : ℕ → Context → Context
set_return_value v ctx = record ctx { gp_regs = update ctx.gp_regs 0 v }

-- `pushLong(v)`
pub push_long : ℕ → Context × Memory → Context × Memory
push_long v (ctx, mem) =
    let sp = sub_addr ctx.stack_pointer 8 in (set_stack_pointer sp ctx, long_to_bytes v mem sp)

-- the room for a string of `n` bytes and its end: a multiple of 16
abbrev pub room : ℕ → ℕ
room n = let len = n + 1 + 15 in len - len % 16

-- `pushString(str)`, on fuel for the loops over the string
pub push_string : ℕ → ℕ → Context × Memory → Run (Context × Memory)
push_string fuel str (ctx, mem) = do
  n ← strlen fuel mem str
  let sp = sub_addr ctx.stack_pointer (room n)
  mem' ← strcpy fuel mem sp str
  ok (set_stack_pointer sp ctx, mem')
