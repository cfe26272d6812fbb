-- ===== src/Context/Tests.antt =====
-- Runs of src/sched/aarch64/context.cpp: a stack below 4096 and a string above it.
use cros_kernel.Base.{◌≡◌, refl, ◌==◌, if◌then◌else◌}
use cros_kernel.Strings.{Memory}
use cros_kernel.Context.{Context, new_context, function_call, set_process_args}

abbrev high : Memory
high j = if j == 5000 then 104 else (if j == 5001 then 105 else 0)

abbrev ctx : Context
ctx = new_context 64 4096 8192

-- a call of a handler: its argument is in the first register, its return address in the last
ctx-call :
    let called = function_call 7 8 9 ctx in
    (called.program_counter ≡ 7)
    × (called.gp_regs 0 ≡ 9)
    × (called.gp_regs 30 ≡ 8)
    × (called.gp_regs 5 ≡ 5)
ctx-call = (refl, refl, refl, refl)

ctx-args :
    let started = set_process_args 2 40 50 ctx in
    (started.gp_regs 0 ≡ 2) × (started.gp_regs 1 ≡ 40) × (started.gp_regs 2 ≡ 50)
ctx-args = (refl, refl, refl)
