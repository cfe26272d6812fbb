-- ===== src/Process/Arguments.antt =====
-- `storeProgramArgs` of src/sched/process.cpp: the arguments and the environment of a program, copied
-- to its stack. The arrays that the function builds on its way are lists.
pub mod Arrays
pub mod Stored
mod Tests
use cros_kernel.Base.{
  ℕ, zero, suc, ◌+◌, ◌*◌, ◌%◌, ◌==◌, Bool, if◌then◌else◌, List, [], ◌∷◌, ◌++◌, Run, ok, out_of_fuel,
  ◌>>=◌,
}
use cros_kernel.Fat32.Bytes.{bytes_to_long}
use cros_kernel.Strings.{Memory}
use cros_kernel.Context.{Context, push_long, push_string, set_process_args}

-- The loops that count the pointers of an array up to the null pointer, on fuel.
pub count_pointers : ℕ → Memory → ℕ → ℕ → Run ℕ
count_pointers zero mem array c = out_of_fuel
count_pointers (suc k) mem array c =
    let rest = count_pointers k mem array (c + 1) in
    if bytes_to_long mem (array + 8 * c) == 0 then ok c else rest

-- The loops that push the strings of an array, the last one first, on the `i` that are left: the new
-- addresses are those of `done` and in front of them those of the strings pushed here.
pub push_strings : ℕ → ℕ → ℕ → List ℕ → Context × Memory → Run (List ℕ × Context × Memory)
push_strings fuel array zero done (ctx, mem) = ok (done, ctx, mem)
push_strings fuel array (suc i) done (ctx, mem) =
    push_string fuel (bytes_to_long mem (array + 8 * i)) (ctx, mem) >>= λ (ctx', mem').
    push_strings fuel array i (ctx'.stack_pointer ∷ done) (ctx', mem')

-- The loops that push the addresses, the last one first.
pub push_array : List ℕ → Context × Memory → Context × Memory
push_array [] s = s
push_array (v ∷ vs) s = push_long v (push_array vs s)

-- An array of an odd number of addresses stands above one that is not used.
pub pad : ℕ → Context × Memory → Context × Memory
pad n s = if n % 2 == 1 then push_long 0 s else s

-- `storeProgramArgs(argv, envp)`
pub store_program_args : ℕ → ℕ → ℕ → Context × Memory → Run (Context × Memory)
store_program_args fuel argv envp (ctx, mem) = do
  envc ← count_pointers fuel mem envp 0
  argc ← count_pointers fuel mem argv 0
  (args, ctx1, mem1) ← push_strings fuel argv argc [] (ctx, mem)
  (envs, ctx2, mem2) ← push_strings fuel envp envc [] (ctx1, mem1)
  let s = push_array args (pad argc (ctx2, mem2))
  let t = push_array (envs ++ 0 ∷ []) (pad (envc + 1) s)
  ok (set_process_args argc s.0.stack_pointer t.0.stack_pointer t.0, t.1)
