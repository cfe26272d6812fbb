-- ===== src/Process/Arguments/Tests.antt =====
-- A run of `storeProgramArgs` of src/sched/process.cpp: the argument "hi" and no environment.
use cros_kernel.Base.{
  ℕ, zero, suc, ◌+◌, ◌*◌, ◌%◌, ◌≡◌, ◌<◌, refl, ◌==◌, if◌then◌else◌, List, [], ◌∷◌, ◌++◌, length, ok,
  arith,
}
use cros_kernel.Fat32.Bytes.{bytes_to_long, read_number}
use cros_kernel.Strings.{Memory, IsString}
use cros_kernel.Context.{Context, new_context}
use cros_kernel.Process.Arguments.{store_program_args}
use cros_kernel.Process.Arguments.Arrays.{IsArray, SameAbove}
use cros_kernel.Process.Arguments.Stored.{IsArgs, IsStored, store_program_args-IsStored}

-- The string is at 5000, the array of its address at 6000, an empty array at 6100.
abbrev caller : Memory
caller j =
    if j == 5000
    then 104
    else if j == 5001
    then 105
    else if j == 6000
    then 136
    else if j == 6001
    then 19
    else 0

abbrev words : ℕ → List ℕ
words i = 104 ∷ 105 ∷ []

abbrev no_words : ℕ → List ℕ
no_words i = []

address : (i : ℕ) → i < 1 → bytes_to_long caller (6000 + 8 * i) ≡ 5000
unfolding bytes_to_long read_number
address zero lt = refl
address (suc i) lt = absurd (omega arith)

words-IsString : IsString caller 5000 (104 ∷ 105 ∷ [])
words-IsString = (refl, (λ e. cc), (refl, (λ e. cc), refl))

words-IsArgs : IsArgs 5 4096 6000 1 words caller
unfolding bytes_to_long read_number
words-IsArgs = record {
  pointers = λ i lt. omega (arith, address i lt);
  strings = λ i lt. rw (address i lt) words-IsString;
  above = λ i lt. omega (arith, address i lt);
  short = λ i lt. omega arith;
  ends = refl;
  array_above = omega arith;
  few = omega arith;
}

no_words-IsArgs : IsArgs 5 4096 6100 0 no_words caller
unfolding bytes_to_long read_number
no_words-IsArgs = record {
  pointers = λ i lt. absurd (omega arith);
  strings = λ i lt. absurd (omega arith);
  above = λ i lt. absurd (omega arith);
  short = λ i lt. absurd (omega arith);
  ends = refl;
  array_above = omega arith;
  few = omega arith;
}

store_program_args-IsStored_example :
    (ctx' : Context) × (mem' : Memory) × (args : List ℕ) × (envs : List ℕ) × (store_program_args 5
        6000 6100
        (new_context 64 4096 8192, caller)
      ≡ ok (ctx', mem'))
    × (ctx'.stack_pointer % 16 ≡ 0)
    × (ctx'.gp_regs 0 ≡ 1)
    × (length args ≡ 1)
    × IsArray mem' (ctx'.gp_regs 1) args
    × IsStored (ctx'.gp_regs 1) mem' args words 0
    × (ctx'.gp_regs 2 ≡ ctx'.stack_pointer)
    × (length envs ≡ 0)
    × IsArray mem' (ctx'.gp_regs 2) (envs ++ 0 ∷ [])
    × IsStored (ctx'.gp_regs 2) mem' envs no_words 0
    × SameAbove 4096 caller mem'
store_program_args-IsStored_example =
    store_program_args-IsStored (new_context 64 4096 8192) caller words-IsArgs no_words-IsArgs
      (omega arith) (omega arith) refl (omega arith)
