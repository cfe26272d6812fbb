-- ===== src/Process/Arguments/Stored.antt =====
-- What `storeProgramArgs` of src/sched/process.cpp leaves for a program: its arguments, copied.
use mathlib.Core.Path.{subst}
use cros_kernel.Base.{
  ℕ, zero, suc, ◌+◌, ◌*◌, ◌%◌, ◌^◌, ◌≤◌, ◌<◌, ◌≡◌, refl, sym, ap, ◌∙◌, ◌≢◌, inl, inr, ne→==, List,
  [], ◌∷◌, ◌++◌, length, length-append, All, All-append, ok, arith,
}
use cros_kernel.Fat32.Bytes.{bytes_to_long, bytes_to_long-same}
use cros_kernel.Strings.{Memory, IsString, IsString-same}
use cros_kernel.Context.{Context, set_stack_pointer, room, set_process_args}
use cros_kernel.Context.Stack.{push_string-IsString}
use cros_kernel.Process.Arguments.{
  count_pointers, push_strings, push_array, pad, store_program_args,
}
use cros_kernel.Process.Arguments.Arrays.{
  IsArray, IsArray-same, SameAbove, push_array-IsArray, pad_lem, count_pointers_lem,
}

-- The caller's array at `array` has `n` pointers to the strings `xs 0`, `xs 1` and so on, and a null
-- pointer behind them, all of it at `bottom` or above. Fuel is more than any length.
pub record IsArgs (fuel bottom array n : ℕ) (xs : ℕ → List ℕ) (mem : Memory) : Type 0 where
  pub pointers : (i : ℕ) → i < n → bytes_to_long mem (array + 8 * i) ≢ 0
  pub strings : (i : ℕ) → i < n → IsString mem (bytes_to_long mem (array + 8 * i)) (xs i)
  pub above : (i : ℕ) → i < n → bottom ≤ bytes_to_long mem (array + 8 * i)
  pub short : (i : ℕ) → i < n → length (xs i) < fuel
  pub ends : bytes_to_long mem (array + 8 * n) ≡ 0
  pub array_above : bottom ≤ array
  pub few : n < fuel

IsArgs-same :
    {fuel bottom array n : ℕ} {xs : ℕ → List ℕ} {mem : Memory} (mem' : Memory)
    → SameAbove bottom mem mem'
    → IsArgs fuel bottom array n xs mem
    → IsArgs fuel bottom array n xs mem'
IsArgs-same {fuel} {bottom} {array} {n} {xs} {mem} mem' same a =
    let e : (i : ℕ) → bytes_to_long mem' (array + 8 * i) ≡ bytes_to_long mem (array + 8 * i) = λ i.
      bytes_to_long-same mem mem' (array + 8 * i)
        (λ j x y. same j (omega (arith, a.array_above))) in
    record {
      pointers = λ i lt z. a.pointers i lt (sym (e i) ∙ z);
      strings = λ i lt.
          subst (λ p. IsString mem' p (xs i)) (sym (e i))
            (IsString-same mem mem' _ (xs i) (λ j x y. same j (omega (arith, a.above i lt)))
              (a.strings i lt));
      above = λ i lt. omega (arith, e i, a.above i lt);
      short = a.short;
      ends = e n ∙ a.ends;
      array_above = a.array_above;
      few = a.few;
    }

-- the bytes of the stack that the first `n` strings take
abbrev pub rooms : (ℕ → List ℕ) → ℕ → ℕ
rooms xs zero = 0
rooms xs (suc n) = rooms xs n + room (length (xs n))

-- The strings `xs i`, `xs (i + 1)` and so on stand at the addresses, which are `top` or above.
abbrev pub IsStored : ℕ → Memory → List ℕ → (ℕ → List ℕ) → ℕ → Type 0
IsStored top mem [] xs i = Unit {0}
IsStored top mem (p ∷ ps) xs i =
    (top ≤ p) × (p < 2 ^ 64) × IsString mem p (xs i) × IsStored top mem ps xs (i + 1)

IsStored-same :
    (top top' : ℕ) (mem mem' : Memory) (ps : List ℕ) (xs : ℕ → List ℕ) (i : ℕ)
    → top' ≤ top
    → SameAbove top mem mem'
    → IsStored top mem ps xs i
    → IsStored top' mem' ps xs i
IsStored-same top top' mem mem' [] xs i le same h = tt
IsStored-same top top' mem mem' (p ∷ ps) xs i le same h = (
  omega (arith, h.0),
  h.1,
  IsString-same mem mem' p (xs i) (λ j x y. same j (omega (arith, h.0))) h.2,
  IsStored-same top top' mem mem' ps xs (i + 1) le same h.3,
)

IsStored-small :
    (top : ℕ) (mem : Memory) (ps : List ℕ) (xs : ℕ → List ℕ) (i : ℕ)
    → IsStored top mem ps xs i
    → All (λ v. v < 2 ^ 64) ps
IsStored-small top mem [] xs i h = tt
IsStored-small top mem (p ∷ ps) xs i h = (h.1, IsStored-small top mem ps xs (i + 1) h.3)

-- The loop over the strings.
push_strings-IsStored :
    (fuel bottom array i : ℕ) (xs : ℕ → List ℕ) (done : List ℕ) (ctx : Context) (mem : Memory)
    {n : ℕ}
    → IsArgs fuel bottom array n xs mem
    → i ≤ n
    → ctx.stack_pointer ≤ bottom
    → ctx.stack_pointer < 2 ^ 64
    → rooms xs i < ctx.stack_pointer
    → IsStored ctx.stack_pointer mem done xs i
    → (ps : List ℕ) × (ctx' : Context) × (mem' : Memory) × (push_strings fuel array i done
          (ctx, mem)
        ≡ ok (ps, ctx', mem'))
      × (length ps ≡ i + length done)
      × (ctx'.stack_pointer + rooms xs i ≡ ctx.stack_pointer)
      × (rooms xs i % 16 ≡ 0)
      × IsStored ctx'.stack_pointer mem' ps xs 0
      × SameAbove ctx.stack_pointer mem mem'
      × (ctx' ≡ set_stack_pointer ctx'.stack_pointer ctx)
unfolding push_strings
push_strings-IsStored fuel bottom array zero xs done ctx mem a le low high fits st =
    (done, ctx, mem, refl, omega arith, omega arith, refl, st, λ j x. refl, refl)
push_strings-IsStored fuel bottom array (suc i) xs done ctx mem {n} a le low high fits st =
    let lt : i < n = omega arith in
    let (ctx1, mem1, run, e, r16, at, out, only) =
      push_string-IsString fuel (bytes_to_long mem (array + 8 * i)) (xs i) ctx mem (a.pointers i lt)
        (a.strings i lt) (a.short i lt) (omega arith) high (inl (omega (arith, a.above i lt))) in
    let same : SameAbove ctx.stack_pointer mem mem1 = λ j x. out j (inr x) in
    let (ps, ctx2, mem2, run2, len, e2, s16, st2, same2, only2) =
      push_strings-IsStored fuel bottom array i xs (ctx1.stack_pointer ∷ done) ctx1 mem1
        (IsArgs-same mem1 (λ j x. same j (omega arith)) a) (omega arith) (omega arith) (omega arith)
        (omega arith)
        (
          omega arith,
          omega arith,
          at,
          subst (IsStored ctx1.stack_pointer mem1 done xs) (omega arith) (
              IsStored-same ctx.stack_pointer ctx1.stack_pointer mem mem1 done xs (suc i)
                (omega arith) same st),
        ) in
    (
      ps,
      ctx2,
      mem2,
      rw run run2,
      omega arith,
      omega arith,
      omega arith,
      st2,
      λ j x. same2 j (omega arith) ∙ same j x,
      only2 ∙ ap (set_stack_pointer ctx2.stack_pointer) only,
    )

counted :
    {fuel bottom array n : ℕ} {xs : ℕ → List ℕ} {mem : Memory}
    → IsArgs fuel bottom array n xs mem
    → count_pointers fuel mem array 0 ≡ ok n
counted {fuel} {array = array} {n = n} {mem = mem} a =
    count_pointers_lem fuel mem array 0 n (omega arith) (λ i lt. ne→== _ 0 (a.pointers i lt)) a.ends
      (omega (arith, a.few))

-- `storeProgramArgs`, on arguments and an environment that stand above the stack and with room for
-- them below, returns. Then the stack pointer is a multiple of 16 as before; the first register is the
-- number of arguments; the second leads to an array of the addresses of copies of the arguments, in
-- order; the third, the stack pointer, leads to such an array for the environment with a null pointer
-- at its end; and nothing changed above the old top of the stack.
pub store_program_args-IsStored :
    {fuel bottom argv argc envp envc : ℕ} {xs ys : ℕ → List ℕ} (ctx : Context) (mem : Memory)
    → IsArgs fuel bottom argv argc xs mem
    → IsArgs fuel bottom envp envc ys mem
    → ctx.stack_pointer ≤ bottom
    → ctx.stack_pointer < 2 ^ 64
    → ctx.stack_pointer % 16 ≡ 0
    → rooms xs argc + rooms ys envc + 8 * (argc + envc + 3) < ctx.stack_pointer
    → (ctx' : Context) × (mem' : Memory) × (args : List ℕ) × (envs : List ℕ) × (store_program_args
          fuel argv envp
          (ctx, mem)
        ≡ ok (ctx', mem'))
      × (ctx'.stack_pointer % 16 ≡ 0)
      × (ctx'.gp_regs 0 ≡ argc)
      × (length args ≡ argc)
      × IsArray mem' (ctx'.gp_regs 1) args
      × IsStored (ctx'.gp_regs 1) mem' args xs 0
      × (ctx'.gp_regs 2 ≡ ctx'.stack_pointer)
      × (length envs ≡ envc)
      × IsArray mem' (ctx'.gp_regs 2) (envs ++ 0 ∷ [])
      × IsStored (ctx'.gp_regs 2) mem' envs ys 0
      × SameAbove ctx.stack_pointer mem mem'
unfolding store_program_args
store_program_args-IsStored {fuel} {bottom} {argv} {argc} {envp} {envc} {xs} {ys} ctx mem a b low
      high r16 fits =
    let (args, ctx1, mem1, run1, len1, e1, m1, st1, same1, only1) =
      push_strings-IsStored fuel bottom argv argc xs [] ctx mem a (omega arith) low high
        (omega arith) tt in
    let (envs, ctx2, mem2, run2, len2, e2, m2, st2, same2, only2) =
      push_strings-IsStored fuel bottom envp envc ys [] ctx1 mem1
        (IsArgs-same mem1 (λ j x. same1 j (omega arith)) b) (omega arith) (omega arith)
        (omega arith) (omega arith) tt in
    let all1 = IsStored-small ctx1.stack_pointer mem1 args xs 0 st1 in
    let all2 =
      All-append (λ v. v < 2 ^ 64) envs (0 ∷ [])
        (IsStored-small ctx2.stack_pointer mem2 envs ys 0 st2) (omega arith, tt) in
    let p : Context × Memory = pad argc (ctx2, mem2) in
    let (ep, same_p, only_p) = pad_lem argc ctx2 mem2 (omega arith) (omega arith) in
    let s : Context × Memory = push_array args p in
    let (es, at_s, same_s, only_s) =
      push_array-IsArray args p.0 p.1 all1 (omega arith) (omega arith) in
    let q : Context × Memory = pad (envc + 1) s in
    let (eq, same_q, only_q) = pad_lem (envc + 1) s.0 s.1 (omega arith) (omega arith) in
    let t : Context × Memory = push_array (envs ++ 0 ∷ []) q in
    let len3 : length (envs ++ 0 ∷ []) ≡ envc + 1 = omega (arith, length-append envs (0 ∷ [])) in
    let (et, at_t, same_t, only_t) =
      push_array-IsArray (envs ++ 0 ∷ []) q.0 q.1 all2 (omega arith) (omega arith) in
    let s_to_t : SameAbove s.0.stack_pointer s.1 t.1 = λ j x. same_t j (omega arith) ∙ same_q j x in
    let two_to_t : SameAbove ctx2.stack_pointer mem2 t.1 =
      λ j x. s_to_t j (omega arith) ∙ same_s j (omega arith) ∙ same_p j x in
    let one_to_t : SameAbove ctx1.stack_pointer mem1 t.1 =
      λ j x. two_to_t j (omega arith) ∙ same2 j x in
    (
      set_process_args argc s.0.stack_pointer t.0.stack_pointer t.0,
      t.1,
      args,
      envs,
      rw (counted b, counted a, run1, run2),
      omega arith,
      refl,
      omega arith,
      IsArray-same s.1 t.1 s.0.stack_pointer args s_to_t at_s,
      IsStored-same ctx1.stack_pointer s.0.stack_pointer mem1 t.1 args xs 0 (omega arith) one_to_t
          st1,
      refl,
      omega arith,
      at_t,
      IsStored-same ctx2.stack_pointer t.0.stack_pointer mem2 t.1 envs ys 0 (omega arith) two_to_t
          st2,
      λ j x. one_to_t j (omega arith) ∙ same1 j x,
    )
