-- ===== src/Process/Arguments/Arrays.antt =====
-- Arrays of addresses in memory, and those that `storeProgramArgs` of src/sched/process.cpp pushes.
use native.Mathlib.Decide.{dec_lt}
use cros_kernel.Base.{
  ℕ, zero, suc, ◌+◌, ◌*◌, ◌%◌, ◌^◌, ◌≤◌, ◌<◌, ◌≡◌, refl, ap, ◌∙◌, inl, inr, true, false, ◌==◌,
  Bool-cases, List, [], ◌∷◌, length, All, ok, arith,
}
use cros_kernel.Fat32.Bytes.{bytes_to_long, bytes_to_long-same}
use cros_kernel.Strings.{Memory}
use cros_kernel.Context.{Context, set_stack_pointer, push_long}
use cros_kernel.Context.Stack.{push_long_lem}
use cros_kernel.Process.Arguments.{push_array, pad, count_pointers}

-- The array `vs` of addresses stands at `a`.
abbrev pub IsArray : Memory → ℕ → List ℕ → Type 0
IsArray mem a [] = Unit {0}
IsArray mem a (v ∷ vs) = (bytes_to_long mem a ≡ v) × IsArray mem (a + 8) vs

-- The two memories are the same from `a` on.
abbrev pub SameAbove : ℕ → Memory → Memory → Type 0
SameAbove a mem mem' = (j : ℕ) → a ≤ j → mem' j ≡ mem j

pub IsArray-same :
    (mem mem' : Memory) (a : ℕ) (vs : List ℕ)
    → SameAbove a mem mem'
    → IsArray mem a vs
    → IsArray mem' a vs
IsArray-same mem mem' a [] same h = tt
IsArray-same mem mem' a (v ∷ vs) same h = (
  bytes_to_long-same mem mem' a (λ j x y. same j x) ∙ h.0,
  IsArray-same mem mem' (a + 8) vs (λ j x. same j (omega arith)) h.1,
)

-- `storeProgramArgs` pushes an array of addresses as it is, each of them below 2 ^ 64, and changes
-- nothing above the old top of the stack.
pub push_array-IsArray :
    (vs : List ℕ) (ctx : Context) (mem : Memory)
    → All (λ v. v < 2 ^ 64) vs
    → 8 * length vs ≤ ctx.stack_pointer
    → ctx.stack_pointer < 2 ^ 64
    → let (ctx', mem') = push_array vs (ctx, mem) in
      (ctx'.stack_pointer + 8 * length vs ≡ ctx.stack_pointer)
      × IsArray mem' ctx'.stack_pointer vs
      × SameAbove ctx.stack_pointer mem mem'
      × (ctx' ≡ set_stack_pointer ctx'.stack_pointer ctx)
unfolding push_array
push_array-IsArray [] ctx mem small low high = (omega arith, tt, λ j x. refl, refl)
push_array-IsArray (v ∷ vs) ctx mem small low high =
    let s : Context × Memory = push_array vs (ctx, mem) in
    let (e, at, above, only) = push_array-IsArray vs ctx mem small.1 (omega arith) high in
    let (e', back, out, only') = push_long_lem v s.0 s.1 small.0 (omega arith) (omega arith) in
    let t : Context × Memory = push_long v s in
    let next : t.0.stack_pointer + 8 ≡ s.0.stack_pointer = e' in
    (
      omega arith,
      (back, rw next (IsArray-same s.1 t.1 s.0.stack_pointer vs (λ j x. out j (inr x)) at)),
      λ j x. out j (inr (omega arith)) ∙ above j x,
      only' ∙ ap (set_stack_pointer t.0.stack_pointer) only,
    )

-- What `pad` leaves: the top of the stack that makes room for `n` addresses a multiple of 16.
pub pad_lem :
    (n : ℕ) (ctx : Context) (mem : Memory)
    → 8 ≤ ctx.stack_pointer
    → ctx.stack_pointer < 2 ^ 64
    → let (ctx', mem') = pad n (ctx, mem) in
      (ctx'.stack_pointer + 8 * (n % 2) ≡ ctx.stack_pointer)
      × SameAbove ctx.stack_pointer mem mem'
      × (ctx' ≡ set_stack_pointer ctx'.stack_pointer ctx)
unfolding pad
pad_lem n ctx mem low high = elim (Bool-cases (n % 2 == 1)) [
  | inl odd ↦
      let (e, back, out, only) = push_long_lem 0 ctx mem (omega arith) low high in
      let one : n % 2 ≡ 1 = ground arith in rw (odd, one) (e, λ j x. out j (inr x), only)
  | inr even ↦
      let none_over : n % 2 ≡ 0 = ground arith in
      rw (even, none_over) (omega arith, λ j x. refl, refl)
]

-- The count of an array that ends at its first null pointer.
pub count_pointers_lem :
    (fuel : ℕ) (mem : Memory) (array c n : ℕ)
    → c ≤ n
    → ((i : ℕ) → i < n → (bytes_to_long mem (array + 8 * i) == 0) ≡ false)
    → bytes_to_long mem (array + 8 * n) ≡ 0
    → n < fuel + c
    → count_pointers fuel mem array c ≡ ok n
unfolding count_pointers
count_pointers_lem zero mem array c n le some_there last enough = absurd (omega arith)
count_pointers_lem (suc fuel) mem array c n le some_there last enough = elim (dec_lt c n) [
  | yes lt ↦
      rw (some_there c lt)
        (count_pointers_lem fuel mem array (c + 1) n (omega arith) some_there last (omega arith))
  | no ge ↦
      let e : n ≡ c = omega arith in
      let z : (bytes_to_long mem (array + 8 * c) == 0) ≡ true = ground arith in rw (z, e)
]
