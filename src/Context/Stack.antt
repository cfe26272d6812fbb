-- ===== src/Context/Stack.antt =====
-- What `pushLong` and `pushString` of src/sched/aarch64/context.cpp leave on the stack.
use cros_kernel.Base.{
  ℕ, ◌+◌, ◌%◌, ◌^◌, ◌≤◌, ◌<◌, ◌≡◌, refl, ◌∙◌, ◌≢◌, ◌⊎◌, ne→==, ap, if◌then◌else◌, List, length, ok,
  arith,
}
use cros_kernel.Fat32.Bytes.{bytes_to_long, long_round_trip}
use cros_kernel.Strings.{Memory, strlen, IsString, strlen-length, strcpy-IsString}
use cros_kernel.Context.{Context, sub_addr, set_stack_pointer, push_long, room, push_string}

-- `pushLong` puts the value at the new top of the stack, eight bytes lower, and changes no byte
-- outside these.
pub push_long_lem :
    (v : ℕ) (ctx : Context) (mem : Memory)
    → v < 2 ^ 64
    → 8 ≤ ctx.stack_pointer
    → ctx.stack_pointer < 2 ^ 64
    → let (ctx', mem') = push_long v (ctx, mem) in
      (ctx'.stack_pointer + 8 ≡ ctx.stack_pointer)
      × (bytes_to_long mem' ctx'.stack_pointer ≡ v)
      × ((j : ℕ) → (j < ctx'.stack_pointer) ⊎ (ctx.stack_pointer ≤ j) → mem' j ≡ mem j)
      × (ctx' ≡ set_stack_pointer ctx'.stack_pointer ctx)
unfolding push_long
push_long_lem v ctx mem small low high =
    let sp : ℕ = sub_addr ctx.stack_pointer 8 in
    let e : sp + 8 ≡ ctx.stack_pointer = omega arith in
    let (back, out) = long_round_trip v mem sp small in (e, back, λ j o. out j (ground arith), refl)

-- `pushString` puts a copy of the string at the new top of the stack, which is lower by a multiple of
-- 16 that leaves room for it, and changes no byte outside that room.
pub push_string-IsString :
    (fuel str : ℕ) (xs : List ℕ) (ctx : Context) (mem : Memory)
    → str ≢ 0
    → IsString mem str xs
    → length xs < fuel
    → room (length xs) < ctx.stack_pointer
    → ctx.stack_pointer < 2 ^ 64
    → (ctx.stack_pointer ≤ str) ⊎ (str + length xs + room (length xs) < ctx.stack_pointer)
    → (ctx' : Context) × (mem' : Memory) × (push_string fuel str (ctx, mem) ≡ ok (ctx', mem'))
      × (ctx'.stack_pointer + room (length xs) ≡ ctx.stack_pointer)
      × (room (length xs) % 16 ≡ 0)
      × IsString mem' ctx'.stack_pointer xs
      × ((j : ℕ) → (j < ctx'.stack_pointer) ⊎ (ctx.stack_pointer ≤ j) → mem' j ≡ mem j)
      × (ctx' ≡ set_stack_pointer ctx'.stack_pointer ctx)
unfolding push_string
push_string-IsString fuel str xs ctx mem ns h lt low high apart =
    let sp : ℕ = sub_addr ctx.stack_pointer (room (length xs)) in
    let e : sp + room (length xs) ≡ ctx.stack_pointer = omega arith in
    let n : strlen fuel mem str ≡ ok (length xs) =
      strlen-length fuel mem str xs h lt
      ∙ ap (λ b. ok (if b then 0 else length xs)) (ne→== str 0 ns) in
    let (mem', run, at, out) =
      strcpy-IsString fuel mem sp str xs (λ z. absurd (omega arith)) ns h (ground arith) lt in
    (
      set_stack_pointer sp ctx,
      mem',
      rw (n, run),
      e,
      omega arith,
      at,
      λ j o. out j (ground arith),
      refl,
    )
