-- ===== src/Pipe/Put.antt =====
-- `Pipe::put` appends to the sequence of bytes as far as there is room.
use mathlib.Core.List.{append-nil, append_assoc}
use cros_kernel.Base.{
  ℕ, zero, suc, ◌+◌, ◌-◌, ◌≡◌, refl, sym, ◌∙◌, true, false, inl, inr, List, [], ◌∷◌, ◌++◌, min,
  arith, Bool-cases, ℤ, pos, pos_part, is_zero, ◌&&◌, if◌then◌else◌, ◌==◌, ltb_ℤ,
}
use cros_kernel.Status.{epipe, efull}
use cros_kernel.Pipe.{Pipe, is_full, store, put_loop, put}
use cros_kernel.Pipe.Ring.{
  IsValid, len, contents, len_of_is_full, len_of_has_room, store-IsValid, len-store, contents-store,
  store-counts,
}

-- the bytes `s[c..c + k)` of the caller
abbrev pub bytes : (ℕ → ℕ) → ℕ → ℕ → List ℕ
bytes s c zero = []
bytes s c (suc k) = s c ∷ bytes s (c + 1) k

-- what the loop has done when it stops, started at `p` with `c` bytes in and `k` rounds left
record Wrote (p : Pipe) (s : ℕ → ℕ) (c k : ℕ) (out : ℕ × Pipe) : Type 0 where
  valid : IsValid out.1
  count : out.0 ≡ c + min k (4095 - len p)
  appended : contents out.1 ≡ contents p ++ bytes s c (min k (4095 - len p))
  readers : out.1.reader_count ≡ p.reader_count
  writers : out.1.writer_count ≡ p.writer_count

put_loop-Wrote :
    (k : ℕ) (s : ℕ → ℕ) (c : ℕ) {p : Pipe} → IsValid p → Wrote p s c k (put_loop k s c p)
unfolding put_loop
put_loop-Wrote zero s c {p} v = record {
  valid = v;
  count = omega arith;
  appended = let e : min 0 (4095 - len p) ≡ 0 = omega arith in rw e (sym (append-nil (contents p)));
  readers = refl;
  writers = refl;
}
put_loop-Wrote (suc k) s c {p} v = elim (Bool-cases (is_full p)) [
  | inl full ↦ rw full (
      let e : min (suc k) (4095 - len p) ≡ 0 = omega (arith, len_of_is_full v full) in
      record {
        valid = v;
        count = omega arith;
        appended = rw e (sym (append-nil (contents p)));
        readers = refl;
        writers = refl;
      })
  | inr room ↦ rw room (
      let ih = put_loop-Wrote k s (c + 1) (store-IsValid v (s c)) in
      let e : min (suc k) (4095 - len p) ≡ suc (min k (4095 - len (store p (s c)))) =
        omega (arith, len-store v (s c) room, len_of_has_room v room) in
      record {
        valid = ih.valid;
        count = omega (arith, ih.count);
        appended =
            rw (ih.appended, e, contents-store v (s c) room)
              (append_assoc (contents p) (s c ∷ []) _);
        readers = ih.readers ∙ (store-counts p (s c)).0;
        writers = ih.writers ∙ (store-counts p (s c)).1;
      })
]

-- A `put` to a valid pipe with a reader stores as many bytes of the caller as fit, in order,
-- behind those that are there; it returns their number, or EFULL where there were bytes to put and
-- no room; and the pipe stays valid with the same endpoints.
pub put-appends :
    {p : Pipe} (s : ℕ → ℕ) (n : ℤ)
    → IsValid p
    → is_zero p.reader_count ≡ false
    → let (r, p') = put p s n in
      let c = min (pos_part n) (4095 - len p) in
      IsValid p'
      × (contents p' ≡ contents p ++ bytes s 0 c)
      × (r ≡ (if ltb_ℤ (pos 0) n && c == 0 then efull else pos c))
      × (p'.reader_count ≡ p.reader_count)
      × (p'.writer_count ≡ p.writer_count)
unfolding put
put-appends {p} s n v h = rw h (
    let w = put_loop-Wrote (pos_part n) s 0 v in
    let e : (put_loop (pos_part n) s 0 p).0 ≡ min (pos_part n) (4095 - len p) =
      omega (arith, w.count) in
    (w.valid, w.appended, rw e, w.readers, w.writers))

-- Without a reader `put` fails with EPIPE and changes nothing.
pub put-epipe :
    (p : Pipe) (s : ℕ → ℕ) (n : ℤ) → is_zero p.reader_count ≡ true → put p s n ≡ (epipe, p)
unfolding put
put-epipe p s n h = rw h
