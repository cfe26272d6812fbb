-- ===== src/Pipe/Read.antt =====
-- `Pipe::read` and `PipeReader::read` take bytes from the front of the sequence.
use mathlib.Core.Path.{ap₂}
use cros_kernel.Base.{
  ℕ, zero, suc, ◌+◌, ◌<◌, ◌≤◌, ◌≡◌, refl, sym, ap, ◌∙◌, ◌≢◌, ◌↔◌, true, inl, inr, [], ◌∷◌, ◌++◌,
  min, arith, Bool-cases, ℤ, pos, pos_part, is_zero, ◌==◌, update,
}
use cros_kernel.Status.{eeof}
use cros_kernel.Pipe.{Pipe, next_pos, read_loop, read, reader_read}
use cros_kernel.Pipe.Ring.{
  IsValid, window-nil, len, contents, contents-front, next-IsValid, len-next,
}
use cros_kernel.Pipe.Put.{bytes}

-- what the loop has done when it stops, started at `p` with `c` bytes out and `k` rounds left
record Took (p : Pipe) (s : ℕ → ℕ) (c k : ℕ) (out : ℕ × (ℕ → ℕ) × Pipe) : Type 0 where
  valid : IsValid out.2
  count : out.0 ≡ c + min k (len p)
  bytes_out : contents p ≡ bytes out.1 c (min k (len p)) ++ contents out.2
  below : (j : ℕ) → j < c → out.1 j ≡ s j
  above : (j : ℕ) → c + min k (len p) ≤ j → out.1 j ≡ s j
  readers : out.2.reader_count ≡ p.reader_count
  writers : out.2.writer_count ≡ p.writer_count

read_loop-Took :
    (k : ℕ) (s : ℕ → ℕ) (c : ℕ) {p : Pipe} → IsValid p → Took p s c k (read_loop k s c p)
unfolding read_loop
read_loop-Took zero s c {p} v = record {
  valid = v;
  count = omega arith;
  bytes_out = let e : min 0 (len p) ≡ 0 = omega arith in rw e;
  below = λ j h. refl;
  above = λ j h. refl;
  readers = refl;
  writers = refl;
}
read_loop-Took (suc k) s c {p} v = elim (Bool-cases (p.read_pos == p.write_pos)) [
  | inl empty ↦ rw empty (
      let e : min (suc k) (len p) ≡ 0 = ground arith in
      record {
        valid = v;
        count = omega arith;
        bytes_out = rw e;
        below = λ j h. refl;
        above = λ j h. refl;
        readers = refl;
        writers = refl;
      })
  | inr more ↦ rw more (
      let ne : p.read_pos ≢ p.write_pos = ground arith in
      let s' : ℕ → ℕ = update s c (p.buffer p.read_pos) in
      let p' : Pipe = record p { read_pos = next_pos p.read_pos } in
      let ih = read_loop-Took k s' (c + 1) {p = p'} (next-IsValid v) in
      let e : min (suc k) (len p) ≡ suc (min k (len p')) = omega (arith, len-next v ne) in
      record {
        valid = ih.valid;
        count = omega (arith, ih.count);
        bytes_out =
            rw (e, contents-front v ne)
              (ap₂ ◌∷◌ (sym (ih.below c (omega arith) ∙ ground arith)) ih.bytes_out);
        below = λ j h. ih.below j (omega arith) ∙ ground arith;
        above = λ j h. ih.above j (omega arith) ∙ ground arith;
        readers = ih.readers;
        writers = ih.writers;
      })
]

-- A `read` from a valid pipe takes as many of the oldest bytes as are asked for and there, in order:
-- those in the caller's buffer and those left make up what was in the pipe. It returns their
-- number, leaves the rest of the caller's buffer alone, and the pipe valid with the same endpoints.
pub read-takes :
    {p : Pipe} (s : ℕ → ℕ) (n : ℤ)
    → IsValid p
    → let (r, s', p') = read p s n in
      let c = min (pos_part n) (len p) in
      IsValid p'
      × (bytes s' 0 c ++ contents p' ≡ contents p)
      × (r ≡ pos c)
      × ((j : ℕ) → c ≤ j → s' j ≡ s j)
      × (p'.reader_count ≡ p.reader_count)
      × (p'.writer_count ≡ p.writer_count)
unfolding read
read-takes {p} s n v =
    let t = read_loop-Took (pos_part n) s 0 v in
    (
      t.valid,
      sym t.bytes_out,
      ap pos (omega (arith, t.count)),
      λ j h. t.above j (omega arith),
      t.readers,
      t.writers,
    )

-- `PipeReader::read` on a valid pipe, asked for at least one byte, returns EEOF exactly when the
-- pipe is empty and has no writer left.
pub reader_read-eof :
    {p : Pipe} (s : ℕ → ℕ) (n : ℤ)
    → IsValid p
    → 0 < pos_part n
    → ((reader_read p s n).0 ≡ eeof) ↔ ((contents p ≡ []) × (is_zero p.writer_count ≡ true))
unfolding reader_read
reader_read-eof {p} s n v h =
    let t = read-takes s n v in ground (arith, t.2, t.5, window-nil p.buffer p.read_pos (len p))
