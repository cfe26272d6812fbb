-- ===== src/Pipe.antt =====
-- src/fs/pipe.h and src/fs/pipe.cpp: the ring of bytes behind a pair of file contexts, and the
-- reader and writer objects that share it. The buffers of the callers are functions of the index.
pub mod Ring
pub mod Put
pub mod Read
pub mod Ends
mod Tests
use cros_kernel.Base.{
  ℕ, zero, suc, ◌+◌, ◌-◌, Bool, ◌&&◌, ◌||◌, leb, ◌==◌, if◌then◌else◌, Option, none, some, ℤ, pos,
  pos_part, ltb_ℤ, inc, dec, is_zero, update,
}
use cros_kernel.Status.{eeof, eio, epipe, efull}

-- `PIPE_SIZE`
abbrev pub pipe_size : ℕ
pipe_size = 4096

-- The fields of `class Pipe`: `buffer` is an array of `pipe_size` bytes.
pub record Pipe : Type 0 where
  pub buffer : ℕ → ℕ
  pub write_pos : ℕ
  pub read_pos : ℕ
  pub reader_count : ℤ
  pub writer_count : ℤ

-- The constructor; the bytes of a new buffer are whatever the allocator left there.
abbrev pub new_pipe : (ℕ → ℕ) → Pipe
new_pipe raw = record {
  buffer = raw;
  write_pos = 0;
  read_pos = 0;
  reader_count = pos 0;
  writer_count = pos 0;
}

-- the position behind `i`, going round at the end of the buffer
abbrev pub next_pos : ℕ → ℕ
next_pos i = if leb pipe_size (i + 1) then 0 else i + 1

-- the test that ends the loop of `put`: the ring has no room
unfoldable pub is_full : Pipe → Bool
is_full p = (p.write_pos == pipe_size - 1 && p.read_pos == 0) || p.write_pos + 1 == p.read_pos

-- one round of the loop of `put`
unfoldable pub store : Pipe → ℕ → Pipe
store p v = record p { buffer = update p.buffer p.write_pos v; write_pos = next_pos p.write_pos }

-- The loop of `put` on the rounds that are left, `n - c` where `c` bytes are stored.
pub put_loop : ℕ → (ℕ → ℕ) → ℕ → Pipe → ℕ × Pipe
put_loop zero s c p = (c, p)
put_loop (suc k) s c p =
    let rest = put_loop k s (c + 1) (store p (s c)) in if is_full p then (c, p) else rest

-- `Pipe::put(data, n)`
pub put : Pipe → (ℕ → ℕ) → ℤ → ℤ × Pipe
put p s n =
    if is_zero p.reader_count
    then (epipe, p)
    else let (c, p') = put_loop (pos_part n) s 0 p in
      (if ltb_ℤ (pos 0) n && c == 0 then efull else pos c, p')

-- The loop of `Pipe::read`: the bytes stored, the caller's buffer, and the pipe.
pub read_loop : ℕ → (ℕ → ℕ) → ℕ → Pipe → ℕ × (ℕ → ℕ) × Pipe
read_loop zero s c p = (c, s, p)
read_loop (suc k) s c p =
    let rest =
      read_loop k (update s c (p.buffer p.read_pos)) (c + 1)
        (record p { read_pos = next_pos p.read_pos }) in
    if p.read_pos == p.write_pos then (c, s, p) else rest

-- `Pipe::read(data, n)`
pub read : Pipe → (ℕ → ℕ) → ℤ → ℤ × (ℕ → ℕ) × Pipe
read p s n = let (c, s', p') = read_loop (pos_part n) s 0 p in (pos c, s', p')

abbrev pub add_reader : Pipe → Pipe
add_reader p = record p { reader_count = inc p.reader_count }

abbrev pub remove_reader : Pipe → Pipe
remove_reader p = record p { reader_count = dec p.reader_count }

abbrev pub add_writer : Pipe → Pipe
add_writer p = record p { writer_count = inc p.writer_count }

abbrev pub remove_writer : Pipe → Pipe
remove_writer p = record p { writer_count = dec p.writer_count }

-- What a destructor leaves of the pipe: `none` once it is deleted.
unfoldable pub release : Pipe → Option Pipe
release p = if is_zero p.reader_count && is_zero p.writer_count then none else some p

-- The constructors of the two endpoints, called by `createReader`, `createWriter` and `copy`.
unfoldable pub new_reader : Pipe → Pipe
new_reader p = add_reader p

unfoldable pub new_writer : Pipe → Pipe
new_writer p = add_writer p

-- `~PipeReader` and `~PipeWriter`
unfoldable pub delete_reader : Pipe → Option Pipe
unfolding release
delete_reader p = release (remove_reader p)

unfoldable pub delete_writer : Pipe → Option Pipe
unfolding release
delete_writer p = release (remove_writer p)

-- `PipeReader::read`: an empty pipe that nobody can write to is at its end.
pub reader_read : Pipe → (ℕ → ℕ) → ℤ → ℤ × (ℕ → ℕ) × Pipe
reader_read p s n =
    let (c, s', p') = read p s n in
    (if is_zero c && is_zero p'.writer_count then eeof else c, s', p')

-- `PipeReader::write` and `PipeWriter::read`: the wrong direction.
pub reader_write : Pipe → (ℕ → ℕ) → ℤ → ℤ × Pipe
reader_write p s n = (eio, p)

pub writer_read : Pipe → (ℕ → ℕ) → ℤ → ℤ × (ℕ → ℕ) × Pipe
writer_read p s n = (eio, s, p)

-- `PipeWriter::write`
pub writer_write : Pipe → (ℕ → ℕ) → ℤ → ℤ × Pipe
writer_write p s n = put p s n
