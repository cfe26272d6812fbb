-- ===== src/Pipe/Tests.antt =====
-- Runs of the pipe of src/fs/pipe.cpp on small inputs.
use cros_kernel.Base.{ℕ, ◌+◌, ◌≡◌, refl, ◌≤◌, ◌↔◌, true, [], ◌∷◌, ◌++◌, arith, pos, is_zero, some}
use cros_kernel.Status.{eeof}
use cros_kernel.Pipe.{
  release, Pipe, new_reader, new_writer, delete_writer, put, put_loop, read, reader_read, is_full,
  store,
}
use cros_kernel.Pipe.Ring.{IsValid, contents}
use cros_kernel.Pipe.Put.{bytes, put-appends}
use cros_kernel.Pipe.Read.{read-takes, reader_read-eof}
use cros_kernel.Pipe.Ends.{
  Life, create_pipe, Reach, here, next, copy_reader, drop_writer, Counted, Reach-Counted,
}

-- three bytes that go round the end of the buffer
abbrev round : Pipe
round = record {
  buffer = λ i. i;
  write_pos = 1;
  read_pos = 4094;
  reader_count = pos 1;
  writer_count = pos 0;
}

abbrev drained : Pipe
drained = record round { read_pos = 1 }

abbrev deaf : Pipe
deaf = record round { reader_count = pos 0 }

abbrev src : ℕ → ℕ
src i = i + 70

round-contents : contents round ≡ 4094 ∷ 4095 ∷ 0 ∷ []
round-contents = refl

round-put : contents (put round src (pos 2)).1 ≡ 4094 ∷ 4095 ∷ 0 ∷ 70 ∷ 71 ∷ []
unfolding put put_loop store is_full
round-put = refl

round-IsValid : IsValid round
round-IsValid = record { write_in = omega arith; read_in = omega arith }

drained-IsValid : IsValid drained
drained-IsValid = record { write_in = omega arith; read_in = omega arith }

put-appends_example :
    let (r, p') = put round src (pos 2) in
    IsValid p'
    × (contents p' ≡ contents round ++ bytes src 0 2)
    × (r ≡ pos 2)
    × (p'.reader_count ≡ pos 1)
    × (p'.writer_count ≡ pos 0)
put-appends_example = put-appends {p = round} src (pos 2) round-IsValid refl

read-takes_example :
    let (r, s', p') = read round src (pos 2) in
    IsValid p'
    × (bytes s' 0 2 ++ contents p' ≡ 4094 ∷ 4095 ∷ 0 ∷ [])
    × (r ≡ pos 2)
    × ((j : ℕ) → 2 ≤ j → s' j ≡ src j)
    × (p'.reader_count ≡ pos 1)
    × (p'.writer_count ≡ pos 0)
read-takes_example = read-takes {p = round} src (pos 2) round-IsValid

reader_read-eof_example :
    ((reader_read drained src (pos 2)).0 ≡ eeof)
    ↔ ((contents drained ≡ []) × (is_zero (pos 0) ≡ true))
reader_read-eof_example = reader_read-eof {p = drained} src (pos 2) drained-IsValid (omega arith)

-- A reader is copied, then the writer is deleted.
abbrev one_pipe : Pipe
one_pipe = record {
  buffer = src;
  write_pos = 0;
  read_pos = 0;
  reader_count = pos 1;
  writer_count = pos 1;
}

abbrev two_readers : Life
two_readers = record {
  pipe = some (record one_pipe { reader_count = pos 2 });
  readers = 2;
  writers = 1;
}

abbrev no_writer : Life
no_writer = record {
  pipe = some (record one_pipe { reader_count = pos 2; writer_count = pos 0 });
  readers = 2;
  writers = 0;
}

no_writer-Reach : Reach (create_pipe src) no_writer
unfolding create_pipe new_reader new_writer delete_writer release
no_writer-Reach =
    next (next here (copy_reader _ one_pipe (omega arith) refl))
      (drop_writer two_readers (record one_pipe { reader_count = pos 2 }) (omega arith) refl)

Reach-Counted_example : Counted no_writer
Reach-Counted_example = Reach-Counted src no_writer-Reach
