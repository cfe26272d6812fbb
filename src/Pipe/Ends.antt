-- ===== src/Pipe/Ends.antt =====
-- The life of a pipe: its reader and writer objects, which `syscall_create_pipe`, `copy` and the
-- destructors of src/fs/pipe.cpp make and delete.
use mathlib.Core.Path.{subst}
use native.Mathlib.Decide.{dec_lt}
use cros_kernel.Base.{
  ℕ, ◌+◌, ◌-◌, ◌<◌, ◌≡◌, refl, ◌∙◌, Bool-cases, ◌⊎◌, inl, inr, Option, none, some, arith, ℤ, pos,
  is_zero,
}
use cros_kernel.Pipe.{
  Pipe, new_pipe, new_reader, new_writer, delete_reader, delete_writer, release, reader_read,
  writer_write, put,
}
use cros_kernel.Pipe.Ring.{IsValid}
use cros_kernel.Pipe.Put.{put-appends, put-epipe}
use cros_kernel.Pipe.Read.{read-takes}

-- The pipe, `none` once it is deleted, and how many endpoint objects point to it.
pub record Life : Type 0 where
  pub pipe : Option Pipe
  pub readers : ℕ
  pub writers : ℕ

-- What can happen to the endpoints. Each step names the pipe that the object's pointer leads to.
pub data Step : Life → Life → Type 0 where
  copy_reader :
      (l : Life) (p : Pipe)
      → 0 < l.readers
      → l.pipe ≡ some p
      → Step l (record l { pipe = some (new_reader p); readers = l.readers + 1 })
  copy_writer :
      (l : Life) (p : Pipe)
      → 0 < l.writers
      → l.pipe ≡ some p
      → Step l (record l { pipe = some (new_writer p); writers = l.writers + 1 })
  drop_reader :
      (l : Life) (p : Pipe)
      → 0 < l.readers
      → l.pipe ≡ some p
      → Step l (record l { pipe = delete_reader p; readers = l.readers - 1 })
  drop_writer :
      (l : Life) (p : Pipe)
      → 0 < l.writers
      → l.pipe ≡ some p
      → Step l (record l { pipe = delete_writer p; writers = l.writers - 1 })
  reads :
      (l : Life) (p : Pipe) (s : ℕ → ℕ) (n : ℤ)
      → 0 < l.readers
      → l.pipe ≡ some p
      → Step l (record l { pipe = some (reader_read p s n).2 })
  writes :
      (l : Life) (p : Pipe) (s : ℕ → ℕ) (n : ℤ)
      → 0 < l.writers
      → l.pipe ≡ some p
      → Step l (record l { pipe = some (writer_write p s n).1 })

-- What `syscall_create_pipe` makes: a pipe with one endpoint of each kind.
unfoldable pub create_pipe : (ℕ → ℕ) → Life
create_pipe raw = record {
  pipe = some (new_writer (new_reader (new_pipe raw)));
  readers = 1;
  writers = 1;
}

pub data Reach (l : Life) : Life → Type 0 where
  here : Reach l l
  next : {m n : Life} → Reach l m → Step m n → Reach l n

-- The pipe is valid and counts its endpoints, or it is deleted and there are none.
abbrev pub Counted : Life → Type 0
Counted l =
    ((l.pipe ≡ none) × (l.readers ≡ 0) × (l.writers ≡ 0))
    ⊎ ((p : Pipe) × (l.pipe ≡ some p)
        × (0 < l.readers + l.writers)
        × IsValid p
        × (p.reader_count ≡ pos l.readers)
        × (p.writer_count ≡ pos l.writers))

-- What a destructor leaves, of a pipe whose counts are those of the endpoints that stay.
release-Counted :
    (p : Pipe) (l : Life)
    → IsValid p
    → p.reader_count ≡ pos l.readers
    → p.writer_count ≡ pos l.writers
    → l.pipe ≡ release p
    → Counted l
unfolding release
release-Counted p l v r w e = elim (dec_lt 0 (l.readers + l.writers)) [
  | yes h ↦ inr (p, e ∙ ground arith, h, v, r, w)
  | no h ↦ inl (e ∙ ground arith, omega arith, omega arith)
]

-- the second case, of the pipe that a step names
held :
    {l : Life} {p : Pipe}
    → Counted l
    → l.pipe ≡ some p
    → IsValid p × (p.reader_count ≡ pos l.readers) × (p.writer_count ≡ pos l.writers)
held (inl c) e = cc (c.0)
held {l} {p} (inr c) e =
    let q : c.0 ≡ p = ground arith in
    subst (λ r. IsValid r × (r.reader_count ≡ pos l.readers) × (r.writer_count ≡ pos l.writers)) q
      (c.3, c.4, c.5)

put-Counts :
    {p : Pipe} (s : ℕ → ℕ) (n : ℤ)
    → IsValid p
    → let p' = (put p s n).1 in
      IsValid p' × (p'.reader_count ≡ p.reader_count) × (p'.writer_count ≡ p.writer_count)
put-Counts {p} s n v = elim (Bool-cases (is_zero p.reader_count)) [
  | inl h ↦ rw (put-epipe p s n h) (v, refl, refl)
  | inr h ↦ let t = put-appends s n v h in (t.0, t.3, t.4)
]

Step-Counted : {l m : Life} → Step l m → Counted l → Counted m
unfolding new_reader new_writer delete_reader delete_writer reader_read writer_write
Step-Counted (copy_reader l p h e) c =
    let q = held c e in
    inr (new_reader p, refl, omega arith, omega (arith, q.0), ground (arith, q.1), q.2)
Step-Counted (copy_writer l p h e) c =
    let q = held c e in
    inr (new_writer p, refl, omega arith, omega (arith, q.0), q.1, ground (arith, q.2))
Step-Counted (drop_reader l p h e) c =
    let q = held c e in release-Counted _ _ (omega (arith, q.0)) (ground (arith, q.1)) q.2 refl
Step-Counted (drop_writer l p h e) c =
    let q = held c e in release-Counted _ _ (omega (arith, q.0)) q.1 (ground (arith, q.2)) refl
Step-Counted (reads l p s n h e) c =
    let q = held c e in
    let t = read-takes s n q.0 in inr (_, refl, omega arith, t.0, t.4 ∙ q.1, t.5 ∙ q.2)
Step-Counted (writes l p s n h e) c =
    let q = held c e in
    let t = put-Counts s n q.0 in inr (_, refl, omega arith, t.0, t.1 ∙ q.1, t.2 ∙ q.2)

-- However the endpoints of a new pipe are copied, deleted, read from and written to, the pipe is
-- deleted exactly when the last of them is: until then it is valid and its two counts are the
-- numbers of its readers and of its writers, so no endpoint points to a deleted pipe.
pub Reach-Counted : (raw : ℕ → ℕ) {l : Life} → Reach (create_pipe raw) l → Counted l
unfolding create_pipe new_reader new_writer
Reach-Counted raw here = inr (_, refl, omega arith, omega arith, refl, refl)
Reach-Counted raw (next r s) = Step-Counted s (Reach-Counted raw r)
