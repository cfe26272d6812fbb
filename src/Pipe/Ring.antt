-- ===== src/Pipe/Ring.antt =====
-- The ring of src/fs/pipe.cpp as a sequence of bytes: its invariant, and what one round of each
-- loop does to the sequence.
use cros_kernel.Base.{
  ℕ, zero, suc, ◌+◌, ◌-◌, ◌%◌, ◌≤◌, ◌<◌, ◌≡◌, refl, ap, ◌∙◌, ◌≢◌, ◌↔◌, true, false, List, [], ◌∷◌,
  ◌++◌, arith, update,
}
use mathlib.Core.Path.{ap₂}
use cros_kernel.Pipe.{Pipe, pipe_size, next_pos, is_full, store}

-- The positions stay inside the buffer.
pub record IsValid (p : Pipe) : Type 0 where
  pub write_in : p.write_pos < pipe_size
  pub read_in : p.read_pos < pipe_size

-- the number of bytes in the pipe
abbrev pub len : Pipe → ℕ
len p = (p.write_pos + pipe_size - p.read_pos) % pipe_size

-- the `k` bytes from position `i` on, going round at the end
abbrev pub window : (ℕ → ℕ) → ℕ → ℕ → List ℕ
window f i zero = []
window f i (suc k) = f i ∷ window f (next_pos i) k

-- the bytes in the pipe, oldest first
abbrev pub contents : Pipe → List ℕ
contents p = window p.buffer p.read_pos (len p)

window-update :
    (f : ℕ → ℕ) (v k i j : ℕ)
    → i < pipe_size
    → k < pipe_size
    → j ≡ (i + k) % pipe_size
    → window (update f j v) i (suc k) ≡ window f i k ++ v ∷ []
window-update f v zero i j hi hk e = ground arith
window-update f v (suc k) i j hi hk e =
    ap₂ ◌∷◌ (ground arith)
      (window-update f v k (next_pos i) j (ground arith) (omega arith) (ground arith))

window-pos : (f : ℕ → ℕ) (i k : ℕ) → k ≢ 0 → window f i k ≡ f i ∷ window f (next_pos i) (k - 1)
window-pos f i zero h = absurd (h refl)
window-pos f i (suc k) h = ap (λ n. f i ∷ window f (next_pos i) n) (omega arith)

pub window-nil : (f : ℕ → ℕ) (i k : ℕ) → (window f i k ≡ []) ↔ (k ≡ 0)
window-nil f i zero = (λ e. refl, λ e. refl)
window-nil f i (suc k) = (λ e. cc, λ e. cc)

module _ {p : Pipe} (v : IsValid p) where
  pub len-le : len p ≤ 4095
  len-le = omega arith

  pub len_of_is_full : is_full p ≡ true → len p ≡ 4095
  unfolding is_full
  len_of_is_full h = ground arith

  pub len_of_has_room : is_full p ≡ false → len p < 4095
  unfolding is_full
  len_of_has_room h = ground arith

  pub store-IsValid : (b : ℕ) → IsValid (store p b)
  unfolding store
  store-IsValid b = ground arith

  pub len-store : (b : ℕ) → is_full p ≡ false → len (store p b) ≡ len p + 1
  unfolding store is_full
  len-store b h = ground arith

  pub contents-store : (b : ℕ) → is_full p ≡ false → contents (store p b) ≡ contents p ++ b ∷ []
  unfolding store
  contents-store b h =
      let e : (next_pos p.write_pos + pipe_size - p.read_pos) % pipe_size ≡ suc (len p) =
        omega (arith, len-store b h) in
      rw e (
        window-update p.buffer b (len p) p.read_pos p.write_pos v.read_in (omega arith)
          (omega arith))

  pub contents-front :
      p.read_pos ≢ p.write_pos
      → contents p ≡ p.buffer p.read_pos ∷ contents (record p { read_pos = next_pos p.read_pos })
  contents-front h =
      window-pos p.buffer p.read_pos (len p) (omega arith)
      ∙ ap (λ k. p.buffer p.read_pos ∷ window p.buffer (next_pos p.read_pos) k) (ground arith)

  pub contents-empty : p.read_pos ≡ p.write_pos → contents p ≡ []
  contents-empty h = let e : len p ≡ 0 = omega arith in rw e

  pub next-IsValid : IsValid (record p { read_pos = next_pos p.read_pos })
  next-IsValid = ground arith

  pub len-next :
      p.read_pos ≢ p.write_pos → len p ≡ len (record p { read_pos = next_pos p.read_pos }) + 1
  len-next h = ground arith

pub store-counts :
    (p : Pipe) (b : ℕ)
    → ((store p b).reader_count ≡ p.reader_count)
      × ((store p b).writer_count ≡ p.writer_count)
      × ((store p b).read_pos ≡ p.read_pos)
unfolding store
store-counts p b = (refl, refl, refl)
