-- ===== src/Fat32/Reader/Sectors.antt =====
-- What `FileContextFAT32::read` of src/fs/fat32/filecontextfat32.cpp puts into the caller's buffer,
-- on a file system that can read every sector of the file.
use mathlib.Core.Path.{ap₂}
use native.Mathlib.Decide.{dec_lt}
use native.Mathlib.Nat.{
  div-add-mod, mul-add-div, div-eq_of_lt, mod-lt, mul-mod_right, add-mod_right,
}
use cros_kernel.Base.{
  ℕ, zero, suc, ◌+◌, ◌-◌, ◌*◌, ◌/◌, ◌%◌, ◌≤◌, ◌<◌, ◌≡◌, refl, sym, ap, ◌∙◌, ◌⊎◌, inl, inr, min,
  true, false, ltb, leb, if◌then◌else◌, some, pos, ok, arith, Bool-cases,
}
use cros_kernel.Fat32.Reader.{Source, copy_bytes, chunk, read_loop, read_sized, read}

-- Positions in one sector.
same_sector :
    (s i j : ℕ) → 0 < s → i % s + j < s → ((i + j) / s ≡ i / s) × ((i + j) % s ≡ i % s + j)
same_sector s i j h lt =
    let e : i + j ≡ s * (i / s) + (i % s + j) = omega (arith, div-add-mod i s) in
    let d : (i + j) / s ≡ i / s =
      ap (λ x. x / s) e ∙ mul-add-div h (i / s) (i % s + j) ∙ omega (arith, div-eq_of_lt lt) in
    (d, omega (arith, div-add-mod i s, rw d at (div-add-mod (i + j) s)))

-- The first position behind the sector of `i`.
next_sector : (s i : ℕ) → 0 < s → (i + (s - i % s)) % s ≡ 0
next_sector s i h =
    let e : i + (s - i % s) ≡ s * (i / s) + s = omega (arith, div-add-mod i s, mod-lt i h) in
    ap (λ x. x % s) e ∙ add-mod_right (s * (i / s)) s ∙ mul-mod_right s (i / s)

pub copy_bytes-out :
    (k : ℕ) (dest : ℕ → ℕ) (d : ℕ) (from : ℕ → ℕ) (s j : ℕ)
    → (j < d) ⊎ (d + k ≤ j)
    → copy_bytes k dest d from s j ≡ dest j
unfolding copy_bytes
copy_bytes-out zero dest d from s j out = refl
copy_bytes-out (suc k) dest d from s j out =
    copy_bytes-out k _ (d + 1) from (s + 1) j (ground arith) ∙ ground arith

pub copy_bytes-in :
    (k : ℕ) (dest : ℕ → ℕ) (d : ℕ) (from : ℕ → ℕ) (s j x : ℕ)
    → j < k
    → x ≡ d + j
    → copy_bytes k dest d from s x ≡ from (s + j)
unfolding copy_bytes
copy_bytes-in zero dest d from s j x h e = absurd (omega arith)
copy_bytes-in (suc k) dest d from s zero x h e =
    let same : s + 0 ≡ s = omega arith in
    rw same (copy_bytes-out k _ (d + 1) from (s + 1) x (inl (omega arith)) ∙ ground arith)
copy_bytes-in (suc k) dest d from s (suc j) x h e =
    let same : s + suc j ≡ s + 1 + j = omega arith in
    rw same (copy_bytes-in k _ (d + 1) from (s + 1) j x (omega arith) (omega arith))

-- byte `i` of the file whose sectors are `sectors`
abbrev pub byte_at : ℕ → (ℕ → ℕ → ℕ) → ℕ → ℕ
byte_at size sectors i = sectors (i / size) (i % size)

-- The file system reads those sectors, up to the end of the file at `end`.
abbrev pub Reads : Source → (ℕ → ℕ → ℕ) → ℕ → Type 0
Reads fs sectors end =
    (i : ℕ) → i < end → fs.read_file (i / fs.sector_size) ≡ some (sectors (i / fs.sector_size))

-- The caller's buffer `new` begins with `count` bytes of the file from `start` on; the rest is that of `old`.
pub record Filled (fs : Source) (sectors : ℕ → ℕ → ℕ) (start : ℕ) (old : ℕ → ℕ) (count : ℕ)
    (new : ℕ → ℕ) : Type 0 where
  pub filled : (j : ℕ) → j < count → new j ≡ byte_at fs.sector_size sectors (start + j)
  pub kept : (j : ℕ) → count ≤ j → new j ≡ old j

module _ (fs : Source) (sectors : ℕ → ℕ → ℕ) (start : ℕ) (old : ℕ → ℕ)
    (has_size : 0 < fs.sector_size) where
  -- one round
  round-Filled :
      (count c : ℕ) (new : ℕ → ℕ)
      → (start + count) % fs.sector_size + c ≤ fs.sector_size
      → Filled fs sectors start old count new
      → Filled fs sectors start old (count + c) (
          copy_bytes c new count
            (sectors ((start + count) / fs.sector_size))
            ((start + count) % fs.sector_size))
  round-Filled count c new fit f = record {
    filled = λ j lt. elim (dec_lt j count) [
      | yes below ↦ copy_bytes-out c new count _ _ j (inl below) ∙ f.filled j below
      | no above ↦
          let i : ℕ = j - count in
          let e : start + j ≡ start + count + i = omega arith in
          let (d, m) = same_sector fs.sector_size (start + count) i has_size (omega arith) in
          copy_bytes-in c new count _ _ i j (omega arith) (omega arith)
          ∙ sym (ap (byte_at fs.sector_size sectors) e ∙ ap₂ sectors d m)
    ];
    kept = λ j ge. copy_bytes-out c new count _ _ j (inr ge) ∙ f.kept j (omega arith);
  }

  loop-Filled :
      (fuel n count : ℕ) (new : ℕ → ℕ)
      → Reads fs sectors (start + n)
      → Filled fs sectors start old count new
      → 0 < fuel
      → n < fuel + count
      → count < n + fs.sector_size
      → (count' : ℕ) × (new' : ℕ → ℕ) × (read_loop fuel fs n count new (start + count)
          ≡ ok (count', new', start + count'))
        × (n ≤ count')
        × (count' < n + fs.sector_size)
        × Filled fs sectors start old count' new'
  unfolding read_loop
  loop-Filled zero n count new r f any enough bound = absurd (omega arith)
  loop-Filled (suc fuel) n count new r f any enough bound = elim (Bool-cases (leb n count)) [
    | inl done ↦ (count, new, rw done, ground arith, bound, f)
    | inr more ↦
        let c : ℕ = chunk fs.sector_size (start + count) n in
        let lt : (start + count) % fs.sector_size < fs.sector_size =
          mod-lt (start + count) has_size in
        let e : start + count + c ≡ start + (count + c) = omega arith in
        let ih =
          loop-Filled fuel n (count + c) _ r (round-Filled count c new (ground arith) f)
            (ground arith) (ground arith) (ground arith) in
        (ih.0, ih.1, rw (more, r (start + count) (ground arith), e) ih.2, ih.3, ih.4, ih.5)
  ]

-- Where every sector of the file can be read, `read` inside the file returns at least the number of
-- bytes that are asked for and left in the file, and fewer than a sector more. The caller's buffer
-- then begins with that many bytes of the file from the position on and is otherwise as before, and
-- the position moves on by that number. Fuel of one round more than bytes asked for is enough.
pub read-Filled :
    (fs : Source) (sectors : ℕ → ℕ → ℕ) (size fuel n : ℕ) (buffer : ℕ → ℕ) (position : ℕ)
    → 0 < fs.sector_size
    → fs.file_size ≡ some size
    → Reads fs sectors size
    → position < size
    → n < fuel
    → (count : ℕ) × (buffer' : ℕ → ℕ) × (read fuel fs n buffer position
        ≡ ok (pos count, buffer', position + count))
      × (min n (size - position) ≤ count)
      × (count < min n (size - position) + fs.sector_size)
      × Filled fs sectors position buffer count buffer'
unfolding read read_sized
read-Filled fs sectors size fuel n buffer position h e r inside enough =
    let m : ℕ = if ltb size (position + n) then size - position else n in
    let same : m ≡ min n (size - position) = ground arith in
    let go : leb size position ≡ false = ground arith in
    let z : position + 0 ≡ position = omega arith in
    let (count, buffer', run, lo, hi, f) =
      loop-Filled fs sectors position buffer h fuel m 0 buffer (λ i lt. r i (omega (arith, same)))
        (record { filled = λ j lt. absurd (omega arith); kept = λ j ge. refl }) (omega arith)
        (omega (arith, same)) (omega arith) in
    (
      count,
      buffer',
      ap (λ o. read_sized o fuel fs n buffer position) e ∙ rw (go, rw z at run),
      omega (arith, same),
      omega (arith, same),
      f,
    )

loop-round :
    (fs : Source) (fuel n count : ℕ) (buffer : ℕ → ℕ) (position : ℕ) (sector : ℕ → ℕ)
    → count < n
    → fs.read_file (position / fs.sector_size) ≡ some sector
    → let c = chunk fs.sector_size position n in
      read_loop (suc fuel) fs n count buffer position
      ≡ read_loop fuel fs n
          (count + c)
          (copy_bytes c buffer count sector (position % fs.sector_size))
          (position + c)
unfolding read_loop
loop-round fs fuel n count buffer position sector lt e =
    let more : leb n count ≡ false = ground arith in rw (more, e)

loop-end :
    (fs : Source) (fuel n count : ℕ) (buffer : ℕ → ℕ) (position : ℕ)
    → n ≤ count
    → read_loop (suc fuel) fs n count buffer position ≡ ok (count, buffer, position)
unfolding read_loop
loop-end fs fuel n count buffer position le =
    let done : leb n count ≡ true = ground arith in rw done

-- A read of no more than a sector that crosses the end of one, from a file that goes on long enough,
-- returns more than was asked for: what was left of the sector, and then all of `n` again.
pub read_overruns :
    (fs : Source) (sectors : ℕ → ℕ → ℕ) (size fuel n : ℕ) (buffer : ℕ → ℕ) (position : ℕ)
    → 0 < fs.sector_size
    → fs.file_size ≡ some size
    → Reads fs sectors size
    → position + n ≤ size
    → n ≤ fs.sector_size
    → fs.sector_size < position % fs.sector_size + n
    → 3 ≤ fuel
    → (buffer' : ℕ → ℕ) × (let count = fs.sector_size - position % fs.sector_size + n in
        read fuel fs n buffer position ≡ ok (pos count, buffer', position + count))
unfolding read read_sized
read_overruns fs sectors size fuel n buffer position h e r inside short crosses enough =
    let k : ℕ = fuel - 3 in
    let f : fuel ≡ suc (suc (suc k)) = omega arith in
    let left : ℕ = fs.sector_size - position % fs.sector_size in
    let lt : position % fs.sector_size < fs.sector_size = mod-lt position h in
    let a : leb size position ≡ false = ground arith in
    let b : ltb size (position + n) ≡ false = ground arith in
    let c1 : chunk fs.sector_size position n ≡ left = ground arith in
    let next : (position + left) % fs.sector_size ≡ 0 = next_sector fs.sector_size position h in
    let c2 : chunk fs.sector_size (position + left) n ≡ n = ground arith in
    let z : 0 + left ≡ left = omega arith in
    let s : position + left + n ≡ position + (left + n) = omega arith in
    (
      copy_bytes n
          (copy_bytes left buffer 0 (sectors (position / fs.sector_size))
            (position % fs.sector_size))
          left (sectors ((position + left) / fs.sector_size)) 0,
      ap (λ o. read_sized o fuel fs n buffer position) e
          ∙ rw (
            a,
            b,
            f,
            loop-round fs (suc (suc k)) n 0 buffer position _ (ground arith)
                (r position (omega arith)),
            c1,
            z,
            loop-round fs (suc k) n left _ (position + left) _ (ground arith)
                (r (position + left) (omega arith)),
            c2,
            next,
            loop-end fs k n (left + n) _ (position + left + n) (omega arith),
            s,
          ),
    )
