-- ===== src/Fat32/Names/Entries/Long.antt =====
-- `write_long_name_entry` of src/fs/fat32/entry_helpers.cpp writes what `parse_long_name` reads.
use cros_kernel.Base.{
  ℕ, ◌+◌, ◌*◌, ◌/◌, ◌%◌, ◌≤◌, ◌<◌, ◌≡◌, ◌≢◌, refl, sym, ◌∙◌, ap, ◌⊎◌, true, false, Bool, inl, inr,
  [], ◌++◌, length, update, update_ne, All, All-split, arith, take, drop, length-take,
  take-append-drop,
}
use mathlib.Core.Path.{subst}
use cros_kernel.Fat32.Disk.{write_sector_size}
use cros_kernel.Fat32.Paths.{Str}
use cros_kernel.Fat32.Table.{Volume, clear_entry}
use cros_kernel.Fat32.Names.{
  LongName, long_to_short_name, checksum_of, order_byte, long_name_bytes, name_piece, put_pairs,
  name_part_1, name_part_2, name_part_3,
}
use cros_kernel.Fat32.Names.Entries.{sector_at, parse_long_name, write_long_name_entry}
use cros_kernel.Fat32.Names.Buffers.{within, clear_loop_lem, read-write}
use cros_kernel.Fat32.Names.Pairs.{Pairs, put_pairs_lem, put_pairs-Pairs, name_piece-Pairs}
use cros_kernel.Fat32.Names.Parts.{
  name_part_1_lem, name_part_2_lem, name_part_3_lem, name_parts_lem,
}

put_pairs-else :
    (behind : ℕ → ℕ) (part : Str) (start n : ℕ) (buffer : ℕ → ℕ) (k : ℕ)
    → (k < start) ⊎ (start + n * 2 ≤ k)
    → put_pairs behind part start 0 n buffer k ≡ buffer k
put_pairs-else behind part start n buffer k far =
    let out : within (start + 0 * 2) (n * 2) k ≡ false = ground arith in
    put_pairs_lem behind part start 0 n buffer k ∙ (rw out refl)

Pairs-ap :
    (behind f g : ℕ → ℕ) (i n : ℕ) (part : Str)
    → ((k : ℕ) → i ≤ k → k < i + n * 2 → f k ≡ g k)
    → Pairs behind g i part n
    → Pairs behind f i part n
Pairs-ap behind f g i n part same h j lt =
    let (a, b) = h j lt in
    (
      same (i + j * 2) (omega arith) (omega arith) ∙ a,
      same (i + j * 2 + 1) (omega arith) (omega arith) ∙ b,
    )

-- What the bytes of a long name from `i` on say.
record LongSays (behind f : ℕ → ℕ) (i : ℕ) (l : LongName) : Type 0 where
  order_at : f i ≡ order_byte l.last l.order
  part_1_at : Pairs behind f (i + 1) (name_part_1 l.name) 5
  part_2_at : Pairs behind f (i + 14) (name_part_2 l.name) 6
  part_3_at : Pairs behind f (i + 28) (name_part_3 l.name) 2

long_name_bytes-LongSays :
    (behind : ℕ → ℕ) (parent : Str) (l : LongName) (i : ℕ) (buffer : ℕ → ℕ)
    → ((k : ℕ) → i ≤ k → k < i + 32 → buffer k ≡ 0)
    → LongSays behind (long_name_bytes behind parent l i buffer) i l
long_name_bytes-LongSays behind parent l i buffer clear =
    let b1 = update buffer i (order_byte l.last l.order) in
    let b2 = put_pairs behind (name_part_1 l.name) (i + 1) 0 5 b1 in
    let b3 = put_pairs behind (name_part_2 l.name) (i + 14) 0 6 b2 in
    let b4 = put_pairs behind (name_part_3 l.name) (i + 28) 0 2 b3 in
    let sum =
      checksum_of 0 (long_to_short_name behind parent 8 ++ long_to_short_name behind [] 3) in
    let f = long_name_bytes behind parent l i buffer in
    let to4 : (k : ℕ) → k ≢ i + 11 → k ≢ i + 13 → f k ≡ b4 k =
      λ k a b. update_ne (update b4 (i + 11) 15) (i + 13) sum k b ∙ update_ne b4 (i + 11) 15 k a in
    let to3 : (k : ℕ) → k < i + 28 → b4 k ≡ b3 k =
      λ k lt. put_pairs-else behind (name_part_3 l.name) (i + 28) 2 b3 k (inl lt) in
    let to2 : (k : ℕ) → (k < i + 14) ⊎ (i + 26 ≤ k) → b3 k ≡ b2 k =
      λ k far. put_pairs-else behind (name_part_2 l.name) (i + 14) 6 b2 k (ground arith) in
    let to1 : (k : ℕ) → (k < i + 1) ⊎ (i + 11 ≤ k) → b2 k ≡ b1 k =
      λ k far. put_pairs-else behind (name_part_1 l.name) (i + 1) 5 b1 k (ground arith) in
    let to0 : (k : ℕ) → i < k → k < i + 32 → b1 k ≡ 0 = λ k gt lt.
      update_ne buffer i (order_byte l.last l.order) k (omega arith) ∙ clear k (omega arith) lt in
    record {
      order_at =
          to4 i (omega arith) (omega arith)
          ∙ to3 i (omega arith)
          ∙ to2 i (inl (omega arith))
          ∙ to1 i (inl (omega arith))
          ∙ ground arith;
      part_1_at =
          Pairs-ap behind f b2 (i + 1) 5 (name_part_1 l.name)
            (λ k a b.
              to4 k (omega arith) (omega arith) ∙ to3 k (omega arith) ∙ to2 k (inl (omega arith)))
            (put_pairs-Pairs behind (name_part_1 l.name) (i + 1) 5 b1
              (λ k a b. to0 k (omega arith) (omega arith)));
      part_2_at =
          Pairs-ap behind f b3 (i + 14) 6 (name_part_2 l.name)
            (λ k a b. to4 k (omega arith) (omega arith) ∙ to3 k (omega arith))
            (put_pairs-Pairs behind (name_part_2 l.name) (i + 14) 6 b2
              (λ k a b. to1 k (inr (omega arith)) ∙ to0 k (omega arith) (omega arith)));
      part_3_at =
          Pairs-ap behind f b4 (i + 28) 2 (name_part_3 l.name)
            (λ k a b. to4 k (omega arith) (omega arith))
            (put_pairs-Pairs behind (name_part_3 l.name) (i + 28) 2 b3 (λ k a b.
              to2 k (inr (omega arith))
              ∙ to1 k (inr (omega arith))
              ∙ to0 k (omega arith) (omega arith)));
    }

abbrev NoZero : Str → Type 0
NoZero s = All (λ c. c ≢ 0) s

take-NoZero : (n : ℕ) (s : Str) → NoZero s → NoZero (take n s) × NoZero (drop n s)
take-NoZero n s all =
    All-split (λ c. c ≢ 0) (take n s) (drop n s) (subst NoZero (sym (take-append-drop n s)) all)

-- A part is not too long for its place, and has no zero.
part_fits : (part s : Str) (n : ℕ) → part ≡ take n s → NoZero s → (length part ≤ n) × NoZero part
part_fits part s n e all =
    (omega (arith, ap length e, length-take n s), subst NoZero (sym e) (take-NoZero n s all).0)

-- The three parts are read one after another.
name_pieces-LongSays :
    (behind f : ℕ → ℕ) (i : ℕ) (l : LongName)
    → NoZero l.name
    → LongSays behind f i l
    → (name_piece f (i + 28) 2 (name_piece f (i + 14) 6 (name_piece f (i + 1) 5 []))
        ≡ take 13 l.name)
name_pieces-LongSays behind f i l all says =
    let s = l.name in
    let (fits1, all1) = part_fits _ s 5 (name_part_1_lem s) all in
    let (fits2, all2) = part_fits _ (drop 5 s) 6 (name_part_2_lem s) (take-NoZero 5 s all).1 in
    let (fits3, all3) = part_fits _ (drop 11 s) 2 (name_part_3_lem s) (take-NoZero 11 s all).1 in
    ap (λ t. name_piece f (i + 28) 2 (name_piece f (i + 14) 6 t))
      (name_piece-Pairs behind f (i + 1) 5 (name_part_1 s) [] fits1 all1 says.part_1_at)
    ∙ ap (λ t. name_piece f (i + 28) 2 t)
        (name_piece-Pairs behind f (i + 14) 6 (name_part_2 s) _ fits2 all2 says.part_2_at)
    ∙ name_piece-Pairs behind f (i + 28) 2 (name_part_3 s) _ fits3 all3 says.part_3_at
    ∙ name_parts_lem s

order_byte_lem : (last : Bool) (order : ℕ) → order < 32 → order_byte last order % 32 ≡ order
order_byte_lem last order lt = ground arith

-- The bytes of a long name that is written are those of `long_name_bytes` on a cleared entry.
written_long :
    (raw behind : ℕ → ℕ) (parent : Str) (fs : Volume) (l : LongName)
    → fs.di.bytes_per_sector ≡ fs.bytes_per_sector
    → fs.bytes_per_dir_entry ≡ 32
    → l.byte_offset % fs.bytes_per_sector + 32 ≤ fs.bytes_per_sector
    → LongSays behind
        (sector_at raw behind (write_long_name_entry raw behind parent fs l) l.byte_offset)
        (l.byte_offset % fs.bytes_per_sector)
        l
unfolding write_long_name_entry clear_entry
written_long raw behind parent fs l same entry room =
    let b = l.byte_offset in
    let i = b % fs.bytes_per_sector in
    let cleared = clear_entry raw fs b in
    let size : cleared.di.bytes_per_sector ≡ fs.di.bytes_per_sector =
      write_sector_size fs.di (b / fs.bytes_per_sector) _ in
    let buffer = sector_at raw behind cleared b in
    let zeros : (k : ℕ) → i ≤ k → k < i + 32 → buffer k ≡ 0 = λ k le lt.
      let inside : within i fs.bytes_per_dir_entry k ≡ true = ground arith in
      read-write raw fs (b / fs.bytes_per_sector) _ k (omega arith)
      ∙ clear_loop_lem fs.bytes_per_dir_entry _ i k
      ∙ (rw inside refl) in
    let new = sector_at raw behind (write_long_name_entry raw behind parent fs l) b in
    let f = long_name_bytes behind parent l i buffer in
    let back : (j : ℕ) → j < i + 32 → new j ≡ f j =
      λ j lt. read-write raw cleared (b / fs.bytes_per_sector) f j (omega (arith, size, same)) in
    let s = long_name_bytes-LongSays behind parent l i buffer zeros in
    record {
      order_at = back i (omega arith) ∙ s.order_at;
      part_1_at = Pairs-ap behind new f (i + 1) 5 _ (λ k a c. back k (omega arith)) s.part_1_at;
      part_2_at = Pairs-ap behind new f (i + 14) 6 _ (λ k a c. back k (omega arith)) s.part_2_at;
      part_3_at = Pairs-ap behind new f (i + 28) 2 _ (λ k a c. back k (omega arith)) s.part_3_at;
    }

-- A long name that is written and read back has its order and, without the mark of the last one, the
-- first 13 characters of the name.
pub parse_long_name-write_long_name_entry :
    (raw behind : ℕ → ℕ) (parent : Str) (fs : Volume) (l : LongName)
    → fs.di.bytes_per_sector ≡ fs.bytes_per_sector
    → fs.bytes_per_dir_entry ≡ 32
    → l.byte_offset % fs.bytes_per_sector + 32 ≤ fs.bytes_per_sector
    → l.order < 32
    → All (λ c. c ≢ 0) l.name
    → (parse_long_name raw behind (write_long_name_entry raw behind parent fs l) l.byte_offset
        ≡ record l { last = false; name = take 13 l.name })
unfolding parse_long_name write_long_name_entry clear_entry
parse_long_name-write_long_name_entry raw behind parent fs l same entry room small all =
    let b = l.byte_offset in
    let i = b % fs.bytes_per_sector in
    let f = sector_at raw behind (write_long_name_entry raw behind parent fs l) b in
    let says = written_long raw behind parent fs l same entry room in
    let order = ap (λ k. k % 32) says.order_at ∙ order_byte_lem l.last l.order small in
    let name = name_pieces-LongSays behind f i l all says in
    ap
      (λ o.
        let whole : LongName = record {
          byte_offset = b;
          order = o;
          last = false;
          name = name_piece f (i + 28) 2 (name_piece f (i + 14) 6 (name_piece f (i + 1) 5 []));
        } in
        whole)
      order
    ∙ ap
        (λ t.
          let whole : LongName = record {
            byte_offset = b;
            order = l.order;
            last = false;
            name = t;
          } in
          whole)
        name
