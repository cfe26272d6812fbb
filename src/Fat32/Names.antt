-- ===== src/Fat32/Names.antt =====
-- src/fs/fat32/entry_helpers.cpp: the names of files and directories in the entries of the disk. A
-- string is the list of its characters, none of them 0; `behind` is the memory behind the end of a
-- string, where the code reads past it.
pub mod Text
pub mod Buffers
pub mod Pairs
pub mod Entries
pub mod Parts
mod Tests
use cros_kernel.Base.{
  ℕ, zero, suc, ◌+◌, ◌-◌, ◌*◌, ◌/◌, ◌%◌, ◌^◌, Bool, true, false, ◌||◌, ◌&&◌, ltb, leb, ◌==◌,
  if◌then◌else◌, Option, none, some, List, [], ◌∷◌, ◌++◌, length, drop, get_elem?, update, Run, ok,
  ◌>>=◌, need,
}
use cros_kernel.Fat32.Bytes.{
  chars_to_unicode, bytes_to_short, bytes_to_int, short_to_bytes, int_to_bytes,
}
use cros_kernel.Fat32.Paths.{Str, substr}
use cros_kernel.Fat32.Table as Table
use cros_kernel.Fat32.Table.{
  Volume, EntryAttribute, file, directory, empty, long_name, root_entry, is_file, Entry, read,
  write, parse_attribute, clear_entry, find_cluster_allocations,
}

-- `s[i]`: 0 at the end of the string
abbrev pub char_at : (ℕ → ℕ) → Str → ℕ → ℕ
char_at behind [] zero = 0
char_at behind [] (suc i) = behind i
char_at behind (c ∷ s) zero = c
char_at behind (c ∷ s) (suc i) = char_at behind s i

-- `s += c`, which adds nothing where `c` is 0
abbrev pub append_char : Str → ℕ → Str
append_char s c = if c == 0 then s else s ++ c ∷ []

-- `substr(start_index)` of src/containers/string.cpp
abbrev pub substr_from : Str → ℕ → Str
substr_from s start = if leb (length s) start then [] else drop start s

-- the other characters that a short name may have
abbrev pub is_special : ℕ → Bool
is_special c =
    c == 36
    || (c == 37
        || (c == 39
            || (c == 45
                || (c == 95
                    || (c == 64
                        || (c == 126
                            || (c == 96
                                || (c == 33
                                    || (c == 40
                                        || (c == 41
                                            || (c == 123
                                                || (c == 125
                                                    || (c == 94
                                                        || (c == 35
                                                            || (c == 38 || c == 46)))))))))))))))

-- what a character adds to a short name
pub short_char : ℕ → Str
short_char c =
    if leb 65 c && leb c 90
    then c ∷ []
    else if leb 97 c && leb c 122
    then (c - 32) ∷ []
    else if is_special c
    then c ∷ []
    else []

-- the first loop of `long_to_short_name`, on the `n` characters left from `i` on
pub short_loop : (ℕ → ℕ) → Str → ℕ → ℕ → Str
short_loop behind s i zero = []
short_loop behind s i (suc n) = short_char (char_at behind s i) ++ short_loop behind s (i + 1) n

pub spaces : ℕ → Str
spaces zero = []
spaces (suc n) = 32 ∷ spaces n

-- `long_to_short_name(long_name, len)`
pub long_to_short_name : (ℕ → ℕ) → Str → ℕ → Str
long_to_short_name behind s len =
    let short = short_loop behind s 0 len in short ++ spaces (len - length short)

-- `buffer[start + j] = s[j]` for the `n` places left from `j` on
pub put_chars : (ℕ → ℕ) → Str → ℕ → ℕ → ℕ → (ℕ → ℕ) → ℕ → ℕ
put_chars behind s start j zero buffer = buffer
put_chars behind s start j (suc n) buffer =
    put_chars behind s start (j + 1) n (update buffer (start + j) (char_at behind s j))

-- the `n` characters from `i` on that are not spaces
pub read_chars : (ℕ → ℕ) → ℕ → ℕ → Str → Str
read_chars buffer i zero name = name
read_chars buffer i (suc n) name =
    read_chars buffer (i + 1) n (if buffer i == 32 then name else append_char name (buffer i))

-- a long file name entry in memory
pub record LongName : Type 0 where
  pub byte_offset : ℕ
  pub order : ℕ
  pub last : Bool
  pub name : Str

-- an entry of a file or directory with its names
pub record Named : Type 0 where
  pub entry : Entry
  pub name : Str
  pub extension : Str
  pub long_name_entries : List LongName

-- One of the three loops of `parse_long_name`, on the `n` pairs of bytes left from `i` on. It stops at a
-- pair that is all ones.
pub name_piece : (ℕ → ℕ) → ℕ → ℕ → Str → Str
name_piece buffer i zero name = name
name_piece buffer i (suc n) name =
    let rest = name_piece buffer (i + 2) n (append_char name (buffer i)) in
    if chars_to_unicode (buffer i) (buffer (i + 1)) == 65535 then name else rest

-- One of the last three loops of `write_long_name_entry`, for the `n` places left from `j` on.
pub put_pairs : (ℕ → ℕ) → Str → ℕ → ℕ → ℕ → (ℕ → ℕ) → ℕ → ℕ
put_pairs behind part start j zero buffer = buffer
put_pairs behind part start j (suc n) buffer = put_pairs behind part start (j + 1) n (
    if j == length part
    then update buffer (start + j * 2) 0
    else if ltb (length part) j
    then update (update buffer (start + j * 2) 255) (start + j * 2 + 1) 255
    else update buffer (start + j * 2) (char_at behind part j))

-- `name_part_1` to `name_part_3`
abbrev pub name_part_1 : Str → Str
name_part_1 s = if leb (length s) 5 then substr_from s 0 else substr s 0 5

abbrev pub name_part_2 : Str → Str
name_part_2 s =
    if leb (length s) 5 then [] else if leb (length s) 11 then substr_from s 5 else substr s 5 11

abbrev pub name_part_3 : Str → Str
name_part_3 s =
    if leb (length s) 11 then [] else if leb (length s) 13 then substr_from s 11 else substr s 11 13

-- the loop that computes the checksum
pub checksum_of : ℕ → Str → ℕ
checksum_of sum [] = sum
checksum_of sum (c ∷ s) = checksum_of (((if sum % 2 == 1 then 128 else 0) + sum / 2 + c) % 256) s

-- the first byte of a long file name entry
abbrev pub order_byte : Bool → ℕ → ℕ
order_byte last order =
    let b = order % 256 in if last then (if b / 64 % 2 == 1 then b else b + 64) else b

-- what `write_long_name_entry` writes from the byte `i` on
abbrev pub long_name_bytes : (ℕ → ℕ) → Str → LongName → ℕ → (ℕ → ℕ) → ℕ → ℕ
long_name_bytes behind parent l i buffer =
    let b1 = update buffer i (order_byte l.last l.order) in
    let b2 = put_pairs behind (name_part_1 l.name) (i + 1) 0 5 b1 in
    let b3 = put_pairs behind (name_part_2 l.name) (i + 14) 0 6 b2 in
    let b4 = put_pairs behind (name_part_3 l.name) (i + 28) 0 2 b3 in
    let short = long_to_short_name behind parent 8 ++ long_to_short_name behind [] 3 in
    update (update b4 (i + 11) 15) (i + 13) (checksum_of 0 short)

-- what `write_dir_entry` writes from the byte `i` on, for the first cluster given
abbrev pub dir_entry_bytes : (ℕ → ℕ) → Named → ℕ → ℕ → (ℕ → ℕ) → ℕ → ℕ
dir_entry_bytes behind e cluster i buffer =
    let b1 = put_chars behind (long_to_short_name behind e.name 8) i 0 8 buffer in
    let b2 = put_chars behind (long_to_short_name behind e.extension 3) (i + 8) 0 3 b1 in
    let b3 = update b2 (i + 11) (if is_file e.entry.type then 32 else 16) in
    let b4 = short_to_bytes (cluster / 2 ^ 16 % 2 ^ 16) b3 (i + 20) in
    let b5 = short_to_bytes (cluster % 2 ^ 16) b4 (i + 26) in
    int_to_bytes e.entry.file_size_bytes b5 (i + 28)
