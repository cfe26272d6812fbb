-- ===== src/Fat32/Paths.antt =====
-- src/fs/fat32/fs_helpers.cpp: the paths of the file system. A string is the list of its characters.
use cros_kernel.Base.{
  ℕ, suc, ◌+◌, ◌-◌, ◌≡◌, refl, ap, ◌∙◌, ◌≢◌, false, ◌||◌, ltb, leb, ◌==◌, ne→==, if◌then◌else◌,
  List, [], ◌∷◌, ◌++◌, length, length-append, take, drop, All, arith,
}
use mathlib.Core.List.{append-nil, append_assoc}

abbrev pub Str : Type 0
Str = List ℕ

-- the character '/'
abbrev pub slash : ℕ
slash = 47

-- `substr(start_index, end_index)` of src/containers/string.cpp: the empty string on indices that are
-- out of range
abbrev pub substr : Str → ℕ → ℕ → Str
substr s start end =
    if leb (length s) start || (leb end start || ltb (length s) end)
    then []
    else take (end - start) (drop start s)

-- The loop of `parse_file_path`: `part` is the name that is being read.
pub parts : Str → Str → List Str
parts part [] = part ∷ []
parts part (c ∷ s) =
    let closed = part ∷ parts [] s in
    let longer = parts (part ++ c ∷ []) s in if c == slash then closed else longer

-- `parse_file_path`: no names in a path that does not begin at the root
pub parse_file_path : Str → List Str
parse_file_path [] = []
parse_file_path (c ∷ s) = if c == slash then parts [] s else []

-- The loop of `snip_file_path`: the index of the last '/' behind the first character.
pub last_slash : ℕ → ℕ → Str → ℕ
last_slash i last [] = last
last_slash i last (c ∷ s) = last_slash (i + 1) (if c == slash then i else last) s

-- `snip_file_path`
pub snip_file_path : Str → Str
snip_file_path s =
    let last = last_slash 1 0 (drop 1 s) in if last == 0 then slash ∷ [] else substr s 0 last

-- A name has no '/' in it.
abbrev pub IsName : Str → Type 0
IsName s = All (λ c. c ≢ slash) s

-- the path of a sequence of names
abbrev pub path_of : List Str → Str
path_of [] = []
path_of (n ∷ ns) = slash ∷ n ++ path_of ns

parts-name :
    (part s : Str) (ns : List Str)
    → IsName s
    → All IsName ns
    → parts part (s ++ path_of ns) ≡ (part ++ s) ∷ ns
unfolding parts
parts-name part [] [] h hs = rw (append-nil part)
parts-name part [] (n ∷ ns) h hs = rw (parts-name [] n ns hs.0 hs.1, append-nil part)
parts-name part (c ∷ s) ns h hs =
    rw (ne→== c slash h.0, parts-name (part ++ c ∷ []) s ns h.1 hs, append_assoc part (c ∷ []) s)

-- `parse_file_path` reads back the names of a path: it inverts the making of a path from one name or
-- more, none of which has a '/' in it.
pub parse_file_path-path_of :
    (n : Str) (ns : List Str) → All IsName (n ∷ ns) → parse_file_path (path_of (n ∷ ns)) ≡ n ∷ ns
unfolding parse_file_path
parse_file_path-path_of n ns h = parts-name [] n ns h.0 h.1

last_slash-name : (i last : ℕ) (s : Str) → IsName s → last_slash i last s ≡ last
unfolding last_slash
last_slash-name i last [] h = refl
last_slash-name i last (c ∷ s) h = rw (ne→== c slash h.0) (last_slash-name (i + 1) last s h.1)

last_slash-append :
    (i last : ℕ) (p s : Str) → IsName s → last_slash i last (p ++ slash ∷ s) ≡ i + length p
unfolding last_slash
last_slash-append i last [] s h = last_slash-name (i + 1) i s h ∙ omega arith
last_slash-append i last (c ∷ p) s h = last_slash-append (i + 1) _ p s h ∙ omega arith

take-length : (p s : Str) → take (length p) (p ++ s) ≡ p
take-length [] s = refl
take-length (c ∷ p) s = ap (λ x. c ∷ x) (take-length p s)

substr-front : (c : ℕ) (p s : Str) → substr (c ∷ p ++ s) 0 (suc (length p)) ≡ c ∷ p
substr-front c p s =
    let a : leb (length (c ∷ p ++ s)) 0 ≡ false = ground arith in
    let b : leb (suc (length p)) 0 ≡ false = ground arith in
    let d : ltb (length (c ∷ p ++ s)) (suc (length p)) ≡ false =
      ground (arith, length-append p s) in
    let e : suc (length p) - 0 ≡ suc (length p) = omega arith in
    rw (a, b, d, e) (ap (λ x. c ∷ x) (take-length p s))

-- `snip_file_path` takes the last name off a path of two names or more, and leaves "/" of a path of
-- one name.
pub snip_file_path-path_of :
    (n : Str) (ns : List Str) (last : Str)
    → IsName last
    → (snip_file_path (path_of (n ∷ ns) ++ slash ∷ last) ≡ path_of (n ∷ ns))
      × (snip_file_path (slash ∷ last) ≡ slash ∷ [])
unfolding snip_file_path
snip_file_path-path_of n ns last h =
    let p : Str = n ++ path_of ns in
    let e : last_slash 1 0 (p ++ slash ∷ last) ≡ suc (length p) =
      last_slash-append 1 0 p last h ∙ omega arith in
    let z : (suc (length p) == 0) ≡ false = ground arith in
    (rw (e, z) (substr-front slash p (slash ∷ last)), rw (last_slash-name 1 0 last h))
