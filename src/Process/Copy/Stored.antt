-- ===== src/Process/Copy/Stored.antt =====
-- The files of a copied process: those of the other one, under the same descriptors.
use mathlib.Core.Path.{subst}
use cros_kernel.Base.{
  ℕ, some-eq, ◌+◌, ◌%◌, ◌^◌, ◌≢◌, ne→==, ◌||◌, ◌≡◌, refl, sym, ◌∙◌, ap, true, false, if◌then◌else◌,
  Bool-cases, inl, inr, Option, none, some, List, [], ◌∷◌, map, All, All-mono, arith, ℤ, ltb_ℤ, ok,
  ◌==◌,
}
use cros_kernel.SearchTree.{Tree, differs, contains, get, insert, new_tree}
use cros_kernel.SearchTree.Order.{inorder}
use cros_kernel.SearchTree.Lookup.{IsStrict, lookup, found, lookup-none, get-lookup}
use cros_kernel.SearchTree.Update.{add_rec-lookup}
use cros_kernel.Context.{new_context, function_call}
use cros_kernel.Process.{
  active, SignalAction, Process, Counts, new_object, add_reference, store_file_context_at,
}
use cros_kernel.Process.Files.{IsTable, file_of}
use cros_kernel.Process.Copy.{
  store_files, share, keep_counts, zero_references, refer, copy_process, clone,
}

-- the file of a descriptor in a list of them, or else one that was there
abbrev pub over : Option ℕ → Option ℕ → Option ℕ
over none o = o
over (some f) o = some f

-- what `copy` makes of the files of a list, one after another
unfoldable pub copies : {W : Type 0} → (ℕ → W → ℕ × W) → List (ℤ × ℕ) → W → List (ℤ × ℕ) × W
copies copy [] w = ([], w)
copies copy (e ∷ es) w =
    let (g, w') = copy e.1 w in let (gs, w'') = copies copy es w' in ((e.0, g) ∷ gs, w'')

-- None of the files is a null pointer.
abbrev pub NoNull : List (ℤ × ℕ) → Type 0
NoNull es = All (λ (e : ℤ × ℕ). e.1 ≢ 0) es

copies-keys :
    {W : Type 0} (P : ℤ → Type 0) (copy : ℕ → W → ℕ × W) (es : List (ℤ × ℕ)) (w : W)
    → All (λ (e : ℤ × ℕ). P e.0) es
    → All (λ (e : ℤ × ℕ). P e.0) (copies copy es w).0
unfolding copies
copies-keys P copy [] w h = tt
copies-keys P copy (e ∷ es) w h = (h.0, copies-keys P copy es (copy e.1 w).1 h.1)

copies-share : (es : List (ℤ × ℕ)) → (copies share es tt).0 ≡ es
unfolding copies
copies-share [] = refl
copies-share (e ∷ es) = ap (λ l. e ∷ l) (copies-share es)

differs_above :
    (fd j : ℤ) (es : List (ℤ × ℕ))
    → differs fd j ≡ false
    → All (λ (f : ℤ × ℕ). ltb_ℤ fd f.0 ≡ true) es
    → All (λ (f : ℤ × ℕ). differs f.0 j ≡ true) es
differs_above fd j es d above =
    All-mono (λ (f : ℤ × ℕ). ltb_ℤ fd f.0 ≡ true) (λ (f : ℤ × ℕ). differs f.0 j ≡ true) es
      (λ f lt. ground arith) above

still_none :
    (fd j : ℤ) (v : ℕ) (o : Option ℕ)
    → ltb_ℤ fd j ≡ true
    → o ≡ none
    → (if differs fd j then o else some v) ≡ none
still_none fd j v o lt e = ground arith

over-cons :
    (fd : ℤ) (g : ℕ) (j : ℤ) (gs : List (ℤ × ℕ)) (o : Option ℕ)
    → All (λ (g : ℤ × ℕ). ltb_ℤ fd g.0 ≡ true) gs
    → over (lookup j gs) (if differs fd j then o else some g) ≡ over (lookup j ((fd, g) ∷ gs)) o
over-cons fd g j gs o above = elim (Bool-cases (differs fd j)) [
  | inl y ↦ rw y refl
  | inr y ↦
      let gone_below = lookup-none j gs (differs_above fd j gs y above) in rw (y, gone_below) refl
]

All-zip :
    {A : Type 0} (P Q R : A → Type 0) (xs : List A)
    → ((x : A) → P x → Q x → R x)
    → All P xs
    → All Q xs
    → All R xs
All-zip P Q R [] h p q = tt
All-zip P Q R (x ∷ xs) h p q = (h x p.0 q.0, All-zip P Q R xs h p.1 q.1)

-- What `store_files` leaves, for the files `gs` on a process `q`.
pub record Stored (gs : List (ℤ × ℕ)) (q q' : Process) : Type 0 where
  pub table : IsTable q'
  pub files_are : (j : ℤ) → file_of q' j ≡ over (lookup j gs) (file_of q j)
  pub rest_is : record q { files = q'.files } ≡ q'

store_files-Stored :
    {W : Type 0} (copy : ℕ → W → ℕ × W) (made : ℕ → Counts → Counts) (t : Tree ℕ)
    → (es : List (ℤ × ℕ)) (q : Process) (counts : Counts) (w : W) → IsStrict es
    → All (λ (e : ℤ × ℕ). get t e.0 ≡ ok e.1) es
    → NoNull es
    → NoNull (copies copy es w).0
    → IsTable q
    → All (λ (e : ℤ × ℕ). file_of q e.0 ≡ none) es
    → (q' : Process) × (counts' : Counts) × (store_files copy made t
          (map (λ e. e.0) es)
          (q, counts, w)
        ≡ ok (q', counts', (copies copy es w).1))
      × Stored (copies copy es w).0 q q'
unfolding store_files store_file_context_at copies
store_files-Stored copy made t [] q counts w strict there some_file some_copy table new =
    (q, counts, refl, record { table = table; files_are = λ j. refl; rest_is = refl })
store_files-Stored copy made t (e ∷ es) q counts w strict there some_file some_copy table new =
    let (fd, f) = e in
    let (g, w') = copy f w in
    let gs = (copies copy es w').0 in
    let q1 = record q { files = insert q.files fd g } in
    let counts1 = add_reference g (made g counts) in
    let (table1, at1) = add_rec-lookup q.files.root fd g table new.0 in
    let free : contains q.files.root fd ≡ false =
      (get-lookup q.files.root fd table).0 ∙ ap found new.0 in
    let not_null : (f == 0 || g == 0) ≡ false =
      rw (ne→== f 0 some_file.0, ne→== g 0 some_copy.0) refl in
    let new1 =
      All-zip _ _ (λ (e' : ℤ × ℕ). file_of q1 e'.0 ≡ none) es
        (λ e' lt none_there. at1 e'.0 ∙ still_none fd e'.0 g _ lt none_there) strict.0 new.1 in
    let (q', counts', run, r) =
      store_files-Stored copy made t es q1 counts1 w' strict.1 there.1 some_file.1 some_copy.1
        table1 new1 in
    let above = copies-keys (λ i. ltb_ℤ fd i ≡ true) copy es w' strict.0 in
    (
      q',
      counts',
      rw (there.0, free, not_null) run,
      record {
        table = r.table;
        files_are = λ j.
            r.files_are j
            ∙ ap (over (lookup j gs)) (at1 j)
            ∙ over-cons fd g j gs (file_of q j) above;
        rest_is = r.rest_is;
      },
    )

-- Each entry is found under its key.
lookup_each : (es : List (ℤ × ℕ)) → IsStrict es → All (λ (e : ℤ × ℕ). lookup e.0 es ≡ some e.1) es
lookup_each [] s = tt
lookup_each (e ∷ es) s = (
  ground arith,
  All-zip _ _ (λ (e' : ℤ × ℕ). lookup e'.0 (e ∷ es) ≡ some e'.1) es (λ e' lt h. ground arith) s.0
      (lookup_each es s.1),
)

All-none : (es : List (ℤ × ℕ)) → All (λ (e : ℤ × ℕ). ◌≡◌ {A = Option ℕ} none none) es
All-none [] = tt
All-none (e ∷ es) = (refl, All-none es)

over-none : (o : Option ℕ) → over o none ≡ o
over-none none = refl
over-none (some f) = refl

-- the files of a process under their descriptors, in order
abbrev pub file_list : Process → List (ℤ × ℕ)
file_list p = inorder p.files.root

get_each :
    (p : Process) → IsTable p → All (λ (e : ℤ × ℕ). get p.files.root e.0 ≡ ok e.1) (file_list p)
get_each p table =
    All-mono (λ (e : ℤ × ℕ). lookup e.0 (file_list p) ≡ some e.1)
      (λ (e : ℤ × ℕ). get p.files.root e.0 ≡ ok e.1) (file_list p)
      (λ e h. (get-lookup p.files.root e.0 table).1 e.1 h) (lookup_each (file_list p) table)

lookup-NoNull : (gs : List (ℤ × ℕ)) (j : ℤ) (v : ℕ) → NoNull gs → lookup j gs ≡ some v → v ≢ 0
lookup-NoNull [] j v all e = cc
lookup-NoNull (g ∷ gs) j v all e = elim (Bool-cases (differs g.0 j)) [
  | inl y ↦ let z : lookup j gs ≡ some v = rw y at e in lookup-NoNull gs j v all.1 z
  | inr y ↦ let z : some g.1 ≡ some v = rw y at e in λ n. all.0 (some-eq z ∙ n)
]

-- A process that has the files of a list without null pointers has no null pointer.
NoNull-files :
    (gs : List (ℤ × ℕ)) (q : Process)
    → NoNull gs
    → IsTable q
    → ((j : ℤ) → file_of q j ≡ lookup j gs)
    → NoNull (file_list q)
NoNull-files gs q all table are =
    All-mono (λ (e : ℤ × ℕ). lookup e.0 (file_list q) ≡ some e.1) (λ (e : ℤ × ℕ). e.1 ≢ 0)
      (file_list q) (λ e h. lookup-NoNull gs e.0 e.1 all (sym (are e.0) ∙ h))
      (lookup_each (file_list q) table)

-- `copy_process` of a process, each of whose descriptors has one file, succeeds: the copy has the same
-- file under each descriptor, and the same state, registers, handlers and address space.
pub copy_process-Stored :
    (p : Process) (counts : Counts)
    → IsTable p
    → NoNull (file_list p)
    → (p' : Process) × (counts' : Counts) × (copy_process (p, counts) ≡ ok (p', counts'))
      × IsTable p'
      × ((j : ℤ) → file_of p' j ≡ file_of p j)
      × (record p { files = p'.files } ≡ p')
unfolding copy_process
copy_process-Stored p counts table some_file =
    let es = file_list p in
    let shared = copies-share es in
    let (p', counts', run, r) =
      store_files-Stored share keep_counts p.files.root es (record p { files = new_tree })
        (refer p.address_space counts) tt table (get_each p table) some_file
        (subst NoNull (sym shared) some_file) tt (All-none es) in
    (
      p',
      counts',
      rw run refl,
      r.table,
      λ j. r.files_are j ∙ over-none (lookup j (copies share es tt).0) ∙ ap (lookup j) shared,
      r.rest_is,
    )

-- What a clone is: a child of the process with its address space, that starts in the function given, and
-- has the files `gs`.
pub record IsClone (gs : List (ℤ × ℕ)) (base : ℕ) (pid : ℤ) (pc stack userdata : ℕ) (p c : Process)
    : Type 0 where
  pub table : IsTable c
  pub files_are : (j : ℤ) → file_of c j ≡ lookup j gs
  pub no_null : NoNull (file_list c)
  pub pid_is : c.pid ≡ pid
  pub parent_is : c.parent ≡ p.pid
  pub state_is : c.state ≡ active
  pub space_is : c.address_space ≡ p.address_space
  pub ctx_is : c.ctx ≡ function_call pc 0 userdata (new_context pc stack ((base + 2 ^ 16) % 2 ^ 64))

-- `clone` of a process with an address space, each of whose descriptors has one file, succeeds if there
-- is memory for the stack of the kernel and for the copies: each descriptor of the clone has the object
-- that `copy` makes at its turn.
pub clone-IsClone :
    {W : Type 0} (raw : ℕ → SignalAction) (copy : ℕ → W → ℕ × W) (base : ℕ) (pid : ℤ)
    → (pc stack userdata : ℕ) (p : Process) (counts : Counts) (w : W) → base ≢ 0
    → p.address_space ≢ 0
    → IsTable p
    → NoNull (file_list p)
    → NoNull (copies copy (file_list p) w).0
    → (c : Process) × (counts' : Counts) × (clone raw copy base pid pc stack userdata (p, counts, w)
        ≡ ok (some c, counts', (copies copy (file_list p) w).1))
      × IsClone (copies copy (file_list p) w).0 base pid pc stack userdata p c
unfolding clone
clone-IsClone raw copy base pid pc stack userdata p counts w memory space table some_file
      some_copy =
    let es = file_list p in
    let c0 = new_object raw pid p.pid pc stack ((base + 2 ^ 16) % 2 ^ 64) p.address_space in
    let (c, counts', run, r) =
      store_files-Stored copy zero_references p.files.root es
        (record c0 { ctx = function_call pc 0 userdata c0.ctx })
        (add_reference p.address_space counts) w table (get_each p table) some_file some_copy tt
        (All-none es) in
    let gs = (copies copy es w).0 in
    let are : (j : ℤ) → file_of c j ≡ lookup j gs = λ j. r.files_are j ∙ over-none (lookup j gs) in
    (
      c,
      counts',
      rw (ne→== base 0 memory, ne→== p.address_space 0 space, run) refl,
      record {
        table = r.table;
        files_are = are;
        no_null = NoNull-files gs c some_copy r.table are;
        pid_is = sym (ap (λ x. x.pid) r.rest_is);
        parent_is = sym (ap (λ x. x.parent) r.rest_is);
        state_is = sym (ap (λ x. x.state) r.rest_is);
        space_is = sym (ap (λ x. x.address_space) r.rest_is);
        ctx_is = sym (ap (λ x. x.ctx) r.rest_is);
      },
    )
