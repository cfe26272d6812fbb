-- ===== src/Process/Copy.antt =====
-- The copies of a process in src/sched/process.cpp, its assignment, and its `exec`. The loops over the files visit the
-- descriptors in order.
pub mod Stored
pub mod Moved
use cros_kernel.Base.{
  ℕ, ◌||◌, update, ◌+◌, ◌%◌, ◌^◌, not, ltb, ◌==◌, if◌then◌else◌, Option, none, some, List, [], ◌∷◌,
  map, ℤ, pos, negsuc, ltb_ℤ, Run, ok, fault, ◌>>=◌,
}
use cros_kernel.Context.{function_call, set_program_counter, set_stack_pointer, set_kernel_stack}
use cros_kernel.SearchTree.{Tree, leaf, node, get, new_tree}
use cros_kernel.SearchTree.Order.{inorder}
use cros_kernel.Process.{
  State, active, signal, sigwait, SignalAction, Process, Counts, add_reference, remove_reference,
  new_process, store_file_context_at,
}

abbrev pub descriptors : Tree ℕ → List ℤ
descriptors t = map (λ e. e.0) (inorder t)

-- `storeFileContext(copy(files.get(fd)), fd)` for the descriptors that are left, in a process that has
-- none of them. `copy` runs for each of them, on the state `w` of the files; `made` is what it does to
-- the references. A null pointer is a fault: both `copy` and `addReference` follow it.
unfoldable pub store_files :
    {W : Type 0}
    → (ℕ → W → ℕ × W)
    → (ℕ → Counts → Counts)
    → Tree ℕ
    → List ℤ
    → Process × Counts × W
    → Run (Process × Counts × W)
store_files copy made files [] s = ok s
store_files copy made files (fd ∷ fds) (p, counts, w) =
    let rest = store_files copy made files fds in
    get files fd >>= λ f.
    let (g, w') = copy f w in
    let (r, p', counts') = store_file_context_at g fd (p, made g counts) in
    if f == 0 || g == 0 then fault else rest (p', counts', w')

-- the files themselves
abbrev pub share : ℕ → Unit {0} → ℕ × Unit {0}
share f w = (f, w)

abbrev pub keep_counts : ℕ → Counts → Counts
keep_counts f counts = counts

-- A new object has no references.
abbrev pub zero_references : ℕ → Counts → Counts
zero_references g counts = update counts g (pos 0)

-- The loop over the files of another process that stores them in `p`.
abbrev pub share_files : Process → Process × Counts → Run (Process × Counts)
share_files other (p, counts) =
    store_files share keep_counts other.files.root (descriptors other.files.root) (p, counts, tt)
    >>= λ (p', counts', w). ok (p', counts')

-- the references behind a pointer to an address space that is copied
abbrev pub refer : ℕ → Counts → Counts
refer a counts = if a == 0 then counts else add_reference a counts

-- `Process(other)`, whose files are those of the other
unfoldable pub copy_process : Process × Counts → Run (Process × Counts)
copy_process (p, counts) =
    share_files p (record p { files = new_tree }, refer p.address_space counts)

-- `clone(pid, pc, stack, userdata)`, where the allocator returns `base`, and `copy` is the `copy` of a
-- file: the address of the object that it makes, or 0, and what becomes of the state of the files.
-- `none` is the null pointer.
unfoldable pub clone :
    {W : Type 0}
    → (ℕ → SignalAction)
    → (ℕ → W → ℕ × W)
    → ℕ
    → ℤ
    → ℕ
    → ℕ
    → ℕ
    → Process × Counts × W
    → Run (Option Process × Counts × W)
clone raw copy base pid pc stack userdata (p, counts, w) =
    let made =
      new_process raw pid p.pid pc stack ((base + 2 ^ 16) % 2 ^ 64) p.address_space counts
      >>= λ (c, counts').
          store_files copy zero_references p.files.root (descriptors p.files.root)
            (record c { ctx = function_call pc 0 userdata c.ctx }, counts', w)
          >>= λ (c', counts'', w'). ok (some c', counts'', w') in
    if base == 0 then ok (none, counts, w) else made

-- The references behind one that is given up, and the objects that are deleted.
abbrev pub give_up : ℕ → Counts → Counts × List ℕ
give_up a counts =
    let counts' = remove_reference a counts in
    (counts', if ltb_ℤ (pos 0) (counts' a) then [] else a ∷ [])

-- `operator=`, which makes the process `p` a copy of the other, with the address spaces that are deleted.
-- It closes the files of `p` while it walks over the tree that holds them, so its iterator is left on
-- nodes that are gone: a fault where there are files.
unfoldable pub assign : Process → Process × Counts → Run (Process × Counts × List ℕ)
assign other (p, counts) =
    let (left, freed) =
      if p.address_space == 0 || p.address_space == other.address_space
      then (counts, [])
      else give_up p.address_space counts in
    let whole =
      share_files other (record other { files = p.files }, refer other.address_space left)
      >>= λ (p', counts'). ok (p', counts', freed) in
    elim p.files.root [ leaf ↦ whole | node l k v h r ↦ fault ]

-- `exec(pc, stack, kernelStack, addressSpace)` behind its test of the state: a fault where the new
-- address space is null
abbrev pub start_image : ℕ → ℕ → ℕ → ℕ → Process × Counts → Run (ℤ × Process × Counts × List ℕ)
start_image pc stack kernel_stack address_space (p, counts) =
    let (counts', freed) =
      if p.address_space == 0 then (counts, []) else give_up p.address_space counts in
    if address_space == 0
    then fault
    else ok (
      pos 0,
      record p {
        address_space = address_space;
        ctx =
            set_kernel_stack kernel_stack (set_stack_pointer stack (set_program_counter pc p.ctx));
      },
      add_reference address_space counts',
      freed,
    )

-- `exec`, with the address spaces that are deleted
abbrev pub exec : ℕ → ℕ → ℕ → ℕ → Process × Counts → Run (ℤ × Process × Counts × List ℕ)
exec pc stack kernel_stack address_space (p, counts) = elim p.state [
  | active ↦ start_image pc stack kernel_stack address_space (p, counts)
  | signal ↦ ok (negsuc 0, p, counts, [])
  | sigwait ↦ ok (negsuc 0, p, counts, [])
]

-- The destructor, with the address spaces that are deleted. It closes the files while it walks over the
-- tree that holds them, so its iterator is left on nodes that are gone: a fault where there are files.
abbrev pub destroy : Process × Counts → Run (Counts × List ℕ)
destroy (p, counts) =
    if p.address_space == 0
    then fault
    else (elim p.files.root [ leaf ↦ ok (give_up p.address_space counts) | node l k v h r ↦ fault ])
