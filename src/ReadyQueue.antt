-- ===== src/ReadyQueue.antt =====
-- src/sched/queue.h and src/sched/queue.cpp: the queue of ready processes, a doubly linked list of
-- nodes on the heap, and the process that runs.
pub mod Links
pub mod Fifo
pub mod Rounds
pub mod Cut
pub mod Remove
mod Tests
use cros_kernel.Base.{
  ℕ, zero, suc, ◌+◌, ◌-◌, Bool, ◌==◌, if◌then◌else◌, Option, none, some, Run, ok, out_of_fuel,
  ◌>>=◌, ◌>>◌, need,
}

abbrev pub Ptr : Type 0
Ptr = ℕ

abbrev pub null : Ptr
null = 0

-- `class node`; the value is a pointer to a process.
pub record Node : Type 0 where
  pub value : Ptr
  pub prev : Ptr
  pub next : Ptr

abbrev pub Heap : Type 0
Heap = Ptr → Option Node

-- The fields of `class queue`, and the heap that its nodes are on. `queue_size` is counted up by
-- `enqueue` and down only where it is not 0, so it is never negative.
pub record Queue : Type 0 where
  pub heap : Heap
  pub queue_size : ℕ
  pub front : Ptr
  pub back : Ptr
  pub cur_process : Ptr

-- `heap[a]` becomes `c`; `none` gives the memory back.
unfoldable pub write : Heap → Ptr → Option Node → Heap
write h a c b = if b == a then c else h b

-- `*p`, a fault at the null pointer and where no node is.
abbrev pub load : Heap → Ptr → Run Node
load h p = if p == null then Run.fault else need (h p)

-- `p->next = q` and `p->prev = q`
abbrev pub set_next : Heap → Ptr → Ptr → Run Heap
set_next h p q = load h p >>= λ n. ok (write h p (some (record n { next = q })))

abbrev pub set_prev : Heap → Ptr → Ptr → Run Heap
set_prev h p q = load h p >>= λ n. ok (write h p (some (record n { prev = q })))

-- the constructor, on a heap that other parts of the kernel may use too
abbrev pub new_queue : Heap → Queue
new_queue h = record { heap = h; queue_size = 0; front = null; back = null; cur_process = null }

-- `size` and `empty`
abbrev pub size : Queue → ℕ
size q = q.queue_size

abbrev pub is_empty : Queue → Bool
is_empty q = q.queue_size == 0

-- `new node(process)`, where the allocator returns `fresh`
abbrev pub new_node : Heap → Ptr → Ptr → Run Heap
new_node h fresh process =
    if fresh == null
    then Run.fault
    else ok (write h fresh (some (record { value = process; prev = null; next = null })))

-- `enqueue(process)`; `fresh` is what `new` returns.
unfoldable pub enqueue : Ptr → Ptr → Queue → Run Queue
enqueue fresh process q = do
  h ← new_node q.heap fresh process
  if is_empty q
      then ok (record q { heap = h; front = fresh; back = fresh; queue_size = q.queue_size + 1 })
      else (do
        h ← set_next h q.back fresh
        h ← set_prev h fresh q.back
        ok (record q { heap = h; back = fresh; queue_size = q.queue_size + 1 }))

-- `dequeue()`: null on an empty queue.
pub dequeue : Queue → Run (Ptr × Queue)
dequeue q = if q.queue_size == 0 then ok (null, q) else (do
  n ← load q.heap q.front
  ok (
    n.value,
    record q {
      heap = write q.heap q.front none;
      front = n.next;
      back = if q.back == q.front then null else q.back;
      queue_size = q.queue_size - 1;
    },
  ))

-- What `remove` does to the node that it found.
pub unlink : Queue → Ptr → Node → Run Queue
unlink q cur n = do
  h ← set_next q.heap n.prev n.next
  h ← set_prev h n.next n.prev
  ok (record q { heap = write h cur none })

-- The loop of `remove(pid)`, on fuel. Behind the loop the function ends without a `return`; the
-- result is then `none`, a value that nothing may use.
pub remove_loop : (Ptr → ℕ) → ℕ → ℕ → Ptr → Queue → Run (Option Ptr × Queue)
remove_loop get_pid pid zero cur q = out_of_fuel
remove_loop get_pid pid (suc k) cur q = do
  n ← load q.heap cur
  let rest = remove_loop get_pid pid k n.next q
  if n.next == null
      then ok (none, q)
      else (if get_pid n.value == pid
          then (do q' ← unlink q cur n; ok (some n.value, q'))
          else rest)

-- `remove(pid)`; `get_pid` reads the pid of the process that a pointer leads to.
pub remove : (Ptr → ℕ) → ℕ → ℕ → Queue → Run (Option Ptr × Queue)
remove get_pid fuel pid q = remove_loop get_pid pid fuel q.front q

-- `peek()`
pub peek : Queue → Run Ptr
peek q = load q.heap q.front >>= λ n. ok n.value

abbrev pub set_cur_process : Ptr → Queue → Queue
set_cur_process p q = record q { cur_process = p }

-- the second half of `sched_next()`
pub take_next : Queue → Run (Ptr × Queue)
take_next q =
    if is_empty q then ok (null, q) else (dequeue q >>= λ (p, q'). ok (p, set_cur_process p q'))

-- `sched_next()`; `fresh` is what `new` returns if it is called.
pub sched_next : Ptr → Queue → Run (Ptr × Queue)
sched_next fresh q =
    if q.cur_process == null then take_next q else (enqueue fresh q.cur_process q >>= take_next)
