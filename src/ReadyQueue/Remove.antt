-- ===== src/ReadyQueue/Remove.antt =====
-- `remove(pid)` of src/sched/queue.cpp: it takes out a node that has one on either side, and no
-- other.
use mathlib.Core.Path.{ap₂}
use cros_kernel.Base.{◌>>=◌, Run}
use cros_kernel.Base.{
  ℕ, zero, suc, ◌+◌, ◌-◌, ◌≤◌, ◌<◌, ◌≡◌, refl, sym, ap, ◌∙◌, ◌≢◌, true, false, none, some, [], ◌∷◌,
  ◌++◌, arith, length, All, ok, fault, ==_iff, ne→==, ◌==◌,
}
use cros_kernel.ReadyQueue.{Ptr, null, Queue, unlink, dequeue, remove_loop, remove}
use cros_kernel.ReadyQueue.Fifo.{dequeue-cons}
use cros_kernel.ReadyQueue.Links.{
  Cells, IsDistinct, first_of, last_of, node, Links, Holds, IsQueue, write_ne, not-has-cons,
}
use cros_kernel.ReadyQueue.Cut.{
  cut, rest, first_of-cut, Links-cut, IsDistinct-cut, last_of-cut, Links-at, IsDistinct-at,
  length-cut, Links-end, first-ne-null,
}

module _ (get_pid : Ptr → ℕ) (pid : ℕ) where
  -- The loop passes the nodes of other processes that have a node behind them.
  loop-skip :
      (q : Queue) (pv : Ptr) (pre : Cells) (r z : Ptr) (ys : Cells) (k : ℕ)
      → Links q.heap pv (pre ++ (r, z) ∷ ys)
      → All (λ c. get_pid c.1 ≢ pid) pre
      → remove_loop get_pid pid (length pre + k) (first_of (pre ++ (r, z) ∷ ys)) q
        ≡ remove_loop get_pid pid k r q
  unfolding remove_loop
  loop-skip q pv [] r z ys k l other = let e : 0 + k ≡ k = omega arith in rw e
  loop-skip q pv ((c, x) ∷ pre) r z ys k l other =
      let e : suc (length pre) + k ≡ suc (length pre + k) = omega arith in
      let nx : Ptr = first_of (pre ++ (r, z) ∷ ys) in
      rw
        (
          e,
          ne→== c null l.0,
          l.1,
          ne→== nx null (first-ne-null q.heap c pre r z ys l.2),
          ne→== (get_pid x) pid other.0,
        )
        (loop-skip q c pre r z ys k l.2 other.1)

  -- The loop finds a node that has one on either side.
  loop-found :
      (q : Queue) (pv p u a v b w : Ptr) (post : Cells) (k : ℕ)
      → Links q.heap pv (rest p u a v b w post)
      → IsDistinct (rest p u a v b w post)
      → get_pid v ≡ pid
      → remove_loop get_pid pid (suc k) a q
        ≡ ok (some v, record q { heap = cut q.heap p u pv a b w (first_of post) })
  unfolding remove_loop unlink
  loop-found q pv p u a v b w post k l d it =
      let (pb, _) = not-has-cons p b w post (not-has-cons p a v ((b, w) ∷ post) d.0).1 in
      rw (
        ne→== a null l.2.0,
        l.2.1,
        ne→== b null l.2.2.0,
        (==_iff (get_pid v) pid).1 it,
        ne→== p null l.0,
        l.1,
        write_ne q.heap p b (some (node u pv b)) (λ e. pb (sym e)),
        l.2.2.1,
      )

  -- `remove` of a process whose node has one on either side, and is the first of that pid: it
  -- returns that process, and leaves the other nodes linked in their order and the running process;
  -- but the queue then counts one node more than it has.
  pub remove-between :
      {q : Queue} (pre : Cells) (p u a v b w : Ptr) (post : Cells) (fuel : ℕ)
      → IsQueue q (pre ++ rest p u a v b w post)
      → All (λ c. get_pid c.1 ≢ pid) pre
      → get_pid u ≢ pid
      → get_pid v ≡ pid
      → length pre + 2 ≤ fuel
      → (q' : Queue) × (remove get_pid fuel pid q ≡ ok (some v, q'))
        × Holds 1 q' (pre ++ (p, u) ∷ (b, w) ∷ post)
        × (q'.cur_process ≡ q.cur_process)
  unfolding remove
  remove-between {q} pre p u a v b w post fuel is other nu it enough =
      let j : ℕ = fuel - length pre - 2 in
      let e : fuel ≡ length pre + suc (suc j) = omega arith in
      let l = Links-at p u a v b w post q.heap is.stale pre is.links in
      let one : Cells = (p, u) ∷ [] in
      let e1 : length one + suc j ≡ suc (suc j) = omega arith in
      (
        record q { heap = cut q.heap p u (last_of is.stale pre) a b w (first_of post) },
        ap₂ (λ k c. remove_loop get_pid pid k c q) e is.front_is
            ∙ (loop-skip q is.stale pre p u ((a, v) ∷ (b, w) ∷ post) (suc (suc j)) is.links other
                ∙ ap (λ k. remove_loop get_pid pid k p q) (sym e1)
                ∙ loop-skip q _ ((p, u) ∷ []) a v ((b, w) ∷ post) (suc j) l (nu, tt)
                ∙ loop-found q (last_of is.stale pre) p u a v b w post j l
                    (IsDistinct-at p u a v b w post pre is.distinct) it),
        record {
          stale = is.stale;
          links = Links-cut p u a v b w post q.heap is.stale pre is.links is.distinct;
          distinct = IsDistinct-cut p u a v b w post pre is.distinct;
          front_is = is.front_is ∙ first_of-cut p u a v b w post pre;
          back_is = is.back_is ∙ last_of-cut p u a v b w post null pre;
          size_is = omega (arith, is.size_is, length-cut p u a v b w post pre);
        },
        refl,
      )

  -- `remove` on an empty queue reads through the null pointer.
  remove-nil : {q : Queue} (fuel : ℕ) → IsQueue q [] → 0 < fuel → remove get_pid fuel pid q ≡ fault
  unfolding remove remove_loop
  remove-nil zero is pos = absurd (omega arith)
  remove-nil {q} (suc k) is pos = let e : (q.front == null) ≡ true = ground arith in rw e

  -- `remove` of a process that waits in the first node, in a queue that `dequeue` never shortened,
  -- writes through the null pointer.
  pub remove-front :
      {q : Queue} (f v g w : Ptr) (post : Cells) (fuel : ℕ)
      → (is : IsQueue q ((f, v) ∷ (g, w) ∷ post)) → is.stale ≡ null
      → get_pid v ≡ pid
      → 0 < fuel
      → remove get_pid fuel pid q ≡ fault
  unfolding remove remove_loop unlink
  remove-front f v g w post zero is st it pos = absurd (omega arith)
  remove-front {q} f v g w post (suc k) is st it pos =
      let e : q.heap f ≡ some (node v null g) = is.links.1 ∙ ap (λ s. some (node v s g)) st in
      rw (
        is.front_is,
        ne→== f null is.links.0,
        e,
        ne→== g null is.links.2.0,
        (==_iff (get_pid v) pid).1 it,
      )

  loop-last :
      (q : Queue) (pv a v : Ptr) (k : ℕ)
      → a ≢ null
      → q.heap a ≡ some (node v pv null)
      → remove_loop get_pid pid (suc k) a q ≡ ok (none, q)
  unfolding remove_loop
  loop-last q pv a v k na e = rw (ne→== a null na, e)

  -- `remove` never looks at the last node: where no node in front of it has the pid, the function
  -- ends without a result and nothing changes, whatever process waits in the last node.
  pub remove-last :
      {q : Queue} (pre : Cells) (a v : Ptr) (fuel : ℕ)
      → IsQueue q (pre ++ (a, v) ∷ [])
      → All (λ c. get_pid c.1 ≢ pid) pre
      → length pre < fuel
      → remove get_pid fuel pid q ≡ ok (none, q)
  unfolding remove
  remove-last {q} pre a v fuel is other enough =
      let j : ℕ = fuel - length pre - 1 in
      let e : fuel ≡ length pre + suc j = omega arith in
      let (na, at) = Links-end q.heap is.stale pre a v is.links in
      ap₂ (λ k c. remove_loop get_pid pid k c q) e is.front_is
      ∙ loop-skip q is.stale pre a v [] (suc j) is.links other
      ∙ loop-last q (last_of is.stale pre) a v j na at

-- Behind such a `remove` the count of the queue stays wrong: once the nodes that are left are taken,
-- one more `dequeue` reads through the null pointer, where it should say that there is none.
dequeue-miscounted : {q : Queue} → Holds 1 q [] → dequeue q ≡ fault
unfolding dequeue
dequeue-miscounted {q} is =
    let e : (q.queue_size == 0) ≡ false = ground (arith, is.size_is) in
    let e' : (q.front == null) ≡ true = ground (arith, is.front_is) in rw (e, e')

-- a number of calls of `dequeue`
abbrev pub dequeues : ℕ → Queue → Run Queue
dequeues zero q = ok q
dequeues (suc k) q = dequeue q >>= λ (p, q'). dequeues k q'

dequeues_all :
    {extra : ℕ} (xs : Cells) {q : Queue}
    → Holds extra q xs
    → (q' : Queue) × (dequeues (length xs) q ≡ ok q') × Holds extra q' []
dequeues_all [] {q} is = (q, refl, is)
dequeues_all ((f, v) ∷ xs) is =
    let (q1, e, is1, same) = dequeue-cons f v xs is in
    let (q2, e2, is2) = dequeues_all xs is1 in (q2, rw e e2, is2)

-- A `remove` that takes out a node between two others leaves a queue that can be emptied by `dequeue`,
-- but then one more `dequeue` reads through the null pointer, where on a queue that was emptied
-- otherwise it returns null.
pub remove-dequeue :
    (get_pid : Ptr → ℕ) (pid : ℕ) {q : Queue} (pre : Cells) (p u a v b w : Ptr) (post : Cells)
    (fuel : ℕ)
    → IsQueue q (pre ++ rest p u a v b w post)
    → All (λ c. get_pid c.1 ≢ pid) pre
    → get_pid u ≢ pid
    → get_pid v ≡ pid
    → length pre + 2 ≤ fuel
    → (q' : Queue) × (q'' : Queue) × (remove get_pid fuel pid q ≡ ok (some v, q'))
      × (dequeues (length (pre ++ (p, u) ∷ (b, w) ∷ post)) q' ≡ ok q'')
      × (dequeue q'' ≡ fault)
remove-dequeue get_pid pid pre p u a v b w post fuel is other nu it enough =
    let (q1, e, is1, same) =
      remove-between get_pid pid pre p u a v b w post fuel is other nu it enough in
    let (q2, e2, is2) = dequeues_all (pre ++ (p, u) ∷ (b, w) ∷ post) is1 in
    (q1, q2, e, e2, dequeue-miscounted is2)
