-- ===== src/ReadyQueue/Fifo.antt =====
-- `enqueue`, `dequeue` and `sched_next` of src/sched/queue.cpp as operations on the sequence of
-- waiting processes.
use mathlib.Core.Path.{subst}
use cros_kernel.Base.{
  ℕ, ◌+◌, ◌-◌, ◌≡◌, refl, sym, ◌∙◌, ◌≢◌, true, false, none, some, [], ◌∷◌, ◌++◌, arith, ◌==◌, ne→==,
  ==_refl, if◌then◌else◌, length-append, ok,
}
use cros_kernel.ReadyQueue.{Ptr, null, Node, Heap, Queue, write, enqueue, dequeue}
use cros_kernel.ReadyQueue.Links.{
  Cells, has, first_of, last_of, node, Links, Holds, IsQueue, Links-write, write_self, write_ne,
  linked, last_of-ne, Links-snoc, Links-last, IsDistinct-snoc, last_of-append,
}

-- What the allocator may return for a new node: memory that holds no node.
pub record IsFresh (q : Queue) (f : Ptr) : Type 0 where
  pub not_null : f ≢ null
  pub unused : q.heap f ≡ none

not-has_of_unused :
    (h : Heap) (f pv : Ptr) (xs : Cells) → Links h pv xs → h f ≡ none → has f xs ≡ false
not-has_of_unused h f pv [] l e = refl
not-has_of_unused h f pv ((p, v) ∷ xs) l e = ground (arith, not-has_of_unused h f p xs l.2)

-- `enqueue` behind the node `n` at the end of the list.
enqueue-run :
    (f v : Ptr) (q : Queue) (n : Node)
    → f ≢ null
    → q.back ≢ null
    → q.queue_size ≢ 0
    → q.back ≢ f
    → q.heap q.back ≡ some n
    → enqueue f v q
      ≡ ok (record q { heap = linked q.heap f v q.back n; back = f; queue_size = q.queue_size + 1 })
unfolding enqueue
enqueue-run f v q n nf nb ns ne e =
    let h : Heap = write q.heap f (some (node v null null)) in
    let e1 : h q.back ≡ some n = write_ne q.heap f q.back (some (node v null null)) ne ∙ e in
    let e2 : write h q.back (some (record n { next = f })) f ≡ some (node v null null) =
      write_ne h q.back f (some (record n { next = f })) (λ q. ne (sym q))
      ∙ write_self q.heap f (some (node v null null)) in
    rw (ne→== f null nf, ne→== q.queue_size 0 ns, ne→== q.back null nb, e1, e2)

-- `enqueue` on a valid queue, with a new node from the allocator, succeeds: the queue then holds
-- its old nodes and behind them the new one, and the running process is as before.
pub enqueue-snoc :
    {q : Queue} (xs : Cells) (f v : Ptr)
    → IsQueue q xs
    → IsFresh q f
    → (q' : Queue) × (enqueue f v q ≡ ok q')
      × IsQueue q' (xs ++ (f, v) ∷ [])
      × (q'.cur_process ≡ q.cur_process)
unfolding enqueue
enqueue-snoc {q} [] f v is fr = (
  record q {
    heap = write q.heap f (some (node v null null));
    queue_size = q.queue_size + 1;
    front = f;
    back = f;
  },
  ground arith,
  record {
    stale = null;
    links = (fr.not_null, write_self _ f _, tt);
    distinct = (refl, tt);
    front_is = refl;
    back_is = refl;
    size_is = omega (arith, is.size_is);
  },
  refl,
)
enqueue-snoc {q} ((p, u) ∷ xs) f v is fr =
    let (n, e, nn) = Links-last q.heap is.stale p u xs is.links in
    let out : has f ((p, u) ∷ xs) ≡ false =
      not-has_of_unused q.heap f is.stale ((p, u) ∷ xs) is.links fr.unused in
    (
      record q { heap = linked q.heap f v q.back n; back = f; queue_size = q.queue_size + 1 },
      enqueue-run f v q n fr.not_null (rw is.back_is nn) (omega (arith, is.size_is))
          (rw is.back_is (last_of-ne f p u xs out)) (rw is.back_is e),
      record {
        stale = is.stale;
        links =
            subst (λ b. Links (linked q.heap f v b n) is.stale ((p, u) ∷ xs ++ (f, v) ∷ []))
              (sym is.back_is)
              (Links-snoc q.heap f v is.stale p u xs fr.not_null out is.distinct is.links n e);
        distinct = IsDistinct-snoc f v ((p, u) ∷ xs) is.distinct out;
        front_is = is.front_is;
        back_is = sym (last_of-append null f v ((p, u) ∷ xs));
        size_is = omega (arith, is.size_is, length-append xs ((f, v) ∷ []));
      },
      refl,
    )

-- the new `back`, when the front node goes
back-rest :
    (f v : Ptr) (xs : Cells)
    → has f xs ≡ false
    → (if last_of f xs == f then null else last_of f xs) ≡ last_of null xs
back-rest f v [] out = rw (==_refl f)
back-rest f v ((p, u) ∷ xs) out = rw (ne→== (last_of p xs) f (last_of-ne f p u xs out))

-- `dequeue` on a queue that is not empty returns the front process and leaves the rest; a wrong
-- count stays as wrong as it was.
pub dequeue-cons :
    {extra : ℕ} {q : Queue} (f v : Ptr) (xs : Cells)
    → Holds extra q ((f, v) ∷ xs)
    → (q' : Queue) × (dequeue q ≡ ok (v, q')) × Holds extra q' xs × (q'.cur_process ≡ q.cur_process)
unfolding dequeue
dequeue-cons {q} f v xs is =
    let e : q.heap q.front ≡ some (node v is.stale (first_of xs)) = rw is.front_is is.links.1 in
    (
      record q {
        heap = write q.heap q.front none;
        front = first_of xs;
        back = if q.back == q.front then null else q.back;
        queue_size = q.queue_size - 1;
      },
      rw (
        ne→== q.queue_size 0 (omega (arith, is.size_is)),
        ne→== q.front null (rw is.front_is is.links.0),
        e,
      ),
      record {
        stale = f;
        links = rw is.front_is (Links-write q.heap f none f xs is.distinct.0 is.links.2);
        distinct = is.distinct.1;
        front_is = refl;
        back_is = rw (is.back_is, is.front_is) (back-rest f v xs is.distinct.0);
        size_is = omega (arith, is.size_is);
      },
      refl,
    )

-- `dequeue` on an empty queue returns null and changes nothing.
dequeue-nil : {q : Queue} → IsQueue q [] → dequeue q ≡ ok (null, q)
unfolding dequeue
dequeue-nil {q} is = let e : (q.queue_size == 0) ≡ true = ground (arith, is.size_is) in rw e
