-- ===== src/ReadyQueue/Tests.antt =====
-- Runs of the queue of src/sched/queue.cpp: three nodes at 10, 11 and 12.
use cros_kernel.Base.{ℕ, ◌≡◌, refl, none, some, [], ◌∷◌, arith, ok, fault, ◌==◌, if◌then◌else◌}
use cros_kernel.ReadyQueue.{
  Ptr, Heap, Queue, new_queue, enqueue, dequeue, remove, write, take_next, sched_next,
}
use cros_kernel.ReadyQueue.Links.{Cells, node, IsQueue}
use cros_kernel.ReadyQueue.Fifo.{IsFresh}
use cros_kernel.ReadyQueue.Rounds.{Shows, sched_next_refines, Turns, done, turn, sched_next_fair}
use cros_kernel.ReadyQueue.Remove.{dequeues, remove-dequeue}

abbrev bare : Heap
bare p = none

abbrev cells3 : Cells
cells3 = (10, 100) ∷ (11, 110) ∷ (12, 120) ∷ []

abbrev heap3 : Heap
heap3 p =
    if p == 10
    then some (node 100 0 11)
    else if p == 11
    then some (node 110 10 12)
    else if p == 12
    then some (node 120 11 0)
    else none

abbrev queue3 : Queue
queue3 = record { heap = heap3; queue_size = 3; front = 10; back = 12; cur_process = 200 }

abbrev held3 : IsQueue queue3 cells3
held3 = record {
  stale = 0;
  links = ((λ e. cc), refl, ((λ e. cc), refl, ((λ e. cc), refl, tt)));
  distinct = (refl, (refl, (refl, tt)));
  front_is = refl;
  back_is = refl;
  size_is = refl;
}

queue3-IsFresh : IsFresh queue3 20
queue3-IsFresh = record { not_null = λ e. cc; unused = refl }

queue3-Shows : Shows queue3 (record { running = 200; ready = 100 ∷ 110 ∷ 120 ∷ [] })
queue3-Shows = record { cells = cells3; is_queue = held3; ready_is = refl; running_is = refl }

abbrev queue0 : Queue
queue0 = new_queue bare

queue0-IsQueue : IsQueue queue0 []
queue0-IsQueue = record {
  stale = 0;
  links = tt;
  distinct = tt;
  front_is = refl;
  back_is = refl;
  size_is = refl;
}

-- the pids 1 to 3 of the processes at 100, 110 and 120
abbrev pid_of : Ptr → ℕ
pid_of p = if p == 100 then 1 else (if p == 110 then 2 else (if p == 120 then 3 else 0))

sched_next_refines_example :
    (q' : Queue) × (sched_next 20 queue3 ≡ ok (100, q'))
    × Shows q' (record { running = 100; ready = 110 ∷ 120 ∷ 200 ∷ [] })
sched_next_refines_example = sched_next_refines 20 queue3-Shows queue3-IsFresh

-- one process waits and one runs
abbrev queue1 : Queue
queue1 = record {
  heap = λ p. if p == 10 then some (node 100 0 0) else none;
  queue_size = 1;
  front = 10;
  back = 10;
  cur_process = 200;
}

queue1-Shows : Shows queue1 (record { running = 200; ready = 100 ∷ [] })
queue1-Shows = record {
  cells = (10, 100) ∷ [];
  is_queue = record {
    stale = 0;
    links = ((λ e. cc), refl, tt);
    distinct = (refl, tt);
    front_is = refl;
    back_is = refl;
    size_is = refl;
  };
  ready_is = refl;
  running_is = refl;
}

abbrev turned1 : Queue
turned1 = record {
  heap =
      write
        (write (write (write queue1.heap 20 (some (node 200 0 0))) 10 (some (node 100 0 20))) 20
          (some (node 200 10 0)))
        10 none;
  queue_size = 1;
  front = 20;
  back = 20;
  cur_process = 100;
}

queue1-Turns : Turns 1 queue1 turned1
unfolding sched_next enqueue take_next dequeue write
queue1-Turns = turn 20 100 (record { not_null = λ e. cc; unused = refl }) refl done

sched_next_fair_example :
    (turned1.cur_process ≡ 100)
    × ((f : Ptr) → IsFresh turned1 f → (r : Ptr × Queue) × (sched_next f turned1 ≡ ok r))
sched_next_fair_example =
    sched_next_fair {k = 0} (100 ∷ []) queue1-Shows ((λ e. cc), ((λ e. cc), tt)) refl queue1-Turns

remove-dequeue_example :
    (q' : Queue) × (q'' : Queue) × (remove pid_of 5 2 queue3 ≡ ok (some 110, q'))
    × (dequeues 2 q' ≡ ok q'')
    × (dequeue q'' ≡ fault)
remove-dequeue_example =
    remove-dequeue pid_of 2 [] 10 100 11 110 12 120 [] 5 held3 tt (λ e. cc) refl (omega arith)
