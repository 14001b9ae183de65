-- ===== src/Queue2Dd/Tests.antt =====
-- Runs of the decoupled queue, and its theorems at them.

use elastic_2d_relaxation.Prelude.{suc, ◌+◌, ◌≤◌, ◌≡◌, refl, some, [], ◌∷◌, ◌++◌, arith, length}
use elastic_2d_relaxation.Search.{IsValid}
use elastic_2d_relaxation.Linked.{suc-IsAllocator}
use elastic_2d_relaxation.Interleave.{steps, Schedule, run}
use elastic_2d_relaxation.Queue2Dd.{
  Created, fresh, create_queue, Shared, node, count, enqueued, dequeued,
}
use elastic_2d_relaxation.Queue2Dd.Step.{put_counts, step}
use elastic_2d_relaxation.Queue2Dd.Fifo.{contents, Legal, Leads}
use elastic_2d_relaxation.Queue2Dd.Laws.{
  Fits, after, dequeues-Legal, queue_lane-Leads, enqueues_apart,
}

-- Two lanes of depth 2.
abbrev queue : Created
queue = record {
  config = record { width = 2; depth = 2; random_hops = 2; index_bits = 32 };
  k_mode = 0;
  relaxation_bound = 2;
  system = fresh suc 2 2;
}

queue-created : create_queue suc 1 2 2 0 0 ≡ some queue
unfolding create_queue
queue-created = refl

queue-IsValid : IsValid queue.config
queue-IsValid = omega arith

-- Enqueues of thread 0, of the values 0, 1 and 2, and then dequeues of thread 1.
abbrev sched : Schedule
sched = steps 8 0 0 ++ steps 8 0 2 ++ steps 12 0 4 ++ steps 40 1 1

abbrev memory : Shared
memory = (after suc queue sched).shared

sched_log : memory.log ≡ dequeued 0 1 ∷ dequeued 0 0 ∷ enqueued 0 1 ∷ enqueued 0 0 ∷ []
unfolding run step fresh
sched_log = refl

sched-Fits : Fits queue.config sched
sched-Fits = omega arith

dequeues-Legal_example : Legal 2 memory.log
dequeues-Legal_example =
    dequeues-Legal suc-IsAllocator 1 2 2 0 0 queue-created queue-IsValid sched sched-Fits

queue_lane-Leads_example :
    Leads memory.nodes (node (memory.get_array 0)) (contents memory.log 0)
    × (put_counts memory 0 ≤ count (memory.get_array 0) + length (contents memory.log 0))
    × (count (memory.get_array 0) + length (contents memory.log 0) ≤ suc (put_counts memory 0))
queue_lane-Leads_example =
    queue_lane-Leads suc-IsAllocator 1 2 2 0 0 queue-created queue-IsValid sched sched-Fits 0
      (omega arith)

enqueues_apart_example :
    count (memory.get_array 0) + length (contents memory.log 0)
    ≤ count (memory.get_array 1) + length (contents memory.log 1) + 2
enqueues_apart_example =
    enqueues_apart suc-IsAllocator 1 2 2 0 0 queue-created queue-IsValid sched sched-Fits 0 1
      (omega arith) (omega arith)
