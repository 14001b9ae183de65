-- ===== src/Relaxation/Tests.antt =====
-- Runs of the relaxation analysis, and its theorems at them.
use mathlib.Core.Option
use elastic_2d_relaxation.Prelude.{ℕ, suc, ◌≡◌, refl, some, none, arith, List, [], ◌∷◌, ◌++◌}
use elastic_2d_relaxation.Search.{IsValid}
use elastic_2d_relaxation.Linked.{suc-IsAllocator}
use elastic_2d_relaxation.Interleave.{steps, Schedule, run}
use elastic_2d_relaxation.Queue2Dd.{Created, fresh, create_queue}
use elastic_2d_relaxation.Queue2Dd.Step.{step}
use elastic_2d_relaxation.Queue2Dd.Fifo.{contents, dequeues}
use elastic_2d_relaxation.Queue2Dd.Laws.{after}
use elastic_2d_relaxation.Relaxation.{
  Analysis, initial, add_linear, remove_linear, max_from, max_relaxation,
}
use elastic_2d_relaxation.Relaxation.Laws.{
  Op, at_tail, at_head, removal, perform, expected_one, replay, expected, Agrees, analysis-Agrees,
}
use elastic_2d_relaxation.Relaxation.Bounds.{AtMost}
use elastic_2d_relaxation.Relaxation.Maxima.{Among, analysis-max}
use elastic_2d_relaxation.Relaxation.RoundTrip.{front-removal}
use elastic_2d_relaxation.Relaxation.Queues.{trace, zeros, one_lane-strict}

-- The values 4, 5, 6 and 7, of which 6 and then 4 are removed.
abbrev calls : List Op
calls = at_tail 5 ∷ at_tail 6 ∷ at_head 4 ∷ at_tail 7 ∷ removal 6 ∷ removal 4 ∷ []

calls-expected : expected calls ([], []) ≡ some (5 ∷ 7 ∷ [], 2 ∷ 0 ∷ [])
unfolding expected expected_one
calls-expected = refl

calls_max : Option.bind (replay suc calls initial) (max_relaxation 10) ≡ some 2
unfolding replay initial max_relaxation perform remove_linear add_linear
calls_max = refl

-- A value with the sign bit is negative.
negative_skipped : max_from 2 (λ p. record { val = 9223372036854775808; next = 0 }) 1 0 ≡ some 0
unfolding max_from
negative_skipped = refl

-- The removal of a value that is not there.
absent_fails : replay suc (at_tail 5 ∷ removal 6 ∷ []) initial ≡ none
unfolding replay initial perform remove_linear add_linear
absent_fails = refl

-- Another `end` counts a node that is not linked.
wrong_end :
    ((add_linear suc (add_linear suc initial 5 0) 6 2).linear_clone.size ≡ 2)
    × ((add_linear suc (add_linear suc initial 5 0) 6 2).linear_clone.tail ≡ 1)
unfolding initial add_linear
wrong_end = (refl, refl)

analysis-Agrees_example : Agrees suc (replay suc calls initial) (expected calls ([], []))
analysis-Agrees_example = analysis-Agrees suc suc-IsAllocator calls (omega arith)

-- The value 7 is in the clone already.
front-removal_example :
    Agrees suc
      (replay suc ((calls ++ (at_head 7 ∷ [])) ++ (removal 7 ∷ [])) initial)
      (some (5 ∷ 7 ∷ [], 2 ∷ 0 ∷ 0 ∷ []))
front-removal_example =
    front-removal suc-IsAllocator calls (5 ∷ 7 ∷ []) (2 ∷ 0 ∷ []) 7 (omega arith) calls-expected

analysis-max_example :
    (h : Analysis) × (m : ℕ) × (replay suc calls initial ≡ some h)
    × (max_relaxation (suc h.allocated) h ≡ some m)
    × AtMost (2 ∷ 0 ∷ []) m
    × Among m (2 ∷ 0 ∷ [])
analysis-max_example =
    analysis-max suc-IsAllocator calls (5 ∷ 7 ∷ []) 2 (0 ∷ []) (omega arith) calls-expected

-- One lane of depth 2.
abbrev queue : Created
queue = record {
  config = record { width = 1; depth = 2; random_hops = 2; index_bits = 32 };
  k_mode = 0;
  relaxation_bound = 0;
  system = fresh suc 1 2;
}

queue-created : create_queue suc 1 1 2 0 0 ≡ some queue
unfolding create_queue
queue-created = refl

queue-IsValid : IsValid queue.config
queue-IsValid = omega arith

abbrev sched : Schedule
sched = steps 10 0 0 ++ steps 10 0 2 ++ steps 40 1 1

sched-trace :
    trace (after suc queue sched).shared.log ≡ at_tail 0 ∷ at_tail 1 ∷ removal 0 ∷ removal 1 ∷ []
unfolding run step fresh trace
sched-trace = refl

one_lane-strict_example :
    Agrees suc (replay suc (trace (after suc queue sched).shared.log) initial) (
      some (
        contents (after suc queue sched).shared.log 0,
        zeros (dequeues (after suc queue sched).shared.log),
      ))
unfolding run step fresh trace
one_lane-strict_example =
    one_lane-strict suc-IsAllocator suc-IsAllocator 1 1 2 0 0 queue-created queue-IsValid sched
      (omega arith) refl (omega arith)
