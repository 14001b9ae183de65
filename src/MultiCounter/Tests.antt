-- ===== src/MultiCounter/Tests.antt =====
-- A run of the multi-counter, and its theorems at it.
use elastic_2d_relaxation.Prelude.{ℕ, ◌+◌, ◌≡◌, refl, true, [], ◌∷◌, arith, length}
use elastic_2d_relaxation.Calls.{incremented, increments, decrements}
use elastic_2d_relaxation.Interleave.{Schedule, run}
use elastic_2d_relaxation.MultiCounter.{decrement, create_counter, step, size_upto}
use elastic_2d_relaxation.MultiCounter.Inv.{IsBest}
use elastic_2d_relaxation.MultiCounter.Laws.{after, multi_size-conserved, chosen-IsBest}

-- Three increments of thread 0, which draws the lanes 0 and 1 for each, and a decrement of thread 1
-- that has drawn the lanes 1 and 0.
abbrev sched : Schedule
sched =
    (0, 0)
    ∷ (0, 0)
    ∷ (0, 0)
    ∷ (0, 1)
    ∷ (0, 0)
    ∷ (0, 0)
    ∷ (0, 0)
    ∷ (0, 0)
    ∷ (0, 0)
    ∷ (0, 1)
    ∷ (0, 0)
    ∷ (0, 0)
    ∷ (0, 0)
    ∷ (0, 0)
    ∷ (0, 0)
    ∷ (0, 1)
    ∷ (0, 0)
    ∷ (0, 0)
    ∷ (1, 1)
    ∷ (1, 1)
    ∷ (1, 0)
    ∷ (1, 0)
    ∷ (1, 0)
    ∷ []

sched_log : (after true 2 2 sched).shared.log ≡ incremented 4 ∷ incremented 2 ∷ incremented 2 ∷ []
unfolding run step create_counter
sched_log = refl

multi_size-conserved_example :
    size_upto 2 (after true 2 2 sched).shared.lanes + decrements (after true 2 2 sched).shared.log
    ≡ increments (after true 2 2 sched).shared.log
multi_size-conserved_example = multi_size-conserved true 2 (omega arith) sched (omega arith)

chosen-IsBest_example : IsBest decrement 2 (2 ∷ 1 ∷ []) × (length {A = ℕ} (2 ∷ 1 ∷ []) ≡ 2)
unfolding run step create_counter
chosen-IsBest_example =
    chosen-IsBest true 2 {width = 2} (omega arith) sched (omega arith) 1 decrement 2 0
      (record { count = 2; version = 2 }) (2 ∷ 1 ∷ []) refl
