-- ===== src/MultiStack/Tests.antt =====
-- Runs of the multi-stack, and its theorems at them.

use elastic_2d_relaxation.Prelude.{ℕ, suc, ◌≡◌, refl, [], ◌∷◌, ◌++◌, arith, length}
use elastic_2d_relaxation.Linked.{suc-IsAllocator, pushed, contents, Legal}
use elastic_2d_relaxation.Interleave.{Schedule, run}
use elastic_2d_relaxation.MultiStack.{Shared, pop, create_stack, rank, ticks, step, dra_step}
use elastic_2d_relaxation.MultiStack.Inv.{IsRanked}
use elastic_2d_relaxation.MultiStack.Laws.{
  after, ticks-Marks, multi_pops-Legal, chosen-IsRanked, dra_memory, dra_stamps_heights,
}

-- A push of thread `t`, of the value 3, whose last draw and time is `c`.
abbrev a_push : ℕ → ℕ → Schedule
a_push t c = (t, 6) ∷ (t, 0) ∷ (t, 1) ∷ (t, 0) ∷ (t, c) ∷ (t, c) ∷ []

-- Pushes of thread 0, and a pop of thread 1 that has drawn both lanes.
abbrev sched : Schedule
sched =
    a_push 0 5
    ++ a_push 0 7
    ++ a_push 0 8
    ++ a_push 0 9
    ++ (1, 1) ∷ (1, 0) ∷ (1, 1) ∷ (1, 0) ∷ (1, 0) ∷ []

abbrev memory : Shared
memory = (after suc ticks 2 2 sched).shared

sched_log : memory.log ≡ pushed 0 3 ∷ pushed 1 3 ∷ pushed 0 3 ∷ pushed 1 0 ∷ pushed 0 3 ∷ []
unfolding run step create_stack
sched_log = refl

multi_pops-Legal_example : Legal 2 memory.log
multi_pops-Legal_example =
    multi_pops-Legal suc-IsAllocator ticks-Marks 2 (omega arith) sched (omega arith)

chosen-IsRanked_example : IsRanked pop (rank memory.stamps 5) (9 ∷ 10 ∷ [])
unfolding run step create_stack
chosen-IsRanked_example =
    chosen-IsRanked suc-IsAllocator ticks-Marks 2 {width = 2} (omega arith) sched (omega arith) 1
      pop 0 5 (9 ∷ 10 ∷ []) refl

dra_stamps_heights_example :
    suc ((dra_memory suc 2 2 sched).stamps ((dra_memory suc 2 2 sched).lanes 0))
    ≡ length (contents (dra_memory suc 2 2 sched).log 0)
unfolding run dra_step create_stack
dra_stamps_heights_example =
    dra_stamps_heights suc-IsAllocator 2 {width = 2} (omega arith) sched (omega arith) 0
      (omega arith) (omega arith)
