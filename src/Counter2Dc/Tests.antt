-- ===== src/Counter2Dc/Tests.antt =====
-- Runs of the coupled counter, and its theorems at them.
use elastic_2d_relaxation.Prelude.{
  ℕ, ◌+◌, ◌*◌, ◌≡◌, refl, true, false, some, [], ◌∷◌, ◌++◌, arith, leb,
}
use elastic_2d_relaxation.Calls.{incremented, decremented, empty, increments, decrements}
use elastic_2d_relaxation.Search.{IsValid}
use elastic_2d_relaxation.Window2Dc.{initialize_global_window, Call, shift, lowered}
use elastic_2d_relaxation.Interleave.{steps, Schedule, run}
use elastic_2d_relaxation.Counter2Dc.{Descriptor, idle, Created, create_counter, step, counter_size}
use elastic_2d_relaxation.Counter2Dc.Laws.{
  after, window_in_steps, coupled_size-conserved, shift_never_blocked,
}
use elastic_2d_relaxation.Counter2Dc.Races.{first_decrement_reads_empty}

-- Two lanes of depth 2.
abbrev counter : Created
counter = record {
  config = record { width = 2; depth = 2; random_hops = 2; index_bits = 16 };
  step_size = 1;
  k_mode = 0;
  relaxation_bound = 4;
  system = record {
    shared = record {
      lanes = λ _. record { count = 0 };
      window = record { max = 2; version = 0 };
      log = [];
    };
    locals = λ _. record { index = 0; window = record { max = 0; version = 0 }; pc = idle };
  };
}

counter-created : create_counter 1 2 2 0 0 ≡ some counter
unfolding create_counter
counter-created = refl

counter-IsValid : IsValid counter.config
counter-IsValid = omega arith

-- Increments of thread 0, and then decrements of thread 1.
abbrev sched : Schedule
sched = steps 100 0 0 ++ steps 40 1 1

sched_log :
    ((after true counter sched).shared.log
      ≡ decremented 1
        ∷ decremented 1
        ∷ decremented 1
        ∷ decremented 1
        ∷ incremented 1
        ∷ incremented 1
        ∷ incremented 1
        ∷ incremented 1
        ∷ incremented 1
        ∷ incremented 1
        ∷ [])
    × ((after true counter sched).shared.window ≡ record { max = 3; version = 1 })
unfolding run step
sched_log = (refl, refl)

window_in_steps_example : (k : ℕ) × ((after true counter sched).shared.window.max ≡ 2 + k * 1)
window_in_steps_example =
    window_in_steps 1 2 2 0 0 counter-created counter-IsValid true sched (omega arith)

coupled_size-conserved_example :
    counter_size counter.config (after true counter sched).shared
      + decrements (after true counter sched).shared.log
    ≡ increments (after true counter sched).shared.log
coupled_size-conserved_example =
    coupled_size-conserved 1 2 2 0 0 counter-created counter-IsValid true sched (omega arith)

-- Thread 1 has gone round the lanes above the window.
abbrev shifting : Schedule
shifting = steps 100 0 0 ++ steps 45 1 1

abbrev round : Call Descriptor
round = record {
  place = record { index = 1; hops = 2; random = 2 };
  window = record { max = 3; version = 1 };
  empty = false;
  pc = shift;
}

shift_never_blocked_example : leb 2 (lowered 1 round.window).max ≡ true
unfolding run step
shift_never_blocked_example =
    shift_never_blocked 1 2 2 0 0 counter-created counter-IsValid true shifting (omega arith) 1
      round refl refl

-- Thread 1 has put an element into lane 1, with the window that was created.
abbrev putting : Schedule
putting = (1, 0) ∷ steps 23 1 1

first_decrement_reads_empty_example :
    (after true counter (putting ++ steps 6 0 1)).shared
    ≡ record ((after true counter putting).shared) {
      log = empty ∷ (after true counter putting).shared.log;
    }
unfolding run step
first_decrement_reads_empty_example =
    first_decrement_reads_empty 1 2 2 0 0 counter-created (omega arith) (omega arith) true putting 0
      (omega arith) refl refl

putting_holds : ((after true counter putting).shared.lanes 1).count ≡ 1
unfolding run step
putting_holds = refl

-- A depth that does not fit 16 bits is cut.
initialized : initialize_global_window 65537 ≡ record { max = 1; version = 1 }
unfolding initialize_global_window
initialized = refl
