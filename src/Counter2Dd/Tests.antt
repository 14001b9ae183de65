-- ===== src/Counter2Dd/Tests.antt =====
-- Runs of the decoupled counter, and its theorems at them.
use elastic_2d_relaxation.Calls.{incremented, decremented, empty, increments, decrements}
use elastic_2d_relaxation.Prelude.{
  ℕ, ◌+◌, ◌-◌, ◌*◌, ◌≤◌, ◌<◌, ◌≡◌, refl, true, false, some, [], ◌∷◌, ◌++◌, ◌⊎◌, arith,
}
use elastic_2d_relaxation.Search.{IsValid}
use elastic_2d_relaxation.Window2Dd.Get
use elastic_2d_relaxation.Window2Dd.Get.{GetWindow}
use elastic_2d_relaxation.Window2Dd.Put
use elastic_2d_relaxation.Window2Dd.PutSolo.{put_window-Finishes}
use elastic_2d_relaxation.Window2Dd.Solo.{Finishes}
use elastic_2d_relaxation.Interleave.{steps, Schedule, run}
use elastic_2d_relaxation.Counter2Dd.{
  Descriptor, put_count, get_count, put_counts, tear, Shared, Local, idle, decrementing, Created,
  fresh, create_counter, step, counter_size,
}
use elastic_2d_relaxation.Counter2Dd.Laws.{
  Fits, after, lanes_in_window, increments_relaxed, counter_size-conserved, get_window_returns,
}
use elastic_2d_relaxation.Counter2Dd.Races.{late_fill_overruns, stale_descriptor_reads_empty}

-- Two lanes of depth 2.
abbrev counter : Created
counter = record {
  config = record { width = 2; depth = 2; random_hops = 2; index_bits = 32 };
  k_mode = 0;
  relaxation_bound = 4;
  system = fresh;
}

counter-created : create_counter 1 2 2 0 0 ≡ some counter
unfolding create_counter
counter-created = refl

counter-IsValid : IsValid counter.config
counter-IsValid = omega arith

-- Increments of thread 0, and a decrement of thread 1 begun in the midst of them.
abbrev sched : Schedule
sched = steps 40 0 0 ++ steps 30 1 1 ++ steps 9 0 0 ++ steps 30 1 1

sched_log :
    (after true counter sched).shared.log
    ≡ decremented 1
      ∷ decremented 1
      ∷ decremented 1
      ∷ incremented 1
      ∷ incremented 1
      ∷ incremented 1
      ∷ []
unfolding run step
sched_log = refl

sched-Fits : Fits counter.config sched
sched-Fits = omega arith

-- A decrement of thread 1 scans the empty counter; thread 0 fills the lane at which it will stand;
-- it takes the element, outside the get window.
abbrev overrun : Schedule
overrun = steps 19 1 1 ++ (0, 0) ∷ steps 23 0 1 ++ steps 5 1 1

overrun_runs :
    ((after true counter overrun).shared.get_max ≡ 0)
    × (get_count ((after true counter overrun).shared.lanes 1) ≡ 1)
unfolding run step
overrun_runs = (refl, refl)

lanes_in_window_example :
    (put_counts (after true counter sched).shared 0 ≤ (after true counter sched).shared.put_max)
    × ((after true counter sched).shared.put_max
        ≤ put_counts (after true counter sched).shared 0 + 2)
lanes_in_window_example =
    lanes_in_window 1 2 2 0 0 counter-created counter-IsValid true sched sched-Fits 0 (omega arith)

increments_relaxed_example :
    increments (after true counter sched).shared.log
    ≤ 2 * put_counts (after true counter sched).shared 1 + 2 * (2 - 1)
increments_relaxed_example =
    increments_relaxed 1 2 2 0 0 counter-created counter-IsValid true sched sched-Fits 1
      (omega arith)

counter_size-conserved_example :
    counter_size counter.config (after true counter sched).shared
      + decrements (after true counter sched).shared.log
    ≡ increments (after true counter sched).shared.log
counter_size-conserved_example =
    counter_size-conserved 1 2 2 0 0 counter-created counter-IsValid true sched sched-Fits

-- Thread 1 has scanned the empty counter.
abbrev scan : Schedule
scan = steps 23 1 1

abbrev nothing : Descriptor
nothing = record { get_count = 0; put_count = 0 }

abbrev scanned : GetWindow Descriptor
scanned = record {
  place = record { index = 1; hops = 2; random = 2 };
  max = 0;
  notempty = false;
  base = λ _. 0;
  pc = Get.done nothing;
}

get_window_returns_example :
    (0 < (after true counter scan).shared.get_max)
    ⊎ ((i : ℕ) → i < 2 → 0 ≤ get_count ((after true counter scan).shared.lanes i))
unfolding run step
get_window_returns_example =
    get_window_returns 1 2 2 0 0 counter-created counter-IsValid true scan (omega arith) 1 scanned
      nothing refl refl

put_window-Finishes_example :
    Finishes put_count tear counter.config (λ _. nothing) 26 0 (Put.start 0 0 true)
put_window-Finishes_example =
    put_window-Finishes put_count tear (λ _ _. refl) counter-IsValid (λ _. nothing) 0 (omega arith)
      (omega arith) (λ _ _. omega arith) 0 0 true (omega arith)

-- Lane 1 holds one element beyond a get window at 0.
abbrev filled : Shared
filled = record {
  lanes = λ _. record { get_count = 0; put_count = 1 };
  put_max = 2;
  get_max = 0;
  log = [];
}

abbrev thread : Local
thread = record { index = 1; put_max = 0; get_max = 0; pc = idle }

late_fill_overruns_example :
    let pc = decrementing (record scanned { base = λ _. 0; pc = Get.check (filled.lanes 1) 1 }) in
    let (h, l) = step true counter.config 0 filled (record thread { pc = pc }) in
    let (h', l') = step true counter.config 0 h l in
    (get_count (h'.lanes 1) ≡ 0 + 1) × (h'.get_max < get_count (h'.lanes 1))
late_fill_overruns_example =
    late_fill_overruns true counter.config 0 0 filled thread scanned.place (λ _. 0) (filled.lanes 1)
      1 refl (omega arith) (omega arith) (omega arith) refl

-- Both lanes hold elements, but the descriptor at hand is an empty one.
abbrev holding : Shared
holding = record filled { get_max = 2 }

stale_descriptor_reads_empty_example :
    let pc = decrementing (record scanned { max = 2; pc = Get.check nothing 1 }) in
    let (h, l) = step true counter.config 0 holding (record thread { pc = pc }) in
    let (h', l') = step true counter.config 0 h l in
    (h'.lanes ≡ holding.lanes) × (h'.log ≡ empty ∷ [])
stale_descriptor_reads_empty_example =
    stale_descriptor_reads_empty true counter.config 0 0 holding thread scanned.place (λ _. 0)
      nothing 1 (omega arith) refl (omega arith) (omega arith)
