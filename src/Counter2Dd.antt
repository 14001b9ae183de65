-- ===== src/Counter2Dd.antt =====
-- src/2Dd-counter/2Dd-counter.c and 2Dd-counter.h: the decoupled counter, over the windows of
-- include/2Dd-window.c. `get_array` and `put_array` are one array there. The children hold the
-- invariant, the theorems and the tests.
pub mod Inv
pub mod Moves
pub mod Counts
pub mod Steps
pub mod Laws
pub mod Races
mod Tests
use mathlib.Core.Option
use elastic_2d_relaxation.Calls.{Event, incremented, decremented, empty, increments, decrements}
use elastic_2d_relaxation.Prelude.{
  ℕ, zero, suc, ◌+◌, ◌%◌, Bool, true, false, ◌&&◌, Option, none, some, List, [], ◌∷◌, if◌then◌else◌,
  ltb, ◌==◌, add64, sub64, mul64, update,
}
use elastic_2d_relaxation.Parameters.{Parameters, parameters}
use elastic_2d_relaxation.Interleave.{System}
use elastic_2d_relaxation.Search.{Config}
use elastic_2d_relaxation.Window2Dd.Put
use elastic_2d_relaxation.Window2Dd.Put.{PutWindow, put_window}
use elastic_2d_relaxation.Window2Dd.Get
use elastic_2d_relaxation.Window2Dd.Get.{GetWindow, get_window}

-- `descriptor_t`
pub record Descriptor : Type 0 where
  pub get_count : ℕ
  pub put_count : ℕ

abbrev pub put_count : Descriptor → ℕ
put_count d = d.put_count

abbrev pub get_count : Descriptor → ℕ
get_count d = d.get_count

-- A descriptor whose words were read one after the other, from `a` and then from `b`.
abbrev pub tear : Descriptor → Descriptor → Descriptor
tear a b = record { get_count = a.get_count; put_count = b.put_count }

-- The comparison of the 16-byte compare-exchange.
abbrev pub same_descriptor : Descriptor → Descriptor → Bool
same_descriptor a b = (a.get_count == b.get_count) && (a.put_count == b.put_count)

-- The shared memory. No step reads `log`, the calls that have taken effect, the last one first.
pub record Shared : Type 0 where
  pub lanes : ℕ → Descriptor
  pub put_max : ℕ
  pub get_max : ℕ
  pub log : List Event

-- The put counts that `get_window` reads from the `put_array`.
abbrev pub put_counts : Shared → ℕ → ℕ
put_counts h i = (h.lanes i).put_count

-- What a thread is doing: nothing, or an operation whose window call stands at some step. A
-- window call that is done is followed by the compare-exchange of the operation.
pub data Pc : Type 0 where
  idle : Pc
  incrementing : PutWindow Descriptor → Pc
  decrementing : GetWindow Descriptor → Pc

-- `thread_index`, `thread_PWindow.max` and `thread_GWindow.max` between the calls.
pub record Local : Type 0 where
  pub index : ℕ
  pub put_max : ℕ
  pub get_max : ℕ
  pub pc : Pc

-- `create_counter`: the configuration and the state that it sets up, with every thread idle.
-- The windows are not initialised there and start at 0, as static storage does.
pub record Created : Type 0 where
  pub config : Config
  pub k_mode : ℕ
  pub relaxation_bound : ℕ
  pub system : System Shared Local

abbrev pub fresh : System Shared Local
fresh = record {
  shared = record {
    lanes = λ _. record { get_count = 0; put_count = 0 };
    put_max = 0;
    get_max = 0;
    log = [];
  };
  locals = λ _. record { index = 0; put_max = 0; get_max = 0; pc = idle };
}

unfoldable pub create_counter : (num_threads width depth k_mode bound : ℕ) → Option Created
unfolding parameters
create_counter num_threads width depth k_mode bound =
    Option.map
      (λ p. record {
        config = record { width = p.width; depth = p.depth; random_hops = 2; index_bits = 32 };
        k_mode = k_mode;
        relaxation_bound = p.relaxation_bound;
        system = fresh;
      })
      (parameters 2 num_threads width depth k_mode bound)

-- `validate_size` is the build's VALIDATESIZE.
module _ (validate_size : Bool) (cfg : Config) where
  -- What an operation returns that leaves `d` in its lane.
  unfoldable pub result : Descriptor → ℕ
  result d = if validate_size then 1 else mul64 (sub64 d.put_count d.get_count) cfg.width

  -- `increment` after `put_window` returned `d`: the compare-exchange, or another round.
  unfoldable pub try_increment : Shared → Local → PutWindow Descriptor → Descriptor → Shared × Local
  unfolding result Put.start
  try_increment h l w d =
      let new : Descriptor = record d { put_count = add64 d.put_count 1 } in
      let i = w.place.index in
      if same_descriptor (h.lanes i) d
      then (
        record h { lanes = update h.lanes i new; log = incremented (result new) ∷ h.log },
        record l { index = i; put_max = w.max; pc = idle },
      )
      else (h, record l { index = i; put_max = w.max; pc = incrementing (Put.start i w.max true) })

  -- `decrement` after `get_window` returned `d`.
  unfoldable pub try_decrement : Shared → Local → GetWindow Descriptor → Descriptor → Shared × Local
  unfolding result Get.start
  try_decrement h l w d =
      let new : Descriptor = record d { get_count = add64 d.get_count 1 } in
      let i = w.place.index in
      let l' = record l { index = i; get_max = w.max; pc = idle } in
      if ltb 0 (sub64 d.put_count d.get_count)
      then if same_descriptor (h.lanes i) d
        then (record h { lanes = update h.lanes i new; log = decremented (result new) ∷ h.log }, l')
        else (h, record l' { pc = decrementing (Get.start i w.max true (put_counts h)) })
      else (record h { log = empty ∷ h.log }, l')

  unfoldable pub increment : ℕ → Shared → Local → PutWindow Descriptor → Shared × Local
  unfolding try_increment put_window
  increment choice h l w = elim (Put.returned w.pc) [
    | some d ↦ try_increment h l w d
    | none ↦
        let (global, w') = put_window put_count tear cfg choice h.lanes h.put_max w in
        (record h { put_max = global }, record l { pc = incrementing w' })
  ]

  unfoldable pub decrement : ℕ → Shared → Local → GetWindow Descriptor → Shared × Local
  unfolding try_decrement get_window
  decrement choice h l w = elim (Get.returned w.pc) [
    | some d ↦ try_decrement h l w d
    | none ↦
        let (global, w') =
          get_window get_count tear cfg choice h.lanes (put_counts h) h.get_max w in
        (record h { get_max = global }, record l { pc = decrementing w' })
  ]

  -- One step of a thread. An idle thread calls either operation, as `choice` has it.
  unfoldable pub step_at : ℕ → Shared → Local → Pc → Shared × Local
  unfolding increment decrement Put.start Get.start
  step_at choice h l idle =
      if choice % 2 == 0
      then (h, record l { pc = incrementing (Put.start l.index l.put_max false) })
      else (h, record l { pc = decrementing (Get.start l.index l.get_max false (put_counts h)) })
  step_at choice h l (incrementing w) = increment choice h l w
  step_at choice h l (decrementing w) = decrement choice h l w

  unfoldable pub step : ℕ → Shared → Local → Shared × Local
  unfolding step_at
  step choice h l = step_at choice h l l.pc

-- The loop of `counter_size` over the first `n` lanes.
unfoldable pub size_upto : ℕ → (ℕ → Descriptor) → ℕ
size_upto zero lanes = 0
size_upto (suc n) lanes = add64 (size_upto n lanes) (sub64 (lanes n).put_count (lanes n).get_count)

unfoldable pub counter_size : Config → Shared → ℕ
unfolding size_upto
counter_size cfg h = size_upto cfg.width h.lanes
