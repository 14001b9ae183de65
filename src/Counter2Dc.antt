-- ===== src/Counter2Dc.antt =====
-- src/2Dc-counter/2Dc-counter.c and 2Dc-counter.h: the coupled counter, whose operations of both
-- kinds share the window of include/2Dc-window.c. A descriptor there is one word; the second read
-- of `common_at` is then the read. The children hold the invariant, the theorems and the tests.
pub mod Inv
pub mod Moves
pub mod Steps
pub mod Laws
pub mod Races
mod Tests
use mathlib.Core.Option
use elastic_2d_relaxation.Calls.{Event, incremented, decremented, empty, increments, decrements}
use elastic_2d_relaxation.Prelude.{
  ℕ, zero, suc, ◌/◌, ◌%◌, Bool, true, false, Option, none, some, List, [], ◌∷◌, if◌then◌else◌, ltb,
  ◌==◌, add64, sub64, mul64, update,
}
use elastic_2d_relaxation.Parameters.{Parameters, parameters, shift_for}
use elastic_2d_relaxation.Interleave.{System}
use elastic_2d_relaxation.Search.{Config}
use elastic_2d_relaxation.Window2Dc.{Window, Call, start, returned, put_window, get_window}

-- `descriptor_t`
pub record Descriptor : Type 0 where
  pub count : ℕ

abbrev pub count : Descriptor → ℕ
count d = d.count

-- The descriptor is read by the later of the two reads.
abbrev pub latest : Descriptor → Descriptor → Descriptor
latest a b = b

-- The shared memory. No step reads `log`, the calls that have taken effect, the last one first.
pub record Shared : Type 0 where
  pub lanes : ℕ → Descriptor
  pub window : Window
  pub log : List Event

pub data Pc : Type 0 where
  idle : Pc
  incrementing : Call Descriptor → Pc
  decrementing : Call Descriptor → Pc

-- `thread_index` and `thread_Window` between the calls.
pub record Local : Type 0 where
  pub index : ℕ
  pub window : Window
  pub pc : Pc

pub record Created : Type 0 where
  pub config : Config
  pub step_size : ℕ
  pub k_mode : ℕ
  pub relaxation_bound : ℕ
  pub system : System Shared Local

-- The window starts at version 0, the version of the threads' copies in static storage.
unfoldable pub fresh : ℕ → System Shared Local
fresh depth = record {
  shared = record {
    lanes = λ _. record { count = 0 };
    window = record { max = depth; version = 0 };
    log = [];
  };
  locals = λ _. record { index = 0; window = record { max = 0; version = 0 }; pc = idle };
}

unfoldable pub create_counter : (num_threads width depth k_mode bound : ℕ) → Option Created
unfolding parameters shift_for fresh
create_counter num_threads width depth k_mode bound =
    Option.map
      (λ p. record {
        config = record { width = p.width; depth = p.depth; random_hops = 2; index_bits = 16 };
        step_size = shift_for p.depth;
        k_mode = k_mode;
        relaxation_bound = p.relaxation_bound;
        system = fresh p.depth;
      })
      (parameters 2 num_threads width depth k_mode bound)

-- `validate_size` is the build's VALIDATESIZE, `step_size` the field `shift`.
module _ (validate_size : Bool) (cfg : Config) (step_size : ℕ) where
  -- What an operation returns that leaves `d` in its lane.
  unfoldable pub result : Descriptor → ℕ
  result d = if validate_size then 1 else mul64 d.count cfg.width

  -- `increment` after `put_window` returned `d`: the compare-exchange, or another round.
  unfoldable pub try_increment : Shared → Local → Call Descriptor → Descriptor → Shared × Local
  unfolding result start
  try_increment h l w d =
      let new : Descriptor = record { count = add64 d.count 1 } in
      let i = w.place.index in
      if (h.lanes i).count == d.count
      then (
        record h { lanes = update h.lanes i new; log = incremented (result new) ∷ h.log },
        record { index = i; window = w.window; pc = idle },
      )
      else (h, record { index = i; window = w.window; pc = incrementing (start i w.window true) })

  -- `decrement` after `get_window` returned `d`.
  unfoldable pub try_decrement : Shared → Local → Call Descriptor → Descriptor → Shared × Local
  unfolding result start
  try_decrement h l w d =
      let new : Descriptor = record { count = sub64 d.count 1 } in
      let i = w.place.index in
      let l' : Local = record { index = i; window = w.window; pc = idle } in
      if ltb 0 d.count
      then if (h.lanes i).count == d.count
        then (record h { lanes = update h.lanes i new; log = decremented (result new) ∷ h.log }, l')
        else (h, record l' { pc = decrementing (start i w.window true) })
      else (record h { log = empty ∷ h.log }, l')

  unfoldable pub increment : ℕ → Shared → Local → Call Descriptor → Shared × Local
  unfolding try_increment put_window
  increment choice h l w = elim (returned w.pc) [
    | some d ↦ try_increment h l w d
    | none ↦
        let (global, w') = put_window count latest cfg step_size choice h.lanes h.window w in
        (record h { window = global }, record l { pc = incrementing w' })
  ]

  unfoldable pub decrement : ℕ → Shared → Local → Call Descriptor → Shared × Local
  unfolding try_decrement get_window
  decrement choice h l w = elim (returned w.pc) [
    | some d ↦ try_decrement h l w d
    | none ↦
        let (global, w') = get_window count latest cfg step_size choice h.lanes h.window w in
        (record h { window = global }, record l { pc = decrementing w' })
  ]

  -- One step of a thread. An idle thread calls either operation, as `choice` has it.
  unfoldable pub step_at : ℕ → Shared → Local → Pc → Shared × Local
  unfolding increment decrement start
  step_at choice h l idle =
      if choice % 2 == 0
      then (h, record l { pc = incrementing (start l.index l.window false) })
      else (h, record l { pc = decrementing (start l.index l.window false) })
  step_at choice h l (incrementing w) = increment choice h l w
  step_at choice h l (decrementing w) = decrement choice h l w

  unfoldable pub step : ℕ → Shared → Local → Shared × Local
  unfolding step_at
  step choice h l = step_at choice h l l.pc

-- The loop of `counter_size` over the first `n` lanes.
unfoldable pub size_upto : ℕ → (ℕ → Descriptor) → ℕ
size_upto zero lanes = 0
size_upto (suc n) lanes = add64 (size_upto n lanes) (lanes n).count

unfoldable pub counter_size : Config → Shared → ℕ
unfolding size_upto
counter_size cfg h = size_upto cfg.width h.lanes
