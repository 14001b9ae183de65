-- ===== src/MultiCounter.antt =====
-- src/multi-counter_random-relaxed/multi-counter_random-relaxed.c, built with NUM_CHOICES: a counter
-- spread over lanes, whose operations work on the best of some lanes drawn at random. The children
-- hold the invariant with the theorems, and the tests.
pub mod Inv
pub mod Steps
pub mod Laws
mod Tests
use elastic_2d_relaxation.Prelude.{
  ℕ, zero, suc, ◌+◌, ◌%◌, Bool, true, false, ◌&&◌, List, [], ◌∷◌, if◌then◌else◌, ltb, ◌==◌, add64,
  sub64, mul64, update,
}
use elastic_2d_relaxation.Calls.{Event, incremented, decremented, empty}
use elastic_2d_relaxation.Interleave.{System}

-- `descriptor_t`; the count is an `int64_t`, in two's complement.
pub record Descriptor : Type 0 where
  pub count : ℕ
  pub version : ℕ

abbrev pub count : Descriptor → ℕ
count d = d.count

-- `a < b` on `int64_t`
abbrev pub signed_ltb : ℕ → ℕ → Bool
signed_ltb a b = ltb (add64 a 9223372036854775808) (add64 b 9223372036854775808)

pub data Operation : Type 0 where
  increment : Operation
  decrement : Operation

-- Where a thread is, with the locals that are live there: `index` is `thread_index`, `descriptor`
-- the best so far, `i` the loop's counter. No step reads `seen`, the counts read in this round.
pub data Pc : Type 0 where
  idle : Pc
  draw : Operation → Pc  -- the head of the operation's loop
  first : Operation → (index version : ℕ) → Pc  -- between the reads of the first lane
  next : Operation → (i index : ℕ) (descriptor : Descriptor) (seen : List ℕ) → Pc
  second :
      Operation → (i index : ℕ) (descriptor : Descriptor) (seen : List ℕ) (index2 version2 : ℕ) → Pc

-- The shared memory. No step reads `log`, the calls that have taken effect, the last one first.
pub record Shared : Type 0 where
  pub lanes : ℕ → Descriptor
  pub log : List Event

-- `create_counter`
unfoldable pub create_counter : System Shared Pc
create_counter = record {
  shared = record { lanes = λ _. record { count = 0; version = 0 }; log = [] };
  locals = λ _. idle;
}

-- The comparison of the 16-byte compare-exchange.
abbrev pub same_descriptor : Descriptor → Descriptor → Bool
same_descriptor a b = (a.count == b.count) && (a.version == b.version)

-- Whether a lane with the count `b` is better than one with `a`.
unfoldable pub better : Operation → ℕ → ℕ → Bool
better increment a b = signed_ltb b a
better decrement a b = signed_ltb a b

-- `validate_size` is the build's VALIDATESIZE, `choices` its NUM_CHOICES.
module _ (validate_size : Bool) (choices width : ℕ) where
  -- What follows `get_increment_index` and `get_decrement_index`.
  unfoldable pub try_increment : Shared → ℕ → Descriptor → Shared × Pc
  try_increment h index d =
      let new : Descriptor = record { count = add64 d.count 1; version = add64 d.version 1 } in
      if same_descriptor (h.lanes index) d
      then (
        record {
          lanes = update h.lanes index new;
          log = incremented (mul64 new.count width) ∷ h.log;
        },
        idle,
      )
      else (h, draw increment)

  unfoldable pub try_decrement : Shared → ℕ → Descriptor → Shared × Pc
  try_decrement h index d =
      let new : Descriptor = record { count = sub64 d.count 1; version = add64 d.version 1 } in
      let result = if validate_size then 1 else mul64 new.count width in
      if d.count == 0
      then (record h { log = empty ∷ h.log }, idle)
      else if same_descriptor (h.lanes index) d
      then (record { lanes = update h.lanes index new; log = decremented result ∷ h.log }, idle)
      else (h, draw decrement)

  unfoldable pub attempt : Operation → Shared → ℕ → Descriptor → Shared × Pc
  unfolding try_increment try_decrement
  attempt increment = try_increment
  attempt decrement = try_decrement

  -- One step of a thread. An idle thread calls either operation, as `choice` has it; elsewhere
  -- `choice` is what the random generator yields.
  unfoldable pub step : ℕ → Shared → Pc → Shared × Pc
  unfolding attempt better
  step choice h idle = (h, draw (if choice % 2 == 0 then increment else decrement))
  step choice h (draw op) =
      let index = choice % width in (h, first op index (h.lanes index).version)
  step choice h (first op index version) =
      let c = (h.lanes index).count in
      (h, next op 1 index (record { count = c; version = version }) (c ∷ []))
  step choice h (next op i index d seen) =
      let index2 = choice % width in
      if ltb i choices
      then (h, second op i index d seen index2 (h.lanes index2).version)
      else attempt op h index d
  step choice h (second op i index d seen index2 version2) =
      let c = (h.lanes index2).count in
      if better op d.count c
      then (h, next op (suc i) index2 (record { count = c; version = version2 }) (c ∷ seen))
      else (h, next op (suc i) index d (c ∷ seen))

-- The loop of `counter_size` over the first `n` lanes.
unfoldable pub size_upto : ℕ → (ℕ → Descriptor) → ℕ
size_upto zero lanes = 0
size_upto (suc n) lanes = add64 (size_upto n lanes) (lanes n).count
