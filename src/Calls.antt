-- ===== src/Calls.antt =====
-- What the calls of a counter returned, in the order in which they took effect: the history that the
-- laws of src/2Dd-counter and src/2Dc-counter speak of. No code reads it.
use elastic_2d_relaxation.Prelude.{ℕ, suc, List, [], ◌∷◌}

pub data Event : Type 0 where
  incremented : ℕ → Event
  decremented : ℕ → Event
  empty : Event  -- `decrement` returned 0 for an empty counter

-- How many operations of either kind have taken effect.
abbrev pub increments : List Event → ℕ
increments [] = 0
increments (incremented _ ∷ log) = suc (increments log)
increments (_ ∷ log) = increments log

abbrev pub decrements : List Event → ℕ
decrements [] = 0
decrements (decremented _ ∷ log) = suc (decrements log)
decrements (_ ∷ log) = decrements log
