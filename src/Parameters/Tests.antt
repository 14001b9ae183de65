-- ===== src/Parameters/Tests.antt =====
-- Parameters of concrete calls.
use elastic_2d_relaxation.Prelude.{◌≡◌, refl, some, none, inr, arith}
use elastic_2d_relaxation.Parameters.{Parameters, parameters}
use elastic_2d_relaxation.Parameters.Bounds.{Keeps, parameters-Keeps}

-- Eight lanes for a bound of 100: a depth of 7.
abbrev eight_lanes : Parameters
eight_lanes = record { width = 8; depth = 7; relaxation_bound = 100 }

parameters-eight_lanes : parameters 2 4 2 0 3 100 ≡ some eight_lanes
unfolding parameters
parameters-eight_lanes = refl

-- A bound below that of the width narrows it.
parameters-narrow :
    parameters 2 4 8 0 1 9 ≡ some (record { width = 5; depth = 1; relaxation_bound = 9 })
unfolding parameters
parameters-narrow = refl

-- Mode 2 with depth 0 divides by zero.
parameters-trap : parameters 2 4 8 0 2 9 ≡ none
unfolding parameters
parameters-trap = refl

parameters-Keeps_example : Keeps 2 100 eight_lanes
parameters-Keeps_example =
    parameters-Keeps 2 4 2 0 3 100 (omega arith) (inr (inr refl)) parameters-eight_lanes
