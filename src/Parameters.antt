-- ===== src/Parameters.antt =====
-- How every `create_*` of the static designs turns the relaxation mode into a width and a depth.
mod Tests
pub mod Bounds
use mathlib.Core.Option
use elastic_2d_relaxation.Prelude.{
  ℕ, ◌<◌, arith, ◌/◌, Option, none, some, ltb, ◌==◌, if◌then◌else◌, add64, sub64, mul64,
}

pub record Parameters : Type 0 where
  pub width : ℕ
  pub depth : ℕ
  pub relaxation_bound : ℕ

-- `a / b` on `uint64_t`; `none` is the trap of a division by zero.
unfoldable pub div64 : ℕ → ℕ → Option ℕ
div64 a b = if b == 0 then none else some (a / b)

-- The bound of a single lane is spent on its depth.
unfoldable pub single_lane : ℕ → Parameters
single_lane bound = record { width = 1; depth = bound; relaxation_bound = 0 }

-- `width = bound / (factor * depth) + 1`
unfoldable pub width_for : ℕ → ℕ → ℕ → Option ℕ
unfolding div64
width_for factor depth bound = Option.map (λ q. add64 q 1) (div64 bound (mul64 factor depth))

-- The width is given, and `depth` is the bound over the other lanes: too small a bound narrows it.
unfoldable pub narrowed : ℕ → ℕ → ℕ → ℕ → Option Parameters
unfolding width_for
narrowed factor width bound depth =
    if ltb depth 1
    then Option.map (λ w. record { width = w; depth = 1; relaxation_bound = bound })
        (width_for factor 1 bound)
    else some (record { width = width; depth = depth; relaxation_bound = bound })

-- The width is given: modes 1 and 3.
unfoldable pub for_width : ℕ → ℕ → ℕ → Option Parameters
unfolding div64 single_lane narrowed Option.bind
for_width factor width bound =
    if ltb width 2
    then some (single_lane bound)
    else Option.bind (div64 bound (mul64 factor (sub64 width 1))) (narrowed factor width bound)

-- The depth is given: mode 2.
unfoldable pub for_depth : ℕ → ℕ → ℕ → Option Parameters
unfolding single_lane width_for
for_depth factor depth bound =
    Option.map
      (λ w.
        if ltb w 1
        then single_lane bound
        else record { width = w; depth = depth; relaxation_bound = bound })
      (width_for factor depth bound)

-- `factor` is the constant of the design's bound, `factor * depth * (width - 1)`.
unfoldable pub parameters : (factor num_threads width depth k_mode bound : ℕ) → Option Parameters
unfolding for_width for_depth
parameters factor num_threads width depth k_mode bound =
    if k_mode == 3
    then for_width factor (mul64 num_threads width) bound
    else if k_mode == 2
    then for_depth factor depth bound
    else if k_mode == 1
    then for_width factor width bound
    else if k_mode == 0
    then some (record {
      width = width;
      depth = depth;
      relaxation_bound = mul64 (mul64 factor depth) (sub64 width 1);
    })
    else some (record { width = width; depth = depth; relaxation_bound = bound })

-- The field `shift` of the coupled designs: `depth/2 > 1 ? depth/2 : 1`
unfoldable pub shift_for : ℕ → ℕ
shift_for depth = if ltb 1 (depth / 2) then depth / 2 else 1

pub shift_for-pos : (depth : ℕ) → 0 < shift_for depth
unfolding shift_for
shift_for-pos depth = ground arith
