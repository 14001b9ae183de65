-- ===== src/Window2Dd/Relaxed.antt =====
-- How far the lanes under the windows of include/2Dd-window.c can run apart.
use elastic_2d_relaxation.Prelude.{
  ℕ, ◌+◌, ◌-◌, ◌*◌, ◌≤◌, ◌<◌, ◌≡◌, arith, ap, total, total-le_but_one,
}
use elastic_2d_relaxation.Search.{Config, IsValid}
use elastic_2d_relaxation.Window2Dd.Lanes.{InLanes}

-- The puts are at most what the lane `j` has in each lane, and `depth` more in each of the other
-- `width - 1` lanes.
pub puts_relaxed :
    {P G : Type 0} (put_count : P → ℕ) (get_count : G → ℕ) (cfg : Config) (n : ℕ) (lanes : ℕ → P)
    (get_lanes : ℕ → G) (put_max get_max puts gets : ℕ)
    → InLanes put_count get_count cfg n lanes get_lanes put_max get_max puts gets
    → IsValid cfg
    → (j : ℕ) → j < cfg.width
    → puts ≤ cfg.width * put_count (lanes j) + cfg.depth * (cfg.width - 1)
puts_relaxed put_count get_count cfg n lanes get_lanes put_max get_max puts gets v valid j lt =
    omega (arith, v.puts_logged, bound, ap (λ (x : ℕ). cfg.depth * x) whole)
  where
    bound :
        total put_count cfg.width lanes + cfg.depth
        ≤ cfg.width * put_count (lanes j) + cfg.width * cfg.depth
    bound =
        total-le_but_one put_count cfg.width (put_count (lanes j)) cfg.depth j lanes
          (λ i q. omega (arith, v.in_window.upper i q, v.in_window.lower j lt)) (omega arith) lt

    whole : cfg.width ≡ (cfg.width - 1) + 1
    whole = omega (arith, valid.some_width)
