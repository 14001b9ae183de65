-- ===== src/Window2Dc/Slides.antt =====
-- What a slide of the window in include/2Dc-window.c does to a window in whole steps, and what the
-- proofs about `put_window` and `get_window` share.
use elastic_2d_relaxation.Prelude.{
  inl, inr, leb, ℕ, zero, suc, true, ◌+◌, ◌^◌, ◌≤◌, ◌<◌, ◌≡◌, ◌⊎◌, arith,
}
use elastic_2d_relaxation.Search.{Config, Place, InPlace}
use elastic_2d_relaxation.Window2Dc.{Window, same_window, raised, lowered}
use elastic_2d_relaxation.Window2Dc.Holds.{Copied, Aligned}

-- Both parts of a torn descriptor were in the lane.
pub torn :
    {D : Type 0} (count : D → ℕ) (tear : D → D → D)
    → ((a b : D) → (count (tear a b) ≡ count a) ⊎ (count (tear a b) ≡ count b))
    → (first second : D) (depth : ℕ) → count first + depth < 2 ^ 64
    → count second + depth < 2 ^ 64
    → count (tear first second) + depth < 2 ^ 64
torn count tear tear_count first second depth a b = omega (arith, tear_count first second)

pub cleared : {cfg : Config} {p : Place} → InPlace cfg p → InPlace cfg (record p { hops = 0 })
cleared {cfg} {p} q = ground (arith, q)

pub equal : {a b : Window} → same_window a b ≡ true → a ≡ b
equal e = ground arith

pub raised-Aligned :
    (cfg : Config) (step_size : ℕ) (window : Window)
    → Aligned cfg step_size window
    → window.max + step_size < 2 ^ 64
    → Aligned cfg step_size (raised step_size window)
raised-Aligned cfg step_size window (k, e, f) r = (suc k, omega arith, omega arith)

pub lowered-Aligned :
    (cfg : Config) (step_size : ℕ) (window : Window)
    → Aligned cfg step_size window
    → cfg.depth + step_size ≤ window.max
    → 0 < step_size
    → Aligned cfg step_size (lowered step_size window)
lowered-Aligned cfg step_size window (zero, e, f) above p = (0, omega arith, omega arith)
lowered-Aligned cfg step_size window (suc k, e, f) above p = (k, omega arith, omega arith)

-- A copy above the lowest window is a whole step above it.
pub whole_step :
    (cfg : Config) (step_size : ℕ) (window : Window)
    → Copied cfg step_size window
    → suc cfg.depth ≤ window.max
    → cfg.depth + step_size ≤ window.max
whole_step cfg step_size window (inl (zero, e, f)) above = omega arith
whole_step cfg step_size window (inl (suc k, e, f)) above = omega arith
whole_step cfg step_size window (inr e) above = omega arith

-- Such a copy can be lowered.
pub not_too_low :
    (cfg : Config) (step_size : ℕ) (window : Window)
    → 0 < step_size
    → Copied cfg step_size window
    → suc cfg.depth ≤ window.max
    → leb cfg.depth (lowered step_size window).max ≡ true
not_too_low cfg step_size window p (inl (k, e, f)) above =
    ground (arith, whole_step cfg step_size window (inl (k, e, f)) above)
not_too_low cfg step_size window p (inr e) above = ground arith
