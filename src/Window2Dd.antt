-- ===== src/Window2Dd.antt =====
-- include/2Dd-window.c and include/2Dd-window.h: the two windows of the decoupled designs. The
-- children `Put` and `Get` hold the two searches, one access to shared memory a step; `PutHolds` and
-- `GetHolds` what a thread knows in them, `PutBounds` and `GetBounds` what they keep, `Solo` and
-- `PutSolo` that the first ends.
pub mod Put
pub mod Get
pub mod PutHolds
pub mod PutBounds
pub mod GetHolds
pub mod GetBounds
pub mod Lanes
pub mod Held
pub mod PutHeld
pub mod Relaxed
pub mod Solo
pub mod PutSolo
use elastic_2d_relaxation.Prelude.{ℕ}

-- `initialize_global_window`, which the counter does not call: the put window and the get window.
unfoldable pub initialize_global_window : ℕ → ℕ × ℕ
initialize_global_window depth = (depth, depth)
