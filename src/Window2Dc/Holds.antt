-- ===== src/Window2Dc/Holds.antt =====
-- What a thread inside `put_window` or `get_window` of include/2Dc-window.c knows. It is about the
-- thread's copies alone, so no other thread can spoil it.
use elastic_2d_relaxation.Prelude.{
  ℕ, suc, Bool, true, false, some, ◌+◌, ◌*◌, ◌^◌, ◌≤◌, ◌<◌, ◌≡◌, refl, ◌⊎◌, arith,
}
use elastic_2d_relaxation.Search.{Config, InPlace}
use elastic_2d_relaxation.Window2Dc.{
  Window, Pc, enter, sync, read_rest, check, resync, shift, exchange, reload, done, Call, start,
  returned,
}

module _ (cfg : Config) (step_size : ℕ) where
  -- A window whole steps above the lowest one.
  abbrev pub Aligned : Window → Type 0
  Aligned window = (k : ℕ) × (window.max ≡ cfg.depth + k * step_size) × (window.max < 2 ^ 64)

  -- A copy of a window, or the zero that a thread's copy starts with.
  abbrev pub Copied : Window → Type 0
  Copied window = Aligned window ⊎ (window.max ≡ 0)

-- How low the copy can be after a scan that has met an element. A compare-exchange that fails
-- overwrites the copy, and the scan is then dropped.
abbrev pub low : {D : Type 0} → Pc D → ℕ → ℕ
low reload depth = 0
low _ depth = suc depth

module _ {D : Type 0} (count : D → ℕ) (cfg : Config) (step_size : ℕ) where
  abbrev Small : D → Type 0
  Small d = count d + cfg.depth < 2 ^ 64

  abbrev pub AtPut : Call D → Pc D → Type 0
  AtPut w (read_rest d) = Small d
  AtPut w (check d) = Small d
  AtPut w (done d) = count d < w.window.max
  AtPut w _ = Unit

  abbrev pub AtGet : Call D → Pc D → Type 0
  AtGet w (enter contention) = w.empty ≡ true
  AtGet w (sync contention) = w.empty ≡ true
  AtGet w resync = w.empty ≡ true
  AtGet w (read_rest d) = Small d
  AtGet w (check d) = Small d
  AtGet w shift = w.empty ≡ false
  AtGet w exchange = cfg.depth + step_size ≤ w.window.max
  AtGet w (done d) = (w.window.max < count d + cfg.depth) ⊎ (w.empty ≡ true)
  AtGet w _ = Unit

  pub record PutHolds (w : Call D) : Type 0 where
    pub in_place : InPlace cfg w.place
    pub copied : Copied cfg step_size w.window
    pub at_pc : AtPut w w.pc

  -- A scan that has met an element below the window is above the lowest window.
  pub record GetHolds (w : Call D) : Type 0 where
    pub in_place : InPlace cfg w.place
    pub copied : Copied cfg step_size w.window
    pub above : w.empty ≡ false → low w.pc cfg.depth ≤ w.window.max
    pub at_pc : AtGet w w.pc

  pub start-PutHolds :
      (index : ℕ) (window : Window) (contention : Bool)
      → index < cfg.width
      → Copied cfg step_size window
      → PutHolds (start index window contention)
  unfolding start
  start-PutHolds index window contention lt c = record {
    in_place = omega arith;
    copied = c;
    at_pc = tt;
  }

  pub start-GetHolds :
      (index : ℕ) (window : Window) (contention : Bool)
      → index < cfg.width
      → Copied cfg step_size window
      → GetHolds (start index window contention)
  unfolding start
  start-GetHolds index window contention lt c = record {
    in_place = omega arith;
    copied = c;
    above = λ e. cc;
    at_pc = refl;
  }

  pub returned-PutHolds :
      (w : Call D) (d : D) → returned w.pc ≡ some d → PutHolds w → count d < w.window.max
  returned-PutHolds w d e h = at w.pc e h.at_pc
    where
      at : (pc : Pc D) → returned pc ≡ some d → AtPut w pc → count d < w.window.max
      at (done x) e a = ground arith
      at _ e a = cc

  pub returned-GetHolds :
      (w : Call D) (d : D)
      → returned w.pc ≡ some d
      → GetHolds w
      → (w.window.max < count d + cfg.depth) ⊎ (w.empty ≡ true)
  returned-GetHolds w d e h = at w.pc e h.at_pc
    where
      at :
          (pc : Pc D)
          → returned pc ≡ some d
          → AtGet w pc
          → (w.window.max < count d + cfg.depth) ⊎ (w.empty ≡ true)
      at (done x) e a = ground arith
      at _ e a = cc
