-- ===== src/Window2Dc/Moves.antt =====
-- What the steps of the window calls of include/2Dc-window.c make of the global window: it stays whole
-- steps above its lowest place, and wraps in none of the steps to come.
use elastic_2d_relaxation.Prelude.{ℕ, suc, ◌+◌, ◌*◌, ◌^◌, ◌<◌, ◌≤◌, ◌≡◌, ◌⊎◌, inl, inr, arith}
use elastic_2d_relaxation.Search.{Config, IsValid}
use elastic_2d_relaxation.Window2Dc.{Window, Call, raised, lowered, put_window, get_window}
use elastic_2d_relaxation.Window2Dc.Holds.{Aligned, PutHolds, GetHolds}
use elastic_2d_relaxation.Window2Dc.Slides.{raised-Aligned, lowered-Aligned}
use elastic_2d_relaxation.Window2Dc.PutBounds.{PutStep, put_window-PutStep}
use elastic_2d_relaxation.Window2Dc.GetBounds.{GetStep, get_window-GetStep}

module _ (cfg : Config) (step_size : ℕ) where
  -- The window with `n` steps to go.
  pub record Roomy (n : ℕ) (window : Window) : Type 0 where
    pub aligned : Aligned cfg step_size window
    pub room : window.max + n * step_size < 2 ^ 64

  pub stay-Roomy : {n : ℕ} {window : Window} → Roomy (suc n) window → Roomy n window
  stay-Roomy v = record { aligned = v.aligned; room = omega (arith, v.room) }

  raised-Roomy :
      {n : ℕ} {global : Window} (window : Window)
      → Roomy (suc n) global
      → (window ≡ global) ⊎ (window ≡ raised step_size global)
      → Roomy n window
  raised-Roomy {n} {global} window v (inl e) = rw e (stay-Roomy v)
  raised-Roomy {n} {global} window v (inr e) = rw e (record {
    aligned = raised-Aligned cfg step_size global v.aligned (omega (arith, v.room));
    room = omega (arith, v.room);
  })

  lowered-Roomy :
      {n : ℕ} {global : Window} (window : Window)
      → 0 < step_size
      → Roomy (suc n) global
      → (window ≡ global)
        ⊎ ((window ≡ lowered step_size global) × (cfg.depth + step_size ≤ global.max))
      → Roomy n window
  lowered-Roomy {n} {global} window some_step v (inl e) = rw e (stay-Roomy v)
  lowered-Roomy {n} {global} window some_step v (inr (e, above)) = rw e (record {
    aligned = lowered-Aligned cfg step_size global v.aligned above some_step;
    room = omega (arith, v.room);
  })

  module _ {D : Type 0} (count : D → ℕ) (tear : D → D → D)
      (tear_count : (a b : D) → (count (tear a b) ≡ count a) ⊎ (count (tear a b) ≡ count b))
      (valid : IsValid cfg) (some_step : 0 < step_size) (n choice : ℕ) (lanes : ℕ → D)
      (global : Window) (v : Roomy (suc n) global)
      (small : (i : ℕ) → i < cfg.width → count (lanes i) + cfg.depth < 2 ^ 64) (w : Call D) where
    pub put_window-Roomy :
        PutHolds count cfg step_size w
        → let (global', w') = put_window count tear cfg step_size choice lanes global w in
          Roomy n global' × PutHolds count cfg step_size w'
    put_window-Roomy a = (raised-Roomy _ v st.moved, st.holds)
      where
        st :
            PutStep count cfg step_size global
              (put_window count tear cfg step_size choice lanes global w)
        st =
            put_window-PutStep count tear tear_count valid step_size choice lanes global w v.aligned
              (omega (arith, v.room)) small a

    pub get_window-Roomy :
        GetHolds count cfg step_size w
        → let (global', w') = get_window count tear cfg step_size choice lanes global w in
          Roomy n global' × GetHolds count cfg step_size w'
    get_window-Roomy a = (lowered-Roomy _ some_step v st.moved, st.holds)
      where
        st :
            GetStep count cfg step_size global
              (get_window count tear cfg step_size choice lanes global w)
        st =
            get_window-GetStep count tear tear_count valid step_size choice lanes global w v.aligned
              small a some_step
