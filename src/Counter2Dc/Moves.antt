-- ===== src/Counter2Dc/Moves.antt =====
-- What the steps of the coupled counter do to its memory: those inside the window calls, those of the
-- thread alone, and the compare-exchange of an operation that succeeds.
use elastic_2d_relaxation.Prelude.{
  ℕ, suc, ◌+◌, ◌≤◌, ◌<◌, ◌≡◌, refl, List, ◌∷◌, inr, arith, update, total-update,
}
use elastic_2d_relaxation.Calls.{Event, increments, decrements}
use elastic_2d_relaxation.Search.{Config, IsValid}
use elastic_2d_relaxation.Window2Dc.{Window, Call, put_window, get_window}
use elastic_2d_relaxation.Window2Dc.Holds.{Copied, PutHolds, GetHolds}
use elastic_2d_relaxation.Window2Dc.Moves.{Roomy, put_window-Roomy, get_window-Roomy}
use elastic_2d_relaxation.Counter2Dc.{
  Descriptor, count, latest, Shared, Pc, idle, incrementing, decrementing, Local,
}
use elastic_2d_relaxation.Counter2Dc.Inv.{Inv, AtPc, Holds, small, Kept}

module _ {cfg : Config} (valid : IsValid cfg) (step_size : ℕ) (some_step : 0 < step_size)
    (n choice : ℕ) (h : Shared) (l : Local) (v : Inv cfg step_size (suc n) h)
    (k : Holds cfg step_size h l) where
  -- A step that changes nothing but the thread and, without an operation, the log.
  pub settled :
      (log : List Event) (l' : Local)
      → increments log ≡ increments h.log
      → decrements log ≡ decrements h.log
      → Holds cfg step_size h l'
      → Kept cfg step_size n (record h { log = log }, l')
  settled log l' i d k' = (
    record {
      aligned = v.aligned;
      room = omega (arith, v.room);
      log_room = omega (arith, v.log_room);
      logged = omega (arith, v.logged);
    },
    record { index_in = k'.index_in; copied = k'.copied; at_pc = k'.at_pc },
    tt,
  )

  pub quiet : (l' : Local) → Holds cfg step_size h l' → Kept cfg step_size n (h, l')
  quiet l' = settled h.log l' refl refl

  -- The window, which a step in the window code may move.
  roomy : Roomy cfg step_size (suc n) h.window
  roomy = record { aligned = v.aligned; room = v.room }

  slid :
      (window : Window) (pc : Pc)
      → Roomy cfg step_size n window
      → AtPc cfg step_size pc
      → Kept cfg step_size n (record h { window = window }, record l { pc = pc })
  slid window pc r a = (
    record {
      aligned = r.aligned;
      room = r.room;
      log_room = omega (arith, v.log_room);
      logged = v.logged;
    },
    record { index_in = k.index_in; copied = k.copied; at_pc = a },
    tt,
  )

  pub put_step :
      (w : Call Descriptor)
      → PutHolds count cfg step_size w
      → let (global, w') = put_window count latest cfg step_size choice h.lanes h.window w in
        Kept cfg step_size n (record h { window = global }, record l { pc = incrementing w' })
  put_step w a = slid _ _ st.0 st.1
    where
      st :
          let (global, w') = put_window count latest cfg step_size choice h.lanes h.window w in
          Roomy cfg step_size n global × PutHolds count cfg step_size w'
      st =
          put_window-Roomy cfg step_size count latest (λ a b. inr refl) valid some_step n choice
            h.lanes h.window roomy (small cfg step_size v) w a

  pub get_step :
      (w : Call Descriptor)
      → GetHolds count cfg step_size w
      → let (global, w') = get_window count latest cfg step_size choice h.lanes h.window w in
        Kept cfg step_size n (record h { window = global }, record l { pc = decrementing w' })
  get_step w a = slid _ _ st.0 st.1
    where
      st :
          let (global, w') = get_window count latest cfg step_size choice h.lanes h.window w in
          Roomy cfg step_size n global × GetHolds count cfg step_size w'
      st =
          get_window-Roomy cfg step_size count latest (λ a b. inr refl) valid some_step n choice
            h.lanes h.window roomy (small cfg step_size v) w a

  -- The compare-exchange that puts `new` into the lane `i`.
  pub counted :
      (i : ℕ) (new : Descriptor) (event : Event) (window : Window)
      → i < cfg.width
      → Copied cfg step_size window
      → increments (event ∷ h.log) ≤ suc (increments h.log)
      → count new + increments h.log + decrements (event ∷ h.log)
        ≡ count (h.lanes i) + increments (event ∷ h.log) + decrements h.log
      → Kept cfg step_size n (
        record h { lanes = update h.lanes i new; log = event ∷ h.log },
        record { index = i; window = window; pc = idle },
      )
  counted i new event window lt c grows e = (
    record {
      aligned = v.aligned;
      room = omega (arith, v.room);
      log_room = omega (arith, v.log_room);
      logged = omega (arith, v.logged, total-update count cfg.width h.lanes i new lt);
    },
    record { index_in = lt; copied = c; at_pc = tt },
    tt,
  )
