-- ===== src/Counter2Dd/Moves.antt =====
-- The steps of the decoupled counter that change no lane: those inside the window calls, and those
-- of the thread alone.
use elastic_2d_relaxation.Calls.{Event, increments, decrements}
use elastic_2d_relaxation.Prelude.{ℕ, suc, ◌+◌, ◌*◌, ◌≡◌, refl, List, ◌⊎◌, inl, inr, arith}
use elastic_2d_relaxation.Search.{Config, IsValid}
use elastic_2d_relaxation.Window2Dd.Put.{PutWindow, put_window}
use elastic_2d_relaxation.Window2Dd.Get.{GetWindow, get_window}
use elastic_2d_relaxation.Window2Dd.PutHolds.{PutHolds}
use elastic_2d_relaxation.Window2Dd.PutBounds.{PutStep, put_window-PutStep}
use elastic_2d_relaxation.Window2Dd.GetHolds.{GetHolds}
use elastic_2d_relaxation.Window2Dd.GetBounds.{GetStep, get_window-GetStep}
use elastic_2d_relaxation.Counter2Dd.{
  Descriptor, put_count, get_count, put_counts, tear, Shared, incrementing, decrementing, Local,
}
use elastic_2d_relaxation.Counter2Dd.Inv.{view, Inv, Holds, Kept}

-- A window that stays or rises by `d` stays a multiple of `d`.
next_steps :
    (d : ℕ) {x y : ℕ} → (a : ℕ) × (x ≡ a * d) → (y ≡ x) ⊎ (y ≡ x + d) → (b : ℕ) × (y ≡ b * d)
next_steps d (a, e) (inl same) = (a, omega arith)
next_steps d (a, e) (inr more) = (a + 1, omega arith)

module _ {cfg : Config} (valid : IsValid cfg) (n choice : ℕ) (h : Shared) (l : Local)
    (v : Inv cfg (suc n) h) (k : Holds cfg h l) where
  open v.in_step use {got_le, put_le, behind_put, get_steps, put_steps}

  -- A step that changes nothing but the thread and, without an operation, the log.
  pub settled :
      (log : List Event) (l' : Local)
      → increments log ≡ increments h.log
      → decrements log ≡ decrements h.log
      → Holds cfg (record h { log = log }) l'
      → Kept cfg n h (record h { log = log }, l')
  settled log l' i d k' = (
    record {
      in_window = v.in_window;
      in_step = v.in_step;
      room = omega (arith, v.room);
      log_room = omega (arith, v.log_room);
      puts_logged = omega (arith, v.puts_logged);
      gets_logged = omega (arith, v.gets_logged);
    },
    k',
    record {
      put_window = omega arith;
      get_window = omega arith;
      puts = λ i. omega arith;
      gets = λ i. omega arith;
    },
  )

  pub quiet : (l' : Local) → Holds cfg h l' → Kept cfg n h (h, l')
  quiet l' = settled h.log l' refl refl

  pub put_step :
      (w : PutWindow Descriptor)
      → PutHolds put_count cfg h.lanes h.put_max w
      → let (global, w') = put_window put_count tear cfg choice h.lanes h.put_max w in
        Kept cfg n h (record h { put_max = global }, record l { pc = incrementing w' })
  put_step w a = (
    record {
      in_window = st.in_window v.in_window;
      in_step = record {
        got_le = got_le;
        put_le = λ i lt. omega (arith, put_le i lt, st.raised);
        behind_put = omega (arith, st.raised);
        get_steps = get_steps;
        put_steps = next_steps cfg.depth put_steps st.whole;
      };
      room = omega (arith, v.room, st.by_depth);
      log_room = omega (arith, v.log_room);
      puts_logged = v.puts_logged;
      gets_logged = v.gets_logged;
    },
    record {
      index_in = k.index_in;
      put_le = omega (arith, k.put_le, st.raised);
      get_le = k.get_le;
      at_pc = st.holds;
    },
    record {
      put_window = st.raised;
      get_window = omega arith;
      puts = λ i. omega arith;
      gets = λ i. omega arith;
    },
  )
    where
      st :
          PutStep put_count tear
            (λ a b. refl)
            valid
            h.lanes
            h.put_max
            (put_window put_count tear cfg choice h.lanes h.put_max w)
      st =
          put_window-PutStep put_count tear (λ a b. refl) valid choice h.lanes h.put_max w a
            (omega (arith, v.room))

  pub get_step :
      (w : GetWindow Descriptor)
      → GetHolds get_count cfg (view h) w
      → let (global, w') =
          get_window get_count tear cfg choice h.lanes (put_counts h) h.get_max w in
        Kept cfg n h (record h { get_max = global }, record l { pc = decrementing w' })
  get_step w a = (
    record {
      in_window = v.in_window;
      in_step = record {
        got_le = got_le;
        put_le = put_le;
        behind_put = st.behind;
        get_steps = next_steps cfg.depth get_steps st.whole;
        put_steps = put_steps;
      };
      room = omega (arith, v.room);
      log_room = omega (arith, v.log_room);
      puts_logged = v.puts_logged;
      gets_logged = v.gets_logged;
    },
    record {
      index_in = k.index_in;
      put_le = k.put_le;
      get_le = omega (arith, k.get_le, st.whole);
      at_pc = st.holds;
    },
    record {
      put_window = omega arith;
      get_window = omega (arith, st.whole);
      puts = λ i. omega arith;
      gets = λ i. omega arith;
    },
  )
    where
      st :
          GetStep get_count tear
            (λ a b. inl refl)
            valid
            (view h)
            (get_window get_count tear cfg choice h.lanes (put_counts h) h.get_max w)
      st =
          get_window-GetStep get_count tear (λ a b. inl refl) valid choice (view h) w v.in_step a
            (omega (arith, v.room))
