-- ===== src/Counter2Dd/Counts.antt =====
-- The compare-exchange of an operation of the decoupled counter that succeeds.
use elastic_2d_relaxation.Calls.{incremented, decremented}
use elastic_2d_relaxation.Prelude.{
  ℕ, suc, ◌≤◌, ◌<◌, ◌≡◌, true, ◌∷◌, arith, ltb, add64, sub64, update, total-update,
}
use elastic_2d_relaxation.Search.{Config, IsValid}
use elastic_2d_relaxation.Counter2Dd.{
  Descriptor, put_count, get_count, same_descriptor, Shared, idle, Local,
}
use elastic_2d_relaxation.Counter2Dd.Inv.{Inv, Holds, Kept}

module _ {cfg : Config} (valid : IsValid cfg) (n choice : ℕ) (h : Shared) (l : Local)
    (v : Inv cfg (suc n) h) (k : Holds cfg h l) where
  open v.in_step use {got_le, put_le, behind_put, get_steps, put_steps}

  -- The lane `i` gets one more put, or one more get, by a compare-exchange that found `d` there.
  module _ (i : ℕ) (lt : i < cfg.width) (d : Descriptor)
      (found : same_descriptor (h.lanes i) d ≡ true) (value : ℕ) where
    pub put_counted :
        d.put_count < h.put_max
        → (max : ℕ) → max ≤ h.put_max
        → let new : Descriptor = record d { put_count = add64 d.put_count 1 } in
          Kept cfg n h (
            record h { lanes = update h.lanes i new; log = incremented value ∷ h.log },
            record l { index = i; put_max = max; pc = idle },
          )
    put_counted below max le = (
      record {
        in_window = record {
          upper = λ j q. ground (arith, v.in_window.upper j q, v.room);
          lower = λ j q. ground (arith, v.in_window.lower j q, v.room);
        };
        in_step = record {
          got_le = λ j q. ground (arith, got_le j q, v.room);
          put_le = λ j q. ground (arith, put_le j q, v.room);
          behind_put = behind_put;
          get_steps = get_steps;
          put_steps = put_steps;
        };
        room = omega (arith, v.room);
        log_room = omega (arith, v.log_room);
        puts_logged = ground (
          arith,
          v.puts_logged,
          v.room,
          total-update put_count cfg.width h.lanes i (record d { put_count = add64 d.put_count 1 })
              lt,
        );
        gets_logged = ground (
          arith,
          v.gets_logged,
          total-update get_count cfg.width h.lanes i (record d { put_count = add64 d.put_count 1 })
              lt,
        );
      },
      record { index_in = lt; put_le = le; get_le = k.get_le; at_pc = tt },
      record {
        put_window = omega arith;
        get_window = omega arith;
        puts = λ j. ground (arith, v.room);
        gets = λ j. ground arith;
      },
    )

    pub get_counted :
        ltb 0 (sub64 d.put_count d.get_count) ≡ true
        → (max : ℕ) → max ≤ h.get_max
        → let new : Descriptor = record d { get_count = add64 d.get_count 1 } in
          Kept cfg n h (
            record h { lanes = update h.lanes i new; log = decremented value ∷ h.log },
            record l { index = i; get_max = max; pc = idle },
          )
    get_counted some_left max le = (
      record {
        in_window = record {
          upper = λ j q. ground (arith, v.in_window.upper j q);
          lower = λ j q. ground (arith, v.in_window.lower j q);
        };
        in_step = record {
          got_le = λ j q. ground (arith, got_le j q, put_le i lt, v.room);
          put_le = λ j q. ground (arith, put_le j q);
          behind_put = behind_put;
          get_steps = get_steps;
          put_steps = put_steps;
        };
        room = omega (arith, v.room);
        log_room = omega (arith, v.log_room);
        puts_logged = ground (
          arith,
          v.puts_logged,
          total-update put_count cfg.width h.lanes i (record d { get_count = add64 d.get_count 1 })
              lt,
        );
        gets_logged = ground (
          arith,
          v.gets_logged,
          v.room,
          got_le i lt,
          put_le i lt,
          total-update get_count cfg.width h.lanes i (record d { get_count = add64 d.get_count 1 })
              lt,
        );
      },
      record { index_in = lt; put_le = k.put_le; get_le = le; at_pc = tt },
      record {
        put_window = omega arith;
        get_window = omega arith;
        puts = λ j. ground arith;
        gets = λ j. ground (arith, v.room, got_le i lt, put_le i lt);
      },
    )
