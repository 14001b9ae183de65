-- ===== src/Window2Dd/Lanes.antt =====
-- The lanes under the two windows of include/2Dd-window.c, for a structure whose puts and gets each
-- raise a count of one lane: what the steps of the window calls, and the operations, keep. The
-- put_array and the get_array may be the same.
use elastic_2d_relaxation.Prelude.{
  ℕ, suc, ◌+◌, ◌*◌, ◌^◌, ◌≤◌, ◌<◌, ◌≡◌, ◌⊎◌, inl, inr, arith, sym, ◌≢◌, total, total-differ,
  total-ext, ℕ_discrete,
}
use elastic_2d_relaxation.Search.{Config, IsValid}
use elastic_2d_relaxation.Window2Dd.Put.{PutWindow, put_window}
use elastic_2d_relaxation.Window2Dd.Get.{GetWindow, get_window}
use elastic_2d_relaxation.Window2Dd.PutHolds.{InWindow, PutHolds}
use elastic_2d_relaxation.Window2Dd.PutBounds.{PutStep, put_window-PutStep}
use elastic_2d_relaxation.Window2Dd.GetHolds.{View, InStep, GetHolds}
use elastic_2d_relaxation.Window2Dd.GetBounds.{GetStep, get_window-GetStep}

-- A window that stays or rises by `d` stays a multiple of `d`.
next_steps :
    (d : ℕ) {x y : ℕ} → (a : ℕ) × (x ≡ a * d) → (y ≡ x) ⊎ (y ≡ x + d) → (b : ℕ) × (y ≡ b * d)
next_steps d (a, e) (inl same) = (a, omega arith)
next_steps d (a, e) (inr more) = (a + 1, omega arith)

module _ {P G : Type 0} (put_count : P → ℕ) (get_count : G → ℕ) (cfg : Config) where
  -- The part of the memory that `get_window` looks at.
  abbrev pub view : (ℕ → P) → (ℕ → G) → (put_max get_max : ℕ) → View G
  view put_lanes get_lanes put_max get_max = record {
    lanes = get_lanes;
    puts = λ i. put_count (put_lanes i);
    global = get_max;
    put_max = put_max;
  }

  -- The lanes, with `n` steps to go and `puts` and `gets` operations done; `room` says that no
  -- window wraps in them.
  pub record InLanes (n : ℕ) (put_lanes : ℕ → P) (get_lanes : ℕ → G) (put_max get_max puts gets : ℕ)
      : Type 0 where
    pub in_window : InWindow cfg (λ i. put_count (put_lanes i)) put_max
    pub in_step : InStep get_count cfg (view put_lanes get_lanes put_max get_max)
    pub room : put_max + n * cfg.depth < 2 ^ 64
    pub puts_logged : total put_count cfg.width put_lanes ≡ puts
    pub gets_logged : total get_count cfg.width get_lanes ≡ gets

  module _ (n : ℕ) (put_lanes : ℕ → P) (get_lanes : ℕ → G) (put_max get_max puts gets : ℕ)
      (v : InLanes (suc n) put_lanes get_lanes put_max get_max puts gets) where
    open v.in_step use {got_le, put_le, behind_put, get_steps, put_steps}

    pub stay-InLanes : InLanes n put_lanes get_lanes put_max get_max puts gets
    stay-InLanes = record {
      in_window = v.in_window;
      in_step = v.in_step;
      room = omega (arith, v.room);
      puts_logged = v.puts_logged;
      gets_logged = v.gets_logged;
    }

    pub put_window-InLanes :
        (tear : P → P → P) (tear_count : (a b : P) → put_count (tear a b) ≡ put_count b)
        (valid : IsValid cfg) (choice : ℕ) (w : PutWindow P)
        → PutHolds put_count cfg put_lanes put_max w
        → let (global, w') = put_window put_count tear cfg choice put_lanes put_max w in
          InLanes n put_lanes get_lanes global get_max puts gets
          × PutHolds put_count cfg put_lanes global w'
          × (put_max ≤ global)
    put_window-InLanes tear tear_count valid choice w a = (
      record {
        in_window = st.in_window v.in_window;
        in_step = record {
          got_le = got_le;
          put_le = λ i lt. omega (arith, put_le i lt, st.raised);
          behind_put = omega (arith, st.raised, behind_put);
          get_steps = get_steps;
          put_steps = next_steps cfg.depth put_steps st.whole;
        };
        room = omega (arith, v.room, st.by_depth);
        puts_logged = v.puts_logged;
        gets_logged = v.gets_logged;
      },
      st.holds,
      st.raised,
    )
      where
        st :
            PutStep put_count tear tear_count valid put_lanes put_max
              (put_window put_count tear cfg choice put_lanes put_max w)
        st =
            put_window-PutStep put_count tear tear_count valid choice put_lanes put_max w a
              (omega (arith, v.room))

    pub get_window-InLanes :
        (tear : G → G → G)
        (tear_count : (a b : G)
          → (get_count (tear a b) ≡ get_count a) ⊎ (get_count (tear a b) ≡ get_count b))
        (valid : IsValid cfg) (choice : ℕ) (w : GetWindow G)
        → GetHolds get_count cfg (view put_lanes get_lanes put_max get_max) w
        → let (global, w') =
            get_window get_count tear cfg choice get_lanes
              (λ i. put_count (put_lanes i))
              get_max
              w in
          InLanes n put_lanes get_lanes put_max global puts gets
          × GetHolds get_count cfg (view put_lanes get_lanes put_max global) w'
          × (get_max ≤ global)
    get_window-InLanes tear tear_count valid choice w a = (
      record {
        in_window = v.in_window;
        in_step = record {
          got_le = got_le;
          put_le = put_le;
          behind_put = st.behind;
          get_steps = next_steps cfg.depth get_steps st.whole;
          put_steps = put_steps;
        };
        room = omega (arith, v.room);
        puts_logged = v.puts_logged;
        gets_logged = v.gets_logged;
      },
      st.holds,
      omega (arith, st.whole),
    )
      where
        st : GetStep get_count tear tear_count valid (view put_lanes get_lanes put_max get_max) (
            get_window get_count tear cfg choice get_lanes (λ i. put_count (put_lanes i)) get_max w)
        st =
            get_window-GetStep get_count tear tear_count valid choice
              (view put_lanes get_lanes put_max get_max) w v.in_step a (omega (arith, v.room))

    -- The lane `i` gets one more put, or one more get.
    module _ (i : ℕ) (lt : i < cfg.width) (put_lanes' : ℕ → P) (get_lanes' : ℕ → G) where
      pub put-InLanes :
          put_count (put_lanes i) < put_max
          → put_count (put_lanes' i) ≡ put_count (put_lanes i) + 1
          → ((j : ℕ) → i ≢ j → put_count (put_lanes' j) ≡ put_count (put_lanes j))
          → ((j : ℕ) → get_count (get_lanes' j) ≡ get_count (get_lanes j))
          → InLanes n put_lanes' get_lanes' put_max get_max (suc puts) gets
      put-InLanes below here others same = record {
        in_window = record {
          upper = λ j q. (bounds j q).1;
          lower = λ j q. omega (arith, v.in_window.lower j q, (bounds j q).0);
        };
        in_step = record {
          got_le = λ j q. omega (arith, same j, got_le j q, (bounds j q).0);
          put_le = λ j q. (bounds j q).1;
          behind_put = behind_put;
          get_steps = get_steps;
          put_steps = put_steps;
        };
        room = omega (arith, v.room);
        puts_logged = omega (
          arith,
          v.puts_logged,
          here,
          total-differ put_count cfg.width i {f = put_lanes} {g = put_lanes'} lt
              (λ j ne. sym (others j ne)),
        );
        gets_logged = omega (
          arith,
          v.gets_logged,
          total-ext get_count cfg.width {f = get_lanes'} {g = get_lanes} (λ j q. same j),
        );
      }
        where
          bounds :
              (j : ℕ)
              → j < cfg.width
              → (put_count (put_lanes j) ≤ put_count (put_lanes' j))
                × (put_count (put_lanes' j) ≤ put_max)
          bounds j q = elim (ℕ_discrete i j) [
            | yes e ↦ rw (sym e) (omega (arith, here), omega (arith, here, below))
            | no ne ↦
                (omega (arith, others j ne), omega (arith, others j ne, v.in_window.upper j q))
          ]

      pub get-InLanes :
          get_count (get_lanes i) < put_count (put_lanes i)
          → get_count (get_lanes' i) ≡ get_count (get_lanes i) + 1
          → ((j : ℕ) → i ≢ j → get_count (get_lanes' j) ≡ get_count (get_lanes j))
          → ((j : ℕ) → put_count (put_lanes' j) ≡ put_count (put_lanes j))
          → InLanes n put_lanes' get_lanes' put_max get_max puts (suc gets)
      get-InLanes some_left here others same = record {
        in_window = record {
          upper = λ j q. omega (arith, same j, v.in_window.upper j q);
          lower = λ j q. omega (arith, same j, v.in_window.lower j q);
        };
        in_step = record {
          got_le = λ j q. elim (ℕ_discrete i j) [
            | yes e ↦ rw (sym e) (omega (arith, here, same i))
            | no ne ↦ omega (arith, others j ne, same j, got_le j q)
          ];
          put_le = λ j q. omega (arith, same j, put_le j q);
          behind_put = behind_put;
          get_steps = get_steps;
          put_steps = put_steps;
        };
        room = omega (arith, v.room);
        puts_logged = omega (
          arith,
          v.puts_logged,
          total-ext put_count cfg.width {f = put_lanes'} {g = put_lanes} (λ j q. same j),
        );
        gets_logged = omega (
          arith,
          v.gets_logged,
          here,
          total-differ get_count cfg.width i {f = get_lanes} {g = get_lanes'} lt
              (λ j ne. sym (others j ne)),
        );
      }

  -- No step lowers a window or a count.
  pub record Grows (put_lanes put_lanes' : ℕ → P) (get_lanes get_lanes' : ℕ → G)
      (put_max put_max' get_max get_max' : ℕ) : Type 0 where
    pub put_window : put_max ≤ put_max'
    pub get_window : get_max ≤ get_max'
    pub puts : (i : ℕ) → put_count (put_lanes i) ≤ put_count (put_lanes' i)
    pub gets : (i : ℕ) → get_count (get_lanes i) ≤ get_count (get_lanes' i)

  pub Grows-windows :
      (put_lanes : ℕ → P) (get_lanes : ℕ → G) {put_max put_max' get_max get_max' : ℕ}
      → put_max ≤ put_max'
      → get_max ≤ get_max'
      → Grows put_lanes put_lanes get_lanes get_lanes put_max put_max' get_max get_max'
  Grows-windows put_lanes get_lanes p g = record {
    put_window = p;
    get_window = g;
    puts = λ i. omega arith;
    gets = λ i. omega arith;
  }
