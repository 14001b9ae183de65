-- ===== src/Queue2Dd/Moves.antt =====
-- What the steps of the decoupled queue that leave the nodes do to its memory: those inside the window
-- calls, those of the thread alone, the moves of a tail and those of a head.
use elastic_2d_relaxation.Prelude.{
  ℕ, suc, ◌+◌, ◌^◌, ◌≤◌, ◌<◌, ◌≡◌, ◌∙◌, refl, sym, ap, true, ◌∷◌, inl, inr, arith, Bool-cases,
  ℕ_discrete, add64, update,
}
use elastic_2d_relaxation.Search.{Config, IsValid}
use elastic_2d_relaxation.Window2Dd.Lanes.{InLanes, stay-InLanes, put-InLanes, Grows-windows}
use elastic_2d_relaxation.Queue2Dd.{Descriptor, node, count, same_descriptor, Shared, Local, empty}
use elastic_2d_relaxation.Queue2Dd.Step.{swing}
use elastic_2d_relaxation.Queue2Dd.Fifo.{contents, dequeues}
use elastic_2d_relaxation.Queue2Dd.Inv.{InLane, Follows, Holds, Grows, Inv, Kept}

module _ (address : ℕ → ℕ) {cfg : Config} (valid : IsValid cfg) (n : ℕ) (h : Shared)
    (v : Inv address cfg (suc n) h) where
  stay :
      InLanes count count cfg n h.put_array h.get_array h.put_max h.get_max v.swung (dequeues h.log)
  stay =
      stay-InLanes count count cfg n h.put_array h.get_array h.put_max h.get_max v.swung
        (dequeues h.log) v.in_lanes

  -- A step that at most moves the windows.
  pub slid :
      {put_max get_max : ℕ} (l' : Local)
      → InLanes count count cfg n h.put_array h.get_array put_max get_max v.swung (dequeues h.log)
      → h.put_max ≤ put_max
      → h.get_max ≤ get_max
      → Holds cfg (record h { put_max = put_max; get_max = get_max }) l'
      → Kept address cfg n h (record h { put_max = put_max; get_max = get_max }, l')
  slid l' st put get k' = (
    record {
      swung = v.swung;
      in_lanes = st;
      lined = v.lined;
      in_lane = λ i lt.
          let a : InLane h i = v.in_lane i lt in
          record {
            tail_at = a.tail_at;
            head_at = a.head_at;
            tail_le = a.tail_le;
            lag = a.lag;
            len_le = omega (arith, a.len_le);
            held = a.held;
          };
      legal = v.legal;
    },
    k',
    record {
      raised = Grows-windows count count cfg h.put_array h.get_array put get;
      longer = λ i. omega arith;
      same_place = λ i k le. refl;
    },
  )

  pub quiet : (l' : Local) → Holds cfg h l' → Kept address cfg n h (h, l')
  quiet l' k' = slid l' stay (omega arith) (omega arith) k'

  -- The return for an empty queue.
  pub emptied :
      (l' : Local)
      → Holds cfg (record h { log = empty ∷ h.log }) l'
      → Kept address cfg n h (record h { log = empty ∷ h.log }, l')
  unfolding contents
  emptied l' k' = (
    record {
      swung = v.swung;
      in_lanes = stay;
      lined = v.lined;
      in_lane = λ i lt.
          let a : InLane h i = v.in_lane i lt in
          record {
            tail_at = a.tail_at;
            head_at = a.head_at;
            tail_le = a.tail_le;
            lag = a.lag;
            len_le = a.len_le;
            held = a.held;
          };
      legal = v.legal;
    },
    k',
    record {
      raised = Grows-windows count count cfg h.put_array h.get_array (omega arith) (omega arith);
      longer = λ i. omega arith;
      same_place = λ i k le. refl;
    },
  )

  module _ (i : ℕ) (lt : i < cfg.width) where
    lane : InLane h i
    lane = v.in_lane i lt

    got_le : count (h.get_array i) ≤ count (h.put_array i)
    got_le = v.in_lanes.in_step.got_le i lt

    -- The tail of lane `i` is moved to the node after it.
    tail_moves :
        (d : Descriptor) (next : ℕ)
        → same_descriptor (h.put_array i) d ≡ true
        → Follows h i d.node next
        → let h' = record h {
          put_array = update h.put_array i (record { node = next; count = add64 d.count 1 });
        } in
          Inv address cfg n h' × Grows cfg h h'
    tail_moves d next found (k, a, b) = (
      record {
        swung = suc v.swung;
        in_lanes =
            put-InLanes count count cfg n h.put_array h.get_array h.put_max h.get_max v.swung
              (dequeues h.log) v.in_lanes i lt _ h.get_array below (ground (arith, fits))
              (λ j ne. ground arith) (λ j. refl);
        lined = v.lined;
        in_lane = λ j q.
            let o : InLane h j = v.in_lane j q in
            elim (ℕ_discrete i j) [
              | yes e ↦ record {
                tail_at =
                    rw (sym e) (ground (arith, b.0 ∙ ap (λ (x : ℕ). h.line i (suc x)) place, fits));
                head_at = o.head_at;
                tail_le = rw (sym e) (ground (arith, b.1, place, fits));
                lag = rw (sym e) (ground (arith, lane.lag, fits));
                len_le = o.len_le;
                held = o.held;
              }
              | no ne ↦ record {
                tail_at = ground (arith, o.tail_at);
                head_at = o.head_at;
                tail_le = ground (arith, o.tail_le);
                lag = ground (arith, o.lag);
                len_le = o.len_le;
                held = o.held;
              }
            ];
        legal = v.legal;
      },
      record {
        raised = record {
          put_window = omega arith;
          get_window = omega arith;
          puts = λ j. ground (arith, fits);
          gets = λ j. omega arith;
        };
        longer = λ j. omega arith;
        same_place = λ j m le. refl;
      },
    )
      where
        at_tail : node (h.put_array i) ≡ d.node
        at_tail = ground arith

        place : k ≡ count (h.put_array i)
        place =
            (v.lined.apart i k i (count (h.put_array i)) lt a.1 lt lane.tail_le
              (sym a.0 ∙ sym at_tail ∙ lane.tail_at)).1

        below : count (h.put_array i) < h.put_max
        below = omega (arith, lane.len_le, b.1, place)

        fits : count (h.put_array i) + 1 < 2 ^ 64
        fits = omega (arith, below, v.in_lanes.room)

    pub swing-Inv :
        (d : Descriptor) (next : ℕ)
        → Follows h i d.node next
        → Inv address cfg n (swing h i d next).1 × Grows cfg h (swing h i d next).1
    unfolding swing
    swing-Inv d next f = elim (Bool-cases (same_descriptor (h.put_array i) d)) [
      | inl found ↦ rw found (tail_moves d next found f)
      | inr lost ↦ rw lost (go (quiet_part stay))
    ]
      where
        quiet_part :
            InLanes count count cfg n h.put_array h.get_array h.put_max h.get_max v.swung
              (dequeues h.log)
            → Inv address cfg n h
        quiet_part st = record {
          swung = v.swung;
          in_lanes = st;
          lined = v.lined;
          in_lane = v.in_lane;
          legal = v.legal;
        }

        go : Inv address cfg n h → Inv address cfg n h × Grows cfg h h
        go w = (
          w,
          record {
            raised =
                Grows-windows count count cfg h.put_array h.get_array (omega arith) (omega arith);
            longer = λ j. omega arith;
            same_place = λ j m le. refl;
          },
        )
