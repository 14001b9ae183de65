-- ===== src/Queue2Dd/Ends.antt =====
-- What a dequeue that succeeds does to the memory of the decoupled queue, when its head moves on.
use elastic_2d_relaxation.Prelude.{
  ℕ, zero, suc, ◌+◌, ◌^◌, ◌≤◌, ◌<◌, ◌≡◌, ◌≢◌, ◌∙◌, refl, sym, ap, true, List, ◌∷◌, arith,
  ℕ_discrete, add64, update,
}
use mathlib.Core.Path.{subst}
use elastic_2d_relaxation.Search.{Config, IsValid}
use elastic_2d_relaxation.Linked.{tail}
use elastic_2d_relaxation.Window2Dd.Lanes.{get-InLanes}
use elastic_2d_relaxation.Queue2Dd.{Descriptor, node, count, same_descriptor, Shared, dequeued}
use elastic_2d_relaxation.Queue2Dd.Fifo.{contents, stretch, dequeues}
use elastic_2d_relaxation.Queue2Dd.Inv.{vals, InLane, At, Grows, Inv}

-- What is between a head and the last node of a lane, when the head moves on.
first_held :
    (f : ℕ → ℕ) (vs : List ℕ) (g n : ℕ)
    → 0 < n
    → vs ≡ stretch f (suc g) n
    → (vs ≡ f (suc g) ∷ tail vs) × ((m : ℕ) × (suc m ≡ n) × (tail vs ≡ stretch f (suc (suc g)) m))
unfolding stretch
first_held f vs g zero some_left e = absurd (omega arith)
first_held f vs g (suc m) some_left e = (rw e refl, (m, refl, rw e refl))

module _ (address : ℕ → ℕ) {cfg : Config} (valid : IsValid cfg) (n : ℕ) (h : Shared)
    (v : Inv address cfg (suc n) h) (i : ℕ) (lt : i < cfg.width) where
  lane : InLane h i
  lane = v.in_lane i lt

  module _ (d : Descriptor) (next : ℕ) (found : same_descriptor (h.get_array i) d ≡ true) (q : ℕ)
      (a : At h i d.node q) (b : At h i next (suc q)) (ahead : suc q ≤ count (h.put_array i)) where
    place : q ≡ count (h.get_array i)
    place =
        (v.lined.apart i q i (count (h.get_array i)) lt a.1 lt
          (omega (arith, v.in_lanes.in_step.got_le i lt, lane.tail_le))
          (sym a.0 ∙ sym same_node ∙ lane.head_at)).1
      where
        same_node : node (h.get_array i) ≡ d.node
        same_node = ground arith

    fits : count (h.get_array i) + 1 < 2 ^ 64
    fits = omega (arith, place, ahead, v.in_lanes.in_window.upper i lt, v.in_lanes.room)

    abbrev g : ℕ
    g = count (h.get_array i)

    front :
        (contents h.log i ≡ vals h i (suc g) ∷ tail (contents h.log i))
        × ((m : ℕ) × (suc m ≡ lane.held.0)
            × (tail (contents h.log i) ≡ stretch (vals h i) (suc (suc g)) m))
    front =
        first_held (vals h i) (contents h.log i) g lane.held.0
          (omega (arith, lane.held.1, lane.tail_le, place, ahead)) lane.held.2

    value : (h.nodes next).val ≡ vals h i (suc g)
    value = ap (λ (p : ℕ). (h.nodes p).val) (b.0 ∙ ap (λ (x : ℕ). h.line i (suc x)) place)

    abbrev h' : Shared
    h' = record h {
      get_array = update h.get_array i (record { node = next; count = add64 d.count 1 });
      log = dequeued i (h.nodes next).val ∷ h.log;
    }

    moved_lane : InLane h' i
    unfolding contents
    moved_lane = record {
      tail_at = lane.tail_at;
      head_at = ground (arith, b.0 ∙ ap (λ (x : ℕ). h.line i (suc x)) place, fits);
      tail_le = lane.tail_le;
      lag = lane.lag;
      len_le = lane.len_le;
      held = (
        front.1.0,
        ground (arith, front.1.1, lane.held.1, fits),
        ground (arith, front.1.2, fits),
      );
    }

    other_lane : (j : ℕ) → j < cfg.width → i ≢ j → InLane h' j
    unfolding contents
    other_lane j r ne =
        let o : InLane h j = v.in_lane j r in
        record {
          tail_at = o.tail_at;
          head_at = ground (arith, o.head_at);
          tail_le = o.tail_le;
          lag = o.lag;
          len_le = o.len_le;
          held = (o.held.0, ground (arith, o.held.1), ground (arith, o.held.2));
        }

    pub head_moves : Inv address cfg n h' × Grows cfg h h'
    head_moves = (
      record {
        swung = v.swung;
        in_lanes =
            get-InLanes count count cfg n h.put_array h.get_array h.put_max h.get_max v.swung
              (dequeues h.log) v.in_lanes i lt h.put_array h'.get_array
              (omega (arith, place, ahead)) (ground (arith, fits)) (λ j ne. ground arith)
              (λ j. refl);
        lined = v.lined;
        in_lane = λ j r. elim (ℕ_discrete i j) [
          | yes e ↦ subst (InLane h') e moved_lane
          | no ne ↦ other_lane j r ne
        ];
        legal = (lt, rw value front.0, v.legal);
      },
      record {
        raised = record {
          put_window = omega arith;
          get_window = omega arith;
          puts = λ j. omega arith;
          gets = λ j. ground (arith, fits);
        };
        longer = λ j. omega arith;
        same_place = λ j m le. refl;
      },
    )
