-- ===== src/Queue2Dd/Links.antt =====
-- What a node that is linked to the last one of a lane makes of the memory of the decoupled queue.
use elastic_2d_relaxation.Prelude.{
  ℕ, suc, ◌≤◌, ◌<◌, ◌≡◌, ◌≢◌, ◌∙◌, sym, ap, List, [], ◌∷◌, ◌++◌, arith, ==_refl, ℕ_discrete,
}
use mathlib.Core.Path.{subst}
use elastic_2d_relaxation.Search.{Config, IsValid}
use elastic_2d_relaxation.Linked.{IsAllocator}
use elastic_2d_relaxation.Window2Dd.Lanes.{stay-InLanes, Grows-windows}
use elastic_2d_relaxation.Queue2Dd.{count, Shared}
use elastic_2d_relaxation.Queue2Dd.Step.{linked}
use elastic_2d_relaxation.Queue2Dd.Lines.{line_old, line_new, val_old, val_new, link-Lined}
use elastic_2d_relaxation.Queue2Dd.Fifo.{contents, stretch, stretch-snoc, stretch-ext, dequeues}
use elastic_2d_relaxation.Queue2Dd.Inv.{vals, InLane, Follows, Grows, Inv}

module _ (address : ℕ → ℕ) (alloc : IsAllocator address) {cfg : Config} (valid : IsValid cfg)
    (n : ℕ) (h : Shared) (v : Inv address cfg (suc n) h) (i : ℕ) (lt : i < cfg.width)
    (key val : ℕ) where
  lane : InLane h i
  lane = v.in_lane i lt

  abbrev h' : Shared
  h' = linked h (address h.published) i key val (h.line i (h.len i))

  same_line : (j k : ℕ) → k ≤ h.len j → h'.line j k ≡ h.line j k
  unfolding linked
  same_line = line_old address cfg.width alloc v.lined i lt key val

  new_line : h'.line i (suc (h.len i)) ≡ address h.published
  unfolding linked
  new_line = line_new address cfg.width alloc v.lined i lt key val

  same_val : (j k : ℕ) → j < cfg.width → k ≤ h.len j → vals h' j k ≡ vals h j k
  unfolding linked
  same_val j k q le =
      ap (λ (p : ℕ). (h'.nodes p).val) (same_line j k le)
      ∙ val_old address cfg.width alloc v.lined i lt key val j k q le

  new_val : vals h' i (suc (h.len i)) ≡ val
  unfolding linked
  new_val =
      ap (λ (p : ℕ). (h'.nodes p).val) new_line
      ∙ val_new address cfg.width alloc v.lined i lt key val

  linked_held :
      contents h'.log i ≡ stretch (vals h' i) (suc (count (h.get_array i))) (suc lane.held.0)
  unfolding linked contents
  linked_held = rw (==_refl i) (
      ap (λ (vs : List ℕ). vs ++ (val ∷ []))
        (lane.held.2
          ∙ stretch-ext (vals h i) (vals h' i) (suc (count (h.get_array i))) lane.held.0
              (λ k le below. sym (same_val i k lt (omega (arith, lane.held.1)))))
      ∙ ap (λ (x : ℕ). stretch (vals h' i) (suc (count (h.get_array i))) lane.held.0 ++ (x ∷ []))
          (sym new_val ∙ ap (λ (k : ℕ). vals h' i k) (omega (arith, lane.held.1)))
      ∙ sym (stretch-snoc (vals h' i) (suc (count (h.get_array i))) lane.held.0))

  module _ (last : h.len i ≤ count (h.put_array i)) (below : h.len i < h.put_max) where
    linked_lane : InLane h' i
    unfolding linked
    linked_lane = record {
      tail_at = lane.tail_at ∙ sym (same_line i (count (h.put_array i)) lane.tail_le);
      head_at =
          lane.head_at
          ∙ sym (
              same_line i (count (h.get_array i))
                (omega (arith, v.in_lanes.in_step.got_le i lt, lane.tail_le)));
      tail_le = ground (arith, lane.tail_le);
      lag = ground arith;
      len_le = ground arith;
      held = (suc lane.held.0, ground (arith, lane.held.1), linked_held);
    }

    other_lane : (j : ℕ) → j < cfg.width → i ≢ j → InLane h' j
    unfolding linked contents
    other_lane j r ne =
        let o : InLane h j = v.in_lane j r in
        record {
          tail_at = o.tail_at ∙ sym (same_line j (count (h.put_array j)) o.tail_le);
          head_at =
              o.head_at
              ∙ sym (
                  same_line j (count (h.get_array j))
                    (omega (arith, v.in_lanes.in_step.got_le j r, o.tail_le)));
          tail_le = ground (arith, o.tail_le);
          lag = ground (arith, o.lag);
          len_le = ground (arith, o.len_le);
          held = (
            o.held.0,
            ground (arith, o.held.1),
            other_contents
                ∙ o.held.2
                ∙ stretch-ext (vals h j) (vals h' j) (suc (count (h.get_array j))) o.held.0
                    (λ k le b. sym (same_val j k r (omega (arith, o.held.1)))),
          );
        }
      where
        other_contents : contents h'.log j ≡ contents h.log j
        other_contents = ground arith

    pub link_moves :
        Inv address cfg n h'
        × Grows cfg h h'
        × Follows h' i (h.line i (h.len i)) (address h.published)
    unfolding linked
    link_moves = (
      record {
        swung = v.swung;
        in_lanes =
            stay-InLanes count count cfg n h.put_array h.get_array h.put_max h.get_max v.swung
              (dequeues h.log) v.in_lanes;
        lined = link-Lined address cfg.width alloc v.lined i lt key val;
        in_lane = λ j r. elim (ℕ_discrete i j) [
          | yes e ↦ subst (InLane h') e linked_lane
          | no ne ↦ other_lane j r ne
        ];
        legal = (lt, v.legal);
      },
      record {
        raised = Grows-windows count count cfg h.put_array h.get_array (omega arith) (omega arith);
        longer = λ j. ground arith;
        same_place = same_line;
      },
      (
        h.len i,
        (sym (same_line i (h.len i) (omega arith)), ground arith),
        (sym new_line, ground arith),
      ),
    )
