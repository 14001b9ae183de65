-- ===== src/MultiStack/Moves.antt =====
-- What the steps of the multi-stack do to its memory: those of the thread alone, and the
-- compare-exchanges that succeed.
use elastic_2d_relaxation.Prelude.{
  ℕ, suc, ◌<◌, ◌≡◌, ◌≢◌, refl, sym, ◌∷◌, inl, inr, arith, ◌==◌, ==_iff, update, Bool-cases,
}
use elastic_2d_relaxation.Linked.{Node, IsAllocator, create_node, contents, pushed, popped, empty}
use elastic_2d_relaxation.Linked.Chains.{Retains-refl, Retains-publish}
use elastic_2d_relaxation.Linked.Lanes.{push-Linked, pop-Linked}
use elastic_2d_relaxation.Linked.Sizes.{length-le}
use elastic_2d_relaxation.MultiStack.{Pc, idle, Shared}
use elastic_2d_relaxation.MultiStack.Inv.{Marks, Marked, Inv, Holds, Grows, Kept}
use elastic_2d_relaxation.MultiStack.Marked.{Marked-publish, Marked-push, Marked-rest}

module _ {address : ℕ → ℕ} (alloc : IsAllocator address) {mark : ℕ → ℕ → Type 0}
    {stamp_for : (stamps : ℕ → ℕ) (node c : ℕ) → ℕ} (law : Marks stamp_for mark) {width : ℕ}
    (some_width : 0 < width) (choices n choice : ℕ) (h : Shared)
    (v : Inv address mark width (suc n) h) where
  same-Grows : Grows address mark width h h
  same-Grows = record {
    nodes = Retains-refl address h.nodes h.published;
    stamps = Retains-refl address h.stamps h.published;
  }

  pub quiet : (pc : Pc) → Holds address mark width h pc → Kept address mark width n h (h, pc)
  quiet pc k = (
    record { linked = v.linked; marked = v.marked; log_room = omega (arith, v.log_room) },
    k,
    same-Grows,
  )

  -- The return for an empty stack.
  pub emptied : Kept address mark width n h (record h { log = empty ∷ h.log }, idle)
  unfolding contents
  emptied = (
    record {
      linked = record { chains = v.linked.chains; legal = v.linked.legal };
      marked = v.marked;
      log_room = omega (arith, v.log_room);
    },
    tt,
    record {
      nodes = Retains-refl address h.nodes h.published;
      stamps = Retains-refl address h.stamps h.published;
    },
  )

  module _ (i : ℕ) (lt : i < width) where
    pushed-Marked :
        (node : Node)
        → node.next ≡ h.lanes i
        → (j : ℕ) → j < width
        → Marked mark
            (update h.nodes (address h.published) node)
            (update h.stamps (address h.published) (stamp_for h.stamps (h.lanes i) choice))
            (update h.lanes i (address h.published) j)
            (contents (pushed i node.val ∷ h.log) j)
    unfolding contents
    pushed-Marked node below j q = elim (Bool-cases (i == j)) [
      | inl same ↦
          rw (same, sym ((==_iff i j).0 same))
            (Marked-push address mark h.nodes h.stamps h.published stamp_for law alloc (h.lanes i)
              choice node (contents h.log i) below (v.linked.chains i lt) (v.marked i lt)
              (omega (
                arith,
                v.log_room,
                length-le address width v.linked (omega (arith, v.log_room)) i lt,
              )))
      | inr other ↦ rw other (
          Marked-publish address mark h.nodes h.stamps h.published alloc node
            (stamp_for h.stamps (h.lanes i) choice) (h.lanes j) (contents h.log j)
            (v.linked.chains j q) (v.marked j q))
    ]

    popped-Marked :
        h.lanes i ≢ 0
        → (j : ℕ) → j < width
        → Marked mark h.nodes h.stamps
            (update h.lanes i (h.nodes (h.lanes i)).next j)
            (contents (popped i (h.nodes (h.lanes i)).val ∷ h.log) j)
    unfolding contents
    popped-Marked nz j q = elim (Bool-cases (i == j)) [
      | inl same ↦
          rw (same, sym ((==_iff i j).0 same))
            (Marked-rest address mark h.nodes h.stamps h.published (h.lanes i) (contents h.log i)
              (v.linked.chains i lt) nz (v.marked i lt))
      | inr other ↦ rw other (v.marked j q)
    ]

    -- A node is published on top of the lane `i`.
    pub pushed-Kept :
        (key val : ℕ)
        → Kept address mark width n h (
          record h {
            lanes = update h.lanes i (address h.published);
            nodes = update h.nodes (address h.published) (create_node key val (h.lanes i));
            stamps = update h.stamps (address h.published) (stamp_for h.stamps (h.lanes i) choice);
            published = suc h.published;
            log = pushed i val ∷ h.log;
          },
          idle,
        )
    unfolding create_node
    pushed-Kept key val = (
      record {
        linked =
            push-Linked address width (λ (p : ℕ). p) h.nodes h.published h.lanes h.log v.linked i lt
              (address h.published) alloc (create_node key val (h.lanes i)) refl refl;
        marked = pushed-Marked (create_node key val (h.lanes i)) refl;
        log_room = omega (arith, v.log_room);
      },
      tt,
      record {
        nodes = Retains-publish address alloc h.nodes h.published (create_node key val (h.lanes i));
        stamps =
            Retains-publish address alloc h.stamps h.published
              (stamp_for h.stamps (h.lanes i) choice);
      },
    )

    -- The top node of the lane `i` is taken.
    pub popped-Kept :
        h.lanes i ≢ 0
        → Kept address mark width n h (
          record h {
            lanes = update h.lanes i (h.nodes (h.lanes i)).next;
            log = popped i (h.nodes (h.lanes i)).val ∷ h.log;
          },
          idle,
        )
    popped-Kept nz = (
      record {
        linked =
            pop-Linked address width (λ (p : ℕ). p) h.nodes h.published h.lanes h.log v.linked i lt
              (h.nodes (h.lanes i)).next nz refl;
        marked = popped-Marked nz;
        log_room = omega (arith, v.log_room);
      },
      tt,
      record {
        nodes = Retains-refl address h.nodes h.published;
        stamps = Retains-refl address h.stamps h.published;
      },
    )
