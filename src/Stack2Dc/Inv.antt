-- ===== src/Stack2Dc/Inv.antt =====
-- The invariant of the coupled stack, and what every thread knows.
use elastic_2d_relaxation.Prelude.{ℕ, ◌+◌, ◌^◌, ◌<◌, ◌≡◌, ◌≢◌, arith, length}
use elastic_2d_relaxation.Search.{Config}
use elastic_2d_relaxation.Linked.{contents, pushes}
use elastic_2d_relaxation.Linked.Chains.{
  IsPublished, Chain-IsPublished, Retains, Retains-IsPublished, AtTaking, AtTaking-Retains,
}
use elastic_2d_relaxation.Linked.Lanes.{Linked}
use elastic_2d_relaxation.Linked.Sizes.{length-le}
use elastic_2d_relaxation.Window2Dc.Holds.{Copied, PutHolds, GetHolds}
use elastic_2d_relaxation.Window2Dc.Moves.{Roomy}
use elastic_2d_relaxation.Window2Dc.Held.{Held, Held-map}
use elastic_2d_relaxation.Stack2Dc.{
  Descriptor, node, count, Shared, Pc, idle, pushing, popping, taking, Local,
}

module _ (address : ℕ → ℕ) (cfg : Config) (step_size : ℕ) where
  -- The invariant with `n` steps to go: the window, the chains of nodes, and counts that tell how
  -- long they are. `log_room` says that no count wraps.
  pub record Inv (n : ℕ) (h : Shared) : Type 0 where
    pub roomy : Roomy cfg step_size n h.window
    pub linked : Linked address cfg.width h.nodes h.published (λ i. node (h.lanes i)) h.log
    pub heights : (i : ℕ) → i < cfg.width → length (contents h.log i) ≡ count (h.lanes i)
    pub log_room : pushes h.log + n + cfg.depth < 2 ^ 64

  -- The node of a descriptor that was read from a lane.
  abbrev pub HasNode : Shared → Descriptor → Type 0
  HasNode h d = d.node ≢ 0 → IsPublished address h.published d.node

  abbrev pub AtPc : Shared → Pc → Type 0
  AtPc h idle = Unit
  AtPc h (pushing key val w) = PutHolds count cfg step_size w
  AtPc h (popping w) = GetHolds count cfg step_size w × Held (HasNode h) w.pc
  AtPc h (taking i d next) = (i < cfg.width) × AtTaking address h.nodes h.published d.node next

  pub record Holds (h : Shared) (l : Local) : Type 0 where
    pub index_in : l.index < cfg.width
    pub copied : Copied cfg step_size l.window
    pub at_pc : AtPc h l.pc

  abbrev pub Grows : Shared → Shared → Type 0
  Grows h h' = Retains address h.nodes h'.nodes h.published h'.published

  AtPc-Grows : (h h' : Shared) (pc : Pc) → Grows h h' → AtPc h pc → AtPc h' pc
  AtPc-Grows h h' idle g a = tt
  AtPc-Grows h h' (pushing key val w) g a = a
  AtPc-Grows h h' (popping w) g a = (
    a.0,
    Held-map (HasNode h) (HasNode h') w.pc
        (λ d has nz.
          Retains-IsPublished address {nodes = h.nodes} {nodes' = h'.nodes} d.node g (has nz))
        a.1,
  )
  AtPc-Grows h h' (taking i d next) g a = (a.0, AtTaking-Retains address d.node next g a.1)

  pub Holds-Grows : (h h' : Shared) (l : Local) → Grows h h' → Holds h l → Holds h' l
  Holds-Grows h h' l g k = record {
    index_in = k.index_in;
    copied = k.copied;
    at_pc = AtPc-Grows h h' l.pc g k.at_pc;
  }

  -- What a step that ends in `h'` and `l'` owes.
  abbrev pub Kept : ℕ → Shared → Shared × Local → Type 0
  Kept n h out = Inv n out.0 × Holds out.0 out.1 × Grows h out.0

  module _ {n : ℕ} {h : Shared} (v : Inv n h) (i : ℕ) (lt : i < cfg.width) where
    pub lane-HasNode : HasNode h (h.lanes i)
    lane-HasNode nz =
        Chain-IsPublished address h.nodes h.published (node (h.lanes i)) (contents h.log i)
          (v.linked.chains i lt) nz

    -- The counts of a lane are small.
    pub small : count (h.lanes i) + n + cfg.depth < 2 ^ 64
    small = omega (
      arith,
      v.log_room,
      v.heights i lt,
      length-le address cfg.width v.linked (omega (arith, v.log_room)) i lt,
    )
