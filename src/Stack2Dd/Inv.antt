-- ===== src/Stack2Dd/Inv.antt =====
-- The invariant of the decoupled stack, and what every thread knows.
use elastic_2d_relaxation.Prelude.{ℕ, ◌+◌, ◌^◌, ◌≤◌, ◌<◌, ◌≡◌, ◌≢◌, arith, length, le-total}
use elastic_2d_relaxation.Search.{Config}
use elastic_2d_relaxation.Linked.{contents, pushes, pops}
use elastic_2d_relaxation.Linked.Chains.{
  IsPublished, Chain-IsPublished, Retains, Retains-IsPublished, AtTaking, AtTaking-Retains,
}
use elastic_2d_relaxation.Linked.Lanes.{Linked}
use elastic_2d_relaxation.Window2Dd.Lanes
use elastic_2d_relaxation.Window2Dd.Lanes.{InLanes, view}
use elastic_2d_relaxation.Window2Dd.Held.{CallHeld, Held-map}
use elastic_2d_relaxation.Window2Dd.PutHolds.{PutHolds, PutHolds-Raised}
use elastic_2d_relaxation.Window2Dd.GetHolds.{View, GetHolds, GetHolds-Raised}
use elastic_2d_relaxation.Stack2Dd.{
  Descriptor, node, put_count, get_count, Shared, Pc, idle, pushing, popping, taking, Local,
}

-- The part of the memory that `get_window` looks at.
abbrev pub seen_by_get : Config → Shared → View Descriptor
seen_by_get cfg h = view put_count get_count cfg h.lanes h.lanes h.put_max h.get_max

module _ (address : ℕ → ℕ) (cfg : Config) where
  -- The invariant with `n` steps to go: the windows, the chains of nodes, and counts that tell how
  -- long they are. `log_room` says that no count wraps.
  pub record Inv (n : ℕ) (h : Shared) : Type 0 where
    pub in_lanes :
        InLanes put_count get_count cfg n h.lanes h.lanes h.put_max h.get_max
          (pushes h.log)
          (pops h.log)
    pub linked : Linked address cfg.width h.nodes h.published (λ i. node (h.lanes i)) h.log
    pub heights :
        (i : ℕ)
        → i < cfg.width
        → length (contents h.log i) + get_count (h.lanes i) ≡ put_count (h.lanes i)
    pub log_room : pushes h.log + n < 2 ^ 32

  -- The node of a descriptor that was read from a lane.
  abbrev pub HasNode : Shared → Descriptor → Type 0
  HasNode h d = d.node ≢ 0 → IsPublished address h.published d.node

  abbrev pub AtPc : Shared → Pc → Type 0
  AtPc h idle = Unit
  AtPc h (pushing key val w) = PutHolds put_count cfg h.lanes h.put_max w
  AtPc h (popping w) = GetHolds get_count cfg (seen_by_get cfg h) w × CallHeld (λ _. HasNode h) w
  AtPc h (taking i d next) = (i < cfg.width) × AtTaking address h.nodes h.published d.node next

  pub record Holds (h : Shared) (l : Local) : Type 0 where
    pub index_in : l.index < cfg.width
    pub put_le : l.put_max ≤ h.put_max
    pub get_le : l.get_max ≤ h.get_max
    pub at_pc : AtPc h l.pc

  -- No step lowers a window or a count, takes a node back, or writes to one that is published.
  pub record Grows (h h' : Shared) : Type 0 where
    pub raised :
        Lanes.Grows put_count get_count cfg h.lanes h'.lanes h.lanes h'.lanes h.put_max h'.put_max
          h.get_max h'.get_max
    pub retains : Retains address h.nodes h'.nodes h.published h'.published

  AtPc-Grows : {h h' : Shared} (pc : Pc) → Grows h h' → AtPc h pc → AtPc h' pc
  AtPc-Grows idle g a = tt
  AtPc-Grows (pushing key val w) g a =
      PutHolds-Raised put_count cfg w
        (record { window = g.raised.put_window; counts = g.raised.puts }) a
  AtPc-Grows {h} {h'} (popping w) g a = (
    GetHolds-Raised get_count cfg w
        (record {
          window = g.raised.get_window;
          put_window = g.raised.put_window;
          got = g.raised.gets;
          put = g.raised.puts;
        })
        a.0,
    Held-map (λ _. HasNode h) (λ _. HasNode h') w.place.index w.pc
        (λ d has nz.
          Retains-IsPublished address {nodes = h.nodes} {nodes' = h'.nodes} d.node g.retains
            (has nz))
        a.1,
  )
  AtPc-Grows {h} {h'} (taking i d next) g a =
      (a.0, AtTaking-Retains address d.node next g.retains a.1)

  pub Holds-Grows : (h h' : Shared) (l : Local) → Grows h h' → Holds h l → Holds h' l
  Holds-Grows h h' l g k = record {
    index_in = k.index_in;
    put_le = omega (arith, g.raised.put_window);
    get_le = omega (arith, g.raised.get_window);
    at_pc = AtPc-Grows {h = h} {h' = h'} l.pc g k.at_pc;
  }

  -- What a step that ends in `h'` and `l'` owes.
  abbrev pub Kept : ℕ → Shared → Shared × Local → Type 0
  Kept n h out = Inv n out.0 × Holds out.0 out.1 × Grows h out.0

  module _ {n : ℕ} {h : Shared} (v : Inv n h) (i : ℕ) (lt : i < cfg.width) where
    pub lane-HasNode : HasNode h (h.lanes i)
    lane-HasNode nz =
        Chain-IsPublished address h.nodes h.published (node (h.lanes i)) (contents h.log i)
          (v.linked.chains i lt) nz

    -- The counts of a lane are small.
    pub small : put_count (h.lanes i) + n < 2 ^ 32
    small =
        omega (arith, v.log_room, v.in_lanes.puts_logged, le-total put_count cfg.width h.lanes i lt)
