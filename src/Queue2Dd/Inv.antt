-- ===== src/Queue2Dd/Inv.antt =====
-- The invariant of the decoupled queue, and what every thread knows.
use elastic_2d_relaxation.Prelude.{ℕ, suc, ◌+◌, ◌≤◌, ◌<◌, ◌≡◌, ◌∙◌, sym, arith}
use elastic_2d_relaxation.Search.{Config}
use elastic_2d_relaxation.Window2Dd.Lanes
use elastic_2d_relaxation.Window2Dd.Lanes.{InLanes, view}
use elastic_2d_relaxation.Window2Dd.PutHeld
use elastic_2d_relaxation.Window2Dd.Held
use elastic_2d_relaxation.Window2Dd.PutHolds.{PutHolds, PutHolds-Raised}
use elastic_2d_relaxation.Window2Dd.GetHolds.{View, GetHolds, GetHolds-Raised}
use elastic_2d_relaxation.Queue2Dd.{
  Descriptor, node, count, Shared, Pc, idle, enqueueing, checking, linking, helping, swinging,
  dequeueing, tail_rest, compare, catching, advancing, Local,
}
use elastic_2d_relaxation.Queue2Dd.Lines.{Lined}
use elastic_2d_relaxation.Queue2Dd.Fifo.{contents, Legal, stretch, dequeues}

-- The values of the nodes of a lane, by their places in it.
abbrev pub vals : Shared → ℕ → ℕ → ℕ
vals h i k = (h.nodes (h.line i k)).val

-- The part of the memory that `get_window` looks at.
abbrev pub seen_by_get : Config → Shared → View Descriptor
seen_by_get cfg h = view count count cfg h.put_array h.get_array h.put_max h.get_max

-- One lane: where its head and tail are, and what is between the head and the last node.
pub record InLane (h : Shared) (i : ℕ) : Type 0 where
  pub tail_at : node (h.put_array i) ≡ h.line i (count (h.put_array i))
  pub head_at : node (h.get_array i) ≡ h.line i (count (h.get_array i))
  pub tail_le : count (h.put_array i) ≤ h.len i
  pub lag : h.len i ≤ suc (count (h.put_array i))
  pub len_le : h.len i ≤ h.put_max
  pub held :
      (n : ℕ) × (count (h.get_array i) + n ≡ h.len i)
      × (contents h.log i ≡ stretch (vals h i) (suc (count (h.get_array i))) n)

-- The node `p` is in lane `i` after `k` others.
abbrev pub At : Shared → (i p k : ℕ) → Type 0
At h i p k = (p ≡ h.line i k) × (k ≤ h.len i)

-- What is known of a descriptor that was read from the put_array, or the get_array.
abbrev pub FromPut : Shared → ℕ → Descriptor → Type 0
FromPut h i d = (k : ℕ) × At h i d.node k × (k ≤ count (h.put_array i))

abbrev pub FromGet : Shared → ℕ → Descriptor → Type 0
FromGet h i d = (k : ℕ) × At h i d.node k × (k ≤ count (h.get_array i))

-- Two nodes that follow each other.
abbrev pub Follows : Shared → ℕ → (p next : ℕ) → Type 0
Follows h i p next = (k : ℕ) × At h i p k × At h i next (suc k)

abbrev pub AtPc : Config → Shared → Local → Pc → Type 0
AtPc cfg h l idle = Unit
AtPc cfg h l (enqueueing key val c w) =
    PutHolds count cfg h.put_array h.put_max w × PutHeld.CallHeld (FromPut h) w
AtPc cfg h l (checking key val c d) = FromPut h l.index d
AtPc cfg h l (linking key val c d) =
    (k : ℕ) × At h l.index d.node k × (k ≤ count (h.put_array l.index)) × (k < h.put_max)
AtPc cfg h l (helping key val c d next) = Follows h l.index d.node next
AtPc cfg h l (swinging d next) = Follows h l.index d.node next
AtPc cfg h l (dequeueing c w) =
    GetHolds count cfg (seen_by_get cfg h) w × Held.CallHeld (FromGet h) w
AtPc cfg h l (tail_rest c d tail) =
    (q : ℕ) × (k : ℕ) × At h l.index d.node q
    × At h l.index tail k
    × (q ≤ k)
    × (k ≤ count (h.put_array l.index))
AtPc cfg h l (compare c d enq) =
    (q : ℕ) × (k : ℕ) × At h l.index d.node q
    × At h l.index enq.node k
    × (q ≤ k)
    × (k ≤ count (h.put_array l.index))
AtPc cfg h l (catching c enq next) = Follows h l.index enq.node next
AtPc cfg h l (advancing c d next) =
    (q : ℕ) × At h l.index d.node q
    × At h l.index next (suc q)
    × (suc q ≤ count (h.put_array l.index))

pub record Holds (cfg : Config) (h : Shared) (l : Local) : Type 0 where
  pub index_in : l.index < cfg.width
  pub put_le : l.put_max ≤ h.put_max
  pub get_le : l.get_max ≤ h.get_max
  pub at_pc : AtPc cfg h l l.pc

-- No step lowers a window or a count, or takes a node from its place.
pub record Grows (cfg : Config) (h h' : Shared) : Type 0 where
  pub raised :
      Lanes.Grows count count cfg h.put_array h'.put_array h.get_array h'.get_array h.put_max
        h'.put_max h.get_max h'.get_max
  pub longer : (i : ℕ) → h.len i ≤ h'.len i
  pub same_place : (i k : ℕ) → k ≤ h.len i → h'.line i k ≡ h.line i k

module _ (cfg : Config) (h h' : Shared) (g : Grows cfg h h') where
  At-Grows : (i p k : ℕ) → At h i p k → At h' i p k
  At-Grows i p k a = (a.0 ∙ sym (g.same_place i k a.1), omega (arith, a.1, g.longer i))

  FromPut-Grows : (i : ℕ) (d : Descriptor) → FromPut h i d → FromPut h' i d
  FromPut-Grows i d (k, a, le) = (k, At-Grows i d.node k a, omega (arith, g.raised.puts i))

  FromGet-Grows : (i : ℕ) (d : Descriptor) → FromGet h i d → FromGet h' i d
  FromGet-Grows i d (k, a, le) = (k, At-Grows i d.node k a, omega (arith, g.raised.gets i))

  Follows-Grows : (i p next : ℕ) → Follows h i p next → Follows h' i p next
  Follows-Grows i p next (k, a, b) = (k, At-Grows i p k a, At-Grows i next (suc k) b)

  AtPc-Grows : (l : Local) (pc : Pc) → AtPc cfg h l pc → AtPc cfg h' l pc
  AtPc-Grows l idle a = tt
  AtPc-Grows l (enqueueing key val c w) a = (
    PutHolds-Raised count cfg w (record { window = g.raised.put_window; counts = g.raised.puts })
        a.0,
    PutHeld.Held-map (FromPut h) (FromPut h') w.place.index w.pc (FromPut-Grows w.place.index) a.1,
  )
  AtPc-Grows l (checking key val c d) a = FromPut-Grows l.index d a
  AtPc-Grows l (linking key val c d) (k, a, le, below) = (
    k,
    At-Grows l.index d.node k a,
    omega (arith, g.raised.puts l.index),
    omega (arith, g.raised.put_window),
  )
  AtPc-Grows l (helping key val c d next) a = Follows-Grows l.index d.node next a
  AtPc-Grows l (swinging d next) a = Follows-Grows l.index d.node next a
  AtPc-Grows l (dequeueing c w) a = (
    GetHolds-Raised count cfg w
        (record {
          window = g.raised.get_window;
          put_window = g.raised.put_window;
          got = g.raised.gets;
          put = g.raised.puts;
        })
        a.0,
    Held.Held-map (FromGet h) (FromGet h') w.place.index w.pc (FromGet-Grows w.place.index) a.1,
  )
  AtPc-Grows l (tail_rest c d tail) (q, k, a, b, le, le2) = (
    q,
    k,
    At-Grows l.index d.node q a,
    At-Grows l.index tail k b,
    le,
    omega (arith, g.raised.puts l.index),
  )
  AtPc-Grows l (compare c d enq) (q, k, a, b, le, le2) = (
    q,
    k,
    At-Grows l.index d.node q a,
    At-Grows l.index enq.node k b,
    le,
    omega (arith, g.raised.puts l.index),
  )
  AtPc-Grows l (catching c enq next) a = Follows-Grows l.index enq.node next a
  AtPc-Grows l (advancing c d next) (q, a, b, le) = (
    q,
    At-Grows l.index d.node q a,
    At-Grows l.index next (suc q) b,
    omega (arith, g.raised.puts l.index),
  )

pub Holds-Grows :
    (cfg : Config) (h h' : Shared) (l : Local) → Grows cfg h h' → Holds cfg h l → Holds cfg h' l
Holds-Grows cfg h h' l g k = record {
  index_in = k.index_in;
  put_le = omega (arith, k.put_le, g.raised.put_window);
  get_le = omega (arith, k.get_le, g.raised.get_window);
  at_pc = AtPc-Grows cfg h h' g l l.pc k.at_pc;
}

-- The invariant with `n` steps to go; `swung` is how far the tails have been moved.
pub record Inv (address : ℕ → ℕ) (cfg : Config) (n : ℕ) (h : Shared) : Type 0 where
  pub swung : ℕ
  pub in_lanes :
      InLanes count count cfg n h.put_array h.get_array h.put_max h.get_max swung (dequeues h.log)
  pub lined : Lined address cfg.width h.nodes h.published h.line h.len
  pub in_lane : (i : ℕ) → i < cfg.width → InLane h i
  pub legal : Legal cfg.width h.log

-- What a step that ends in `h'` and `l'` owes.
abbrev pub Kept : (ℕ → ℕ) → Config → ℕ → Shared → Shared × Local → Type 0
Kept address cfg n h out = Inv address cfg n out.0 × Holds cfg out.0 out.1 × Grows cfg h out.0
