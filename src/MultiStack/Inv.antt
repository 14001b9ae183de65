-- ===== src/MultiStack/Inv.antt =====
-- The invariant of the multi-stack, and what a thread knows of its round of drawn lanes.
use elastic_2d_relaxation.Prelude.{
  ℕ, suc, ◌+◌, ◌^◌, ◌≤◌, ◌<◌, ◌≡◌, ◌≢◌, List, [], ◌∷◌, arith, ap, length, inl, inr, Bool-cases,
  ◌==◌,
}
use elastic_2d_relaxation.Linked.{Node, contents, pushes}
use elastic_2d_relaxation.Linked.Chains.{
  IsPublished, Retains, Retains-IsPublished, AtTaking, AtTaking-Retains, Chain-IsPublished,
}
use elastic_2d_relaxation.Linked.Lanes.{Linked}
use elastic_2d_relaxation.MultiStack.{
  Operation, push, pop, Pc, idle, draw, next, compare, attempt, taking, Shared, rank,
}

-- What a way to make timestamps promises: `mark` between the stamp of a node and the number of nodes
-- below it.
pub record Marks (stamp_for : (stamps : ℕ → ℕ) (node c : ℕ) → ℕ) (mark : ℕ → ℕ → Type 0)
    : Type 0 where
  pub lowest : (stamps : ℕ → ℕ) (c : ℕ) → mark (stamp_for stamps 0 c) 0
  pub above :
      (stamps : ℕ → ℕ) (node c n : ℕ)
      → node ≢ 0
      → suc n < 2 ^ 64
      → mark (stamps node) n
      → mark (stamp_for stamps node c) (suc n)

-- The stamps of a chain.
abbrev pub Marked : (ℕ → ℕ → Type 0) → (ℕ → Node) → (ℕ → ℕ) → ℕ → List ℕ → Type 0
Marked mark nodes stamps p [] = Unit
Marked mark nodes stamps p (v ∷ vs) =
    mark (stamps p) (length vs) × Marked mark nodes stamps (nodes p).next vs

-- No node read in the round had a lower rank than the best, or, for a pop, a higher one.
abbrev pub IsRanked : Operation → ℕ → List ℕ → Type 0
IsRanked op best [] = Unit
IsRanked (push key val) best (r ∷ seen) = (best ≤ r) × IsRanked (push key val) best seen
IsRanked pop best (r ∷ seen) = (r ≤ best) × IsRanked pop best seen

-- A push goes on only from a node: one that has found an empty lane takes it.
abbrev pub GoesOn : Operation → ℕ → Type 0
GoesOn (push key val) node = node ≢ 0
GoesOn pop node = Unit

module _ (address : ℕ → ℕ) (mark : ℕ → ℕ → Type 0) (width : ℕ) where
  -- The invariant with `n` steps to go.
  pub record Inv (n : ℕ) (h : Shared) : Type 0 where
    pub linked : Linked address width h.nodes h.published h.lanes h.log
    pub marked : (i : ℕ) → i < width → Marked mark h.nodes h.stamps (h.lanes i) (contents h.log i)
    pub log_room : pushes h.log + n < 2 ^ 64

  abbrev pub HasNode : Shared → ℕ → Type 0
  HasNode h p = p ≢ 0 → IsPublished address h.published p

  -- The best node so far.
  pub record IsBest (h : Shared) (op : Operation) (index node : ℕ) (seen : List ℕ) : Type 0 where
    pub index_in : index < width
    pub has_node : HasNode h node
    pub ranked : IsRanked op (rank h.stamps node) seen

  -- What a thread knows of its own round.
  abbrev pub Holds : Shared → Pc → Type 0
  Holds h idle = Unit
  Holds h (draw op) = Unit
  Holds h (next op i index node seen) = IsBest h op index node seen × GoesOn op node
  Holds h (compare op i index node index2 node2 seen) =
      IsBest h op index node seen × GoesOn op node × (index2 < width) × HasNode h node2
  Holds h (attempt op index node seen) = IsBest h op index node seen
  Holds h (taking index node below) =
      (index < width) × AtTaking address h.nodes h.published node below

  -- No step writes to a published node.
  pub record Grows (h h' : Shared) : Type 0 where
    pub nodes : Retains address h.nodes h'.nodes h.published h'.published
    pub stamps : Retains address h.stamps h'.stamps h.published h'.published

  HasNode-Grows : (h h' : Shared) (p : ℕ) → Grows h h' → HasNode h p → HasNode h' p
  HasNode-Grows h h' p g has nz =
      Retains-IsPublished address {nodes = h.nodes} {nodes' = h'.nodes} p g.nodes (has nz)

  same_rank :
      (h h' : Shared) (p : ℕ) → Grows h h' → HasNode h p → rank h'.stamps p ≡ rank h.stamps p
  same_rank h h' p g has = elim (Bool-cases (p == 0)) [
    | inl null ↦ rw null
    | inr some_node ↦ rw some_node (ap suc (g.stamps.unwritten p (has (ground arith))))
  ]

  IsBest-Grows :
      (h h' : Shared) (op : Operation) (index node : ℕ) (seen : List ℕ)
      → Grows h h'
      → IsBest h op index node seen
      → IsBest h' op index node seen
  IsBest-Grows h h' op index node seen g b = record {
    index_in = b.index_in;
    has_node = HasNode-Grows h h' node g b.has_node;
    ranked = rw (same_rank h h' node g b.has_node) b.ranked;
  }

  pub Holds-Grows : (h h' : Shared) (pc : Pc) → Grows h h' → Holds h pc → Holds h' pc
  Holds-Grows h h' idle g a = tt
  Holds-Grows h h' (draw op) g a = tt
  Holds-Grows h h' (next op i index node seen) g a =
      (IsBest-Grows h h' op index node seen g a.0, a.1)
  Holds-Grows h h' (compare op i index node index2 node2 seen) g a =
      (IsBest-Grows h h' op index node seen g a.0, a.1, a.2, HasNode-Grows h h' node2 g a.3)
  Holds-Grows h h' (attempt op index node seen) g a = IsBest-Grows h h' op index node seen g a
  Holds-Grows h h' (taking index node below) g a =
      (a.0, AtTaking-Retains address node below g.nodes a.1)

  pub lane-HasNode : {n : ℕ} {h : Shared} → Inv n h → (i : ℕ) → i < width → HasNode h (h.lanes i)
  lane-HasNode {n} {h} v i lt nz =
      Chain-IsPublished address h.nodes h.published (h.lanes i) (contents h.log i)
        (v.linked.chains i lt) nz

  -- What a step that ends in `h'` and `pc'` owes.
  abbrev pub Kept : ℕ → Shared → Shared × Pc → Type 0
  Kept n h out = Inv n out.0 × Holds out.0 out.1 × Grows h out.0
