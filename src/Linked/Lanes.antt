-- ===== src/Linked/Lanes.antt =====
-- The lanes of a stack: every lane's chain holds what the history says, and a push or a pop keeps it.
use elastic_2d_relaxation.Prelude.{
  ℕ, suc, ◌<◌, ◌≡◌, ◌≢◌, sym, List, ◌∷◌, inl, inr, Bool-cases, ◌==◌, ==_iff, update,
}
use elastic_2d_relaxation.Linked.{Node, IsAllocator, Event, pushed, popped, contents, Legal}
use elastic_2d_relaxation.Linked.Chains.{Chain, Chain-publish, Chain-push, Chain-first, Chain-rest}

module _ (address : ℕ → ℕ) (width : ℕ) where
  -- The lanes with the top nodes `tops`, after the calls of `log`, with `n` nodes published.
  pub record Linked (nodes : ℕ → Node) (n : ℕ) (tops : ℕ → ℕ) (log : List Event) : Type 0 where
    pub chains : (i : ℕ) → i < width → Chain address nodes n (tops i) (contents log i)
    pub legal : Legal width log

  module _ {D : Type 0} (top : D → ℕ) (nodes : ℕ → Node) (n : ℕ) (lanes : ℕ → D) (log : List Event)
      (l : Linked nodes n (λ i. top (lanes i)) log) (i : ℕ) (lt : i < width) (new : D) where
    -- The lane `i` gets a new node on top.
    pub push-Linked :
        IsAllocator address
        → (node : Node) → node.next ≡ top (lanes i)
        → top new ≡ address n
        → Linked
            (update nodes (address n) node)
            (suc n)
            (λ j. top (update lanes i new j))
            (pushed i node.val ∷ log)
    unfolding contents
    push-Linked alloc node below here = record {
      chains = λ j q. elim (Bool-cases (i == j)) [
        | inl same ↦
            rw (same, here, sym ((==_iff i j).0 same))
              (Chain-push address alloc nodes n node (contents log i) (rw below (l.chains i lt)))
        | inr other ↦ rw other (
            Chain-publish address alloc nodes n node (top (lanes j)) (contents log j)
              (l.chains j q))
      ];
      legal = (lt, l.legal);
    }

    -- The lane `i` loses its top node.
    pub pop-Linked :
        top (lanes i) ≢ 0
        → top new ≡ (nodes (top (lanes i))).next
        → Linked nodes n
            (λ j. top (update lanes i new j))
            (popped i (nodes (top (lanes i))).val ∷ log)
    unfolding contents
    pop-Linked some_node below = record {
      chains = λ j q. elim (Bool-cases (i == j)) [
        | inl same ↦
            rw (same, below, sym ((==_iff i j).0 same))
              (Chain-rest address nodes n (top (lanes i)) (contents log i) (l.chains i lt)
                some_node)
        | inr other ↦ rw other (l.chains j q)
      ];
      legal = (
        lt,
        Chain-first address nodes n (top (lanes i)) (contents log i) (l.chains i lt) some_node,
        l.legal,
      );
    }
