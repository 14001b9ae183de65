-- ===== src/MultiStack/Marked.antt =====
-- The timestamps of a lane's chain, through a push and a pop.
use elastic_2d_relaxation.Prelude.{ℕ, ◌^◌, ◌<◌, ◌≡◌, ◌≢◌, List, [], ◌∷◌, length, update, ==_refl}
use elastic_2d_relaxation.Linked.{Node, IsAllocator, tail}
use elastic_2d_relaxation.Linked.Chains.{Chain, published-same}
use elastic_2d_relaxation.MultiStack.Inv.{Marks, Marked}

module _ (address : ℕ → ℕ) (mark : ℕ → ℕ → Type 0) (nodes : ℕ → Node) (stamps : ℕ → ℕ) (n : ℕ) where
  module _ (alloc : IsAllocator address) (node : Node) (stamp : ℕ) where
    -- A node that is published leaves the other chains as they are.
    pub Marked-publish :
        (p : ℕ) (vs : List ℕ)
        → Chain address nodes n p vs
        → Marked mark nodes stamps p vs
        → Marked mark (update nodes (address n) node) (update stamps (address n) stamp) p vs
    Marked-publish p [] c k = tt
    Marked-publish p (v ∷ vs) c k =
        rw
          (
            published-same address alloc nodes n node p c.1,
            published-same address alloc stamps n stamp p c.1,
          )
          (k.0, Marked-publish (nodes p).next vs c.3 k.1)

  -- The stamp of a push marks the height of the chain that it is put on.
  stamped :
      (stamp_for : (stamps : ℕ → ℕ) (node c : ℕ) → ℕ)
      → Marks stamp_for mark
      → (p c : ℕ) (vs : List ℕ) → Chain address nodes n p vs
      → Marked mark nodes stamps p vs
      → length vs < 2 ^ 64
      → mark (stamp_for stamps p c) (length vs)
  stamped stamp_for law p c [] null k small = rw null (law.lowest stamps c)
  stamped stamp_for law p c (v ∷ vs) chain k small =
      law.above stamps p c (length vs) chain.0 small k.0

  pub Marked-push :
      (stamp_for : (stamps : ℕ → ℕ) (node c : ℕ) → ℕ)
      → Marks stamp_for mark
      → IsAllocator address
      → (p c : ℕ) (node : Node) (vs : List ℕ) → node.next ≡ p
      → Chain address nodes n p vs
      → Marked mark nodes stamps p vs
      → length vs < 2 ^ 64
      → Marked mark
          (update nodes (address n) node)
          (update stamps (address n) (stamp_for stamps p c))
          (address n)
          (node.val ∷ vs)
  Marked-push stamp_for law alloc p c node vs below chain k small =
      rw (==_refl (address n), below)
        (
          stamped stamp_for law p c vs chain k small,
          Marked-publish alloc node (stamp_for stamps p c) p vs chain k,
        )

  pub Marked-rest :
      (p : ℕ) (vs : List ℕ)
      → Chain address nodes n p vs
      → p ≢ 0
      → Marked mark nodes stamps p vs
      → Marked mark nodes stamps (nodes p).next (tail vs)
  Marked-rest p [] c nz k = tt
  Marked-rest p (v ∷ vs) c nz k = k.1
