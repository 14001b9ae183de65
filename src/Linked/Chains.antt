-- ===== src/Linked/Chains.antt =====
-- Chains of nodes: what stays of a chain when a node is published, and what a push and a pop make
-- of it.
use elastic_2d_relaxation.Prelude.{
  ℕ, suc, ◌≤◌, ◌<◌, ◌≡◌, ◌≢◌, refl, List, [], ◌∷◌, inl, inr, arith, Bool-cases, ◌==◌, update,
  ==_refl,
}
use elastic_2d_relaxation.Linked.{Node, IsAllocator, tail}

module _ (address : ℕ → ℕ) where
  -- `p` is one of the first `n` nodes that were published.
  abbrev pub IsPublished : ℕ → ℕ → Type 0
  IsPublished n p = (k : ℕ) × (k < n) × (p ≡ address k)

  -- From `p` the `next` pointers lead through published nodes with the values `vs` to `NULL`.
  abbrev pub Chain : (ℕ → Node) → ℕ → ℕ → List ℕ → Type 0
  Chain nodes n p [] = p ≡ 0
  Chain nodes n p (v ∷ vs) =
      (p ≢ 0) × IsPublished n p × ((nodes p).val ≡ v) × Chain nodes n (nodes p).next vs

  -- What is written for a new node leaves the published ones as they are.
  pub published-same :
      {X : Type 0}
      → IsAllocator address
      → (f : ℕ → X) (n : ℕ) (x : X) (p : ℕ) → IsPublished n p
      → update f (address n) x p ≡ f p
  published-same alloc f n x p (k, lt, e) = elim (Bool-cases (address n == p)) [
    | inl hit ↦ absurd (omega (arith, alloc.distinct n k (ground arith)))
    | inr miss ↦ rw miss
  ]

  module _ (alloc : IsAllocator address) (nodes : ℕ → Node) (n : ℕ) (node : Node) where
    -- A node that is published leaves the other chains as they are.
    pub Chain-publish :
        (p : ℕ) (vs : List ℕ)
        → Chain nodes n p vs
        → Chain (update nodes (address n) node) (suc n) p vs
    Chain-publish p [] c = c
    Chain-publish p (v ∷ vs) (nz, (k, lt, e), val, rest) =
        rw (published-same alloc nodes n node p (k, lt, e))
          (nz, (k, omega arith, e), val, Chain-publish (nodes p).next vs rest)

    -- The node put in front of a chain.
    pub Chain-push :
        (vs : List ℕ)
        → Chain nodes n node.next vs
        → Chain (update nodes (address n) node) (suc n) (address n) (node.val ∷ vs)
    Chain-push vs c =
        rw (==_refl (address n))
          (alloc.not_null n, (n, omega arith, refl), refl, Chain-publish node.next vs c)

  module _ (nodes : ℕ → Node) (n p : ℕ) where
    -- A chain that does not start with `NULL` starts with a node.
    pub Chain-first : (vs : List ℕ) → Chain nodes n p vs → p ≢ 0 → vs ≡ (nodes p).val ∷ tail vs
    Chain-first [] c nz = absurd (nz c)
    Chain-first (v ∷ vs) c nz = rw c.2 refl

    pub Chain-rest :
        (vs : List ℕ) → Chain nodes n p vs → p ≢ 0 → Chain nodes n (nodes p).next (tail vs)
    Chain-rest [] c nz = absurd (nz c)
    Chain-rest (v ∷ vs) c nz = c.3

    pub Chain-null : (vs : List ℕ) → Chain nodes n p vs → p ≡ 0 → vs ≡ []
    Chain-null [] c z = refl
    Chain-null (v ∷ vs) c z = absurd (c.0 z)

    pub Chain-IsPublished : (vs : List ℕ) → Chain nodes n p vs → p ≢ 0 → IsPublished n p
    Chain-IsPublished [] c nz = absurd (nz c)
    Chain-IsPublished (v ∷ vs) c nz = c.1

  -- No step takes a published node back, or writes to one.
  pub record Retains {X : Type 0} (nodes nodes' : ℕ → X) (n n' : ℕ) : Type 0 where
    pub more : n ≤ n'
    pub unwritten : (p : ℕ) → IsPublished n p → nodes' p ≡ nodes p

  pub Retains-refl : {X : Type 0} (nodes : ℕ → X) (n : ℕ) → Retains nodes nodes n n
  Retains-refl nodes n = record { more = omega arith; unwritten = λ p q. refl }

  pub Retains-publish :
      {X : Type 0}
      → IsAllocator address
      → (nodes : ℕ → X) (n : ℕ) (node : X) → Retains nodes (update nodes (address n) node) n (suc n)
  Retains-publish alloc nodes n node = record {
    more = omega arith;
    unwritten = λ p q. published-same alloc nodes n node p q;
  }

  pub Retains-IsPublished :
      {X : Type 0} {nodes nodes' : ℕ → X} {n n' : ℕ} (p : ℕ)
      → Retains nodes nodes' n n'
      → IsPublished n p
      → IsPublished n' p
  Retains-IsPublished p r (k, lt, e) = (k, omega (arith, r.more), e)

  -- A thread that is about to take the top node of a lane knows the node below it.
  pub record AtTaking (nodes : ℕ → Node) (n top next : ℕ) : Type 0 where
    pub some_node : top ≢ 0
    pub is_published : IsPublished n top
    pub below : next ≡ (nodes top).next

  pub AtTaking-Retains :
      {nodes nodes' : ℕ → Node} {n n' : ℕ} (top next : ℕ)
      → Retains nodes nodes' n n'
      → AtTaking nodes n top next
      → AtTaking nodes' n' top next
  AtTaking-Retains {nodes} {nodes'} {n} {n'} top next r a = record {
    some_node = a.some_node;
    is_published = Retains-IsPublished {nodes = nodes} {nodes' = nodes'} top r a.is_published;
    below = rw (r.unwritten top a.is_published) a.below;
  }
