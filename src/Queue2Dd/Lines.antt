-- ===== src/Queue2Dd/Lines.antt =====
-- The nodes of the lanes of the queue, each by the number of nodes that were put into its lane before
-- it, and what a new node after the last one makes of them.
use elastic_2d_relaxation.Prelude.{
  ℕ, suc, ◌≤◌, ◌<◌, ◌≡◌, ◌≢◌, sym, ◌∙◌, ap, ◌⊎◌, inl, inr, arith, update, ℕ_discrete,
}
use elastic_2d_relaxation.Linked.{Node, IsAllocator, create_node}
use elastic_2d_relaxation.Linked.Chains.{IsPublished}

module _ (address : ℕ → ℕ) (width : ℕ) where
  pub record Lined (nodes : ℕ → Node) (n : ℕ) (line : ℕ → ℕ → ℕ) (len : ℕ → ℕ) : Type 0 where
    pub placed : (i k : ℕ) → i < width → k ≤ len i → IsPublished address n (line i k)
    pub apart :
        (i k j m : ℕ)
        → i < width
        → k ≤ len i
        → j < width
        → m ≤ len j
        → line i k ≡ line j m
        → (i ≡ j) × (k ≡ m)
    pub followed : (i k : ℕ) → i < width → k < len i → (nodes (line i k)).next ≡ line i (suc k)
    pub last : (i : ℕ) → i < width → (nodes (line i (len i))).next ≡ 0

  -- What a thread that reads the `next` of a lane's node finds.
  pub next-cases :
      {nodes : ℕ → Node} {n : ℕ} {line : ℕ → ℕ → ℕ} {len : ℕ → ℕ} (i k : ℕ)
      → Lined nodes n line len
      → i < width
      → k ≤ len i
      → (((nodes (line i k)).next ≡ 0) × (k ≡ len i))
        ⊎ (((nodes (line i k)).next ≡ line i (suc k)) × (suc k ≤ len i))
  next-cases {nodes} {n} {line} {len} i k v lt le = elim (ℕ_discrete k (len i)) [
    | yes e ↦ inl (rw e (v.last i lt), e)
    | no ne ↦ inr (v.followed i k lt (omega arith), omega arith)
  ]

  module _ (alloc : IsAllocator address) {nodes : ℕ → Node} {n : ℕ} {line : ℕ → ℕ → ℕ} {len : ℕ → ℕ}
      (v : Lined nodes n line len) (i : ℕ) (lt : i < width) (key val : ℕ) where
    abbrev tail : ℕ
    tail = line i (len i)

    abbrev with_new : ℕ → Node
    with_new = update nodes (address n) (create_node key val 0)

    abbrev nodes' : ℕ → Node
    nodes' = update with_new tail (record (with_new tail) { next = address n })

    abbrev line' : ℕ → ℕ → ℕ
    line' = update line i (update (line i) (suc (len i)) (address n))

    abbrev len' : ℕ → ℕ
    len' = update len i (suc (len i))

    pub line_old : (j k : ℕ) → k ≤ len j → line' j k ≡ line j k
    line_old j k le = elim (ℕ_discrete i j) [
      | yes e ↦ rw (sym e) (ground (arith, ap len e))
      | no ne ↦ ground arith
    ]

    pub line_new : line' i (suc (len i)) ≡ address n
    line_new = ground arith

    -- The new node is none of the lanes' nodes.
    pub is_new : (j k : ℕ) → j < width → k ≤ len j → line j k ≢ address n
    is_new j k q le e = go (v.placed j k q le)
      where
        go : IsPublished address n (line j k) → ⊥
        go (m, below, at) = absurd (omega (arith, alloc.distinct m n (sym at ∙ e)))

    -- Of the other nodes only the last of lane `i` changes, and of it only the pointer.
    pub next_old :
        (j k : ℕ)
        → j < width
        → k ≤ len j
        → line j k ≢ tail
        → (nodes' (line j k)).next ≡ (nodes (line j k)).next
    next_old j k q le ne = ground (arith, is_new j k q le)

    pub next_tail : (nodes' tail).next ≡ address n
    next_tail = ground arith

    pub next_new : (nodes' (address n)).next ≡ 0
    unfolding create_node
    next_new = ground (arith, is_new i (len i) lt (omega arith))

    pub val_old :
        (j k : ℕ) → j < width → k ≤ len j → (nodes' (line j k)).val ≡ (nodes (line j k)).val
    val_old j k q le = ground (arith, is_new j k q le)

    pub val_new : (nodes' (address n)).val ≡ val
    unfolding create_node
    val_new = ground (arith, is_new i (len i) lt (omega arith))

    spot-cases : (j k : ℕ) → k ≤ len' j → (k ≤ len j) ⊎ ((j ≡ i) × (k ≡ suc (len i)))
    spot-cases j k le = elim (ℕ_discrete i j) [
      | yes e ↦ elim (ℕ_discrete k (suc (len i))) [
        | yes new ↦ inr (sym e, new)
        | no old ↦ inl (ground (arith, ap len e))
      ]
      | no ne ↦ inl (ground arith)
    ]

    line_at : (j k : ℕ) → j ≡ i → k ≡ suc (len i) → line' j k ≡ address n
    line_at j k e f = rw (e, f) line_new

    link-placed : (j k : ℕ) → j < width → k ≤ len' j → IsPublished address (suc n) (line' j k)
    link-placed j k q le = elim (spot-cases j k le) [
      | inl old ↦ let (m, below, e) = v.placed j k q old in (m, omega arith, line_old j k old ∙ e)
      | inr (e, f) ↦ (n, omega arith, line_at j k e f)
    ]

    link-apart :
        (j k l m : ℕ)
        → j < width
        → k ≤ len' j
        → l < width
        → m ≤ len' l
        → line' j k ≡ line' l m
        → (j ≡ l) × (k ≡ m)
    link-apart j k l m qj lj ql ll e = elim (spot-cases j k lj) [
      | inl old ↦ elim (spot-cases l m ll) [
        | inl old2 ↦ v.apart j k l m qj old ql old2 (sym (line_old j k old) ∙ e ∙ line_old l m old2)
        | inr (f, g) ↦ absurd (is_new j k qj old (sym (line_old j k old) ∙ e ∙ line_at l m f g))
      ]
      | inr (f, g) ↦ elim (spot-cases l m ll) [
        | inl old2 ↦ absurd (is_new l m ql old2 (sym (line_old l m old2) ∙ sym e ∙ line_at j k f g))
        | inr (f2, g2) ↦ (f ∙ sym f2, g ∙ sym g2)
      ]
    ]

    not_tail : (j k : ℕ) → j < width → k ≤ len j → ((j ≡ i) → k ≢ len i) → line j k ≢ tail
    not_tail j k q le differ e =
        differ (v.apart j k i (len i) q le lt (omega arith) e).0
          (v.apart j k i (len i) q le lt (omega arith) e).1

    link-followed : (j k : ℕ) → j < width → k < len' j → (nodes' (line' j k)).next ≡ line' j (suc k)
    link-followed j k q below = elim (spot-cases j (suc k) (omega arith)) [
      | inl old ↦
          ap (λ (x : ℕ). (nodes' x).next) (line_old j k (omega arith))
          ∙ next_old j k q (omega arith)
              (not_tail j k q (omega arith) (λ e. omega (arith, ap len e)))
          ∙ v.followed j k q (omega arith)
          ∙ sym (line_old j (suc k) old)
      | inr (e, f) ↦
          let same : k ≡ len i = omega arith in
          let at_tail : line' j k ≡ tail =
            line_old j k (omega (arith, ap len e))
            ∙ ap (λ (x : ℕ). line x k) e
            ∙ ap (line i) same in
          ap (λ (x : ℕ). (nodes' x).next) at_tail ∙ next_tail ∙ sym (line_at j (suc k) e f)
    ]

    link-last : (j : ℕ) → j < width → (nodes' (line' j (len' j))).next ≡ 0
    link-last j q = elim (ℕ_discrete i j) [
      | yes e ↦
          ap (λ (x : ℕ). (nodes' x).next) (line_at j (len' j) (sym e) (ground arith)) ∙ next_new
      | no ne ↦
          let same : len' j ≡ len j = ground arith in
          ap (λ (x : ℕ). (nodes' x).next) (ap (line' j) same ∙ line_old j (len j) (omega arith))
          ∙ next_old j (len j) q (omega arith)
              (not_tail j (len j) q (omega arith) (λ e. absurd (ne (sym e))))
          ∙ v.last j q
    ]

    pub link-Lined : Lined nodes' (suc n) line' len'
    link-Lined = record {
      placed = link-placed;
      apart = link-apart;
      followed = link-followed;
      last = link-last;
    }
