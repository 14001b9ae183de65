-- ===== src/Relaxation/Lists.antt =====
-- The lists of the relaxation analysis, as the memory holds them: what every operation makes of them.

use mathlib.Core.Path.{subst}
use elastic_2d_relaxation.Prelude.{
  ℕ, suc, ◌+◌, ◌≤◌, ◌<◌, ◌≡◌, ◌≢◌, refl, sym, ap, [], ◌∷◌, ◌++◌, inl, inr, true, false, u64_mod,
  arith, Bool-cases, ◌==◌, ==_refl, update, length,
}
use elastic_2d_relaxation.Linked.{IsAllocator}
use elastic_2d_relaxation.Relaxation.{
  LinearNode, LinearList, Analysis, set_next, append, add_linear,
}
use elastic_2d_relaxation.Relaxation.Chains.{
  Cells, has, last, Chain, Chain-frame, Chain-append, has-append, has-last, last-append,
}

-- The list is the chain of the cells.
pub record IsList (nodes : ℕ → LinearNode) (list : LinearList) (cs : Cells) : Type 0 where
  pub chain : Chain nodes list.head cs
  pub tail_is : list.tail ≡ last cs
  pub size_is : list.size ≡ length cs

pub IsList-frame :
    {nodes : ℕ → LinearNode} {list : LinearList} (b : ℕ) (x : LinearNode) (cs : Cells)
    → has b cs ≡ false
    → IsList nodes list cs
    → IsList (update nodes b x) list cs
IsList-frame {nodes} {list} b x cs out i = record {
  chain = Chain-frame nodes b x list.head cs out i.chain;
  tail_is = i.tail_is;
  size_is = i.size_is;
}

pub length-snoc : (cs : Cells) (c : ℕ × ℕ) → length (cs ++ (c ∷ [])) ≡ suc (length cs)
length-snoc [] c = refl
length-snoc (d ∷ cs) c = ap suc (length-snoc cs c)

-- A node at the end of a list.
pub append-IsList :
    {nodes : ℕ → LinearNode} {list : LinearList} (p v : ℕ) (cs : Cells)
    → IsList nodes list cs
    → has p cs ≡ false
    → p ≢ 0
    → nodes p ≡ record { val = v; next = 0 }
    → length cs + 1 < u64_mod
    → IsList (append nodes list p).0 (append nodes list p).1 (cs ++ ((p, v) ∷ []))
unfolding append
append-IsList {nodes} {list} p v [] i out live is room = rw i.chain (record {
  chain = (refl, live, ap (λ (x : LinearNode). x.val) is, refl, ap (λ (x : LinearNode). x.next) is);
  tail_is = refl;
  size_is = omega (arith, i.size_is);
})
append-IsList {nodes} {list} p v ((a, w) ∷ cs) i out live is room =
    rw (some_head, i.tail_is)
      (record {
        chain =
            Chain-append nodes list.head p v (a, w) cs i.chain out live
              (ap (λ (x : LinearNode). x.val) is) (ap (λ (x : LinearNode). x.next) is);
        tail_is = sym (last-append ((a, w) ∷ cs) p v);
        size_is = omega (arith, i.size_is, length-snoc ((a, w) ∷ cs) (p, v));
      })
  where
    some_head : (list.head == 0) ≡ false
    some_head = ground (arith, i.chain)

-- It leaves the chains apart from the list as they are.
pub append-frame :
    {nodes : ℕ → LinearNode} {list other : LinearList} (p : ℕ) (cs ds : Cells)
    → IsList nodes list cs
    → ((a : ℕ) → has a cs ≡ true → has a ds ≡ false)
    → IsList nodes other ds
    → IsList (append nodes list p).0 other ds
unfolding append
append-frame {nodes} {list} {other} p [] ds i apart o = rw i.chain o
append-frame {nodes} {list} {other} p ((a, w) ∷ cs) ds i apart o =
    rw (some_head, i.tail_is)
      (IsList-frame (last ((a, w) ∷ cs)) (record (nodes (last ((a, w) ∷ cs))) { next = p }) ds
        (apart (last ((a, w) ∷ cs)) (has-last (a, w) cs)) o)
  where
    some_head : (list.head == 0) ≡ false
    some_head = ground (arith, i.chain)

-- The memory holds the clone `cs` and the distances `ds`.
pub record Represents (address : ℕ → ℕ) (h : Analysis) (cs ds : Cells) : Type 0 where
  pub clone : IsList h.nodes h.linear_clone cs
  pub dists : IsList h.nodes h.error_dists ds
  pub apart : (a : ℕ) → has a cs ≡ true → has a ds ≡ false
  pub unused :
      (k : ℕ) → h.allocated ≤ k → (has (address k) cs ≡ false) × (has (address k) ds ≡ false)
  pub enough : length cs + length ds ≤ h.allocated

module _ (address : ℕ → ℕ) (alloc : IsAllocator address) (h : Analysis) (cs ds : Cells)
    (v : Represents address h cs ds) (room : h.allocated + 1 < u64_mod) (val : ℕ) where
  abbrev new : ℕ
  new = address h.allocated

  abbrev with_new : ℕ → LinearNode
  with_new = update h.nodes new (record { val = val; next = 0 })

  new_clone : IsList with_new h.linear_clone cs
  new_clone = IsList-frame new _ cs (v.unused h.allocated (omega arith)).0 v.clone

  new_dists : IsList with_new h.error_dists ds
  new_dists = IsList-frame new _ ds (v.unused h.allocated (omega arith)).1 v.dists

  other_new : (k : ℕ) → suc h.allocated ≤ k → (new == address k) ≡ false
  other_new k le = ground (arith, alloc.distinct h.allocated k)

  new_node : with_new new ≡ record { val = val; next = 0 }
  new_node = rw (==_refl new) refl

  new_cs : has new cs ≡ false
  new_cs = (v.unused h.allocated (omega arith)).0

  abbrev backed : Analysis
  backed = record h {
    nodes = (append with_new h.linear_clone new).0;
    allocated = suc h.allocated;
    linear_clone = (append with_new h.linear_clone new).1;
  }

  backed-Represents : Represents address backed (cs ++ ((new, val) ∷ [])) ds
  backed-Represents = record {
    clone =
        append-IsList new val cs new_clone new_cs (alloc.not_null h.allocated) new_node
          (omega (arith, v.enough));
    dists = append-frame new cs ds new_clone v.apart new_dists;
    apart = λ a among. ground (
      arith,
      has-append a cs ((new, val) ∷ []),
      v.apart a,
      (v.unused h.allocated (omega arith)).1,
    );
    unused = λ k le. (
      ground (
        arith,
        has-append (address k) cs ((new, val) ∷ []),
        other_new k le,
        v.unused k (omega arith),
      ),
      (v.unused k (omega arith)).1,
    );
    enough = omega (arith, v.enough, length-snoc cs (new, val));
  }

  add-backed : add_linear address h val 0 ≡ backed
  unfolding add_linear append
  add-backed = elim (Bool-cases (h.linear_clone.head == 0)) [
    | inl e ↦ rw e refl
    | inr e ↦ rw e refl
  ]

  -- `add_linear(val, 0)` puts the value at the back.
  pub add-back : Represents address (add_linear address h val 0) (cs ++ ((new, val) ∷ [])) ds
  add-back =
      subst (λ (x : Analysis). Represents address x (cs ++ ((new, val) ∷ [])) ds) (sym add-backed)
        backed-Represents

-- `add_linear(val, 1)` puts it in front.
pub add-front :
    (address : ℕ → ℕ) (alloc : IsAllocator address) (h : Analysis) (cs ds : Cells)
    → Represents address h cs ds
    → h.allocated + 1 < u64_mod
    → (val : ℕ)
    → Represents address (add_linear address h val 1) ((address h.allocated, val) ∷ cs) ds
unfolding add_linear append
add-front address alloc h [] ds v room val =
    subst (λ (x : Analysis). Represents address x ((address h.allocated, val) ∷ []) ds) same
      (add-back address alloc h [] ds v room val)
  where
    same : add_linear address h val 0 ≡ add_linear address h val 1
    same = rw v.clone.chain refl
add-front address alloc h (c ∷ cs) ds v room val = rw some_head (record {
  clone = record {
    chain = (
      refl,
      alloc.not_null h.allocated,
      ap (λ (x : LinearNode). x.val) first,
      (v.unused h.allocated (omega arith)).0,
      subst (λ (p : ℕ). Chain linked p (c ∷ cs)) (sym (ap (λ (x : LinearNode). x.next) first))
          (Chain-frame before new (record (before new) { next = h.linear_clone.head })
            h.linear_clone.head (c ∷ cs) (v.unused h.allocated (omega arith)).0
            (new_clone address alloc h (c ∷ cs) ds v room val).chain),
    );
    tail_is = v.clone.tail_is;
    size_is = omega (arith, v.clone.size_is, v.enough);
  };
  dists =
      IsList-frame (address h.allocated) _ ds (v.unused h.allocated (omega arith)).1
        (new_dists address alloc h (c ∷ cs) ds v room val);
  apart = λ a among. ground (arith, v.apart a, (v.unused h.allocated (omega arith)).1);
  unused = λ k le. (
    ground (arith, other_new address alloc h (c ∷ cs) ds v room val k le, v.unused k (omega arith)),
    (v.unused k (omega arith)).1,
  );
  enough = omega (arith, v.enough);
})
  where
    some_head : (h.linear_clone.head == 0) ≡ false
    some_head = ground (arith, v.clone.chain)

    new : ℕ
    new = address h.allocated

    before : ℕ → LinearNode
    before = update h.nodes (address h.allocated) (record { val = val; next = 0 })

    linked : ℕ → LinearNode
    linked = set_next before (address h.allocated) h.linear_clone.head

    first : linked (address h.allocated) ≡ record { val = val; next = h.linear_clone.head }
    first = ground (arith, ==_refl (address h.allocated))
