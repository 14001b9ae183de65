-- ===== src/Relaxation/Removals.antt =====
-- `remove_linear` takes the first node with the value out of the clone, and appends its distance from
-- the front to the distances.
use mathlib.Core.Option
use mathlib.Core.Path.{subst}
use elastic_2d_relaxation.Prelude.{
  ℕ, suc, ◌+◌, ◌≤◌, ◌<◌, ◌≡◌, refl, sym, ◌∙◌, ap, [], ◌∷◌, ◌++◌, inl, inr, Bool, true, false, some,
  none, u64_mod, sub64, arith, Bool-cases, ◌==◌, if◌then◌else◌, length,
}
use elastic_2d_relaxation.Relaxation.{
  Analysis, set_next, add_relaxed_dist, search, unlink, remove_linear,
}
use elastic_2d_relaxation.Relaxation.Chains.{
  Cells, has, last, Chain, has-differ, drop_at, not-has-drop_at, position,
}
use elastic_2d_relaxation.Relaxation.Finds.{Found, search-none, search-Found}
use elastic_2d_relaxation.Prelude.{map-some, some-eq}
use elastic_2d_relaxation.Relaxation.Finds.{position-hit, position-miss, map-none}
use elastic_2d_relaxation.Relaxation.Lists.{IsList-frame, Represents}
use elastic_2d_relaxation.Relaxation.Distances.{
  not-has-zero, length-drop_at, dist-Represents, first-tail, alone,
}

module _ (address : ℕ → ℕ) (h : Analysis) (a w : ℕ) (cs ds : Cells)
    (v : Represents address h ((a, w) ∷ cs) ds) (room : h.allocated < u64_mod) (fuel val : ℕ)
    (enough : length cs < fuel) where
  head_is : h.linear_clone.head ≡ a
  head_is = v.clone.chain.0

  some_head : (h.linear_clone.head == 0) ≡ false
  some_head = ground (arith, v.clone.chain)

  -- The state after the first node has been taken out.
  abbrev first : Analysis
  first = record h {
    linear_clone = record {
      size = sub64 h.linear_clone.size 1;
      head = (h.nodes h.linear_clone.head).next;
      tail = if h.linear_clone.head == h.linear_clone.tail then 0 else h.linear_clone.tail;
    };
  }

  first_tail :
      (if h.linear_clone.head == h.linear_clone.tail then 0 else h.linear_clone.tail) ≡ last cs
  first_tail =
      first-tail a w h.linear_clone.head h.linear_clone.tail cs head_is v.clone.tail_is
        v.clone.chain.3

  first-Represents : Represents address first cs ds
  first-Represents = record {
    clone = record {
      chain = subst (λ (p : ℕ). Chain h.nodes (h.nodes p).next cs) (sym head_is) v.clone.chain.4;
      tail_is = first_tail;
      size_is = omega (arith, v.clone.size_is, v.enough);
    };
    dists = v.dists;
    apart = λ b among. v.apart b (ground arith);
    unused = λ k le. (ground (arith, v.unused k le), (v.unused k le).1);
    enough = omega (arith, v.enough);
  }

  head_val : {b : Bool} → (w == val) ≡ b → ((h.nodes h.linear_clone.head).val == val) ≡ b
  head_val e = ap (λ (p : ℕ). (h.nodes p).val == val) head_is ∙ rw v.clone.chain.2 e

  removed_first :
      (w == val) ≡ true
      → remove_linear fuel h val ≡ some (add_relaxed_dist first h.linear_clone.head 0)
  unfolding remove_linear
  removed_first hit = elim (Bool-cases (h.linear_clone.head == h.linear_clone.tail)) [
    | inl e ↦
        let one = alone h.nodes h.linear_clone a w cs v.clone e in
        rw (some_head, head_val hit, e, one.0, one.1) refl
    | inr e ↦ rw (some_head, head_val hit, e) refl
  ]

  -- The state after a later node has been taken out.
  abbrev cut : ℕ → Analysis
  cut l = record h {
    nodes = set_next h.nodes l (h.nodes (h.nodes l).next).next;
    linear_clone = record (h.linear_clone) {
      size = sub64 h.linear_clone.size 1;
      tail = if (h.nodes l).next == h.linear_clone.tail then l else h.linear_clone.tail;
    };
  }

  cut-Represents :
      (l m : ℕ)
      → position val cs ≡ some m
      → Found h.nodes h.linear_clone.head (a, w) cs l m
      → Represents address (cut l) ((a, w) ∷ drop_at m cs) ds
  cut-Represents l m at f = record {
    clone = record {
      chain = f.cut;
      tail_is = rw v.clone.tail_is (sym f.new_last);
      size_is = omega (arith, v.clone.size_is, v.enough, length-drop_at val m cs at);
    };
    dists =
        IsList-frame l (record (h.nodes l) { next = (h.nodes (h.nodes l).next).next }) ds
          (v.apart l f.among) v.dists;
    apart = λ b among. v.apart b (ground (arith, not-has-drop_at b m cs));
    unused = λ k le.
        (ground (arith, v.unused k le, not-has-drop_at (address k) m cs), (v.unused k le).1);
    enough = omega (arith, v.enough, length-drop_at val m cs at);
  }

  later_eq :
      (l m : ℕ)
      → some (unlink h l (1 + m)) ≡ some (add_relaxed_dist (cut l) (h.nodes l).next (suc m))
  unfolding unlink
  later_eq l m =
      let e : 1 + m ≡ suc m = omega arith in
      ap (λ (d : ℕ). some (add_relaxed_dist (cut l) (h.nodes l).next d)) e

  removed_later :
      (w == val) ≡ false
      → (l m : ℕ) → search fuel h.nodes val h.linear_clone.head 1 ≡ some (l, 1 + m)
      → remove_linear fuel h val ≡ some (add_relaxed_dist (cut l) (h.nodes l).next (suc m))
  unfolding remove_linear unlink Option.map
  removed_later miss l m found = rw (some_head, head_val miss, found) (later_eq l m)

  pub missing : position val ((a, w) ∷ cs) ≡ none → remove_linear fuel h val ≡ none
  unfolding remove_linear Option.map
  missing at = elim (Bool-cases (w == val)) [
    | inl hit ↦ cc
    | inr miss ↦
        rw
          (
            some_head,
            head_val miss,
            search-none fuel h.nodes val h.linear_clone.head 1 (a, w) cs v.clone.chain
                (map-none suc (position val cs) (sym (position-miss val a w cs miss) ∙ at)),
          )
          refl
  ]

  -- A node of the clone is no new one, and not among the distances.
  old_node : (p k : ℕ) → has p ((a, w) ∷ cs) ≡ true → h.allocated ≤ k → (p == address k) ≡ false
  old_node p k among le = has-differ p (address k) ((a, w) ∷ cs) among (v.unused k le).0

  first_among : has h.linear_clone.head ((a, w) ∷ cs) ≡ true
  first_among = ground (arith, head_is)

  first_removed :
      Represents address
        (add_relaxed_dist first h.linear_clone.head 0)
        cs
        (ds ++ ((h.linear_clone.head, 0) ∷ []))
  first_removed =
      dist-Represents address first cs ds h.linear_clone.head 0 first-Represents
        (subst (λ (p : ℕ). has p cs ≡ false) (sym head_is) v.clone.chain.3)
        (v.apart h.linear_clone.head first_among)
        (not-has-zero h.nodes h.linear_clone.head h.linear_clone.head ((a, w) ∷ cs) v.clone.chain
          first_among)
        (λ k le. old_node h.linear_clone.head k first_among le) (omega (arith, v.enough)) room

  later_removed :
      (l m : ℕ)
      → position val cs ≡ some m
      → Found h.nodes h.linear_clone.head (a, w) cs l m
      → Represents address
          (add_relaxed_dist (cut l) (h.nodes l).next (suc m))
          ((a, w) ∷ drop_at m cs)
          (ds ++ (((h.nodes l).next, suc m) ∷ []))
  later_removed l m at f =
      dist-Represents address (cut l) ((a, w) ∷ drop_at m cs) ds (h.nodes l).next (suc m)
        (cut-Represents l m at f) f.gone (v.apart (h.nodes l).next among)
        (not-has-zero h.nodes h.linear_clone.head (h.nodes l).next ((a, w) ∷ cs) v.clone.chain
          among)
        (λ k le. old_node (h.nodes l).next k among le)
        (omega (arith, v.enough, length-drop_at val m cs at)) room
    where
      among : has (h.nodes l).next ((a, w) ∷ cs) ≡ true
      among = ground (arith, f.other)

  same_first : (add_relaxed_dist first h.linear_clone.head 0).allocated ≡ h.allocated
  unfolding add_relaxed_dist
  same_first = refl

  same_later :
      (l m : ℕ) → (add_relaxed_dist (cut l) (h.nodes l).next (suc m)).allocated ≡ h.allocated
  unfolding add_relaxed_dist
  same_later l m = refl

  -- The list without the first node with the value, and its distance at the end of the distances.
  pub remove-Represents :
      (n : ℕ)
      → position val ((a, w) ∷ cs) ≡ some n
      → (h' : Analysis) × (p : ℕ) × (remove_linear fuel h val ≡ some h')
        × Represents address h' (drop_at n ((a, w) ∷ cs)) (ds ++ ((p, n) ∷ []))
        × (h'.allocated ≡ h.allocated)
  remove-Represents n at = elim (Bool-cases (w == val)) [
    | inl hit ↦
        let zero_is : n ≡ 0 = some-eq (sym at ∙ position-hit val a w cs hit) in
        rw zero_is (
          add_relaxed_dist first h.linear_clone.head 0,
          h.linear_clone.head,
          removed_first hit,
          first_removed,
          same_first,
        )
    | inr miss ↦
        let (m, here, e) =
          map-some suc (position val cs) (sym (position-miss val a w cs miss) ∙ at) in
        let (l, found, f) =
          search-Found fuel h.nodes val h.linear_clone.head 1 m (a, w) cs v.clone.chain here enough
            (omega (arith, v.enough)) in
        subst
          (λ (x : ℕ).
            (h' : Analysis) × (p : ℕ) × (remove_linear fuel h val ≡ some h')
            × Represents address h' (drop_at x ((a, w) ∷ cs)) (ds ++ ((p, x) ∷ []))
            × (h'.allocated ≡ h.allocated))
          e
          (
            add_relaxed_dist (cut l) (h.nodes l).next (suc m),
            (h.nodes l).next,
            removed_later miss l m found,
            later_removed l m here f,
            same_later l m,
          )
  ]
