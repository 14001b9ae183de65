-- ===== src/WindowLpw/Enqueues.antt =====
-- What a node that is linked behind the last one makes of the lateral.
use mathlib.Core.Path.{subst}
use elastic_2d_relaxation.Prelude.{
  ℕ, suc, ◌+◌, ◌≤◌, ◌<◌, ◌≡◌, ◌≢◌, refl, sym, ◌∙◌, ap, inl, inr, arith, ◌==◌, ==_refl, false,
  Bool-cases, ℕ_discrete,
}
use elastic_2d_relaxation.Linked.{IsAllocator}
use elastic_2d_relaxation.WindowLpw.{LateralNode, Shared}
use elastic_2d_relaxation.WindowLpw.Lateral.{create_lateral_node, linked}
use elastic_2d_relaxation.WindowLpw.Inv.{IsLateral, Agrees, Grows, IsReady, count_at, width_at}

module _ (address : ℕ → ℕ) (alloc : IsAllocator address) (h : Shared) (k count width : ℕ)
    (last : suc k ≡ h.published) where
  abbrev h' : Shared
  h' = linked h (address h.published) (address k) count width

  differ : (i j : ℕ) → i ≢ j → (address i == address j) ≡ false
  differ i j ne = elim (Bool-cases (address i == address j)) [
    | inl e ↦ absurd (ne (alloc.distinct i j (ground arith)))
    | inr e ↦ e
  ]

  old_count : (j : ℕ) → j < h.published → count_at address h' j ≡ count_at address h j
  unfolding linked create_lateral_node
  old_count j lt = ground (arith, alloc.distinct k j, alloc.distinct h.published j)

  old_width : (j : ℕ) → j < h.published → width_at address h' j ≡ width_at address h j
  unfolding linked create_lateral_node
  old_width j lt = ground (arith, alloc.distinct k j, alloc.distinct h.published j)

  old_next :
      (j : ℕ) → suc j < h.published → (h'.nodes (address j)).next ≡ (h.nodes (address j)).next
  unfolding linked
  old_next j lt = rw (differ k j (omega arith), differ h.published j (omega arith)) refl

  last_next : (h'.nodes (address k)).next ≡ address h.published
  unfolding linked
  last_next = rw (==_refl (address k)) refl

  new_node : h'.nodes (address h.published) ≡ create_lateral_node count width
  unfolding linked
  new_node = rw (differ k h.published (omega arith), ==_refl (address h.published)) refl

  new_count : count_at address h' h.published ≡ count
  unfolding create_lateral_node
  new_count = ap (λ (x : LateralNode). x.count) new_node

  pub newest_count : (j : ℕ) → j ≡ h.published → count_at address h' j ≡ count
  newest_count j e = ap (λ (x : ℕ). count_at address h' x) e ∙ new_count

  new_width : width_at address h' h.published ≡ width
  unfolding create_lateral_node
  new_width = ap (λ (x : LateralNode). x.width) new_node

  module _ (v : Agrees address h) (announces : count ≡ h.put.max + 1)
      (other : h.put.width ≢ h.put.next_width) (next_is : width ≡ h.put.next_width)
      (below : count_at address h k < h.put.max + 1) where
    le_last : (j : ℕ) → j < h.published → count_at address h j < h.put.max + 1
    le_last j lt = elim (ℕ_discrete j k) [
      | yes e ↦ rw e below
      | no ne ↦ omega (arith, v.lateral.rising j k (omega arith) (omega arith))
    ]

    linked_rising :
        (i j : ℕ) → i < j → j < suc h.published → count_at address h' i < count_at address h' j
    linked_rising i j lt le = elim (ℕ_discrete j h.published) [
      | yes e ↦
          subst (λ (x : ℕ). count_at address h' i < count_at address h' x) (sym e)
            (omega
              (arith, new_count, old_count i (omega arith), le_last i (omega arith), announces))
      | no ne ↦ omega (
        arith,
        v.lateral.rising i j lt (omega arith),
        old_count i (omega arith),
        old_count j (omega arith),
      )
    ]

    linked_widths : (j : ℕ) → j < suc h.published → 0 < width_at address h' j
    linked_widths j lt = elim (ℕ_discrete j h.published) [
      | yes e ↦
          subst (λ (x : ℕ). 0 < width_at address h' x) (sym e)
            (omega (arith, new_width, next_is, v.put_small))
      | no ne ↦ omega (arith, old_width j (omega arith), v.lateral.widths j (omega arith))
    ]

    linked_counts : (j : ℕ) → j < suc h.published → count_at address h' j ≤ h.put.max + 1
    linked_counts j lt = elim (ℕ_discrete j h.published) [
      | yes e ↦
          subst (λ (x : ℕ). count_at address h' x ≤ h.put.max + 1) (sym e)
            (omega (arith, new_count, announces))
      | no ne ↦ omega (arith, old_count j (omega arith), v.lateral.counts j (omega arith))
    ]

    linked_next : (j : ℕ) → suc j < suc h.published → (h'.nodes (address j)).next ≡ address (suc j)
    linked_next j lt = elim (ℕ_discrete j k) [
      | yes e ↦
          subst (λ (x : ℕ). (h'.nodes (address x)).next ≡ address (suc x)) (sym e)
            (last_next ∙ ap address (sym last))
      | no ne ↦ old_next j (omega arith) ∙ v.lateral.next_node j (omega arith)
    ]

    linked_last : (j : ℕ) → suc j ≡ suc h.published → (h'.nodes (address j)).next ≡ 0
    unfolding create_lateral_node
    linked_last j e =
        let newest : j ≡ h.published = omega (arith, e) in
        ap (λ (x : ℕ). (h'.nodes (address x)).next) newest
        ∙ ap (λ (x : LateralNode). x.next) new_node

    linked_IsLateral : IsLateral address h'
    unfolding linked
    linked_IsLateral = record {
      some_node = ground arith;
      next_node = linked_next;
      last_node = linked_last;
      rising = linked_rising;
      widths = linked_widths;
      counts = linked_counts;
      head_at =
          let (j, lt, e, le) = v.lateral.head_at in
          (j, omega arith, e, omega (arith, old_count j lt));
      tail_at =
          let (t, lt, e, after) = v.lateral.tail_at in
          (t, omega arith, e, λ j above le. linked_after t after j above le);
    }
      where
        linked_after :
            (t : ℕ)
            → ((j : ℕ) → t < j → j < h.published → count_at address h j ≡ h.put.max + 1)
            → (j : ℕ) → t < j
            → j < suc h.published
            → count_at address h' j ≡ h.put.max + 1
        linked_after t after j above le = elim (ℕ_discrete j h.published) [
          | yes e ↦
              subst (λ (x : ℕ). count_at address h' x ≡ h.put.max + 1) (sym e)
                (new_count ∙ announces)
          | no ne ↦ old_count j (omega arith) ∙ after j above (omega arith)
        ]

    linked_above :
        (j : ℕ)
        → j < suc h.published
        → count_at address h' j ≡ h.put.max + 1
        → (width_at address h' j ≡ h.put.next_width) × (h.put.width ≢ h.put.next_width)
    linked_above j lt e = elim (ℕ_discrete j h.published) [
      | yes new ↦ (ap (λ (x : ℕ). width_at address h' x) new ∙ new_width ∙ next_is, other)
      | no ne ↦ absurd (omega (arith, le_last j (omega arith), old_count j (omega arith)))
    ]

    linked_current :
        (j : ℕ)
        → suc j ≡ suc h.published
        → count_at address h' j ≤ h.put.max
        → width_at address h' j ≡ h.put.width
    linked_current j e le = absurd (omega (arith, newest_count j (omega (arith, e)), announces))

    linked_rows :
        (j r : ℕ)
        → j < suc h.published
        → count_at address h' j ≤ r
        → (suc j < suc h.published → r < count_at address h' (suc j))
        → r ≤ h.put.max
        → h.rows r ≡ width_at address h' j
    linked_rows j r lt from upto le = elim (ℕ_discrete j h.published) [
      | yes e ↦ absurd (omega (arith, newest_count j e, announces))
      | no ne ↦
          v.rows_at j r (omega arith)
            (
              omega (arith, old_count j (omega arith)),
              λ more. omega (arith, upto (omega arith), old_count (suc j) more),
            )
            le
          ∙ sym (old_width j (omega arith))
    ]

    pub linked_Agrees : Agrees address h'
    unfolding linked
    linked_Agrees = record {
      lateral = linked_IsLateral;
      put_depth_le = v.put_depth_le;
      put_small = v.put_small;
      behind_put = v.behind_put;
      set_small = v.set_small;
      above = linked_above;
      current = linked_current;
      rows_at = λ j r lt span le. linked_rows j r lt span.0 span.1 le;
      put_rows = v.put_rows;
      get_rows = v.get_rows;
    }

    not-IsReady : ¬ IsReady address h
    not-IsReady (inl e) = other e
    not-IsReady (inr (t, more, e, c)) = omega (arith, le_last t (omega arith))

    pub linked_Grows : Grows address h h'
    unfolding linked
    linked_Grows = record {
      more = omega arith;
      same_count = old_count;
      new_count = λ j old new. newest_count j (omega arith) ∙ announces;
      put_le = omega arith;
      get_le = omega arith;
      same_put = λ e. (refl, refl, refl);
      ready_stays = λ e ready. absurd (not-IsReady ready);
      announced = λ lt. absurd (omega arith);
      same_rows = λ r le. refl;
    }
