-- ===== src/Stack2Dc/Moves.antt =====
-- What the steps of the coupled stack do to its memory: those inside the window calls, those of the
-- thread alone, and the compare-exchanges that succeed.
use elastic_2d_relaxation.Prelude.{
  ℕ, suc, ◌+◌, ◌^◌, ◌<◌, ◌≡◌, refl, sym, ◌∙◌, true, ◌∷◌, inr, arith, length, ap, add64, sub64,
  update,
}
use elastic_2d_relaxation.Search.{Config, IsValid}
use elastic_2d_relaxation.Linked.{IsAllocator, create_node, contents, pushed, popped, empty, tail}
use elastic_2d_relaxation.Linked.Chains.{Chain-first, Retains-refl, Retains-publish, AtTaking}
use elastic_2d_relaxation.Linked.Lanes.{push-Linked, pop-Linked}
use elastic_2d_relaxation.Window2Dc.{Window, Call, put_window, get_window}
use elastic_2d_relaxation.Window2Dc.Holds.{Copied, PutHolds, GetHolds}
use elastic_2d_relaxation.Window2Dc.Moves.{Roomy, stay-Roomy, put_window-Roomy, get_window-Roomy}
use elastic_2d_relaxation.Window2Dc.Held.{Held, get_window-Held}
use elastic_2d_relaxation.Stack2Dc.{
  Descriptor, node, count, tear, same_descriptor, Shared, Pc, idle, pushing, popping, Local,
}
use elastic_2d_relaxation.Stack2Dc.Inv.{Inv, HasNode, AtPc, Holds, Kept, lane-HasNode, small}

module _ (address : ℕ → ℕ) (alloc : IsAllocator address) {cfg : Config} (valid : IsValid cfg)
    (step_size : ℕ) (some_step : 0 < step_size) (n choice : ℕ) (h : Shared) (l : Local)
    (v : Inv address cfg step_size (suc n) h) (k : Holds address cfg step_size h l) where
  pub quiet :
      (l' : Local) → Holds address cfg step_size h l' → Kept address cfg step_size n h (h, l')
  quiet l' k' = (
    record {
      roomy = stay-Roomy cfg step_size v.roomy;
      linked = v.linked;
      heights = v.heights;
      log_room = omega (arith, v.log_room);
    },
    k',
    Retains-refl address h.nodes h.published,
  )

  -- The return for an empty stack.
  pub emptied :
      (l' : Local)
      → Holds address cfg step_size (record h { log = empty ∷ h.log }) l'
      → Kept address cfg step_size n h (record h { log = empty ∷ h.log }, l')
  unfolding contents
  emptied l' k' = (
    record {
      roomy = stay-Roomy cfg step_size v.roomy;
      linked = record { chains = v.linked.chains; legal = v.linked.legal };
      heights = v.heights;
      log_room = omega (arith, v.log_room);
    },
    k',
    Retains-refl address h.nodes h.published,
  )

  -- A step inside a window call.
  slid :
      (window : Window) (pc : Pc)
      → Roomy cfg step_size n window
      → AtPc address cfg step_size h pc
      → Holds address cfg step_size (record h { window = window }) (record l { pc = pc })
      → Kept address cfg step_size n h (record h { window = window }, record l { pc = pc })
  slid window pc r a k' = (
    record {
      roomy = r;
      linked = v.linked;
      heights = v.heights;
      log_room = omega (arith, v.log_room);
    },
    k',
    Retains-refl address h.nodes h.published,
  )

  narrow : (i : ℕ) → i < cfg.width → count (h.lanes i) + cfg.depth < 2 ^ 64
  narrow i lt = omega (arith, small address cfg step_size v i lt)

  pub push_step :
      (key val : ℕ) (w : Call Descriptor)
      → PutHolds count cfg step_size w
      → let (global, w') = put_window count tear cfg step_size choice h.lanes h.window w in
        Kept address cfg step_size n h
          (record h { window = global }, record l { pc = pushing key val w' })
  push_step key val w a =
      slid _ _ st.0 st.1 (record { index_in = k.index_in; copied = k.copied; at_pc = st.1 })
    where
      st :
          let (global, w') = put_window count tear cfg step_size choice h.lanes h.window w in
          Roomy cfg step_size n global × PutHolds count cfg step_size w'
      st =
          put_window-Roomy cfg step_size count tear (λ a b. inr refl) valid some_step n choice
            h.lanes h.window v.roomy narrow w a

  pub pop_step :
      (w : Call Descriptor)
      → GetHolds count cfg step_size w
      → Held (HasNode address cfg step_size h) w.pc
      → let (global, w') = get_window count tear cfg step_size choice h.lanes h.window w in
        Kept address cfg step_size n h (record h { window = global }, record l { pc = popping w' })
  pop_step w a held =
      slid _ _ st.0 (st.1, held')
        (record { index_in = k.index_in; copied = k.copied; at_pc = (st.1, held') })
    where
      st :
          let (global, w') = get_window count tear cfg step_size choice h.lanes h.window w in
          Roomy cfg step_size n global × GetHolds count cfg step_size w'
      st =
          get_window-Roomy cfg step_size count tear (λ a b. inr refl) valid some_step n choice
            h.lanes h.window v.roomy narrow w a

      held' :
          Held
            (HasNode address cfg step_size h)
            (get_window count tear cfg step_size choice h.lanes h.window w).1.pc
      held' =
          get_window-Held (HasNode address cfg step_size h) count tear (λ a b p q. p) cfg step_size
            choice h.lanes h.window w
            (lane-HasNode address cfg step_size v w.place.index a.in_place.index_in) held

  module _ (i : ℕ) (lt : i < cfg.width) (d : Descriptor)
      (found : same_descriptor (h.lanes i) d ≡ true) where
    -- A node is published on top of the lane `i`, where `d` was found.
    pub pushed-Kept :
        (key val : ℕ) (window : Window)
        → Copied cfg step_size window
        → let new : Descriptor = record { node = address h.published; count = add64 d.count 1 } in
          Kept address cfg step_size n h (
            record h {
              lanes = update h.lanes i new;
              nodes = update h.nodes (address h.published) (create_node key val d.node);
              published = suc h.published;
              log = pushed i val ∷ h.log;
            },
            record { index = i; window = window; pc = idle },
          )
    unfolding contents create_node
    pushed-Kept key val window c = (
      record {
        roomy = stay-Roomy cfg step_size v.roomy;
        linked =
            push-Linked address cfg.width node h.nodes h.published h.lanes h.log v.linked i lt _
              alloc (create_node key val d.node) (ground arith) refl;
        heights = λ j q. ground (arith, v.heights j q, small address cfg step_size v i lt);
        log_room = omega (arith, v.log_room);
      },
      record { index_in = lt; copied = c; at_pc = tt },
      Retains-publish address alloc h.nodes h.published (create_node key val d.node),
    )

    -- The top node of the lane `i` is taken.
    pub popped-Kept :
        (next : ℕ)
        → AtTaking address h.nodes h.published d.node next
        → let new : Descriptor = record { node = next; count = sub64 d.count 1 } in
          Kept address cfg step_size n h (
            record h { lanes = update h.lanes i new; log = popped i (h.nodes d.node).val ∷ h.log },
            record l { pc = idle },
          )
    unfolding contents
    popped-Kept next a = (
      record {
        roomy = stay-Roomy cfg step_size v.roomy;
        linked = rw (sym top) (
            pop-Linked address cfg.width node h.nodes h.published h.lanes h.log v.linked i lt _
              (rw top a.some_node) (a.below ∙ ap (λ (p : ℕ). (h.nodes p).next) (sym top)));
        heights = λ j q.
            ground
              (arith, v.heights j q, ap (length {A = ℕ}) first, small address cfg step_size v i lt);
        log_room = omega (arith, v.log_room);
      },
      record { index_in = k.index_in; copied = k.copied; at_pc = tt },
      Retains-refl address h.nodes h.published,
    )
      where
        top : node (h.lanes i) ≡ d.node
        top = ground arith

        first : contents h.log i ≡ (h.nodes (node (h.lanes i))).val ∷ tail (contents h.log i)
        first =
            Chain-first address h.nodes h.published (node (h.lanes i)) (contents h.log i)
              (v.linked.chains i lt) (rw top a.some_node)
