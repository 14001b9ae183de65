-- ===== src/Stack2Dd/Moves.antt =====
-- What the steps of the decoupled stack do to its memory: those inside the window calls, those of the
-- thread alone, and the compare-exchanges that succeed.
use elastic_2d_relaxation.Prelude.{
  ℕ, suc, ◌≤◌, ◌<◌, ◌≡◌, refl, sym, ◌∙◌, true, ◌∷◌, inr, arith, length, ap, add32, update,
}
use elastic_2d_relaxation.Search.{Config, IsValid}
use elastic_2d_relaxation.Linked.{
  IsAllocator, create_node, contents, pushed, popped, empty, pushes, pops, tail,
}
use elastic_2d_relaxation.Linked.Chains.{Retains-refl, Retains-publish, AtTaking, Chain-first}
use elastic_2d_relaxation.Linked.Lanes.{push-Linked, pop-Linked}
use elastic_2d_relaxation.Window2Dd.Put.{PutWindow, put_window}
use elastic_2d_relaxation.Window2Dd.Get.{GetWindow, get_window}
use elastic_2d_relaxation.Window2Dd.Lanes.{
  InLanes, stay-InLanes, put_window-InLanes, get_window-InLanes, put-InLanes, get-InLanes,
  Grows-windows,
}
use elastic_2d_relaxation.Window2Dd.Held.{CallHeld, get_window-Held}
use elastic_2d_relaxation.Window2Dd.PutHolds.{PutHolds}
use elastic_2d_relaxation.Window2Dd.GetHolds.{GetHolds}
use elastic_2d_relaxation.Stack2Dd.{
  Descriptor, node, put_count, get_count, put_counts, tear, same_descriptor, Shared, idle, pushing,
  popping, Local,
}
use elastic_2d_relaxation.Stack2Dd.Inv.{seen_by_get, Inv, HasNode, Holds, Kept, lane-HasNode, small}

module _ (address : ℕ → ℕ) (alloc : IsAllocator address) {cfg : Config} (valid : IsValid cfg)
    (n choice : ℕ) (h : Shared) (l : Local) (v : Inv address cfg (suc n) h)
    (k : Holds address cfg h l) where
  -- A step that at most moves the windows.
  slid :
      {put_max get_max : ℕ} (l' : Local)
      → InLanes put_count get_count cfg n h.lanes h.lanes put_max get_max
          (pushes h.log)
          (pops h.log)
      → h.put_max ≤ put_max
      → h.get_max ≤ get_max
      → Holds address cfg (record h { put_max = put_max; get_max = get_max }) l'
      → Kept address cfg n h (record h { put_max = put_max; get_max = get_max }, l')
  slid l' st put get k' = (
    record {
      in_lanes = st;
      linked = v.linked;
      heights = v.heights;
      log_room = omega (arith, v.log_room);
    },
    k',
    record {
      raised = Grows-windows put_count get_count cfg h.lanes h.lanes put get;
      retains = Retains-refl address h.nodes h.published;
    },
  )

  stay :
      InLanes put_count get_count cfg n h.lanes h.lanes h.put_max h.get_max
        (pushes h.log)
        (pops h.log)
  stay =
      stay-InLanes put_count get_count cfg n h.lanes h.lanes h.put_max h.get_max (pushes h.log)
        (pops h.log) v.in_lanes

  pub quiet : (l' : Local) → Holds address cfg h l' → Kept address cfg n h (h, l')
  quiet l' k' = slid l' stay (omega arith) (omega arith) k'

  -- The return for an empty stack.
  pub emptied :
      (l' : Local)
      → Holds address cfg (record h { log = empty ∷ h.log }) l'
      → Kept address cfg n h (record h { log = empty ∷ h.log }, l')
  unfolding contents
  emptied l' k' = (
    record {
      in_lanes = stay;
      linked = record { chains = v.linked.chains; legal = v.linked.legal };
      heights = v.heights;
      log_room = omega (arith, v.log_room);
    },
    k',
    record {
      raised = Grows-windows put_count get_count cfg h.lanes h.lanes (omega arith) (omega arith);
      retains = Retains-refl address h.nodes h.published;
    },
  )

  pub push_step :
      (key val : ℕ) (w : PutWindow Descriptor)
      → PutHolds put_count cfg h.lanes h.put_max w
      → let (global, w') = put_window put_count tear cfg choice h.lanes h.put_max w in
        Kept address cfg n h (record h { put_max = global }, record l { pc = pushing key val w' })
  push_step key val w a = slid _ st.0 st.2 (omega arith) (record {
    index_in = k.index_in;
    put_le = omega (arith, k.put_le, st.2);
    get_le = k.get_le;
    at_pc = st.1;
  })
    where
      st :
          let (global, w') = put_window put_count tear cfg choice h.lanes h.put_max w in
          InLanes put_count get_count cfg n h.lanes h.lanes global h.get_max
            (pushes h.log)
            (pops h.log)
          × PutHolds put_count cfg h.lanes global w'
          × (h.put_max ≤ global)
      st =
          put_window-InLanes put_count get_count cfg n h.lanes h.lanes h.put_max h.get_max
            (pushes h.log) (pops h.log) v.in_lanes tear (λ a b. refl) valid choice w a

  pub pop_step :
      (w : GetWindow Descriptor)
      → GetHolds get_count cfg (seen_by_get cfg h) w
      → CallHeld (λ _. HasNode address cfg h) w
      → let (global, w') =
          get_window get_count tear cfg choice h.lanes (put_counts h) h.get_max w in
        Kept address cfg n h (record h { get_max = global }, record l { pc = popping w' })
  pop_step w a held = slid _ st.0 (omega arith) st.2 (record {
    index_in = k.index_in;
    put_le = k.put_le;
    get_le = omega (arith, k.get_le, st.2);
    at_pc = (
      st.1,
      get_window-Held (λ _. HasNode address cfg h) get_count tear (λ _ a b p q. p) cfg choice
          h.lanes (put_counts h) h.get_max w
          (lane-HasNode address cfg v w.place.index a.in_place.index_in) held,
    );
  })
    where
      st :
          let (global, w') =
            get_window get_count tear cfg choice h.lanes (put_counts h) h.get_max w in
          InLanes put_count get_count cfg n h.lanes h.lanes h.put_max global
            (pushes h.log)
            (pops h.log)
          × GetHolds get_count cfg (seen_by_get cfg (record h { get_max = global })) w'
          × (h.get_max ≤ global)
      st =
          get_window-InLanes put_count get_count cfg n h.lanes h.lanes h.put_max h.get_max
            (pushes h.log) (pops h.log) v.in_lanes tear (λ a b. inr refl) valid choice w a

  module _ (i : ℕ) (lt : i < cfg.width) (d : Descriptor)
      (found : same_descriptor (h.lanes i) d ≡ true) where
    -- A node is published on top of the lane `i`, where `d` was found.
    pub pushed-Kept :
        (key val max : ℕ)
        → d.put_count < h.put_max
        → max ≤ h.put_max
        → let new : Descriptor = record d {
          node = address h.published;
          put_count = add32 d.put_count 1;
        } in
          Kept address cfg n h (
            record h {
              lanes = update h.lanes i new;
              nodes = update h.nodes (address h.published) (create_node key val d.node);
              published = suc h.published;
              log = pushed i val ∷ h.log;
            },
            record l { index = i; put_max = max; pc = idle },
          )
    unfolding contents create_node
    pushed-Kept key val max below le = (
      record {
        in_lanes =
            put-InLanes put_count get_count cfg n h.lanes h.lanes h.put_max h.get_max (pushes h.log)
              (pops h.log) v.in_lanes i lt _ _ (ground arith)
              (ground (arith, small address cfg v i lt)) (λ j ne. ground arith) (λ j. ground arith);
        linked =
            push-Linked address cfg.width node h.nodes h.published h.lanes h.log v.linked i lt _
              alloc (create_node key val d.node) (ground arith) refl;
        heights = λ j q. ground (arith, v.heights j q, small address cfg v i lt);
        log_room = omega (arith, v.log_room);
      },
      record { index_in = lt; put_le = le; get_le = k.get_le; at_pc = tt },
      record {
        raised = record {
          put_window = omega arith;
          get_window = omega arith;
          puts = λ j. ground (arith, small address cfg v i lt);
          gets = λ j. ground arith;
        };
        retains = Retains-publish address alloc h.nodes h.published (create_node key val d.node);
      },
    )

    -- The top node of the lane `i` is taken.
    pub popped-Kept :
        (next : ℕ)
        → AtTaking address h.nodes h.published d.node next
        → let new : Descriptor = record d { node = next; get_count = add32 d.get_count 1 } in
          Kept address cfg n h (
            record h { lanes = update h.lanes i new; log = popped i (h.nodes d.node).val ∷ h.log },
            record l { pc = idle },
          )
    unfolding contents
    popped-Kept next a = (
      record {
        in_lanes =
            get-InLanes put_count get_count cfg n h.lanes h.lanes h.put_max h.get_max (pushes h.log)
              (pops h.log) v.in_lanes i lt _ _
              (ground (arith, v.heights i lt, ap (length {A = ℕ}) first))
              (ground (arith, small address cfg v i lt, v.heights i lt)) (λ j ne. ground arith)
              (λ j. ground arith);
        linked = rw (sym top) (
            pop-Linked address cfg.width node h.nodes h.published h.lanes h.log v.linked i lt _
              (rw top a.some_node) (a.below ∙ ap (λ (p : ℕ). (h.nodes p).next) (sym top)));
        heights = λ j q.
            ground (arith, v.heights j q, ap (length {A = ℕ}) first, small address cfg v i lt);
        log_room = omega (arith, v.log_room);
      },
      record { index_in = k.index_in; put_le = k.put_le; get_le = k.get_le; at_pc = tt },
      record {
        raised = record {
          put_window = omega arith;
          get_window = omega arith;
          puts = λ j. ground arith;
          gets = λ j. ground (arith, small address cfg v i lt, v.heights i lt);
        };
        retains = Retains-refl address h.nodes h.published;
      },
    )
      where
        top : node (h.lanes i) ≡ d.node
        top = ground arith

        first : contents h.log i ≡ (h.nodes (node (h.lanes i))).val ∷ tail (contents h.log i)
        first =
            Chain-first address h.nodes h.published (node (h.lanes i)) (contents h.log i)
              (v.linked.chains i lt) (rw top a.some_node)
