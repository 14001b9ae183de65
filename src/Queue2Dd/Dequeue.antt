-- ===== src/Queue2Dd/Dequeue.antt =====
-- Every step of a dequeue keeps the invariant of the decoupled queue.
use elastic_2d_relaxation.Prelude.{
  ℕ, suc, ◌≤◌, ◌<◌, ◌≡◌, ◌≢◌, ◌∙◌, refl, sym, ap, Bool, true, false, inl, inr, arith, Bool-cases,
  Option-cases, ◌==◌,
}
use elastic_2d_relaxation.Search.{Config, IsValid}
use elastic_2d_relaxation.Linked.{IsAllocator}
use elastic_2d_relaxation.Window2Dd.Get
use elastic_2d_relaxation.Window2Dd.Get.{GetWindow, get_window}
use elastic_2d_relaxation.Window2Dd.Held
use elastic_2d_relaxation.Window2Dd.Held.{get_window-Held}
use elastic_2d_relaxation.Window2Dd.Lanes.{InLanes, get_window-InLanes}
use elastic_2d_relaxation.Window2Dd.GetHolds.{GetHolds, start-GetHolds}
use elastic_2d_relaxation.Queue2Dd.{
  Descriptor, count, tear, same_descriptor, Shared, Pc, dequeueing, tail_rest, compare, catching,
  advancing, Local,
}
use elastic_2d_relaxation.Queue2Dd.Step.{put_counts, search_get, read_head, advance, dequeue}
use elastic_2d_relaxation.Queue2Dd.Lines.{next-cases}
use elastic_2d_relaxation.Queue2Dd.Fifo.{dequeues}
use elastic_2d_relaxation.Queue2Dd.Inv.{seen_by_get, InLane, At, FromGet, AtPc, Holds, Inv, Kept}
use elastic_2d_relaxation.Queue2Dd.Moves.{slid, quiet, emptied}
use elastic_2d_relaxation.Queue2Dd.Ends.{head_moves}
use elastic_2d_relaxation.Queue2Dd.Enqueue.{swung-Kept}

-- A thread at the start of a loop of `dequeue`.
pub search_get-Holds :
    (cfg : Config) (h : Shared) (l : Local) (contention : Bool)
    → l.index < cfg.width
    → l.put_max ≤ h.put_max
    → l.get_max ≤ h.get_max
    → Holds cfg h (search_get h l contention)
unfolding search_get
search_get-Holds cfg h l contention lt put get = record {
  index_in = lt;
  put_le = put;
  get_le = get;
  at_pc = (
    start-GetHolds count cfg l.index l.get_max contention (put_counts h) lt get
        (λ j q. omega arith),
    tt,
  );
}

module _ (address : ℕ → ℕ) {cfg : Config} (valid : IsValid cfg) (n choice : ℕ) (h : Shared)
    (l : Local) (v : Inv address cfg (suc n) h) (k : Holds cfg h l) where
  get_step :
      (c : Bool) (w : GetWindow Descriptor)
      → AtPc cfg h l (dequeueing c w)
      → let (global, w') =
          get_window count tear cfg choice h.get_array (put_counts h) h.get_max w in
        Kept address cfg n h (record h { get_max = global }, record l { pc = dequeueing c w' })
  get_step c w (a, held) = slid address valid n h v _ st.0 (omega arith) st.2 (record {
    index_in = k.index_in;
    put_le = k.put_le;
    get_le = omega (arith, k.get_le, st.2);
    at_pc = (
      st.1,
      get_window-Held (FromGet h) count tear (λ i x y p q. p) cfg choice h.get_array (put_counts h)
          h.get_max w from_lane held,
    );
  })
    where
      st :
          let (global, w') =
            get_window count tear cfg choice h.get_array (put_counts h) h.get_max w in
          InLanes count count cfg n h.put_array h.get_array h.put_max global v.swung
            (dequeues h.log)
          × GetHolds count cfg (seen_by_get cfg (record h { get_max = global })) w'
          × (h.get_max ≤ global)
      st =
          get_window-InLanes count count cfg n h.put_array h.get_array h.put_max h.get_max v.swung
            (dequeues h.log) v.in_lanes tear (λ a b. inr refl) valid choice w a

      lane : InLane h w.place.index
      lane = v.in_lane w.place.index a.in_place.index_in

      from_lane : FromGet h w.place.index (h.get_array w.place.index)
      from_lane = (
        count (h.get_array w.place.index),
        (
          lane.head_at,
          omega (arith, v.in_lanes.in_step.got_le w.place.index a.in_place.index_in, lane.tail_le),
        ),
        omega arith,
      )

  -- The read of the tail's node, from the lane where `get_window` found `d`.
  read_enq :
      (c : Bool) (w : GetWindow Descriptor) (d : Descriptor)
      → GetHolds count cfg (seen_by_get cfg h) w
      → FromGet h w.place.index d
      → Kept address cfg n h (
        h,
        record l {
          index = w.place.index;
          get_max = w.max;
          pc = tail_rest c d (h.put_array w.place.index).node;
        },
      )
  read_enq c w d a (q, at, le) = quiet address valid n h v _ (record {
    index_in = a.in_place.index_in;
    put_le = k.put_le;
    get_le = a.max_le;
    at_pc = (
      q,
      count (h.put_array w.place.index),
      at,
      (lane.tail_at, lane.tail_le),
      omega (arith, v.in_lanes.in_step.got_le w.place.index a.in_place.index_in),
      omega arith,
    );
  })
    where
      lane : InLane h w.place.index
      lane = v.in_lane w.place.index a.in_place.index_in

  read_head-Kept :
      (c : Bool) (d enq : Descriptor)
      → AtPc cfg h l (compare c d enq)
      → Kept address cfg n h (read_head address cfg h l c d enq)
  unfolding read_head
  read_head-Kept c d enq (q, p, at, at_tail, le, le2) = elim (Bool-cases (d.node == enq.node)) [
    | inl same ↦ rw same (elim (Bool-cases ((h.nodes d.node).next == 0)) [
      | inl null ↦ rw null (
          emptied address valid n h v _
            (record { index_in = k.index_in; put_le = k.put_le; get_le = k.get_le; at_pc = tt }))
      | inr more ↦ rw more (
          quiet address valid n h v _ (record {
            index_in = k.index_in;
            put_le = k.put_le;
            get_le = k.get_le;
            at_pc = (q, (sym (ground arith) ∙ at.0, at.1), pending more);
          }))
    ])
    | inr apart ↦ rw apart (
        quiet address valid n h v _ (record {
          index_in = k.index_in;
          put_le = k.put_le;
          get_le = k.get_le;
          at_pc = (
            q,
            at,
            (
              at_line
                  ∙ v.lined.followed l.index q k.index_in
                      (omega (arith, further apart, le2, (v.in_lane l.index k.index_in).tail_le)),
              omega (arith, further apart, le2, (v.in_lane l.index k.index_in).tail_le),
            ),
            omega (arith, further apart, le2),
          );
        }))
  ]
    where
      at_line : (h.nodes d.node).next ≡ (h.nodes (h.line l.index q)).next
      at_line = ap (λ (x : ℕ). (h.nodes x).next) at.0

      pending : ((h.nodes d.node).next == 0) ≡ false → At h l.index (h.nodes d.node).next (suc q)
      pending more = elim (next-cases address cfg.width l.index q v.lined k.index_in at.1) [
        | inl (null, last) ↦ absurd (ground (arith, at_line))
        | inr (e, within) ↦ (at_line ∙ e, within)
      ]

      -- A head that is not the tail is before it.
      further : (d.node == enq.node) ≡ false → suc q ≤ p
      further apart = ground (arith, le, not_same)
        where
          not_same : q ≢ p
          not_same e = absurd (ground (arith, at.0 ∙ ap (h.line l.index) e ∙ sym at_tail.0))

  advance-Kept :
      (c : Bool) (d : Descriptor) (next : ℕ)
      → AtPc cfg h l (advancing c d next)
      → Kept address cfg n h (advance address cfg h l c d next)
  unfolding advance
  advance-Kept c d next (q, at, at_next, ahead) =
      elim (Bool-cases (same_descriptor (h.get_array l.index) d)) [
        | inl found ↦
            let (inv, grows) =
              head_moves address valid n h v l.index k.index_in d next found q at at_next ahead in
            rw found (
              inv,
              record { index_in = k.index_in; put_le = k.put_le; get_le = k.get_le; at_pc = tt },
              grows,
            )
        | inr lost ↦ rw lost (
            quiet address valid n h v _
              (search_get-Holds cfg h l true k.index_in k.put_le k.get_le))
      ]

  pub dequeue-Kept :
      IsAllocator address
      → (pc : Pc) → AtPc cfg h l pc
      → Holds cfg h l
      → Kept address cfg n h (dequeue address cfg choice h l pc)
  unfolding dequeue
  dequeue-Kept alloc (dequeueing c w) a k' = elim (Option-cases (Get.returned w.pc)) [
    | inl running ↦ rw (running, dequeue) (get_step c w a)
    | inr (d, e) ↦
        rw (e, dequeue)
          (read_enq c w d a.0 (Held.returned-Held (FromGet h) w.place.index w.pc d e a.1))
  ]
  dequeue-Kept alloc (tail_rest c d tail) a k' =
      quiet address valid n h v _
        (record { index_in = k.index_in; put_le = k.put_le; get_le = k.get_le; at_pc = a })
  dequeue-Kept alloc (compare c d enq) a k' = read_head-Kept c d enq a
  dequeue-Kept alloc (catching c enq next) a k' =
      swung-Kept address alloc valid n choice h l v k enq next _ a (λ g.
        search_get-Holds cfg _ l _ k.index_in (omega (arith, k.put_le, g.raised.put_window))
          (omega (arith, k.get_le, g.raised.get_window)))
  dequeue-Kept alloc (advancing c d next) a k' = advance-Kept c d next a
  dequeue-Kept alloc _ a k' = quiet address valid n h v l k'
