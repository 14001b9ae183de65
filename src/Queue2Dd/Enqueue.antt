-- ===== src/Queue2Dd/Enqueue.antt =====
-- Every step of an enqueue keeps the invariant of the decoupled queue.
use elastic_2d_relaxation.Prelude.{
  ℕ, suc, ◌≤◌, ◌<◌, ◌≡◌, ◌∙◌, refl, sym, ap, Bool, true, false, inl, inr, arith, Bool-cases,
  Option-cases, leb, ◌==◌,
}
use mathlib.Core.Path.{subst}
use elastic_2d_relaxation.Search.{Config, IsValid}
use elastic_2d_relaxation.Linked.{IsAllocator}
use elastic_2d_relaxation.Window2Dd.Put
use elastic_2d_relaxation.Window2Dd.Put.{PutWindow, put_window}
use elastic_2d_relaxation.Window2Dd.PutHeld
use elastic_2d_relaxation.Window2Dd.PutHeld.{put_window-Held}
use elastic_2d_relaxation.Window2Dd.Lanes.{InLanes, put_window-InLanes}
use elastic_2d_relaxation.Window2Dd.PutHolds.{PutHolds, start-PutHolds}
use elastic_2d_relaxation.Queue2Dd.{
  Descriptor, count, tear, Shared, Pc, enqueueing, checking, linking, helping, swinging, Local,
}
use elastic_2d_relaxation.Queue2Dd.Step.{search_put, swing, linked, read_tail, link, enqueue}
use elastic_2d_relaxation.Queue2Dd.Lines.{next-cases}
use elastic_2d_relaxation.Queue2Dd.Fifo.{dequeues}
use elastic_2d_relaxation.Queue2Dd.Inv.{InLane, FromPut, Follows, AtPc, Holds, Grows, Inv, Kept}
use elastic_2d_relaxation.Queue2Dd.Moves.{slid, quiet, swing-Inv}
use elastic_2d_relaxation.Queue2Dd.Links.{link_moves}

-- A thread at the start of a loop of `enqueue`.
pub search_put-Holds :
    (cfg : Config) (h : Shared) (l : Local) (key val : ℕ) (contention : Bool)
    → l.index < cfg.width
    → l.put_max ≤ h.put_max
    → l.get_max ≤ h.get_max
    → Holds cfg h (search_put l key val contention)
unfolding search_put
search_put-Holds cfg h l key val contention lt put get = record {
  index_in = lt;
  put_le = put;
  get_le = get;
  at_pc = (start-PutHolds count cfg l.index l.put_max contention lt put, tt);
}

module _ (address : ℕ → ℕ) (alloc : IsAllocator address) {cfg : Config} (valid : IsValid cfg)
    (n choice : ℕ) (h : Shared) (l : Local) (v : Inv address cfg (suc n) h)
    (k : Holds cfg h l) where
  put_step :
      (key val : ℕ) (c : Bool) (w : PutWindow Descriptor)
      → AtPc cfg h l (enqueueing key val c w)
      → let (global, w') = put_window count tear cfg choice h.put_array h.put_max w in
        Kept address cfg n h
          (record h { put_max = global }, record l { pc = enqueueing key val c w' })
  put_step key val c w (a, held) = slid address valid n h v _ st.0 st.2 (omega arith) (record {
    index_in = k.index_in;
    put_le = omega (arith, k.put_le, st.2);
    get_le = k.get_le;
    at_pc = (
      st.1,
      put_window-Held (FromPut h) count tear (λ i x y p q. p) cfg choice h.put_array h.put_max w
          here held,
    );
  })
    where
      st :
          let (global, w') = put_window count tear cfg choice h.put_array h.put_max w in
          InLanes count count cfg n h.put_array h.get_array global h.get_max v.swung
            (dequeues h.log)
          × PutHolds count cfg h.put_array global w'
          × (h.put_max ≤ global)
      st =
          put_window-InLanes count count cfg n h.put_array h.get_array h.put_max h.get_max v.swung
            (dequeues h.log) v.in_lanes tear (λ a b. refl) valid choice w a

      lane : InLane h w.place.index
      lane = v.in_lane w.place.index a.in_place.index_in

      here : FromPut h w.place.index (h.put_array w.place.index)
      here = (count (h.put_array w.place.index), (lane.tail_at, lane.tail_le), omega arith)

  read_tail-Kept :
      (key val : ℕ) (c : Bool) (w : PutWindow Descriptor) (d : Descriptor)
      → PutHolds count cfg h.put_array h.put_max w
      → FromPut h w.place.index d
      → Kept address cfg n h (h, read_tail address cfg h l key val c w d)
  unfolding read_tail
  read_tail-Kept key val c w d a (p, at, le) = elim (Bool-cases ((h.nodes d.node).next == 0)) [
    | inl null ↦ rw null (
        quiet address valid n h v _ (record {
          index_in = a.in_place.index_in;
          put_le = a.max_le;
          get_le = k.get_le;
          at_pc = (p, at, le);
        }))
    | inr more ↦ rw more (
        quiet address valid n h v _ (record {
          index_in = a.in_place.index_in;
          put_le = a.max_le;
          get_le = k.get_le;
          at_pc = follows more;
        }))
  ]
    where
      at_line : (h.nodes d.node).next ≡ (h.nodes (h.line w.place.index p)).next
      at_line = ap (λ (x : ℕ). (h.nodes x).next) at.0

      follows :
          ((h.nodes d.node).next == 0) ≡ false
          → Follows h w.place.index d.node (h.nodes d.node).next
      follows more =
          elim (next-cases address cfg.width w.place.index p v.lined a.in_place.index_in at.1) [
            | inl (null, last) ↦ absurd (ground (arith, at_line))
            | inr (e, le) ↦ (p, at, (at_line ∙ e, le))
          ]

  linked-Kept :
      (key val : ℕ) (d : Descriptor)
      → d.node ≡ h.line l.index (h.len l.index)
      → h.len l.index ≤ count (h.put_array l.index)
      → h.len l.index < h.put_max
      → Kept address cfg n h (
        linked h (address h.published) l.index key val d.node,
        record l { pc = swinging d (address h.published) },
      )
  unfolding linked
  linked-Kept key val d e last below =
      subst
        (λ (x : ℕ). Kept address cfg n h (
          linked h (address h.published) l.index key val x,
          record l { pc = swinging (record d { node = x }) (address h.published) },
        ))
        (sym e)
        (
          moves.0,
          record { index_in = k.index_in; put_le = k.put_le; get_le = k.get_le; at_pc = moves.2 },
          moves.1,
        )
    where
      h' : Shared
      h' = linked h (address h.published) l.index key val (h.line l.index (h.len l.index))

      moves :
          Inv address cfg n h'
          × Grows cfg h h'
          × Follows h' l.index (h.line l.index (h.len l.index)) (address h.published)
      moves = link_moves address alloc valid n h v l.index k.index_in key val last below

  link-Kept :
      (key val : ℕ) (c : Bool) (d : Descriptor)
      → AtPc cfg h l (linking key val c d)
      → Kept address cfg n h (link address cfg h l key val c d)
  unfolding link
  link-Kept key val c d (p, at, le, below) = elim (Bool-cases ((h.nodes d.node).next == 0)) [
    | inr more ↦ rw more (
        quiet address valid n h v _
          (search_put-Holds cfg h l key val true k.index_in k.put_le k.get_le))
    | inl null ↦
        let last : p ≡ h.len l.index = last_place null in
        rw null (
          linked-Kept key val d (at.0 ∙ ap (h.line l.index) last) (omega (arith, last))
            (omega (arith, last)))
  ]
    where
      at_line : (h.nodes d.node).next ≡ (h.nodes (h.line l.index p)).next
      at_line = ap (λ (x : ℕ). (h.nodes x).next) at.0

      last_place : ((h.nodes d.node).next == 0) ≡ true → p ≡ h.len l.index
      last_place null = elim (next-cases address cfg.width l.index p v.lined k.index_in at.1) [
        | inl (e, last) ↦ last
        | inr (e, le2) ↦
            let (m, lt, is) = v.lined.placed l.index (suc p) k.index_in le2 in
            absurd (alloc.not_null m (sym is ∙ sym e ∙ sym at_line ∙ ground arith))
      ]

  -- A compare-exchange of the tail, after which the thread is where `l'` says.
  pub swung-Kept :
      (d : Descriptor) (next : ℕ) (l' : Local)
      → Follows h l.index d.node next
      → (Grows cfg h (swing h l.index d next).1 → Holds cfg (swing h l.index d next).1 l')
      → Kept address cfg n h ((swing h l.index d next).1, l')
  swung-Kept d next l' f holds = (moves.0, holds moves.1, moves.1)
    where
      moves : Inv address cfg n (swing h l.index d next).1 × Grows cfg h (swing h l.index d next).1
      moves = swing-Inv address valid n h v l.index k.index_in d next f

  pub enqueue-Kept :
      (pc : Pc)
      → AtPc cfg h l pc
      → Holds cfg h l
      → Kept address cfg n h (enqueue address cfg choice h l pc)
  unfolding enqueue
  enqueue-Kept (enqueueing key val c w) a k' = elim (Option-cases (Put.returned w.pc)) [
    | inl running ↦ rw (running, enqueue) (put_step key val c w a)
    | inr (d, e) ↦
        rw (e, enqueue)
          (read_tail-Kept key val c w d a.0
            (PutHeld.returned-Held (FromPut h) w.place.index w.pc d e a.1))
  ]
  enqueue-Kept (checking key val c d) a k' =
      elim (Bool-cases (leb l.put_max (h.put_array l.index).count)) [
        | inl full ↦ rw full (
            quiet address valid n h v _
              (search_put-Holds cfg h l key val c k.index_in k.put_le k.get_le))
        | inr room ↦ rw room (
            quiet address valid n h v _ (record {
              index_in = k.index_in;
              put_le = k.put_le;
              get_le = k.get_le;
              at_pc = (a.0, a.1, a.2, ground (arith, a.2, k.put_le));
            }))
      ]
  enqueue-Kept (linking key val c d) a k' = link-Kept key val c d a
  enqueue-Kept (helping key val c d next) a k' = swung-Kept d next _ a (λ g.
      search_put-Holds cfg _ l key val _ k.index_in (omega (arith, k.put_le, g.raised.put_window))
        (omega (arith, k.get_le, g.raised.get_window)))
  enqueue-Kept (swinging d next) a k' = swung-Kept d next _ a (λ g. record {
    index_in = k.index_in;
    put_le = omega (arith, k.put_le, g.raised.put_window);
    get_le = omega (arith, k.get_le, g.raised.get_window);
    at_pc = tt;
  })
  enqueue-Kept _ a k' = quiet address valid n h v l k'
