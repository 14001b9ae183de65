-- ===== src/WindowLpw/Shifts.antt =====
-- The shift of the elastic put window keeps the invariant, and so does every step of `put_window`.
use elastic_2d_relaxation.Prelude.{
  ℕ, suc, ◌+◌, ◌≤◌, ◌<◌, ◌≡◌, refl, sym, ◌∙◌, ap, ◌⊎◌, inl, inr, arith, Bool-cases, dec_lt, leb,
  add64, if◌then◌else◌,
}
use elastic_2d_relaxation.Linked.{IsAllocator}
use elastic_2d_relaxation.WindowLpw.{
  same_put, PutContent, PutPc, put_enter, put_sync, put_read, put_test, put_resync, put_shift,
  enq_tail, enq_next, enq_link, enq_swing, put_depth, put_width, put_cae, put_done, putting, Shared,
  Local,
}
use elastic_2d_relaxation.WindowLpw.PutStep.{put_rescan, put_exchange, put_window, second_word}
use elastic_2d_relaxation.WindowLpw.Inv.{
  IsSmall, count_at, width_at, Inv, Agrees, IsReady, HasNode, Grows,
}
use elastic_2d_relaxation.WindowLpw.Holds.{Holds, AtPut}
use elastic_2d_relaxation.WindowLpw.Stable.{still}
use elastic_2d_relaxation.WindowLpw.Puts.{
  Kept, enter_Kept, sync_Kept, check_Kept, rescan_Kept, shift_Kept,
}
use elastic_2d_relaxation.WindowLpw.Announces.{tail_Kept, next_Kept, link_Kept}
use elastic_2d_relaxation.WindowLpw.Swings.{swing_Kept}

module _ (address : ℕ → ℕ) (h : Shared) (v : Agrees address h) (new : PutContent) (wide : ℕ)
    (max_is : new.max ≡ h.put.max + new.depth) (small : IsSmall new.depth)
    (width_is : new.width ≡ h.put.next_width) (wide_is : wide ≡ h.put.next_width)
    (some : 0 < new.next_width) (ready : IsReady address h) where
  abbrev h' : Shared
  h' = record h { put = new; rows = λ r. if leb r h.put.max then h.rows r else wide }

  -- The last node has the width of the window to come, and the tail is there.
  ready_last :
      (t : ℕ) × (suc t ≡ h.published)
      × (h.tail ≡ address t)
      × (width_at address h t ≡ h.put.next_width)
  ready_last = elim ready [
    | inr (t, last, e, c) ↦ (t, last, e, (v.above t (omega arith) c).0)
    | inl same ↦
        let (t, lt, e, after) = v.lateral.tail_at in
        elim (dec_lt (suc t) h.published) [
          | yes more ↦ absurd ((v.above (suc t) more (after (suc t) (omega arith) more)).1 same)
          | no end ↦ elim (dec_lt (count_at address h t) (h.put.max + 1)) [
            | yes low ↦ (t, omega arith, e, v.current t (omega arith) (omega arith) ∙ same)
            | no high ↦ absurd ((v.above t lt (omega (arith, v.lateral.counts t lt))).1 same)
          ]
        ]
  ]

  last_width : (k : ℕ) → suc k ≡ h.published → width_at address h k ≡ h.put.next_width
  last_width k last =
      let (t, end, e, w) = ready_last in
      let same : k ≡ t = omega (arith, end) in ap (λ (x : ℕ). width_at address h x) same ∙ w

  shifted_rows :
      (k r : ℕ)
      → k < h.published
      → count_at address h k ≤ r
      → (suc k < h.published → r < count_at address h (suc k))
      → r ≤ new.max
      → (if leb r h.put.max then h.rows r else wide) ≡ width_at address h k
  shifted_rows k r lt from upto le = elim (Bool-cases (leb r h.put.max)) [
    | inl old ↦ rw old (v.rows_at k r lt (from, upto) (ground arith))
    | inr above ↦ rw above (elim (dec_lt (suc k) h.published) [
      | yes more ↦ absurd (ground (arith, upto more, v.lateral.counts (suc k) more))
      | no end ↦ wide_is ∙ sym (last_width k (omega arith))
    ])
  ]

  announced_now : (h.put.width ≡ h.put.next_width) ⊎ HasNode address h (h.put.max + 1)
  announced_now = elim ready [ inl same ↦ inl same | inr (t, last, e, c) ↦ inr (t, omega arith, c) ]

  shifted_Agrees : Agrees address h'
  shifted_Agrees = record {
    lateral = record {
      some_node = v.lateral.some_node;
      next_node = v.lateral.next_node;
      last_node = v.lateral.last_node;
      rising = v.lateral.rising;
      widths = v.lateral.widths;
      counts = λ k lt. omega (arith, v.lateral.counts k lt);
      head_at = v.lateral.head_at;
      tail_at =
          let (t, last, e, w) = ready_last in
          (t, omega arith, e, λ k above lt. absurd (omega arith));
    };
    put_depth_le = omega arith;
    put_small = (small, omega (arith, v.put_small), some);
    behind_put = omega (arith, v.behind_put);
    set_small = v.set_small;
    above = λ k lt e. absurd (omega (arith, v.lateral.counts k lt));
    current = λ k last le. last_width k last ∙ sym width_is;
    rows_at = λ k r lt span le. shifted_rows k r lt span.0 span.1 le;
    put_rows = λ r low le. ground arith;
    get_rows = λ r low le. ground (arith, v.get_rows r, v.behind_put);
  }

  shifted_Grows : Grows address h h'
  shifted_Grows = record {
    more = omega arith;
    same_count = λ k lt. refl;
    new_count = λ k old now. absurd (omega arith);
    put_le = omega arith;
    get_le = omega arith;
    same_put = λ e. absurd (omega arith);
    ready_stays = λ e. absurd (omega arith);
    announced = λ lt. announced_now;
    same_rows = λ r le. ground arith;
  }

module _ (address : ℕ → ℕ) (alloc : IsAllocator address) (random_hops n choice : ℕ) (h : Shared)
    (l : Local) (v : Inv address (suc n) h) (k : Holds address h l) where
  exchanged_Kept :
      (d w : ℕ)
      → IsSmall d
      → 0 < w
      → (h.put.max ≡ l.put.max) × (h.put.next_width ≡ l.put.next_width)
      → IsReady address h
      → l.pc ≡ putting (put_cae d w)
      → Kept address n h (
        record h {
          put = record {
            max = add64 l.put.max d;
            depth = d;
            width = l.put.next_width;
            next_width = w;
          };
          rows = λ r. if leb r h.put.max then h.rows r else l.put.next_width;
        },
        put_rescan l (record {
          max = add64 l.put.max d;
          depth = d;
          width = l.put.next_width;
          next_width = w;
        }),
      )
  unfolding put_rescan
  exchanged_Kept d w small some (now, next) ready at = (
    (
      omega (arith, v.0, max_is),
      shifted_Agrees address h v.1 new l.put.next_width max_is small (sym next) (sym next) some
          ready,
    ),
    record {
      put_le = omega arith;
      get_le = k.get_le;
      synced = λ _ _. (refl, refl, refl);
      at_pc = ground (arith, v.1.put_small);
    },
    shifted_Grows address h v.1 new l.put.next_width max_is small (sym next) (sym next) some ready,
  )
    where
      new : PutContent
      new = record { max = add64 l.put.max d; depth = d; width = l.put.next_width; next_width = w }

      max_is : add64 l.put.max d ≡ h.put.max + d
      max_is = omega (arith, v.0)

  exchange_Kept :
      (d w : ℕ)
      → AtPut address h l (put_cae d w)
      → l.pc ≡ putting (put_cae d w)
      → Kept address n h (put_window address random_hops choice h l (put_cae d w))
  unfolding put_window put_exchange put_rescan
  exchange_Kept d w (ready, small, some) at = elim (Bool-cases (same_put h.put l.put)) [
    | inr e ↦ rw e (
        rescan_Kept address alloc random_hops n choice h l v k h.put (omega arith)
          (omega (arith, v.1.put_small)) (λ _. (refl, refl, refl)))
    | inl e ↦ rw e (exchanged_Kept d w small some.0 (ground arith) (ready (ground arith)) at)
  ]

  pub put_window-Kept :
      (pc : PutPc)
      → l.pc ≡ putting pc
      → AtPut address h l pc
      → Kept address n h (put_window address random_hops choice h l pc)
  unfolding put_window
  put_window-Kept (put_enter c) at a = enter_Kept address alloc random_hops n choice h l v k c at
  put_window-Kept (put_sync c) at a = sync_Kept address alloc random_hops n choice h l v k c
  put_window-Kept put_read at a = still address n h l v k (ground arith) _ refl k.get_le (a)
  put_window-Kept (put_test count) at a =
      check_Kept address alloc random_hops n choice h l v k count a at
  put_window-Kept put_resync at a =
      rescan_Kept address alloc random_hops n choice h l v k (second_word l.put h.put) k.put_le
        (omega (arith, v.1.put_small)) (λ _. (refl, refl, refl))
  put_window-Kept put_shift at a = shift_Kept address alloc random_hops n choice h l v k at a
  put_window-Kept enq_tail at a = tail_Kept address alloc random_hops n choice h l v k at a
  put_window-Kept (enq_next p) at a = next_Kept address alloc random_hops n choice h l v k p at a
  put_window-Kept (enq_link p) at a = link_Kept address alloc random_hops n choice h l v k p at a
  put_window-Kept (enq_swing p q) at a =
      swing_Kept address alloc random_hops n choice h l v k p q at a
  put_window-Kept put_depth at a =
      still address n h l v k (ground arith) _ refl k.get_le ((a, v.1.set_small.0))
  put_window-Kept (put_width d) at a =
      still address n h l v k (ground arith) _ refl k.get_le ((a.0, a.1, v.1.set_small.1))
  put_window-Kept (put_cae d w) at a = exchange_Kept d w a at
  put_window-Kept (put_done count) at a =
      still address n h l v k (ground arith) _ refl k.get_le (tt)
