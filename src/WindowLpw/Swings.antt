-- ===== src/WindowLpw/Swings.antt =====
-- The compare-exchange of the lateral's tail keeps the invariant of the elastic windows.
use elastic_2d_relaxation.Prelude.{
  ℕ, suc, ◌+◌, ◌<◌, ◌≡◌, ◌≢◌, sym, ◌∙◌, ap, inl, inr, arith, ◌==◌, Bool-cases, ℕ_discrete,
}
use elastic_2d_relaxation.Linked.{IsAllocator}
use elastic_2d_relaxation.WindowLpw.{enq_swing, put_depth, putting, Shared, Local}
use elastic_2d_relaxation.WindowLpw.Lateral.{swing}
use elastic_2d_relaxation.WindowLpw.PutStep.{put_window}
use elastic_2d_relaxation.WindowLpw.Inv.{count_at, Inv, IsReady, ends-Agrees, ends-Grows}
use elastic_2d_relaxation.WindowLpw.Holds.{Holds, AtPut, BehindTail}
use elastic_2d_relaxation.WindowLpw.Puts.{Kept}
use elastic_2d_relaxation.WindowLpw.Announces.{last_above, moves}

module _ (address : ℕ → ℕ) (alloc : IsAllocator address) (random_hops n choice : ℕ) (h : Shared)
    (l : Local) (v : Inv address (suc n) h) (k : Holds address h l) where
  -- The tail has been moved past the node `j`, to the announced one.
  swung_Ready :
      (j p : ℕ)
      → p ≡ address j
      → suc j < h.published
      → h.tail ≢ p
      → count_at address h (suc j) ≡ l.put.max + 1
      → h.put.max ≡ l.put.max
      → IsReady address h
  swung_Ready j p e lt moved top now =
      let (t, tl, te, after) = v.1.lateral.tail_at in
      let last : suc (suc j) ≡ h.published =
        last_above address alloc random_hops n choice h l v k (suc j) lt (omega arith) in
      elim (ℕ_discrete t (suc j)) [
        | yes q ↦ inr (suc j, last, te ∙ ap address q, omega arith)
        | no ne ↦ elim (ℕ_discrete t j) [
          | yes q ↦ absurd (moved (te ∙ ap address q ∙ sym e))
          | no ne' ↦ absurd (
              omega (
                arith,
                after j (omega arith) (omega arith),
                v.1.lateral.rising j (suc j) (omega arith) lt,
              ))
        ]
      ]

  swung_Kept :
      (p q j : ℕ)
      → h.tail ≡ p
      → suc j < h.published
      → p ≡ address j
      → q ≡ address (suc j)
      → BehindTail address h l j
      → l.pc ≡ putting (enq_swing p q)
      → Kept address n h (record h { tail = q }, record l { pc = putting put_depth })
  swung_Kept p q j there lt e e' b at = (
    (
      omega (arith, v.0),
      ends-Agrees address h v.1 h.head q h.width h.depth v.1.set_small v.1.lateral.head_at
          (suc j, lt, e', λ i above le. after' i (omega arith) le),
    ),
    record {
      put_le = k.put_le;
      get_le = k.get_le;
      synced = λ _. k.synced (ground arith);
      at_pc = λ now. inr (
        suc j,
        last_above address alloc random_hops n choice h l v k (suc j) lt (omega (arith, b now lt)),
        e',
        omega (arith, b now lt),
      );
    },
    ends-Grows address h v.1 h.head q h.width h.depth lagged,
  )
    where
      lagged : IsReady address h → IsReady address (record h { tail = q })
      lagged (inl w) = inl w
      lagged (inr (t, last, te, c)) =
          absurd (omega (arith, alloc.distinct t j (sym te ∙ there ∙ e)))

      after' : (i : ℕ) → j < i → i < h.published → count_at address h i ≡ h.put.max + 1
      after' i above le =
          let (t, tl, te, after) = v.1.lateral.tail_at in
          after i (omega (arith, alloc.distinct t j (sym te ∙ there ∙ e))) le

  pub swing_Kept :
      (p q : ℕ)
      → l.pc ≡ putting (enq_swing p q)
      → AtPut address h l (enq_swing p q)
      → Kept address n h (put_window address random_hops choice h l (enq_swing p q))
  unfolding put_window swing
  swing_Kept p q at (j, lt, e, e', b) = elim (Bool-cases (h.tail == p)) [
    | inr moved ↦ rw moved (
        moves address alloc random_hops n choice h l v k put_depth (ground arith)
          λ now. swung_Ready j p e lt (λ q. ground arith) (b now lt) now)
    | inl there ↦ rw there (swung_Kept p q j (ground arith) lt e e' b at)
  ]
