-- ===== src/WindowLpw/Stable.antt =====
-- What a thread knows in its calls of the elastic windows survives the steps of the others.
use mathlib.Core.Path.{subst}
use elastic_2d_relaxation.Prelude.{
  sym, dec_lt, refl, ◌∙◌, ℕ, suc, ◌+◌, ◌≤◌, ◌<◌, ◌≡◌, inl, inr, false, arith,
}
use elastic_2d_relaxation.WindowLpw.{
  PutPc, put_read, put_test, put_shift, enq_tail, enq_next, enq_link, enq_swing, put_depth,
  put_width, put_cae, put_done, GetPc, limit, lateral_head, lateral_next, get_shift, get_cae,
  deq_head, deq_next, deq_cae, Pc, idle, putting, getting, reading, Shared, Local,
}
use elastic_2d_relaxation.WindowLpw.Inv.{SameSecond, HasNode, Inv, Grows, Grows-refl}
use elastic_2d_relaxation.WindowLpw.{PutContent}
use elastic_2d_relaxation.WindowLpw.Holds.{
  Announces, BehindTail, AtTail, Ready, AtPut, IsBelow, AtGet, AtPc, torn, Holds,
}

module _ (address : ℕ → ℕ) where
  HasNode-Grows :
      {h h' : Shared} (c : ℕ) → Grows address h h' → HasNode address h c → HasNode address h' c
  HasNode-Grows c g (k, lt, e) = (k, omega (arith, g.more), omega (arith, g.same_count k lt))

  Announces-Grows :
      {h h' : Shared} (l : Local)
      → Grows address h h'
      → (h.put.max ≡ l.put.max → SameSecond h.put l.put)
      → Announces address h l
      → Announces address h' l
  Announces-Grows {h} {h'} l g same (ne, inr has) =
      (ne, inr (HasNode-Grows {h = h} {h' = h'} (l.put.max + 1) g has))
  Announces-Grows {h} {h'} l g same (ne, inl now) = (
    ne,
    elim (dec_lt h.put.max h'.put.max) [
      | no stays ↦ inl (omega (arith, g.put_le))
      | yes past ↦ elim (g.announced past) [
        | inl e ↦ absurd (ne (omega (arith, same now)))
        | inr has ↦ inr (subst (λ (x : ℕ). HasNode address h' (x + 1)) now has)
      ]
    ],
  )

  BehindTail-Grows :
      {h h' : Shared} (l : Local) (k : ℕ)
      → Grows address h h'
      → l.put.max ≤ h.put.max
      → k < h.published
      → BehindTail address h l k
      → BehindTail address h' l k
  BehindTail-Grows {h} {h'} l k g le lt b now more = elim (dec_lt (suc k) h.published) [
    | yes old ↦ omega (arith, b (omega (arith, g.put_le)) old, g.same_count (suc k) old)
    | no new ↦ omega (arith, g.new_count (suc k) (omega arith) more, g.put_le)
  ]

  Ready-Grows :
      {h h' : Shared} (l : Local)
      → Grows address h h'
      → l.put.max ≤ h.put.max
      → Ready address h l
      → Ready address h' l
  Ready-Grows {h} l g le ready now =
      g.ready_stays (omega (arith, g.put_le)) (ready (omega (arith, g.put_le)))

  AtTail-Grows :
      {h h' : Shared} (l : Local) (p : ℕ)
      → Grows address h h'
      → l.put.max ≤ h.put.max
      → (h.put.max ≡ l.put.max → SameSecond h.put l.put)
      → AtTail address h l p
      → AtTail address h' l p
  AtTail-Grows {h} {h'} l p g le same (a, k, lt, e, c, b) = (
    Announces-Grows {h = h} {h' = h'} l g same a,
    k,
    omega (arith, g.more),
    e,
    omega (arith, g.same_count k lt),
    BehindTail-Grows {h = h} {h' = h'} l k g le lt b,
  )

  IsBelow-Grows :
      {h h' : Shared} (p : ℕ)
      → Grows address h h'
      → IsBelow address h h.get.max p
      → IsBelow address h' h'.get.max p
  IsBelow-Grows p g (k, lt, e, c) =
      (k, omega (arith, g.more), e, omega (arith, g.same_count k lt, g.get_le))

  AtPut-Grows :
      {h h' : Shared} (l : Local) (pc : PutPc)
      → Grows address h h'
      → l.put.max ≤ h.put.max
      → (torn address (putting pc) ≡ false → h.put.max ≡ l.put.max → SameSecond h.put l.put)
      → AtPut address h l pc
      → AtPut address h' l pc
  AtPut-Grows l put_read g le same a = a
  AtPut-Grows l (put_test _) g le same a = a
  AtPut-Grows l put_shift g le same a = a
  AtPut-Grows {h} {h'} l enq_tail g le same a = Announces-Grows {h = h} {h' = h'} l g (same refl) a
  AtPut-Grows {h} {h'} l (enq_next p) g le same a =
      AtTail-Grows {h = h} {h' = h'} l p g le (same refl) a
  AtPut-Grows {h} {h'} l (enq_link p) g le same a =
      AtTail-Grows {h = h} {h' = h'} l p g le (same refl) a
  AtPut-Grows {h} {h'} l (enq_swing p q) g le same (k, lt, e, e', b) =
      (k, omega (arith, g.more), e, e', BehindTail-Grows {h = h} {h' = h'} l k g le (omega arith) b)
  AtPut-Grows {h} {h'} l put_depth g le same a = Ready-Grows {h = h} {h' = h'} l g le a
  AtPut-Grows {h} {h'} l (put_width d) g le same (a, b) =
      (Ready-Grows {h = h} {h' = h'} l g le a, b)
  AtPut-Grows {h} {h'} l (put_cae d w) g le same (a, b, c) =
      (Ready-Grows {h = h} {h' = h'} l g le a, b, c)
  AtPut-Grows l (put_done _) g le same a = a
  AtPut-Grows l _ g le same a = tt

  AtGet-Grows :
      {h h' : Shared} (l : Local) (pc : GetPc)
      → Grows address h h'
      → l.get.max ≤ h.get.max
      → AtGet address h l pc
      → AtGet address h' l pc
  AtGet-Grows l (limit max) g le a = a
  AtGet-Grows l (lateral_head max) g le a = omega (arith, g.put_le)
  AtGet-Grows l (lateral_next max p) g le (a, k, lt, e, c) = (
    omega (arith, g.put_le),
    k,
    omega (arith, g.more),
    e,
    λ now. omega (arith, c (omega (arith, g.get_le)), g.same_count k lt),
  )
  AtGet-Grows l (get_shift max w) g le (a, s) = (
    omega (arith, g.put_le),
    (
      s.0,
      λ now r above below.
          g.same_rows r (omega arith) ∙ s.1 (omega (arith, g.get_le)) r above below,
    ),
  )
  AtGet-Grows l (get_cae max w) g le (a, s) = (
    omega (arith, g.put_le),
    (
      s.0,
      λ now r above below.
          g.same_rows r (omega arith) ∙ s.1 (omega (arith, g.get_le)) r above below,
    ),
  )
  AtGet-Grows l (deq_head max) g le a = omega (arith, g.get_le)
  AtGet-Grows {h} {h'} l (deq_next max p q) g le (a, b) =
      (omega (arith, g.get_le), IsBelow-Grows {h = h} {h' = h'} q g b)
  AtGet-Grows {h} {h'} l (deq_cae p q) g le a = IsBelow-Grows {h = h} {h' = h'} q g a
  AtGet-Grows l _ g le a = tt

  AtPc-Grows :
      {h h' : Shared} (l : Local) (pc : Pc)
      → Grows address h h'
      → l.put.max ≤ h.put.max
      → l.get.max ≤ h.get.max
      → (torn address pc ≡ false → h.put.max ≡ l.put.max → SameSecond h.put l.put)
      → AtPc address h l pc
      → AtPc address h' l pc
  AtPc-Grows {h} {h'} l (putting pc) g pl gl same a = AtPut-Grows {h = h} {h' = h'} l pc g pl same a
  AtPc-Grows {h} {h'} l (getting pc) g pl gl same a = AtGet-Grows {h = h} {h' = h'} l pc g gl a
  AtPc-Grows l idle g pl gl same a = tt
  AtPc-Grows l reading g pl gl same a = tt

  -- What a thread knows survives the steps of the others.
  pub Holds-Grows :
      {h h' : Shared} (l : Local) → Grows address h h' → Holds address h l → Holds address h' l
  Holds-Grows {h} {h'} l g k = record {
    put_le = omega (arith, g.put_le, k.put_le);
    get_le = omega (arith, g.get_le, k.get_le);
    synced = λ whole now. omega (
      arith,
      k.synced whole (omega (arith, g.put_le, k.put_le)),
      g.same_put (omega (arith, g.put_le, k.put_le)),
    );
    at_pc = AtPc-Grows {h = h} {h' = h'} l l.pc g k.put_le k.get_le k.synced k.at_pc;
  }

  -- A step that leaves the shared memory alone.
  pub quiet :
      (n : ℕ) (h : Shared) (l : Local)
      → Inv address (suc n) h
      → Holds address h l
      → Inv address n h × Holds address h l × Grows address h h
  quiet n h l v k = ((omega (arith, v.0), v.1), k, Grows-refl address h)

  -- One that leaves the put window of the thread alone as well.
  pub still :
      (n : ℕ) (h : Shared) (l : Local)
      → Inv address (suc n) h
      → Holds address h l
      → torn address l.pc ≡ false
      → (m : Local) → m.put ≡ l.put
      → m.get.max ≤ h.get.max
      → AtPc address h m m.pc
      → Inv address n h × Holds address h m × Grows address h h
  still n h l v k was m same le at = quiet n h m v (record {
    put_le = subst (λ (w : PutContent). w.max ≤ h.put.max) (sym same) k.put_le;
    get_le = le;
    synced = λ _.
        subst (λ (w : PutContent). h.put.max ≡ w.max → SameSecond h.put w) (sym same)
          (k.synced was);
    at_pc = at;
  })
