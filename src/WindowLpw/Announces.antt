-- ===== src/WindowLpw/Announces.antt =====
-- Every step that announces the next width in the lateral keeps the invariant of the elastic windows.
use mathlib.Core.Path.{subst}
use elastic_2d_relaxation.Prelude.{
  ℕ, suc, ◌+◌, ◌≤◌, ◌<◌, ◌≡◌, ◌≢◌, refl, sym, ◌∙◌, ap, ◌⊎◌, inl, inr, arith, ◌==◌, false,
  Bool-cases, dec_lt, ℕ_discrete, ltb, add64,
}
use elastic_2d_relaxation.Linked.{IsAllocator}
use elastic_2d_relaxation.WindowLpw.{
  PutPc, enq_tail, enq_next, enq_link, enq_swing, put_depth, putting, Shared, Local,
}
use elastic_2d_relaxation.WindowLpw.Lateral.{try_enq_lateral, read_next, link, linked}
use elastic_2d_relaxation.WindowLpw.PutStep.{put_window}
use elastic_2d_relaxation.WindowLpw.Inv.{SameSecond, count_at, Inv, HasNode}
use elastic_2d_relaxation.WindowLpw.Holds.{Holds, torn, AtTail, AtPut, Ready}
use elastic_2d_relaxation.WindowLpw.Stable.{still}
use elastic_2d_relaxation.WindowLpw.Enqueues.{linked_Agrees, linked_Grows, newest_count}
use elastic_2d_relaxation.WindowLpw.Puts.{Kept}

module _ (address : ℕ → ℕ) (alloc : IsAllocator address) (random_hops n choice : ℕ) (h : Shared)
    (l : Local) (v : Inv address (suc n) h) (k : Holds address h l) where
  -- The announced node is the last one.
  pub last_above :
      (j : ℕ) → j < h.published → count_at address h j ≡ h.put.max + 1 → suc j ≡ h.published
  last_above j lt e = elim (ℕ_discrete (suc j) h.published) [
    | yes q ↦ q
    | no ne ↦ absurd (
        omega (
          arith,
          v.1.lateral.rising j (suc j) (omega arith) (omega arith),
          v.1.lateral.counts (suc j) (omega arith),
        ))
  ]

  announced_count : add64 l.put.max 1 ≡ l.put.max + 1
  announced_count = omega (arith, v.0, k.put_le)

  -- A step of the announcement changes no window of the thread.
  pub moves :
      (pc : PutPc)
      → torn address l.pc ≡ false
      → AtPut address h (record l { pc = putting pc }) pc
      → Kept address n h (h, record l { pc = putting pc })
  moves pc was a = still address n h l v k was _ refl k.get_le (a)

  tail_full :
      (t : ℕ)
      → t < h.published
      → h.tail ≡ address t
      → l.put.max + 1 ≤ count_at address h t
      → Ready address h l
  tail_full t lt e le now =
      let top : count_at address h t ≡ h.put.max + 1 = omega (arith, v.1.lateral.counts t lt) in
      inr (t, last_above t lt top, e, top)

  pub tail_Kept :
      l.pc ≡ putting enq_tail
      → AtPut address h l enq_tail
      → Kept address n h (put_window address random_hops choice h l enq_tail)
  unfolding put_window try_enq_lateral
  tail_Kept at a =
      let (t, lt, e, after) = v.1.lateral.tail_at in
      let same : (h.nodes h.tail).count ≡ count_at address h t =
        ap (λ (x : ℕ). (h.nodes x).count) e in
      elim (Bool-cases (ltb (h.nodes h.tail).count (add64 l.put.max 1))) [
        | inl low ↦ rw low (
            moves (enq_next h.tail) (ground arith) (
              a,
              t,
              lt,
              e,
              ground (arith, announced_count),
              λ now more. omega (arith, after (suc t) (omega arith) more),
            ))
        | inr high ↦
            rw high
              (moves put_depth (ground arith) (tail_full t lt e (ground (arith, announced_count))))
      ]

  -- The node that follows `p`.
  behind :
      (p : ℕ)
      → AtTail address h l p
      → ((h.nodes p).next == 0) ≡ false
      → AtPut address h l (enq_swing p (h.nodes p).next)
  behind p (a, j, lt, e, c, b) some = elim (dec_lt (suc j) h.published) [
    | yes more ↦ (j, more, e, ap (λ (x : ℕ). (h.nodes x).next) e ∙ v.1.lateral.next_node j more, b)
    | no last ↦
        absurd (
          ground
            (arith, ap (λ (x : ℕ). (h.nodes x).next) e ∙ v.1.lateral.last_node j (omega arith)))
  ]

  pub next_Kept :
      (p : ℕ)
      → l.pc ≡ putting (enq_next p)
      → AtTail address h l p
      → Kept address n h (put_window address random_hops choice h l (enq_next p))
  unfolding put_window read_next
  next_Kept p at a = elim (Bool-cases ((h.nodes p).next == 0)) [
    | inl none ↦ rw none (moves (enq_link p) (ground arith) a)
    | inr some ↦ rw some (moves (enq_swing p (h.nodes p).next) (ground arith) (behind p a some))
  ]

  -- A thread that finds no node behind the tail is in the current window.
  still_now :
      (j : ℕ)
      → suc j ≡ h.published
      → count_at address h j < l.put.max + 1
      → (h.put.max ≡ l.put.max) ⊎ HasNode address h (l.put.max + 1)
      → h.put.max ≡ l.put.max
  still_now j last c (inl now) = now
  still_now j last c (inr (i, lt, e)) = elim (ℕ_discrete i j) [
    | yes q ↦ absurd (omega (arith, sym e ∙ ap (λ (x : ℕ). count_at address h x) q))
    | no ne ↦ absurd (omega (arith, v.1.lateral.rising i j (omega arith) (omega arith)))
  ]

  last_linked :
      (j : ℕ) (last : suc j ≡ h.published)
      → h.put.max ≡ l.put.max
      → h.put.width ≢ h.put.next_width
      → l.put.next_width ≡ h.put.next_width
      → count_at address h j < l.put.max + 1
      → (p : ℕ) → l.pc ≡ putting (enq_link p)
      → Kept address n h (
        linked h (address h.published) (address j) (add64 l.put.max 1) l.put.next_width,
        record l { pc = putting (enq_swing (address j) (address h.published)) },
      )
  unfolding linked
  last_linked j last now other same c p at = (
    (
      omega (arith, v.0),
      linked_Agrees address alloc h j (add64 l.put.max 1) l.put.next_width last v.1
          (omega (arith, announced_count)) other same (omega arith),
    ),
    record {
      put_le = k.put_le;
      get_le = k.get_le;
      synced = λ _. k.synced (ground arith);
      at_pc = (
        j,
        omega arith,
        refl,
        ap address (sym last),
        λ _ more.
            newest_count address alloc h j (add64 l.put.max 1) l.put.next_width last (suc j) last
            ∙ announced_count,
      );
    },
    linked_Grows address alloc h j (add64 l.put.max 1) l.put.next_width last v.1
        (omega (arith, announced_count)) other same (omega arith),
  )

  linked_Kept :
      (p : ℕ)
      → (h.nodes p).next ≡ 0
      → l.pc ≡ putting (enq_link p)
      → AtTail address h l p
      → Kept address n h (
        linked h (address h.published) p (add64 l.put.max 1) l.put.next_width,
        record l { pc = putting (enq_swing p (address h.published)) },
      )
  linked_Kept p none at (a, j, lt, e, c, b) = elim (dec_lt (suc j) h.published) [
    | yes more ↦ absurd (
        alloc.not_null (suc j)
          (sym (v.1.lateral.next_node j more) ∙ sym (ap (λ (x : ℕ). (h.nodes x).next) e) ∙ none))
    | no end ↦
        let now : h.put.max ≡ l.put.max = still_now j (omega arith) c a.1 in
        let same : SameSecond h.put l.put = k.synced (ground arith) now in
        subst
          (λ (x : ℕ). Kept address n h (
            linked h (address h.published) x (add64 l.put.max 1) l.put.next_width,
            record l { pc = putting (enq_swing x (address h.published)) },
          ))
          (sym e) (last_linked j (omega arith) now (λ q. a.0 (omega arith)) (omega arith) c p at)
  ]

  pub link_Kept :
      (p : ℕ)
      → l.pc ≡ putting (enq_link p)
      → AtTail address h l p
      → Kept address n h (put_window address random_hops choice h l (enq_link p))
  unfolding put_window link
  link_Kept p at a = elim (Bool-cases ((h.nodes p).next == 0)) [
    | inr some ↦ rw some (moves (enq_swing p (h.nodes p).next) (ground arith) (behind p a some))
    | inl none ↦ rw none (linked_Kept p (ground arith) at a)
  ]
