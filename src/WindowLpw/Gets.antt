-- ===== src/WindowLpw/Gets.antt =====
-- Every step of `get_window` keeps the invariant of the elastic windows.
use mathlib.Core.Path.{subst}
use elastic_2d_relaxation.Prelude.{
  ℕ, suc, ◌+◌, ◌-◌, ◌≤◌, ◌<◌, ◌≡◌, refl, sym, ◌∙◌, ap, ◌⊎◌, inl, inr, arith, ◌==◌, Bool, false,
  Bool-cases, dec_lt, leb, ltb, add64, sub64, ◌&&◌,
}
use elastic_2d_relaxation.Linked.{IsAllocator}
use elastic_2d_relaxation.WindowLpw.{
  GetContent, get_enter, get_read, get_test, get_empty, shift_max, limit, lateral_head,
  lateral_next, get_shift, Shared, Local,
}
use elastic_2d_relaxation.WindowLpw.Lateral.{get_next_window_lateral}
use elastic_2d_relaxation.WindowLpw.PutStep.{hop}
use elastic_2d_relaxation.WindowLpw.GetStep.{get_shift_max, get_rescan, get_check, get_window}
use elastic_2d_relaxation.WindowLpw.Inv.{count_at, Inv}
use elastic_2d_relaxation.WindowLpw.Holds.{Holds, torn, AtPc, AtGet, IsNext, Spans}
use elastic_2d_relaxation.WindowLpw.Stable.{still}
use elastic_2d_relaxation.WindowLpw.Puts.{Kept}

module _ (address : ℕ → ℕ) (alloc : IsAllocator address) (random_hops n choice : ℕ) (h : Shared)
    (l : Local) (v : Inv address (suc n) h) (k : Holds address h l)
    (was : torn address l.pc ≡ false) where
  -- A step that changes neither the memory nor the put window of the thread.
  pub stay :
      (m : Local)
      → m.put ≡ l.put
      → m.get.max ≤ h.get.max
      → AtPc address h m m.pc
      → Kept address n h (h, m)
  stay = still address n h l v k was

  pub rescan_Kept :
      (g : GetContent) → g.max ≤ h.get.max → Kept address n h (h, get_rescan (record l { get = g }))
  unfolding get_rescan
  rescan_Kept g le = stay _ refl le tt

  pub enter_Kept :
      (c : Bool) → Kept address n h (get_window address random_hops choice h l (get_enter c))
  unfolding get_window
  enter_Kept c = elim (Bool-cases (l.get.max == h.get.max)) [
    | inl e ↦ rw e (stay _ refl k.get_le tt)
    | inr e ↦ rw e (stay _ refl (omega arith) tt)
  ]

  pub read_Kept : Kept address n h (get_window address random_hops choice h l get_read)
  unfolding get_window
  read_Kept = elim (Bool-cases (leb choice l.lower)) [
    | inl e ↦ rw e (stay _ refl k.get_le tt)
    | inr e ↦ rw e (stay _ refl k.get_le tt)
  ]

  hop_put : (hop random_hops l).put ≡ l.put
  unfolding hop
  hop_put = ground arith

  hop_get : (hop random_hops l).get ≡ l.get
  unfolding hop
  hop_get = ground arith

  pub check_Kept :
      (c p : ℕ) → Kept address n h (get_window address random_hops choice h l (get_test c p))
  unfolding get_window get_check
  check_Kept c p = elim (Bool-cases (l.get.max == h.get.max)) [
    | inr e ↦ rw e (stay _ refl (omega arith) tt)
    | inl e ↦ rw e (elim (Bool-cases (ltb c l.get.max && ltb c p)) [
      | inl found ↦ rw found (stay _ refl k.get_le tt)
      | inr miss ↦ rw miss (elim (Bool-cases (l.hops == l.get.width)) [
        | inr more ↦ rw more (
            stay _ hop_put (subst (λ (w : GetContent). w.max ≤ h.get.max) (sym hop_get) k.get_le)
              tt)
        | inl all ↦ rw all (elim (Bool-cases l.notempty) [
          | inl some ↦ rw some (stay _ refl k.get_le tt)
          | inr none ↦ rw none (stay _ refl k.get_le tt)
        ])
      ])
    ])
  ]

  pub empty_Kept :
      (c : ℕ) → Kept address n h (get_window address random_hops choice h l (get_empty c))
  unfolding get_window
  empty_Kept c = elim (Bool-cases (l.get.max == h.put.max)) [
    | inl e ↦ rw e (stay _ refl k.get_le tt)
    | inr e ↦ rw e (stay _ refl k.get_le tt)
  ]

  pub max_Kept : Kept address n h (get_window address random_hops choice h l shift_max)
  unfolding get_window
  max_Kept = stay _ refl k.get_le (omega (arith, v.0, v.1.set_small, k.get_le, v.1.behind_put))

  -- `get_shift_max` yields a maximum between the get window's and the put window's.
  pub limit_Kept :
      (m : ℕ)
      → AtGet address h l (limit m)
      → Kept address n h (get_window address random_hops choice h l (limit m))
  unfolding get_window get_shift_max
  limit_Kept m a = elim (Bool-cases (ltb l.put.max m)) [
    | inl e ↦ rw e (stay _ refl k.get_le (omega (arith, k.get_le, v.1.behind_put)))
    | inr e ↦ rw e (elim (Bool-cases (ltb h.put.max m)) [
      | inl e' ↦ absurd (ground (arith, k.put_le))
      | inr e' ↦ rw e' (stay _ refl k.get_le (ground (arith, k.put_le)))
    ])
  ]

  -- The node after `p`, and the rows up to it.
  pub next-cases :
      (p j : ℕ)
      → j < h.published
      → p ≡ address j
      → (((h.nodes p).next ≡ 0) × (suc j ≡ h.published))
        ⊎ (((h.nodes p).next ≡ address (suc j))
            × (suc j < h.published)
            × ((h.nodes (h.nodes p).next).count ≡ count_at address h (suc j)))
  next-cases p j lt e = elim (dec_lt (suc j) h.published) [
    | yes more ↦
        let next : (h.nodes p).next ≡ address (suc j) =
          ap (λ (x : ℕ). (h.nodes x).next) e ∙ v.1.lateral.next_node j more in
        inr (next, more, ap (λ (x : ℕ). (h.nodes x).count) next)
    | no end ↦
        let last : suc j ≡ h.published = omega arith in
        inl (ap (λ (x : ℕ). (h.nodes x).next) e ∙ v.1.lateral.last_node j last, last)
  ]

  -- All rows up to the next node have the width of this one.
  spans :
      (p j m : ℕ)
      → j < h.published
      → p ≡ address j
      → (h.get.max ≡ l.get.max → count_at address h j ≤ l.get.max + 1)
      → m ≤ h.put.max
      → (suc j < h.published → m < count_at address h (suc j))
      → Spans address h l m (h.nodes p).width
  spans p j m lt e below le upto = (
    subst (λ (x : ℕ). 0 < (h.nodes x).width) (sym e) (v.1.lateral.widths j lt),
    λ now r above low.
        v.1.rows_at j r lt (omega (arith, below now), λ more. omega (arith, upto more))
          (omega arith)
        ∙ ap (λ (x : ℕ). (h.nodes x).width) (sym e),
  )

  -- The node after `p` is past the row above the window: the window ends below it.
  shortened :
      (m p j : ℕ)
      → IsNext address h l m
      → j < h.published
      → p ≡ address j
      → (h.get.max ≡ l.get.max → count_at address h j ≤ l.get.max + 1)
      → (suc j < h.published)
      → l.get.max + 1 < count_at address h (suc j)
      → count_at address h (suc j) ≤ m
      → AtGet address h l (get_shift (sub64 (count_at address h (suc j)) 1) (h.nodes p).width)
  shortened m p j a lt e below more past le =
      let cut_at : sub64 (count_at address h (suc j)) 1 ≡ count_at address h (suc j) - 1 =
        omega (arith, v.0) in
      (
        omega arith,
        spans p j (sub64 (count_at address h (suc j)) 1) lt e below (omega arith)
            (λ _. omega arith),
      )

  next_at :
      (m p : ℕ)
      → AtGet address h l (lateral_next m p)
      → AtGet address h l (get_next_window_lateral h l.get.max m p)
  unfolding get_next_window_lateral
  next_at m p (a, j, lt, e, below) = elim (next-cases p j lt e) [
    | inl (none, last) ↦ rw none (a, spans p j m lt e below a.1 (λ more. absurd (omega arith)))
    | inr (next, more, c) ↦
        rw (next, nonzero (suc j))
          (elim (Bool-cases (leb (count_at address h (suc j)) (add64 l.get.max 1))) [
            | inl on ↦ rw on (a, suc j, more, refl, λ now. ground (arith, low))
            | inr past ↦ rw past (elim (Bool-cases (leb (count_at address h (suc j)) m)) [
              | inl short ↦
                  rw short (shortened m p j a lt e below more (ground (arith, low)) (ground arith))
              | inr free ↦ rw free (a, spans p j m lt e below a.1 (λ _. ground arith))
            ])
          ])
  ]
    where
      low : add64 l.get.max 1 ≡ l.get.max + 1
      low = omega (arith, v.0, k.get_le, v.1.behind_put)

      nonzero : (i : ℕ) → (address i == 0) ≡ false
      nonzero i = ground (arith, alloc.not_null i)

  pub next_Kept :
      (m p : ℕ)
      → AtGet address h l (lateral_next m p)
      → Kept address n h (get_window address random_hops choice h l (lateral_next m p))
  unfolding get_window
  next_Kept m p a = stay _ refl k.get_le (next_at m p a)

  pub head_Kept :
      (m : ℕ)
      → AtGet address h l (lateral_head m)
      → Kept address n h (get_window address random_hops choice h l (lateral_head m))
  unfolding get_window
  head_Kept m a =
      let (j, lt, e, le) = v.1.lateral.head_at in
      stay _ refl k.get_le (a, j, lt, e, λ now. omega arith)

  pub shift_Kept :
      (m w : ℕ)
      → AtGet address h l (get_shift m w)
      → Kept address n h (get_window address random_hops choice h l (get_shift m w))
  unfolding get_window
  shift_Kept m w a = elim (Bool-cases (l.get.max == h.get.max)) [
    | inl e ↦ rw e (stay _ refl k.get_le a)
    | inr e ↦ rw e (rescan_Kept l.get k.get_le)
  ]
