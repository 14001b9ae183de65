-- ===== src/Interleave.antt =====
-- Threads that share one state, interleaved in any order. A step of a thread makes one access to
-- the shared state; a schedule says which thread goes next and what its random generator yields.
use elastic_2d_relaxation.Prelude.{
  ℕ, zero, suc, ◌≡◌, ◌≢◌, refl, ap, ◌∙◌, List, [], ◌∷◌, ◌++◌, false, arith, length, update, ◌==◌,
  ==_refl, Bool-cases, inl, inr,
}

pub record System (Shared Local : Type 0) : Type 0 where
  pub shared : Shared
  pub locals : ℕ → Local

-- The thread that moves, and the random number that it draws if it draws one.
abbrev pub Schedule : Type 0
Schedule = List (ℕ × ℕ)

-- `n` steps of thread `t`, with the random number `c`.
abbrev pub steps : ℕ → ℕ → ℕ → Schedule
steps zero t c = []
steps (suc n) t c = (t, c) ∷ steps n t c

abbrev pub Absent : ℕ → Schedule → Type 0
Absent t [] = Unit
Absent t ((u, _) ∷ sched) = (u ≢ t) × Absent t sched

-- What a component promises of its steps: an invariant of the shared state, which may count the
-- steps that are left, an assertion about one thread, and the changes that every step confines
-- itself to. The assertions of the other threads survive such changes.
pub record RelyGuarantee {Shared Local : Type 0} (step : ℕ → Shared → Local → Shared × Local)
    : Type 1 where
  pub Inv : ℕ → Shared → Type 0
  pub Holds : Shared → Local → Type 0
  pub Grows : Shared → Shared → Type 0
  pub keeps :
      (n c : ℕ) (h : Shared) (l : Local)
      → Inv (suc n) h
      → Holds h l
      → Inv n (step c h l).0 × Holds (step c h l).0 (step c h l).1 × Grows h (step c h l).0
  pub stable : (h h' : Shared) (l : Local) → Grows h h' → Holds h l → Holds h' l

module _ {Shared Local : Type 0} (step : ℕ → Shared → Local → Shared × Local) where
  unfoldable pub turn : ℕ → ℕ → System Shared Local → System Shared Local
  turn t c s =
      let (h, l) = step c s.shared (s.locals t) in
      record { shared = h; locals = update s.locals t l }

  unfoldable pub run : Schedule → System Shared Local → System Shared Local
  unfolding turn
  run [] s = s
  run ((t, c) ∷ rest) s = run rest (turn t c s)

-- `n` steps of one thread, with the random number `c`, that no other thread comes between.
module _ {Shared Local : Type 0} (step : ℕ → Shared → Local → Shared × Local) (c : ℕ) where
  unfoldable pub alone : ℕ → Shared → Local → Shared × Local
  alone zero h l = (h, l)
  alone (suc n) h l = let (h', l') = step c h l in alone n h' l'

  pub alone-step :
      (n : ℕ) (h : Shared) (l : Local) {h' : Shared} {l' : Local}
      → step c h l ≡ (h', l')
      → alone (suc n) h l ≡ alone n h' l'
  unfolding alone
  alone-step n h l e = ap (λ (x : Shared × Local). alone n x.0 x.1) e

  pub run-alone :
      (n t : ℕ) (s : System Shared Local)
      → ((run step (steps n t c) s).shared ≡ (alone n s.shared (s.locals t)).0)
        × ((run step (steps n t c) s).locals t ≡ (alone n s.shared (s.locals t)).1)
  unfolding run turn alone
  run-alone zero t s = (refl, refl)
  run-alone (suc n) t s =
      let (h', l') = step c s.shared (s.locals t) in
      let here : (turn step t c s).locals t ≡ l' = rw (==_refl t) refl in
      let (shared, local) = run-alone n t (turn step t c s) in
      (
        shared ∙ ap (λ (l : Local). (alone n h' l).0) here,
        local ∙ ap (λ (l : Local). (alone n h' l).1) here,
      )

module _ {Shared Local : Type 0} (step : ℕ → Shared → Local → Shared × Local) where
  pub run-append :
      (xs ys : Schedule) (s : System Shared Local)
      → run step (xs ++ ys) s ≡ run step ys (run step xs s)
  unfolding run
  run-append [] ys s = refl
  run-append ((u, c) ∷ xs) ys s = run-append xs ys (turn step u c s)

  -- A thread that makes no step stays as it is.
  pub run-Absent :
      (t : ℕ) (sched : Schedule) (s : System Shared Local)
      → Absent t sched
      → (run step sched s).locals t ≡ s.locals t
  unfolding run turn
  run-Absent t [] s out = refl
  run-Absent t ((u, c) ∷ sched) s out = run-Absent t sched (turn step u c s) out.1 ∙ rw other refl
    where
      other : (u == t) ≡ false
      other = ground arith

-- A system with the invariant and every thread's assertion.
pub record Sound {Shared Local : Type 0} {step : ℕ → Shared → Local → Shared × Local}
    (rg : RelyGuarantee step) (n : ℕ) (s : System Shared Local) : Type 0 where
  pub inv : rg.Inv n s.shared
  pub holds : (t : ℕ) → rg.Holds s.shared (s.locals t)

module _ {Shared Local : Type 0} {step : ℕ → Shared → Local → Shared × Local}
    (rg : RelyGuarantee step) where
  Holds-update :
      (h' : Shared) (l' : Local) (t : ℕ) (s : System Shared Local)
      → rg.Grows s.shared h'
      → rg.Holds h' l'
      → ((u : ℕ) → rg.Holds s.shared (s.locals u))
      → (u : ℕ) → rg.Holds h' (update s.locals t l' u)
  Holds-update h' l' t s g k all u = elim (Bool-cases (t == u)) [
    | inl same ↦ rw same k
    | inr other ↦ rw other (rg.stable s.shared h' (s.locals u) g (all u))
  ]

  pub turn-Sound :
      (n t c : ℕ) (s : System Shared Local) → Sound rg (suc n) s → Sound rg n (turn step t c s)
  unfolding turn
  turn-Sound n t c s v = record {
    inv = kept.0;
    holds = Holds-update (moved.0) (moved.1) t s kept.2 kept.1 v.holds;
  }
    where
      moved : Shared × Local
      moved = step c s.shared (s.locals t)

      kept : rg.Inv n moved.0 × rg.Holds moved.0 moved.1 × rg.Grows s.shared moved.0
      kept = rg.keeps n c s.shared (s.locals t) v.inv (v.holds t)

  -- Every interleaving keeps the invariant and all assertions.
  pub run-Sound :
      (sched : Schedule) (s : System Shared Local)
      → Sound rg (length sched) s
      → Sound rg 0 (run step sched s)
  unfolding run
  run-Sound [] s v = v
  run-Sound ((t, c) ∷ rest) s v =
      run-Sound rest (turn step t c s) (turn-Sound (length rest) t c s v)
