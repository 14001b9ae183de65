-- ===== src/Window2Dd/PutHeld.antt =====
-- What is known of a lane's descriptor is known of the one that `put_window` of
-- include/2Dd-window.c holds from that lane.
use elastic_2d_relaxation.Prelude.{ℕ, inl, inr, Bool-cases, ◌==◌, ltb, ◌≡◌, some, some-eq}
use mathlib.Core.Path.{subst}
use elastic_2d_relaxation.Search.{Config}
use elastic_2d_relaxation.Window2Dd.Put.{
  PutPc, enter, sync, read, read_rest, check, shift, exchange, reload, done, PutWindow, returned,
  put_check, put_at, put_window,
}

module _ {D : Type 0} (P : ℕ → D → Type 0) where
  -- The call stands at lane `i`.
  abbrev pub Held : ℕ → PutPc D → Type 0
  Held i (read_rest d) = P i d
  Held i (check d) = P i d
  Held i (done d) = P i d
  Held i _ = Unit

  abbrev pub CallHeld : PutWindow D → Type 0
  CallHeld w = Held w.place.index w.pc

  module _ (put_count : D → ℕ) (tear : D → D → D)
      (P_tear : (i : ℕ) (a b : D) → P i a → P i b → P i (tear a b)) (cfg : Config) (choice : ℕ)
      (lanes : ℕ → D) (global : ℕ) (w : PutWindow D) (here : P w.place.index (lanes w.place.index))
      (held : CallHeld w) where
    put_check-Held :
        (d : D) → P w.place.index d → CallHeld (put_check put_count tear cfg choice global w d)
    unfolding put_check
    put_check-Held d p = elim (Bool-cases (global == w.max)) [
      | inr old ↦ rw old tt
      | inl current ↦ rw current (elim (Bool-cases (ltb (put_count d) global)) [
        | inl inside ↦ rw inside p
        | inr out ↦ rw out (elim (Bool-cases (w.place.hops == cfg.width)) [
          | inr more ↦ rw more tt
          | inl round ↦ rw round tt
        ])
      ])
    ]

    put_at-Held :
        (pc : PutPc D)
        → Held w.place.index pc
        → CallHeld (put_at put_count tear cfg choice lanes global w pc).1
    unfolding put_at
    put_at-Held (enter _) a = elim (Bool-cases (w.max == global)) [
      | inl e ↦ rw e tt
      | inr e ↦ rw e tt
    ]
    put_at-Held sync a = tt
    put_at-Held read a = here
    put_at-Held (read_rest d) a = P_tear w.place.index d (lanes w.place.index) a here
    put_at-Held (check d) a = put_check-Held d a
    put_at-Held shift a = elim (Bool-cases (w.max == global)) [ inl e ↦ rw e tt | inr e ↦ rw e tt ]
    put_at-Held exchange a = elim (Bool-cases (global == w.max)) [
      | inl e ↦ rw e tt
      | inr e ↦ rw e tt
    ]
    put_at-Held reload a = tt
    put_at-Held (done d) a = held

    pub put_window-Held : CallHeld (put_window put_count tear cfg choice lanes global w).1
    unfolding put_window
    put_window-Held = put_at-Held w.pc held

  pub returned-Held : (i : ℕ) (pc : PutPc D) (d : D) → returned pc ≡ some d → Held i pc → P i d
  returned-Held i (done x) d e a = subst (P i) (some-eq e) a
  returned-Held i _ d e a = cc

-- What is known of it may be weakened.
pub Held-map :
    {D : Type 0} (P Q : ℕ → D → Type 0) (i : ℕ) (pc : PutPc D)
    → ((d : D) → P i d → Q i d)
    → Held P i pc
    → Held Q i pc
Held-map P Q i (read_rest d) f a = f d a
Held-map P Q i (check d) f a = f d a
Held-map P Q i (done d) f a = f d a
Held-map P Q i _ f a = tt
