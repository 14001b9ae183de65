-- ===== src/Window2Dd/Held.antt =====
-- What is known of a lane's descriptor is known of the one that `get_window` of
-- include/2Dd-window.c holds from that lane.
use elastic_2d_relaxation.Prelude.{
  ℕ, inl, inr, Bool-cases, not, ◌&&◌, ◌==◌, ltb, ◌≡◌, some, some-eq,
}
use mathlib.Core.Path.{subst}
use elastic_2d_relaxation.Search.{Config}
use elastic_2d_relaxation.Window2Dd.Get.{
  GetPc, enter, compare, sync, read, read_rest, read_put, check, shift, exchange, reload, done,
  GetWindow, returned, get_check, get_at, get_window, rescan,
}

module _ {D : Type 0} (P : ℕ → D → Type 0) where
  -- The call stands at lane `i`.
  abbrev pub Held : ℕ → GetPc D → Type 0
  Held i (read_rest d) = P i d
  Held i (read_put d) = P i d
  Held i (check d _) = P i d
  Held i (done d) = P i d
  Held i _ = Unit

  abbrev pub CallHeld : GetWindow D → Type 0
  CallHeld w = Held w.place.index w.pc

  module _ (get_count : D → ℕ) (tear : D → D → D)
      (P_tear : (i : ℕ) (a b : D) → P i a → P i b → P i (tear a b)) (cfg : Config) (choice : ℕ)
      (lanes : ℕ → D) (puts : ℕ → ℕ) (global : ℕ) (w : GetWindow D)
      (here : P w.place.index (lanes w.place.index)) (held : CallHeld w) where
    get_check-Held :
        (d : D) (put : ℕ)
        → P w.place.index d
        → CallHeld (get_check get_count tear cfg choice global w d put)
    unfolding get_check
    get_check-Held d put p = elim (Bool-cases (global == w.max)) [
      | inr old ↦ rw old tt
      | inl current ↦
          rw current (elim (Bool-cases (ltb (get_count d) global && not (put == get_count d))) [
            | inl inside ↦ rw inside p
            | inr out ↦ rw out (elim (Bool-cases (w.place.hops == cfg.width)) [
              | inr more ↦ rw more tt
              | inl round ↦ rw round (elim (Bool-cases w.notempty) [
                | inl met ↦ rw met tt
                | inr drained ↦ rw drained p
              ])
            ])
          ])
    ]

    get_at-Held :
        (pc : GetPc D)
        → Held w.place.index pc
        → CallHeld (get_at get_count tear cfg choice lanes puts global w pc).1
    unfolding get_at rescan
    get_at-Held (enter _) a = tt
    get_at-Held compare a = elim (Bool-cases (w.max == global)) [
      | inl e ↦ rw e tt
      | inr e ↦ rw e tt
    ]
    get_at-Held sync a = tt
    get_at-Held read a = here
    get_at-Held (read_rest d) a = P_tear w.place.index d (lanes w.place.index) a here
    get_at-Held (read_put d) a = a
    get_at-Held (check d put) a = get_check-Held d put a
    get_at-Held shift a = elim (Bool-cases (w.max == global)) [ inl e ↦ rw e tt | inr e ↦ rw e tt ]
    get_at-Held exchange a = elim (Bool-cases (global == w.max)) [
      | inl e ↦ rw e tt
      | inr e ↦ rw e tt
    ]
    get_at-Held reload a = tt
    get_at-Held (done d) a = held

    pub get_window-Held : CallHeld (get_window get_count tear cfg choice lanes puts global w).1
    unfolding get_window
    get_window-Held = get_at-Held w.pc held

  pub returned-Held : (i : ℕ) (pc : GetPc D) (d : D) → returned pc ≡ some d → Held i pc → P i d
  returned-Held i (done x) d e a = subst (P i) (some-eq e) a
  returned-Held i _ d e a = cc

-- What is known of it may be weakened.
pub Held-map :
    {D : Type 0} (P Q : ℕ → D → Type 0) (i : ℕ) (pc : GetPc D)
    → ((d : D) → P i d → Q i d)
    → Held P i pc
    → Held Q i pc
Held-map P Q i (read_rest d) f a = f d a
Held-map P Q i (read_put d) f a = f d a
Held-map P Q i (check d _) f a = f d a
Held-map P Q i (done d) f a = f d a
Held-map P Q i _ f a = tt
