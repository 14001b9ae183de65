-- ===== src/Window2Dc/Held.antt =====
-- What is known of every lane's descriptor is known of the one that `get_window` of
-- include/2Dc-window.c holds.
use elastic_2d_relaxation.Prelude.{
  ℕ, inl, inr, Bool-cases, ◌&&◌, ◌==◌, ltb, leb, add64, ◌≡◌, some, some-eq,
}
use mathlib.Core.Path.{subst}
use elastic_2d_relaxation.Search.{Config}
use elastic_2d_relaxation.Window2Dc.{
  Window, same_window, lowered, Pc, enter, sync, read, read_rest, check, resync, shift, exchange,
  reload, done, Call, returned, rescan, get_check, slide, common_at, get_at, get_window,
}

module _ {D : Type 0} (P : D → Type 0) where
  abbrev pub Held : Pc D → Type 0
  Held (read_rest d) = P d
  Held (check d) = P d
  Held (done d) = P d
  Held _ = Unit

  module _ (count : D → ℕ) (tear : D → D → D) (P_tear : (a b : D) → P a → P b → P (tear a b))
      (cfg : Config) (step_size choice : ℕ) (lanes : ℕ → D) (global : Window) (w : Call D)
      (here : P (lanes w.place.index)) (held : Held w.pc) where
    get_check-Held :
        (d : D) → P d → Held (get_check count tear cfg step_size choice global.version w d).pc
    unfolding get_check
    get_check-Held d p = elim (Bool-cases (global.version == w.window.version)) [
      | inr old ↦ rw old tt
      | inl current ↦ rw current (elim (Bool-cases (ltb w.window.max (add64 (count d) cfg.depth))) [
        | inl inside ↦ rw inside p
        | inr out ↦ rw out (elim (Bool-cases (w.place.hops == cfg.width)) [
          | inr more ↦ rw more tt
          | inl round ↦
              rw round
                (elim (Bool-cases w.empty) [ inl drained ↦ rw drained p | inr met ↦ rw met tt ])
        ])
      ])
    ]

    get_at-Held :
        (pc : Pc D) → Held pc → Held (get_at count tear cfg step_size choice lanes global w pc).1.pc
    unfolding get_at slide common_at rescan
    get_at-Held (enter _) a = elim (Bool-cases (w.window.version == global.version)) [
      | inl e ↦ rw e tt
      | inr e ↦ rw e tt
    ]
    get_at-Held (sync _) a = tt
    get_at-Held read a = here
    get_at-Held (read_rest d) a = P_tear d (lanes w.place.index) a here
    get_at-Held (check d) a = get_check-Held d a
    get_at-Held resync a = tt
    get_at-Held shift a =
        elim (Bool-cases (
          (w.window.version == global.version) && leb cfg.depth (lowered step_size w.window).max)) [
            | inl e ↦ rw e tt
            | inr e ↦ rw e tt
          ]
    get_at-Held exchange a = elim (Bool-cases (same_window global w.window)) [
      | inl e ↦ rw e tt
      | inr e ↦ rw e tt
    ]
    get_at-Held reload a = tt
    get_at-Held (done d) a = held

    pub get_window-Held : Held (get_window count tear cfg step_size choice lanes global w).1.pc
    unfolding get_window
    get_window-Held = get_at-Held w.pc held

  pub returned-Held : (pc : Pc D) (d : D) → returned pc ≡ some d → Held pc → P d
  returned-Held (done x) d e a = subst P (some-eq e) a
  returned-Held _ d e a = cc

-- What is known of it may be weakened.
pub Held-map :
    {D : Type 0} (P Q : D → Type 0) (pc : Pc D) → ((d : D) → P d → Q d) → Held P pc → Held Q pc
Held-map P Q (read_rest d) f a = f d a
Held-map P Q (check d) f a = f d a
Held-map P Q (done d) f a = f d a
Held-map P Q _ f a = tt
