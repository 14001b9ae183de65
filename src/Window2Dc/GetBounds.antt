-- ===== src/Window2Dc/GetBounds.antt =====
-- What a step of `get_window` of include/2Dc-window.c keeps: the window stays whole steps above its
-- lowest place, and a scan that reaches the shift can always be followed by one.
use elastic_2d_relaxation.Prelude.{
  leb, ℕ, suc, true, false, ◌+◌, ◌^◌, ◌≤◌, ◌<◌, ◌≡◌, refl, sym, ap, ◌⊎◌, inl, inr, arith,
  Bool-cases, ltb, leb, ◌==◌, add64,
}
use elastic_2d_relaxation.Search.{Config, IsValid, start_place-InPlace, hop-InPlace}
use elastic_2d_relaxation.Window2Dc.{
  Window, same_window, Pc, enter, sync, read, read_rest, check, resync, shift, exchange, reload,
  done, Call, rescan, get_check, lowered, slide, common_at, get_at, get_window,
}
use elastic_2d_relaxation.Window2Dc.Holds.{Aligned, AtGet, GetHolds, low}
use elastic_2d_relaxation.Window2Dc.Slides.{
  whole_step, not_too_low, torn, cleared, equal, lowered-Aligned,
}

-- A step of `get_window` leaves the window, or lowers it by one step that it can go down.
pub record GetStep {D : Type 0} (count : D → ℕ) (cfg : Config) (step_size : ℕ) (global : Window)
    (out : Window × Call D) : Type 0 where
  pub holds : GetHolds count cfg step_size out.1
  pub moved :
      (out.0 ≡ global) ⊎ ((out.0 ≡ lowered step_size global) × (cfg.depth + step_size ≤ global.max))

module _ {D : Type 0} (count : D → ℕ) (tear : D → D → D)
    (tear_count : (a b : D) → (count (tear a b) ≡ count a) ⊎ (count (tear a b) ≡ count b))
    {cfg : Config} (valid : IsValid cfg) (step_size : ℕ) (choice : ℕ) (lanes : ℕ → D)
    (global : Window) (w : Call D) (g : Aligned cfg step_size global)
    (small : (i : ℕ) → i < cfg.width → count (lanes i) + cfg.depth < 2 ^ 64)
    (h : GetHolds count cfg step_size w) (some_step : 0 < step_size) where
  stay :
      {w' : Call D}
      → GetHolds count cfg step_size w'
      → GetStep count cfg step_size global (global, w')
  stay k = record { holds = k; moved = inl refl }

  window-Aligned : same_window global w.window ≡ true → Aligned cfg step_size w.window
  window-Aligned e = rw (sym (equal {a = global} {b = w.window} e)) g

  get_check-GetHolds :
      (d : D)
      → (w.empty ≡ false → suc cfg.depth ≤ w.window.max)
      → count d + cfg.depth < 2 ^ 64
      → GetHolds count cfg step_size (get_check count tear cfg step_size choice global.version w d)
  unfolding get_check
  get_check-GetHolds d above s = elim (Bool-cases (global.version == w.window.version)) [
    | inr old ↦ rw old (record {
      in_place = cleared {cfg = cfg} h.in_place;
      copied = h.copied;
      above = λ e. cc;
      at_pc = refl;
    })
    | inl current ↦ rw current (elim (Bool-cases (ltb w.window.max (add64 (count d) cfg.depth))) [
      | inl in_window ↦ rw in_window (record {
        in_place = h.in_place;
        copied = h.copied;
        above = above;
        at_pc = inl (ground arith);
      })
      | inr below ↦ rw below (elim (Bool-cases (w.place.hops == cfg.width)) [
        | inl round ↦ rw round (elim (Bool-cases w.empty) [
          | inl drained ↦ rw drained (record {
            in_place = h.in_place;
            copied = h.copied;
            above = λ e. cc;
            at_pc = inr refl;
          })
          | inr met ↦ rw met (record {
            in_place = h.in_place;
            copied = h.copied;
            above = λ e. above met;
            at_pc = refl;
          })
        ])
        | inr more ↦ rw more (record {
          in_place = hop-InPlace {cfg = cfg} choice w.place valid h.in_place (ground arith);
          copied = h.copied;
          above = λ e. ground arith;
          at_pc = tt;
        })
      ])
    ])
  ]

  get_at-GetStep :
      (pc : Pc D)
      → w.pc ≡ pc
      → (w.empty ≡ false → low pc cfg.depth ≤ w.window.max)
      → AtGet count cfg step_size w pc
      → GetStep count cfg step_size global
          (get_at count tear cfg step_size choice lanes global w pc)
  unfolding get_at slide common_at rescan
  get_at-GetStep (enter contention) e above a =
      elim (Bool-cases (w.window.version == global.version)) [
        | inl eq ↦ rw eq (
            stay (record {
              in_place = start_place-InPlace {cfg = cfg} choice contention w.place valid h.in_place;
              copied = h.copied;
              above = above;
              at_pc = tt;
            }))
        | inr ne ↦
            rw ne
              (stay (record { in_place = h.in_place; copied = h.copied; above = above; at_pc = a }))
      ]
  get_at-GetStep (sync contention) e above a = stay (record {
    in_place = start_place-InPlace {cfg = cfg} choice contention w.place valid h.in_place;
    copied = inl g;
    above = λ e. cc;
    at_pc = tt;
  })
  get_at-GetStep read e above a = stay (record {
    in_place = h.in_place;
    copied = h.copied;
    above = above;
    at_pc = small w.place.index h.in_place.index_in;
  })
  get_at-GetStep (read_rest d) e above a = stay (record {
    in_place = h.in_place;
    copied = h.copied;
    above = above;
    at_pc =
        torn count tear tear_count d (lanes w.place.index) cfg.depth a
          (small w.place.index h.in_place.index_in);
  })
  get_at-GetStep (check d) e above a = stay (get_check-GetHolds d above a)
  get_at-GetStep resync e above a =
      stay (record { in_place = h.in_place; copied = inl g; above = λ e. cc; at_pc = tt })
  get_at-GetStep shift e above a = elim (Bool-cases (w.window.version == global.version)) [
    | inl eq ↦
        rw (eq, not_too_low cfg step_size w.window some_step h.copied (above a))
          (stay (record {
            in_place = h.in_place;
            copied = h.copied;
            above = above;
            at_pc = whole_step cfg step_size w.window h.copied (above a);
          }))
    | inr ne ↦ rw ne (
        stay (record {
          in_place = cleared {cfg = cfg} h.in_place;
          copied = h.copied;
          above = λ e. cc;
          at_pc = tt;
        }))
  ]
  get_at-GetStep exchange e above a = elim (Bool-cases (same_window global w.window)) [
    | inl eq ↦ rw eq (record {
      holds = record {
        in_place = cleared {cfg = cfg} h.in_place;
        copied = inl (lowered-Aligned cfg step_size w.window (window-Aligned eq) a some_step);
        above = λ e. cc;
        at_pc = tt;
      };
      moved = inr (
        ap (lowered step_size) (sym (equal {a = global} {b = w.window} eq)),
        rw (equal {a = global} {b = w.window} eq) a,
      );
    })
    | inr ne ↦ rw ne (
        stay
          (record { in_place = h.in_place; copied = inl g; above = λ e. omega arith; at_pc = tt }))
  ]
  get_at-GetStep reload e above a = stay (record {
    in_place = cleared {cfg = cfg} h.in_place;
    copied = inl g;
    above = λ e. cc;
    at_pc = tt;
  })
  get_at-GetStep (done d) e above a = stay h

  pub get_window-GetStep :
      GetStep count cfg step_size global (get_window count tear cfg step_size choice lanes global w)
  unfolding get_window
  get_window-GetStep = get_at-GetStep w.pc refl h.above h.at_pc

-- Where a scan has met an element, the test before the compare-exchange passes.
pub shift_allowed :
    {D : Type 0} {count : D → ℕ} (cfg : Config) (step_size : ℕ) (w : Call D)
    → 0 < step_size
    → GetHolds count cfg step_size w
    → w.pc ≡ shift
    → leb cfg.depth (lowered step_size w.window).max ≡ true
shift_allowed {D = D} {count = count} cfg step_size w some_step h e =
    not_too_low cfg step_size w.window some_step h.copied (go w.pc e h.above h.at_pc)
  where
    go :
        (pc : Pc D)
        → pc ≡ shift
        → (w.empty ≡ false → low pc cfg.depth ≤ w.window.max)
        → AtGet count cfg step_size w pc
        → suc cfg.depth ≤ w.window.max
    go shift e above a = above a
    go _ e above a = cc
