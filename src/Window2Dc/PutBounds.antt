-- ===== src/Window2Dc/PutBounds.antt =====
-- What a step of `put_window` of include/2Dc-window.c keeps: the window stays whole steps above its
-- lowest place.
use elastic_2d_relaxation.Prelude.{
  ℕ, true, ◌+◌, ◌^◌, ◌<◌, ◌≡◌, refl, sym, ap, ◌⊎◌, inl, inr, arith, Bool-cases, ltb, ◌==◌,
}
use elastic_2d_relaxation.Search.{Config, IsValid, start_place-InPlace, hop-InPlace}
use elastic_2d_relaxation.Window2Dc.{
  Window, same_window, Pc, enter, sync, read, read_rest, check, resync, shift, exchange, reload,
  done, Call, rescan, put_check, raised, slide, common_at, put_at, put_window,
}
use elastic_2d_relaxation.Window2Dc.Holds.{Aligned, AtPut, PutHolds}
use elastic_2d_relaxation.Window2Dc.Slides.{torn, cleared, equal, raised-Aligned}

-- A step of `put_window` leaves the window, or raises it by one step.
pub record PutStep {D : Type 0} (count : D → ℕ) (cfg : Config) (step_size : ℕ) (global : Window)
    (out : Window × Call D) : Type 0 where
  pub holds : PutHolds count cfg step_size out.1
  pub moved : (out.0 ≡ global) ⊎ (out.0 ≡ raised step_size global)

module _ {D : Type 0} (count : D → ℕ) (tear : D → D → D)
    (tear_count : (a b : D) → (count (tear a b) ≡ count a) ⊎ (count (tear a b) ≡ count b))
    {cfg : Config} (valid : IsValid cfg) (step_size : ℕ) (choice : ℕ) (lanes : ℕ → D)
    (global : Window) (w : Call D) (g : Aligned cfg step_size global)
    (room : global.max + step_size < 2 ^ 64)
    (small : (i : ℕ) → i < cfg.width → count (lanes i) + cfg.depth < 2 ^ 64)
    (h : PutHolds count cfg step_size w) where
  stay :
      {w' : Call D}
      → PutHolds count cfg step_size w'
      → PutStep count cfg step_size global (global, w')
  stay k = record { holds = k; moved = inl refl }

  window-Aligned : same_window global w.window ≡ true → Aligned cfg step_size w.window
  window-Aligned e = rw (sym (equal {a = global} {b = w.window} e)) g

  own_room : same_window global w.window ≡ true → w.window.max + step_size < 2 ^ 64
  own_room e = rw (sym (equal {a = global} {b = w.window} e)) room

  put_check-PutHolds :
      (d : D)
      → PutHolds count cfg step_size (put_check count tear cfg step_size choice global.version w d)
  unfolding put_check
  put_check-PutHolds d = elim (Bool-cases (global.version == w.window.version)) [
    | inr old ↦
        rw old (record { in_place = cleared {cfg = cfg} h.in_place; copied = h.copied; at_pc = tt })
    | inl current ↦ rw current (elim (Bool-cases (ltb (count d) w.window.max)) [
      | inl below ↦
          rw below (record { in_place = h.in_place; copied = h.copied; at_pc = ground arith })
      | inr filled ↦ rw filled (elim (Bool-cases (w.place.hops == cfg.width)) [
        | inl round ↦ rw round (record { in_place = h.in_place; copied = h.copied; at_pc = tt })
        | inr more ↦ rw more (record {
          in_place = hop-InPlace {cfg = cfg} choice w.place valid h.in_place (ground arith);
          copied = h.copied;
          at_pc = tt;
        })
      ])
    ])
  ]

  put_at-PutStep :
      (pc : Pc D)
      → w.pc ≡ pc
      → AtPut count cfg step_size w pc
      → PutStep count cfg step_size global
          (put_at count tear cfg step_size choice lanes global w pc)
  unfolding put_at slide common_at rescan
  put_at-PutStep (enter contention) e a = elim (Bool-cases (w.window.version == global.version)) [
    | inl eq ↦ rw eq (
        stay (record {
          in_place = start_place-InPlace {cfg = cfg} choice contention w.place valid h.in_place;
          copied = h.copied;
          at_pc = tt;
        }))
    | inr ne ↦ rw ne (stay (record { in_place = h.in_place; copied = h.copied; at_pc = tt }))
  ]
  put_at-PutStep (sync contention) e a = stay (record {
    in_place = start_place-InPlace {cfg = cfg} choice contention w.place valid h.in_place;
    copied = inl g;
    at_pc = tt;
  })
  put_at-PutStep read e a = stay (record {
    in_place = h.in_place;
    copied = h.copied;
    at_pc = small w.place.index h.in_place.index_in;
  })
  put_at-PutStep (read_rest d) e a = stay (record {
    in_place = h.in_place;
    copied = h.copied;
    at_pc =
        torn count tear tear_count d (lanes w.place.index) cfg.depth a
          (small w.place.index h.in_place.index_in);
  })
  put_at-PutStep (check d) e a = stay (put_check-PutHolds d)
  put_at-PutStep resync e a = stay (record { in_place = h.in_place; copied = inl g; at_pc = tt })
  put_at-PutStep shift e a = elim (Bool-cases (w.window.version == global.version)) [
    | inl eq ↦ rw eq (stay (record { in_place = h.in_place; copied = h.copied; at_pc = tt }))
    | inr ne ↦
        rw ne (
          stay
            (record { in_place = cleared {cfg = cfg} h.in_place; copied = h.copied; at_pc = tt }))
  ]
  put_at-PutStep exchange e a = elim (Bool-cases (same_window global w.window)) [
    | inl eq ↦ rw eq (record {
      holds = record {
        in_place = cleared {cfg = cfg} h.in_place;
        copied = inl (raised-Aligned cfg step_size w.window (window-Aligned eq) (own_room eq));
        at_pc = tt;
      };
      moved = inr (ap (raised step_size) (sym (equal {a = global} {b = w.window} eq)));
    })
    | inr ne ↦ rw ne (stay (record { in_place = h.in_place; copied = inl g; at_pc = tt }))
  ]
  put_at-PutStep reload e a =
      stay (record { in_place = cleared {cfg = cfg} h.in_place; copied = inl g; at_pc = tt })
  put_at-PutStep (done d) e a = stay h

  pub put_window-PutStep :
      PutStep count cfg step_size global (put_window count tear cfg step_size choice lanes global w)
  unfolding put_window
  put_window-PutStep = put_at-PutStep w.pc refl h.at_pc
