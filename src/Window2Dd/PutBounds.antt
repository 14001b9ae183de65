-- ===== src/Window2Dd/PutBounds.antt =====
-- What `put_window` keeps: no lane is above the window, none is more than its depth below it.
use elastic_2d_relaxation.Prelude.{
  ℕ, ◌+◌, ◌^◌, ◌≤◌, ◌<◌, ◌≡◌, refl, ◌⊎◌, inl, inr, arith, Bool-cases, ◌==◌, ltb,
}
use elastic_2d_relaxation.Search.{
  Config, IsValid, InPlace, Seen, start_place-InPlace, hop-InPlace, hop-Seen, Seen-all,
}
use elastic_2d_relaxation.Window2Dd.Put.{
  PutPc, enter, sync, read, read_rest, check, shift, exchange, reload, done, PutWindow, put_check,
  put_at, put_window,
}
use elastic_2d_relaxation.Window2Dd.PutHolds.{InWindow, AtPc, scan_max, PutHolds}

module _ {D : Type 0} (put_count : D → ℕ) (tear : D → D → D)
    (tear_count : (a b : D) → put_count (tear a b) ≡ put_count b) {cfg : Config}
    (v : IsValid cfg) where
  -- What a step may do to the window: raise it by `depth`, over lanes that have all been filled.
  pub record PutStep (lanes : ℕ → D) (global : ℕ) (out : ℕ × PutWindow D) : Type 0 where
    pub holds : PutHolds put_count cfg lanes out.0 out.1
    pub raised : global ≤ out.0
    pub by_depth : out.0 ≤ global + cfg.depth
    pub whole : (out.0 ≡ global) ⊎ (out.0 ≡ global + cfg.depth)
    pub in_window :
        InWindow cfg (λ i. put_count (lanes i)) global
        → InWindow cfg (λ i. put_count (lanes i)) out.0

  -- A step that leaves the window alone.
  same :
      {lanes : ℕ → D} {global : ℕ} {w : PutWindow D}
      → PutHolds put_count cfg lanes global w
      → PutStep lanes global (global, w)
  same {global} h = record {
    holds = h;
    raised = omega arith;
    by_depth = omega arith;
    whole = inl refl;
    in_window = λ q. q;
  }

  -- A search that starts a scan.
  cleared :
      {lanes : ℕ → D} {global : ℕ} (w : PutWindow D)
      → InPlace cfg w.place
      → w.place.hops ≡ 0
      → w.max ≤ global
      → AtPc put_count cfg lanes global w w.pc
      → PutHolds put_count cfg lanes global w
  cleared w q z le a = record {
    in_place = q;
    max_le = le;
    seen = λ i lt b. absurd (omega arith);
    at_pc = a;
  }

  module _ (choice : ℕ) (lanes : ℕ → D) (global : ℕ) (w : PutWindow D)
      (h : PutHolds put_count cfg lanes global w) where
    restarted :
        (max : ℕ)
        → max ≤ global
        → PutHolds put_count cfg lanes global
            (record w { max = max; place = record (w.place) { hops = 0 }; pc = read })
    restarted max le = cleared _ (ground (arith, h.in_place)) refl le tt

    put_check-PutHolds :
        (d : D)
        → Seen cfg w.place (λ i. w.max ≤ put_count (lanes i))
        → put_count d ≤ put_count (lanes w.place.index)
        → PutHolds put_count cfg lanes global (put_check put_count tear cfg choice global w d)
    unfolding put_check
    put_check-PutHolds d seen le = elim (Bool-cases (global == w.max)) [
      | inr moved ↦ rw moved (restarted global (omega arith))
      | inl current ↦ rw current (elim (Bool-cases (ltb (put_count d) global)) [
        | inl valid ↦
            rw valid (record {
              in_place = h.in_place;
              max_le = h.max_le;
              seen = seen;
              at_pc = ground arith;
            })
        | inr filled ↦ rw filled (elim (Bool-cases (w.place.hops == cfg.width)) [
          | inl round ↦ rw round (record {
            in_place = h.in_place;
            max_le = h.max_le;
            seen = seen;
            at_pc = ground arith;
          })
          | inr more ↦ rw more (record {
            in_place = hop-InPlace {cfg = cfg} choice w.place v h.in_place (ground arith);
            max_le = h.max_le;
            seen =
                hop-Seen {cfg = cfg} choice w.place (λ i. w.max ≤ put_count (lanes i)) v h.in_place
                  (ground arith) (ground arith) seen;
            at_pc = tt;
          })
        ])
      ])
    ]

    put_at-PutStep :
        (pc : PutPc D)
        → w.pc ≡ pc
        → global + cfg.depth < 2 ^ 64
        → AtPc put_count cfg lanes global w pc
        → Seen cfg w.place (λ i. scan_max pc w.max ≤ put_count (lanes i))
        → PutStep lanes global (put_at put_count tear cfg choice lanes global w pc)
    unfolding put_at
    put_at-PutStep (enter contention) e room a s = elim (Bool-cases (w.max == global)) [
      | inl eq ↦ rw eq (
          same (
            cleared _ (start_place-InPlace {cfg = cfg} choice contention w.place v h.in_place) a
              h.max_le tt))
      | inr ne ↦ rw ne (
          same (
            cleared _ (start_place-InPlace {cfg = cfg} choice contention w.place v h.in_place) a
              h.max_le a))
    ]
    put_at-PutStep sync e room a s = same (cleared _ h.in_place a (omega arith) tt)
    put_at-PutStep read e room a s =
        same (record { in_place = h.in_place; max_le = h.max_le; seen = s; at_pc = tt })
    put_at-PutStep (read_rest first) e room a s = same (record {
      in_place = h.in_place;
      max_le = h.max_le;
      seen = s;
      at_pc = omega (arith, tear_count first (lanes w.place.index));
    })
    put_at-PutStep (check d) e room a s = same (put_check-PutHolds d s a)
    put_at-PutStep shift e room a s = elim (Bool-cases (w.max == global)) [
      | inl eq ↦
          rw eq (same (record { in_place = h.in_place; max_le = h.max_le; seen = s; at_pc = a }))
      | inr ne ↦ rw ne (
          same (record {
            in_place = h.in_place;
            max_le = h.max_le;
            seen = λ i lt b. omega arith;
            at_pc = tt;
          }))
    ]
    put_at-PutStep exchange e room a s = elim (Bool-cases (global == w.max)) [
      | inl eq ↦ rw eq record {
        holds = record {
          in_place = h.in_place;
          max_le = ground arith;
          seen = λ i lt b. omega arith;
          at_pc = tt;
        };
        raised = ground arith;
        by_depth = ground arith;
        whole = inr (ground arith);
        in_window = λ q. record {
          upper = λ i lt. ground (arith, q.upper i lt);
          lower = λ i lt. ground (
            arith,
            Seen-all {cfg = cfg} w.place (λ j. w.max ≤ put_count (lanes j)) h.in_place a s i lt,
          );
        };
      }
      | inr ne ↦ rw ne (
          same (record {
            in_place = h.in_place;
            max_le = omega arith;
            seen = λ i lt b. omega arith;
            at_pc = tt;
          }))
    ]
    put_at-PutStep reload e room a s = same (restarted global (omega arith))
    put_at-PutStep (done d) e room a s = same h

    -- The step keeps what the call knows, and moves the window only over lanes that are filled.
    pub put_window-PutStep :
        global + cfg.depth < 2 ^ 64
        → PutStep lanes global (put_window put_count tear cfg choice lanes global w)
    unfolding put_window
    put_window-PutStep room = put_at-PutStep w.pc refl room h.at_pc h.seen
