-- ===== src/Window2Dd/GetBounds.antt =====
-- What `get_window` keeps: the get window stays behind the put window, and a search that returns a
-- lane outside the window has found every lane emptied of what was there at the call.
use elastic_2d_relaxation.Prelude.{
  ℕ, ◌+◌, ◌*◌, ◌^◌, ◌≤◌, ◌<◌, ◌≡◌, refl, ◌⊎◌, inl, inr, true, false, arith, Bool, Bool-cases, ◌==◌,
  ltb, not, ◌&&◌, dec_lt, if◌then◌else◌, add64,
}
use elastic_2d_relaxation.Search.{
  Config, IsValid, InPlace, start_place-InPlace, hop-InPlace, hop-Seen, Seen-all, hop,
}
use elastic_2d_relaxation.Window2Dd.Get.{
  GetPc, enter, compare, sync, read, read_rest, read_put, check, shift, exchange, reload, done,
  GetWindow, get_check, get_at, get_window, rescan,
}
use elastic_2d_relaxation.Window2Dd.GetHolds.{View, InStep, AtPc, scan_max, GetHolds}

-- A multiple of `d` above another is a whole `d` above it.
next_multiple : (a b d : ℕ) → a * d < b * d → a * d + d ≤ b * d
next_multiple a b d h = elim (dec_lt a b) [ yes lt ↦ grind arith | no ge ↦ grind arith ]

module _ {D : Type 0} (get_count : D → ℕ) (tear : D → D → D)
    (tear_count : (a b : D)
      → (get_count (tear a b) ≡ get_count a) ⊎ (get_count (tear a b) ≡ get_count b))
    {cfg : Config} (valid : IsValid cfg) where
  -- What a step may do to the window: raise it by `depth`, and not past the put window.
  pub record GetStep (v : View D) (out : ℕ × GetWindow D) : Type 0 where
    pub holds : GetHolds get_count cfg (record v { global = out.0 }) out.1
    pub whole : (out.0 ≡ v.global) ⊎ (out.0 ≡ v.global + cfg.depth)
    pub behind : out.0 ≤ v.put_max

  module _ (choice : ℕ) (v : View D) (w : GetWindow D) (s : InStep get_count cfg v)
      (h : GetHolds get_count cfg v w) where
    -- A step that leaves the window alone.
    same : {w' : GetWindow D} → GetHolds get_count cfg v w' → GetStep v (v.global, w')
    same k = record { holds = k; whole = inl refl; behind = s.behind_put }

    -- A search that starts a scan.
    cleared :
        (w' : GetWindow D)
        → InPlace cfg w'.place
        → w'.place.hops ≡ 0
        → w'.notempty ≡ false
        → w'.max ≤ v.global
        → w'.base ≡ w.base
        → AtPc get_count cfg v w' w'.pc
        → GetHolds get_count cfg v w'
    cleared w' q z e le b a = record {
      in_place = q;
      max_le = le;
      started = rw b h.started;
      ahead = λ k. cc;
      seen = λ _ i lt d. absurd (omega arith);
      at_pc = a;
    }

    -- The same scan goes on, or its result is returned.
    going :
        (pc : GetPc D)
        → (w.notempty ≡ true → scan_max pc w.max < v.put_max)
        → AtPc get_count cfg v w pc
        → GetHolds get_count cfg v (record w { pc = pc })
    going pc ahead a = record {
      in_place = h.in_place;
      max_le = h.max_le;
      started = h.started;
      ahead = ahead;
      seen = h.seen;
      at_pc = a;
    }

    rescan-GetHolds : GetHolds get_count cfg v (rescan v.global w)
    unfolding rescan
    rescan-GetHolds = cleared _ (ground (arith, h.in_place)) refl refl (omega arith) refl tt

    module _ (d : D) (p : ℕ) (ahead : w.notempty ≡ true → w.max < v.put_max)
        (a : AtPc get_count cfg v w (check d p)) where
      hopped :
          (v.global == w.max) ≡ true
          → (ltb (get_count d) v.global && not (p == get_count d)) ≡ false
          → (w.place.hops == cfg.width) ≡ false
          → GetHolds get_count cfg v (record w {
            notempty = if not w.notempty && not (p == get_count d) then true else w.notempty;
            place = hop cfg choice w.place;
            pc = read;
          })
      hopped current out more = record {
        in_place = hop-InPlace {cfg = cfg} choice w.place valid h.in_place (ground arith);
        max_le = h.max_le;
        started = h.started;
        ahead = λ e. ground (arith, s.put_le w.place.index h.in_place.index_in);
        seen = λ e.
            hop-Seen {cfg = cfg} choice w.place (λ i. w.base i ≤ get_count (v.lanes i)) valid
              h.in_place (ground arith) (ground arith) (h.seen (ground arith));
        at_pc = tt;
      }

      round_end :
          (w.place.hops == cfg.width) ≡ true
          → (b : Bool) → w.notempty ≡ b
          → GetHolds get_count cfg v
              (if b then record w { pc = shift } else record w { pc = done d })
      round_end round true e = going shift ahead e
      round_end round false e = going (done d) ahead (
          inr (
            Seen-all {cfg = cfg} w.place (λ i. w.base i ≤ get_count (v.lanes i)) h.in_place
              (ground arith) (h.seen e)))

      get_check-GetHolds :
          GetHolds get_count cfg v (get_check get_count tear cfg choice v.global w d p)
      unfolding get_check
      get_check-GetHolds = elim (Bool-cases (v.global == w.max)) [
        | inr moved ↦ rw moved rescan-GetHolds
        | inl current ↦
            rw current (elim (Bool-cases (ltb (get_count d) v.global && not (p == get_count d))) [
              | inl in_window ↦ rw in_window (going (done d) ahead (inl (ground arith)))
              | inr out ↦ rw out (elim (Bool-cases (w.place.hops == cfg.width)) [
                | inr more ↦ rw more (hopped current out more)
                | inl round ↦ rw round (round_end round w.notempty refl)
              ])
            ])
      ]

    torn :
        (first : D)
        → AtPc get_count cfg v w (read_rest first)
        → AtPc get_count cfg v w (read_put (tear first (v.lanes w.place.index)))
    torn first a = omega (
      arith,
      tear_count first (v.lanes w.place.index),
      s.got_le w.place.index h.in_place.index_in,
    )

    moved : GetHolds get_count cfg v (record w { max = v.global; pc = reload })
    moved = record {
      in_place = h.in_place;
      max_le = omega arith;
      started = h.started;
      ahead = λ k. omega (arith, h.ahead k);
      seen = h.seen;
      at_pc = tt;
    }

    fits : v.global < v.put_max → v.global + cfg.depth ≤ v.put_max
    fits lt = omega (
      arith,
      s.get_steps.1,
      s.put_steps.1,
      next_multiple s.get_steps.0 s.put_steps.0 cfg.depth
          (omega (arith, s.get_steps.1, s.put_steps.1)),
    )

    raised :
        (v.global == w.max) ≡ true
        → w.max < v.put_max
        → v.put_max < 2 ^ 64
        → GetStep v (add64 w.max cfg.depth, record w { pc = reload })
    raised eq lt room = record {
      holds = record {
        in_place = h.in_place;
        max_le = ground (arith, fits (ground arith));
        started = h.started;
        ahead = λ k. omega arith;
        seen = h.seen;
        at_pc = tt;
      };
      whole = inr (ground (arith, fits (ground arith)));
      behind = ground (arith, fits (ground arith));
    }

    get_at-GetStep :
        (pc : GetPc D)
        → w.pc ≡ pc
        → v.put_max < 2 ^ 64
        → (w.notempty ≡ true → scan_max pc w.max < v.put_max)
        → AtPc get_count cfg v w pc
        → GetStep v (get_at get_count tear cfg choice v.lanes v.puts v.global w pc)
    unfolding get_at
    get_at-GetStep (enter contention) e room ah a = same (
        cleared _ (start_place-InPlace {cfg = cfg} choice contention w.place valid h.in_place) a.0
          a.1 (omega arith) refl a)
    get_at-GetStep compare e room ah a = elim (Bool-cases (w.max == v.global)) [
      | inl eq ↦ rw eq (same (cleared _ h.in_place a.0 a.1 h.max_le refl tt))
      | inr ne ↦ rw ne (same (cleared _ h.in_place a.0 a.1 h.max_le refl a))
    ]
    get_at-GetStep sync e room ah a = same (cleared _ h.in_place a.0 refl (omega arith) refl tt)
    get_at-GetStep read e room ah a = same (
        going (read_rest (v.lanes w.place.index)) ah
          (omega (arith, s.got_le w.place.index h.in_place.index_in)))
    get_at-GetStep (read_rest first) e room ah a =
        same (going (read_put (tear first (v.lanes w.place.index))) ah (torn first a))
    get_at-GetStep (read_put d) e room ah a = same (
        going (check d (v.puts w.place.index)) ah
          (omega (arith, h.started w.place.index h.in_place.index_in)))
    get_at-GetStep (check d p) e room ah a = same (get_check-GetHolds d p ah a)
    get_at-GetStep shift e room ah a = elim (Bool-cases (w.max == v.global)) [
      | inl eq ↦ rw eq (same (going exchange ah a))
      | inr ne ↦ rw ne (same (going reload (λ k. omega (arith, ah k)) tt))
    ]
    get_at-GetStep exchange e room ah a = elim (Bool-cases (v.global == w.max)) [
      | inl eq ↦ rw eq (raised eq (ah a) room)
      | inr ne ↦ rw ne (same moved)
    ]
    get_at-GetStep reload e room ah a = same rescan-GetHolds
    get_at-GetStep (done d) e room ah a = same h

    -- The step keeps what the call knows, and moves the window a whole `depth`, never past the
    -- put window.
    pub get_window-GetStep :
        v.put_max < 2 ^ 64
        → GetStep v (get_window get_count tear cfg choice v.lanes v.puts v.global w)
    unfolding get_window
    get_window-GetStep room = get_at-GetStep w.pc refl room h.ahead h.at_pc
