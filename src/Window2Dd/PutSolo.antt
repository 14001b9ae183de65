-- ===== src/Window2Dd/PutSolo.antt =====
-- A thread that runs alone comes out of `put_window`: the loop ends.
use elastic_2d_relaxation.Prelude.{
  ℕ, zero, suc, ◌+◌, ◌-◌, ◌*◌, ◌^◌, ◌≤◌, ◌<◌, ◌≡◌, refl, ◌≢◌, Bool, arith, Bool-cases, inl, inr,
  ◌==◌, add64, ==_refl, dec_lt, ℕ_discrete,
}
use elastic_2d_relaxation.Search.{
  Config, IsValid, Place, InPlace, hop, hop-InPlace, start_place, start_place-InPlace,
}
use elastic_2d_relaxation.Window2Dd.Put.{
  read, check, shift, done, PutWindow, start, put_check, put_window,
}
use elastic_2d_relaxation.Window2Dd.Solo.{Finishes, weaken, finished, next}

module _ {D : Type 0} (put_count : D → ℕ) (tear : D → D → D)
    (tear_count : (a b : D) → put_count (tear a b) ≡ put_count b) {cfg : Config} (v : IsValid cfg)
    (lanes : ℕ → D) where
  abbrev Ends : ℕ → ℕ → PutWindow D → Type 0
  Ends = Finishes put_count tear cfg lanes

  -- From the head of the loop the descriptor of the lane is checked three steps later.
  looped :
      {k global : ℕ} (place : Place) (max : ℕ)
      → ((c : ℕ) (d : D)
          → put_count d ≡ put_count (lanes place.index)
          → Ends k global (
              put_check put_count tear cfg c global
                (record { place = place; max = max; pc = check d })
                d))
      → Ends (suc (suc (suc k))) global (record { place = place; max = max; pc = read })
  unfolding put_window
  looped place max f = next put_count tear cfg lanes λ _. next put_count tear cfg lanes λ _.
      next put_count tear cfg lanes
        λ c. f c (tear (lanes place.index) (lanes place.index)) (tear_count _ _)

  module _ (c global max : ℕ) (place : Place) (d : D) where
    abbrev checked : PutWindow D
    checked =
        put_check put_count tear cfg c global (record { place = place; max = max; pc = check d }) d

    check-done :
        global ≡ max
        → put_count d < global
        → checked ≡ record { place = place; max = max; pc = done d }
    unfolding put_check
    check-done current below = ground arith

    check-stale :
        global ≢ max
        → checked ≡ record { place = record place { hops = 0 }; max = global; pc = read }
    unfolding put_check
    check-stale moved = ground arith

    check-hop :
        global ≡ max
        → global ≤ put_count d
        → place.hops ≢ cfg.width
        → checked ≡ record { place = hop cfg c place; max = max; pc = read }
    unfolding put_check
    check-hop current filled more = ground arith

    check-shift :
        global ≡ max
        → global ≤ put_count d
        → place.hops ≡ cfg.width
        → checked ≡ record { place = place; max = max; pc = shift }
    unfolding put_check
    check-shift current filled round = ground arith

  -- A lane below the window is returned.
  open_lane :
      (global : ℕ) (place : Place)
      → put_count (lanes place.index) < global
      → Ends 3 global (record { place = place; max = global; pc = read })
  open_lane global place below = looped place global λ c d e.
      rw (check-done c global global place d refl (omega arith))
        (finished put_count tear cfg lanes place global d)

  -- After a full round over filled lanes the window is shifted, and the lane is open.
  shifted :
      (global : ℕ) (place : Place)
      → 0 < cfg.depth
      → global + cfg.depth < 2 ^ 64
      → put_count (lanes place.index) ≤ global
      → Ends 6 global (record { place = place; max = global; pc = shift })
  unfolding put_window
  shifted global place deep room upper = next put_count tear cfg lanes λ _. rw (==_refl global) (
      next put_count tear cfg lanes λ _. rw (==_refl global) (
        next put_count tear cfg lanes
          λ _. open_lane (add64 global cfg.depth) (record place { hops = 0 }) (omega arith)))

  -- Hops left before a full round.
  abbrev left : Place → ℕ
  left p = cfg.random_hops - p.random + (cfg.width - p.hops)

  module _ (global : ℕ) (deep : 0 < cfg.depth) (room : global + cfg.depth < 2 ^ 64)
      (upper : (i : ℕ) → i < cfg.width → put_count (lanes i) ≤ global) where
    -- A lane at the top of the window, after a full round.
    full_round :
        (place : Place)
        → InPlace cfg place
        → global ≤ put_count (lanes place.index)
        → place.hops ≡ cfg.width
        → Ends 9 global (record { place = place; max = global; pc = read })
    full_round place q filled round = looped place global λ c d e.
        rw (check-shift c global global place d refl (omega arith) round)
          (shifted global place deep room (upper place.index q.index_in))

    hop-left :
        (c : ℕ) (place : Place)
        → InPlace cfg place
        → place.hops ≢ cfg.width
        → left (hop cfg c place) < left place
    unfolding hop
    hop-left c place q more = ground (arith, v.hops_fit, v.width_fits)

    hopped :
        {k : ℕ} (place : Place)
        → global ≤ put_count (lanes place.index)
        → place.hops ≢ cfg.width
        → ((c : ℕ) → Ends k global (record { place = hop cfg c place; max = global; pc = read }))
        → Ends (suc (suc (suc k))) global (record { place = place; max = global; pc = read })
    hopped place filled more f =
        looped place global
          λ c d e. rw (check-hop c global global place d refl (omega arith) more) (f c)

    scan :
        (m : ℕ) (place : Place)
        → InPlace cfg place
        → left place ≤ m
        → Ends (3 * m + 9) global (record { place = place; max = global; pc = read })
    scan zero place q le = elim (dec_lt (put_count (lanes place.index)) global) [
      | yes below ↦ weaken put_count tear cfg lanes (omega arith) (open_lane global place below)
      | no filled ↦
          weaken put_count tear cfg lanes (omega arith)
            (full_round place q (omega arith) (omega (arith, q.hops_in)))
    ]
    scan (suc m) place q le = elim (dec_lt (put_count (lanes place.index)) global) [
      | yes below ↦ weaken put_count tear cfg lanes (omega arith) (open_lane global place below)
      | no filled ↦ elim (ℕ_discrete place.hops cfg.width) [
        | yes round ↦
            weaken put_count tear cfg lanes (omega arith) (full_round place q (omega arith) round)
        | no more ↦
            weaken put_count tear cfg lanes {k = suc (suc (suc (3 * m + 9)))} (omega arith) (
              hopped place (omega arith) more λ c.
                scan m (hop cfg c place) (hop-InPlace {cfg = cfg} c place v q more)
                  (omega (arith, hop-left c place q more)))
      ]
    ]

    -- From the head of the loop with any copy of the window: a stale copy is renewed first.
    from_read :
        (place : Place) (max : ℕ)
        → InPlace cfg place
        → place.hops ≡ 0
        → place.random ≡ 0
        → Ends
            (3 * (cfg.random_hops + cfg.width) + 12)
            global
            (record { place = place; max = max; pc = read })
    from_read place max q h r = elim (ℕ_discrete global max) [
      | yes e ↦ rw (← e) (
          weaken put_count tear cfg lanes (omega arith)
            (scan (cfg.random_hops + cfg.width) place q (omega arith)))
      | no moved ↦
          weaken put_count tear cfg lanes
            {k = suc (suc (suc (3 * (cfg.random_hops + cfg.width) + 9)))} (omega arith)
            (looped place max λ c d e. rw (check-stale c global max place d moved) (
              scan (cfg.random_hops + cfg.width) (record place { hops = 0 }) (ground (arith, q))
                (omega arith)))
    ]

    -- A thread that runs alone comes out of `put_window`, by shifting the window once if no lane
    -- is open.
    pub put_window-Finishes :
        (index max : ℕ) (contention : Bool)
        → index < cfg.width
        → Finishes put_count tear cfg lanes
            (3 * (cfg.random_hops + cfg.width) + 14)
            global
            (start index max contention)
    unfolding put_window start
    put_window-Finishes index max contention lt =
        weaken put_count tear cfg lanes {k = suc (suc bound)} (omega arith) (
          next put_count tear cfg lanes λ c. elim (Bool-cases (max == global)) [
            | inl current ↦ rw current (
                weaken put_count tear cfg lanes (omega arith)
                  (from_read (at c) max (inside c) refl refl))
            | inr moved ↦
                rw moved
                  (next put_count tear cfg lanes λ c'. from_read (at c) global (inside c) refl refl)
          ])
      where
        bound : ℕ
        bound = 3 * (cfg.random_hops + cfg.width) + 12

        at : ℕ → Place
        at c = start_place cfg c contention (record { index = index; hops = 0; random = 0 })

        inside : (c : ℕ) → InPlace cfg (at c)
        inside c =
            start_place-InPlace {cfg = cfg} c contention
              (record { index = index; hops = 0; random = 0 }) v (omega arith)
