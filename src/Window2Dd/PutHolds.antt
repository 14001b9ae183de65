-- ===== src/Window2Dd/PutHolds.antt =====
-- What a thread inside `put_window` knows of the shared memory, whatever the others do.
use elastic_2d_relaxation.Prelude.{ℕ, ◌+◌, ◌≤◌, ◌<◌, ◌≡◌, refl, Bool, some, Bool, arith}
use elastic_2d_relaxation.Search.{Config, InPlace, Seen}
use elastic_2d_relaxation.Window2Dd.Put.{
  PutPc, enter, sync, check, shift, exchange, reload, done, PutWindow, start, returned,
}

-- The window over the counts of the lanes.
pub record InWindow (cfg : Config) (counts : ℕ → ℕ) (global : ℕ) : Type 0 where
  pub upper : (i : ℕ) → i < cfg.width → counts i ≤ global
  pub lower : (i : ℕ) → i < cfg.width → global ≤ counts i + cfg.depth

-- What a scan compares the lanes with. A compare-exchange that fails overwrites it, and the scan
-- is then dropped.
abbrev pub scan_max : {D : Type 0} → PutPc D → ℕ → ℕ
scan_max reload max = 0
scan_max _ max = max

module _ {D : Type 0} (put_count : D → ℕ) (cfg : Config) where
  -- What the descriptor at hand, or the end of a scan, is known for.
  abbrev pub AtPc : (ℕ → D) → ℕ → PutWindow D → PutPc D → Type 0
  AtPc lanes global w (check d) = put_count d ≤ put_count (lanes w.place.index)
  AtPc lanes global w (enter _) = w.place.hops ≡ 0
  AtPc lanes global w sync = w.place.hops ≡ 0
  AtPc lanes global w shift = w.place.hops ≡ cfg.width
  AtPc lanes global w exchange = w.place.hops ≡ cfg.width
  AtPc lanes global w (done d) =
      (put_count d < global) × (put_count d ≤ put_count (lanes w.place.index))
  AtPc lanes global w _ = Unit

  pub record PutHolds (lanes : ℕ → D) (global : ℕ) (w : PutWindow D) : Type 0 where
    pub in_place : InPlace cfg w.place
    pub max_le : w.max ≤ global
    pub seen : Seen cfg w.place (λ i. scan_max w.pc w.max ≤ put_count (lanes i))
    pub at_pc : AtPc lanes global w w.pc

  -- Puts and shifts only raise counts and window.
  pub record Raised (lanes lanes' : ℕ → D) (global global' : ℕ) : Type 0 where
    pub window : global ≤ global'
    pub counts : (i : ℕ) → put_count (lanes i) ≤ put_count (lanes' i)

  AtPc-Raised :
      {lanes lanes' : ℕ → D} {global global' : ℕ} (w : PutWindow D) (pc : PutPc D)
      → Raised lanes lanes' global global'
      → AtPc lanes global w pc
      → AtPc lanes' global' w pc
  AtPc-Raised w (check d) r h = omega (arith, r.counts w.place.index)
  AtPc-Raised w (done d) r h = omega (arith, r.counts w.place.index)
  AtPc-Raised w (enter _) r h = h
  AtPc-Raised w sync r h = h
  AtPc-Raised w shift r h = h
  AtPc-Raised w exchange r h = h
  AtPc-Raised w _ r h = tt

  pub PutHolds-Raised :
      {lanes lanes' : ℕ → D} {global global' : ℕ} (w : PutWindow D)
      → Raised lanes lanes' global global'
      → PutHolds lanes global w
      → PutHolds lanes' global' w
  PutHolds-Raised w r h = record {
    in_place = h.in_place;
    max_le = omega (arith, r.window);
    seen = λ i lt b. omega (arith, r.counts i, h.seen i lt b);
    at_pc = AtPc-Raised w w.pc r h.at_pc;
  }

  pub start-PutHolds :
      {lanes : ℕ → D} {global : ℕ} (index max : ℕ) (contention : Bool)
      → index < cfg.width
      → max ≤ global
      → PutHolds lanes global (start index max contention)
  unfolding start
  start-PutHolds index max contention lt le = record {
    in_place = omega arith;
    max_le = le;
    seen = λ i lt b. absurd (omega arith);
    at_pc = refl;
  }

  -- What a call that returns has found.
  pub returned-PutHolds :
      {lanes : ℕ → D} {global : ℕ} (w : PutWindow D) (d : D)
      → returned w.pc ≡ some d
      → PutHolds lanes global w
      → (put_count d < global) × (put_count d ≤ put_count (lanes w.place.index))
  returned-PutHolds {lanes} {global} w d e h = at w.pc e h.at_pc
    where
      at :
          (pc : PutPc D)
          → returned pc ≡ some d
          → AtPc lanes global w pc
          → (put_count d < global) × (put_count d ≤ put_count (lanes w.place.index))
      at (done x) e a = ground arith
      at _ e a = cc
