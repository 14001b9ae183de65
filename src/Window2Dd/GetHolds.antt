-- ===== src/Window2Dd/GetHolds.antt =====
-- What a thread inside `get_window` knows of the shared memory, whatever the others do.
use elastic_2d_relaxation.Prelude.{
  ℕ, ◌*◌, ◌≤◌, ◌<◌, ◌≡◌, refl, some, ◌⊎◌, inl, inr, true, false, arith, Bool,
}
use elastic_2d_relaxation.Search.{Config, InPlace, Seen}
use elastic_2d_relaxation.Window2Dd.Get.{
  GetPc, enter, compare, sync, read_rest, read_put, check, shift, exchange, reload, done, GetWindow,
  start, returned,
}

-- The shared memory that the search looks at: the `get_array`, the put counts of the `put_array`,
-- and the two windows.
pub record View (D : Type 0) : Type 0 where
  pub lanes : ℕ → D
  pub puts : ℕ → ℕ
  pub global : ℕ
  pub put_max : ℕ

-- What a scan compares the window with. A compare-exchange that fails overwrites it, and the scan
-- is then dropped.
abbrev pub scan_max : {D : Type 0} → GetPc D → ℕ → ℕ
scan_max reload max = 0
scan_max _ max = max

module _ {D : Type 0} (get_count : D → ℕ) (cfg : Config) where
  -- The lanes, and the windows in whole steps of `depth`.
  pub record InStep (v : View D) : Type 0 where
    pub got_le : (i : ℕ) → i < cfg.width → get_count (v.lanes i) ≤ v.puts i
    pub put_le : (i : ℕ) → i < cfg.width → v.puts i ≤ v.put_max
    pub behind_put : v.global ≤ v.put_max
    pub get_steps : (a : ℕ) × (v.global ≡ a * cfg.depth)
    pub put_steps : (b : ℕ) × (v.put_max ≡ b * cfg.depth)

  -- Operations and shifts only raise counts and windows.
  pub record Raised (v v' : View D) : Type 0 where
    pub window : v.global ≤ v'.global
    pub put_window : v.put_max ≤ v'.put_max
    pub got : (i : ℕ) → get_count (v.lanes i) ≤ get_count (v'.lanes i)
    pub put : (i : ℕ) → v.puts i ≤ v'.puts i

  -- Every lane has been emptied of what it held at the call.
  abbrev pub Emptied : View D → GetWindow D → Type 0
  Emptied v w = (i : ℕ) → i < cfg.width → w.base i ≤ get_count (v.lanes i)

  abbrev pub AtPc : View D → GetWindow D → GetPc D → Type 0
  AtPc v w (enter _) = (w.place.hops ≡ 0) × (w.notempty ≡ false)
  AtPc v w compare = (w.place.hops ≡ 0) × (w.notempty ≡ false)
  AtPc v w sync = (w.place.hops ≡ 0) × (w.notempty ≡ false)
  AtPc v w (read_rest d) =
      (get_count d ≤ get_count (v.lanes w.place.index)) × (get_count d ≤ v.puts w.place.index)
  AtPc v w (read_put d) =
      (get_count d ≤ get_count (v.lanes w.place.index)) × (get_count d ≤ v.puts w.place.index)
  AtPc v w (check d p) =
      (get_count d ≤ get_count (v.lanes w.place.index))
      × (get_count d ≤ p)
      × (w.base w.place.index ≤ p)
      × (p ≤ v.puts w.place.index)
  AtPc v w shift = w.notempty ≡ true
  AtPc v w exchange = w.notempty ≡ true
  AtPc v w (done d) = (get_count d < v.global) ⊎ Emptied v w
  AtPc v w _ = Unit

  pub record GetHolds (v : View D) (w : GetWindow D) : Type 0 where
    pub in_place : InPlace cfg w.place
    pub max_le : w.max ≤ v.global
    pub started : (i : ℕ) → i < cfg.width → w.base i ≤ v.puts i
    pub ahead : w.notempty ≡ true → scan_max w.pc w.max < v.put_max
    pub seen : w.notempty ≡ false → Seen cfg w.place (λ i. w.base i ≤ get_count (v.lanes i))
    pub at_pc : AtPc v w w.pc

  AtPc-Raised :
      {v v' : View D} (w : GetWindow D) (pc : GetPc D) → Raised v v' → AtPc v w pc → AtPc v' w pc
  AtPc-Raised w (read_rest d) r h = omega (arith, r.got w.place.index, r.put w.place.index)
  AtPc-Raised w (read_put d) r h = omega (arith, r.got w.place.index, r.put w.place.index)
  AtPc-Raised w (check d p) r h = omega (arith, r.got w.place.index, r.put w.place.index)
  AtPc-Raised w (done d) r (inl h) = inl (omega (arith, r.window))
  AtPc-Raised w (done d) r (inr h) = inr (λ i lt. omega (arith, h i lt, r.got i))
  AtPc-Raised w (enter _) r h = h
  AtPc-Raised w compare r h = h
  AtPc-Raised w sync r h = h
  AtPc-Raised w shift r h = h
  AtPc-Raised w exchange r h = h
  AtPc-Raised w _ r h = tt

  pub GetHolds-Raised :
      {v v' : View D} (w : GetWindow D) → Raised v v' → GetHolds v w → GetHolds v' w
  GetHolds-Raised w r h = record {
    in_place = h.in_place;
    max_le = omega (arith, r.window);
    started = λ i lt. omega (arith, r.put i, h.started i lt);
    ahead = λ e. omega (arith, r.put_window, h.ahead e);
    seen = λ e i lt b. omega (arith, r.got i, h.seen e i lt b);
    at_pc = AtPc-Raised w w.pc r h.at_pc;
  }

  pub start-GetHolds :
      {v : View D} (index max : ℕ) (contention : Bool) (base : ℕ → ℕ)
      → index < cfg.width
      → max ≤ v.global
      → ((i : ℕ) → i < cfg.width → base i ≤ v.puts i)
      → GetHolds v (start index max contention base)
  unfolding start
  start-GetHolds index max contention base lt le started = record {
    in_place = omega arith;
    max_le = le;
    started = started;
    ahead = λ e. cc;
    seen = λ _ i lt b. absurd (omega arith);
    at_pc = (refl, refl);
  }

  -- What a call that returns has found: a lane inside the window, or every lane emptied.
  pub returned-GetHolds :
      {v : View D} (w : GetWindow D) (d : D)
      → returned w.pc ≡ some d
      → GetHolds v w
      → (get_count d < v.global) ⊎ Emptied v w
  returned-GetHolds {v} w d e h = at w.pc e h.at_pc
    where
      at :
          (pc : GetPc D)
          → returned pc ≡ some d
          → AtPc v w pc
          → (get_count d < v.global) ⊎ Emptied v w
      at (done x) e (inl a) = inl (ground arith)
      at (done x) e (inr a) = inr a
      at _ e a = cc
