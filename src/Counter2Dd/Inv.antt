-- ===== src/Counter2Dd/Inv.antt =====
-- The invariant of the decoupled counter, and what every thread knows.
use elastic_2d_relaxation.Calls.{increments, decrements}
use elastic_2d_relaxation.Prelude.{ℕ, ◌+◌, ◌*◌, ◌^◌, ◌≤◌, ◌<◌, ◌≡◌, ap, arith, total}
use elastic_2d_relaxation.Search.{Config}
use elastic_2d_relaxation.Window2Dd.PutHolds.{InWindow, PutHolds, PutHolds-Raised}
use elastic_2d_relaxation.Window2Dd.GetHolds.{View, InStep, GetHolds, GetHolds-Raised}
use elastic_2d_relaxation.Counter2Dd.{
  Descriptor, put_count, get_count, put_counts, Shared, Pc, idle, incrementing, decrementing, Local,
}

-- The part of the memory that `get_window` looks at.
abbrev pub view : Shared → View Descriptor
view h = record { lanes = h.lanes; puts = put_counts h; global = h.get_max; put_max = h.put_max }

module _ (cfg : Config) where
  -- The invariant with `n` steps to go; `room` and `log_room` say that no counter wraps in them.
  pub record Inv (n : ℕ) (h : Shared) : Type 0 where
    pub in_window : InWindow cfg (put_counts h) h.put_max
    pub in_step : InStep get_count cfg (view h)
    pub room : h.put_max + n * cfg.depth < 2 ^ 64
    pub log_room : increments h.log + n < 2 ^ 64
    pub puts_logged : total put_count cfg.width h.lanes ≡ increments h.log
    pub gets_logged : total get_count cfg.width h.lanes ≡ decrements h.log

  abbrev pub AtPc : Shared → Pc → Type 0
  AtPc h idle = Unit
  AtPc h (incrementing w) = PutHolds put_count cfg h.lanes h.put_max w
  AtPc h (decrementing w) = GetHolds get_count cfg (view h) w

  pub record Holds (h : Shared) (l : Local) : Type 0 where
    pub index_in : l.index < cfg.width
    pub put_le : l.put_max ≤ h.put_max
    pub get_le : l.get_max ≤ h.get_max
    pub at_pc : AtPc h l.pc

  -- No step lowers a window or a count.
  pub record Grows (h h' : Shared) : Type 0 where
    pub put_window : h.put_max ≤ h'.put_max
    pub get_window : h.get_max ≤ h'.get_max
    pub puts : (i : ℕ) → (h.lanes i).put_count ≤ (h'.lanes i).put_count
    pub gets : (i : ℕ) → (h.lanes i).get_count ≤ (h'.lanes i).get_count

  AtPc-Grows : {h h' : Shared} (pc : Pc) → Grows h h' → AtPc h pc → AtPc h' pc
  AtPc-Grows idle g a = tt
  AtPc-Grows (incrementing w) g a =
      PutHolds-Raised put_count cfg w (record { window = g.put_window; counts = g.puts }) a
  AtPc-Grows (decrementing w) g a =
      GetHolds-Raised get_count cfg w
        (record { window = g.get_window; put_window = g.put_window; got = g.gets; put = g.puts }) a

  pub Holds-Grows : (h h' : Shared) (l : Local) → Grows h h' → Holds h l → Holds h' l
  Holds-Grows h h' l g k = record {
    index_in = k.index_in;
    put_le = omega (arith, g.put_window);
    get_le = omega (arith, g.get_window);
    at_pc = AtPc-Grows l.pc g k.at_pc;
  }

  Grows-refl :
      {h h' : Shared}
      → h.lanes ≡ h'.lanes
      → h.put_max ≡ h'.put_max
      → h.get_max ≡ h'.get_max
      → Grows h h'
  Grows-refl {h} {h'} e p g = record {
    put_window = omega arith;
    get_window = omega arith;
    puts = λ i. ground (arith, ap (λ (f : ℕ → Descriptor). (f i).put_count) e);
    gets = λ i. ground (arith, ap (λ (f : ℕ → Descriptor). (f i).get_count) e);
  }

  -- What a step that ends in `h'` and `l'` owes.
  abbrev pub Kept : ℕ → Shared → Shared × Local → Type 0
  Kept n h out = Inv n out.0 × Holds out.0 out.1 × Grows h out.0
