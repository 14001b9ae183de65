-- ===== src/Counter2Dc/Inv.antt =====
-- The invariant of the coupled counter, and what every thread knows.
use elastic_2d_relaxation.Calls.{increments, decrements}
use elastic_2d_relaxation.Prelude.{ℕ, ◌+◌, ◌*◌, ◌^◌, ◌<◌, ◌≡◌, arith, total, le-total}
use elastic_2d_relaxation.Search.{Config}
use elastic_2d_relaxation.Window2Dc.Holds.{Aligned, Copied, PutHolds, GetHolds}
use elastic_2d_relaxation.Counter2Dc.{count, Shared, Pc, idle, incrementing, decrementing, Local}

module _ (cfg : Config) (step_size : ℕ) where
  -- The invariant with `n` steps to go; `room` and `log_room` say that no counter wraps in them.
  pub record Inv (n : ℕ) (h : Shared) : Type 0 where
    pub aligned : Aligned cfg step_size h.window
    pub room : h.window.max + n * step_size < 2 ^ 64
    pub log_room : increments h.log + n + cfg.depth < 2 ^ 64
    pub logged : total count cfg.width h.lanes + decrements h.log ≡ increments h.log

  abbrev pub AtPc : Pc → Type 0
  AtPc idle = Unit
  AtPc (incrementing w) = PutHolds count cfg step_size w
  AtPc (decrementing w) = GetHolds count cfg step_size w

  -- It is about the thread alone, so no other thread can spoil it.
  pub record Holds (h : Shared) (l : Local) : Type 0 where
    pub index_in : l.index < cfg.width
    pub copied : Copied cfg step_size l.window
    pub at_pc : AtPc l.pc

  -- The lanes are as small as the log is short.
  pub small :
      {n : ℕ} {h : Shared}
      → Inv n h
      → (i : ℕ) → i < cfg.width
      → count (h.lanes i) + cfg.depth < 2 ^ 64
  small {n} {h} v i lt = omega (arith, v.logged, v.log_room, le-total count cfg.width h.lanes i lt)

  -- What a step that ends in `h'` and `l'` owes.
  abbrev pub Kept : ℕ → Shared × Local → Type 0
  Kept n out = Inv n out.0 × Holds out.0 out.1 × Unit {0}
