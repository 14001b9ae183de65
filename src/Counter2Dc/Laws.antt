-- ===== src/Counter2Dc/Laws.antt =====
-- What holds of the coupled counter after any interleaving of any number of threads.
use elastic_2d_relaxation.Prelude.{
  ℕ, zero, suc, ◌+◌, ◌*◌, ◌^◌, ◌<◌, ◌≡◌, refl, Bool, true, some, ◌⊎◌, inr, arith, leb, length,
  total, total-none, map-some_all,
}
use mathlib.Core.Path.{subst}
use elastic_2d_relaxation.Calls.{increments, decrements}
use elastic_2d_relaxation.Parameters.{parameters, shift_for-pos}
use elastic_2d_relaxation.Search.{IsValid}
use elastic_2d_relaxation.Window2Dc.{Call, returned, lowered, shift}
use elastic_2d_relaxation.Window2Dc.Holds.{returned-PutHolds, returned-GetHolds}
use elastic_2d_relaxation.Window2Dc.GetBounds.{shift_allowed}
use elastic_2d_relaxation.Interleave.{System, Schedule, run, Sound, run-Sound}
use elastic_2d_relaxation.Counter2Dc.{
  Descriptor, count, Shared, Local, incrementing, decrementing, Created, fresh, create_counter,
  step, size_upto, counter_size,
}
use elastic_2d_relaxation.Counter2Dc.Inv.{Inv, AtPc}
use elastic_2d_relaxation.Counter2Dc.Steps.{rely_guarantee}

-- So short a schedule that no 64-bit counter can wrap.
abbrev pub Fits : Created → Schedule → Type 0
Fits c sched =
    (c.config.depth + length sched * c.step_size < 2 ^ 64)
    × (length sched + c.config.depth < 2 ^ 64)

-- The memory, and a thread, after `sched`.
abbrev pub after : Bool → Created → Schedule → System Shared Local
after validate_size c sched = run (step validate_size c.config c.step_size) sched c.system

-- What `create_counter` sets up.
abbrev pub SetUp : Created → Type 0
SetUp c = (c.system ≡ fresh c.config.depth) × (0 < c.step_size)

pub create_counter-SetUp :
    (t w d m b : ℕ) {c : Created} → create_counter t w d m b ≡ some c → SetUp c
unfolding create_counter
create_counter-SetUp t w d m b e =
    map-some_all SetUp _ (parameters 2 t w d m b) (λ p. (refl, shift_for-pos p.depth)) e

-- Without overflow the loop of `counter_size` is a sum.
size_upto-total :
    (n : ℕ) (lanes : ℕ → Descriptor)
    → total count n lanes < 2 ^ 64
    → size_upto n lanes ≡ total count n lanes
unfolding size_upto total
size_upto-total zero lanes small = refl
size_upto-total (suc n) lanes small = omega (arith, size_upto-total n lanes (omega arith))

module _ (t width d m b : ℕ) {c : Created} (made : create_counter t width d m b ≡ some c)
    (valid : IsValid c.config) (validate_size : Bool) (sched : Schedule) (fits : Fits c sched) where
  set_up : SetUp c
  set_up = create_counter-SetUp t width d m b made

  created-Sound :
      Sound (rely_guarantee c.step_size validate_size valid set_up.1) (length sched) c.system
  unfolding fresh
  created-Sound = rw set_up.0 (record {
    inv = record {
      aligned = (0, omega arith, omega (arith, fits.1));
      room = fits.0;
      log_room = omega (arith, fits.1);
      logged =
          omega
            (arith, total-none count c.config.width {f = λ _. record { count = 0 }} (λ _. refl));
    };
    holds = λ _. record { index_in = valid.some_width; copied = inr refl; at_pc = tt };
  })

  after-Sound :
      Sound
        (rely_guarantee c.step_size validate_size valid set_up.1)
        0
        (after validate_size c sched)
  after-Sound =
      run-Sound (rely_guarantee c.step_size validate_size valid set_up.1) sched c.system
        created-Sound

  abbrev memory : Shared
  memory = (after validate_size c sched).shared

  inv : Inv c.config c.step_size 0 memory
  inv = after-Sound.inv

  -- The window stays whole shifts above the depth, so never below the depth.
  pub window_in_steps : (k : ℕ) × (memory.window.max ≡ c.config.depth + k * c.step_size)
  window_in_steps = (inv.aligned.0, inv.aligned.1)

  -- `counter_size`, run alone, is the increments less the decrements that took effect.
  pub coupled_size-conserved :
      counter_size c.config memory + decrements memory.log ≡ increments memory.log
  unfolding counter_size
  coupled_size-conserved = omega (
    arith,
    inv.logged,
    inv.log_room,
    size_upto-total c.config.width memory.lanes (omega (arith, inv.logged, inv.log_room)),
  )

  module _ (thread : ℕ) (w : Call Descriptor) where
    -- A `get_window` that has come to its shift, after a round that met an element, is never kept
    -- from it by the test of the new window against the depth.
    pub shift_never_blocked :
        (((after validate_size c sched).locals thread).pc ≡ decrementing w)
        → w.pc ≡ shift
        → leb c.config.depth (lowered c.step_size w.window).max ≡ true
    shift_never_blocked e s =
        shift_allowed c.config c.step_size w set_up.1
          (subst (AtPc c.config c.step_size) e (after-Sound.holds thread).at_pc) s

    -- A `put_window` that has returned holds a descriptor below the window that the thread read.
    put_returns_below :
        (found : Descriptor)
        → (((after validate_size c sched).locals thread).pc ≡ incrementing w)
        → returned w.pc ≡ some found
        → count found < w.window.max
    put_returns_below found e r =
        returned-PutHolds count c.config c.step_size w found r
          (subst (AtPc c.config c.step_size) e (after-Sound.holds thread).at_pc)

    -- A `get_window` that has returned holds a descriptor inside the window that the thread read,
    -- or its last round met no element.
    get_returns_inside :
        (found : Descriptor)
        → (((after validate_size c sched).locals thread).pc ≡ decrementing w)
        → returned w.pc ≡ some found
        → (w.window.max < count found + c.config.depth) ⊎ (w.empty ≡ true)
    get_returns_inside found e r =
        returned-GetHolds count c.config c.step_size w found r
          (subst (AtPc c.config c.step_size) e (after-Sound.holds thread).at_pc)
