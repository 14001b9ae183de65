-- ===== src/MultiCounter/Laws.antt =====
-- What holds of the multi-counter after any interleaving of any number of threads.
use elastic_2d_relaxation.Prelude.{
  ℕ, zero, suc, ◌+◌, ◌^◌, ◌<◌, ◌≡◌, refl, Bool, List, arith, length, total, total-none,
}
use mathlib.Core.Path.{subst}
use elastic_2d_relaxation.Calls.{increments, decrements}
use elastic_2d_relaxation.Interleave.{System, Schedule, run, Sound, run-Sound}
use elastic_2d_relaxation.MultiCounter.{
  Descriptor, count, Operation, Pc, next, Shared, create_counter, step, size_upto,
}
use elastic_2d_relaxation.MultiCounter.Inv.{IsBest, Holds}
use elastic_2d_relaxation.MultiCounter.Steps.{rely_guarantee}

-- The memory, and the threads, after `sched`.
abbrev pub after : Bool → ℕ → ℕ → Schedule → System Shared Pc
after validate_size choices width sched =
    run (step validate_size choices width) sched create_counter

-- Without overflow the loop of `counter_size` is a sum.
size_upto-total :
    (n : ℕ) (lanes : ℕ → Descriptor)
    → total count n lanes < 2 ^ 64
    → size_upto n lanes ≡ total count n lanes
unfolding size_upto total
size_upto-total zero lanes small = refl
size_upto-total (suc n) lanes small = omega (arith, size_upto-total n lanes (omega arith))

module _ (validate_size : Bool) (choices : ℕ) {width : ℕ} (some_width : 0 < width)
    (sched : Schedule) (fits : length sched < 2 ^ 63) where
  created-Sound :
      Sound
        (rely_guarantee {width = width} validate_size choices some_width)
        (length sched)
        create_counter
  unfolding create_counter
  created-Sound = record {
    inv = record {
      log_room = omega (arith, fits);
      logged =
          omega (
            arith,
            total-none count width {f = λ _. record { count = 0; version = 0 }} (λ _. refl),
          );
    };
    holds = λ _. tt;
  }

  after-Sound :
      Sound
        (rely_guarantee {width = width} validate_size choices some_width)
        0
        (after validate_size choices width sched)
  after-Sound =
      run-Sound (rely_guarantee {width = width} validate_size choices some_width) sched
        create_counter created-Sound

  abbrev memory : Shared
  memory = (after validate_size choices width sched).shared

  -- `counter_size`, run alone, is the increments less the decrements that took effect.
  pub multi_size-conserved :
      size_upto width memory.lanes + decrements memory.log ≡ increments memory.log
  multi_size-conserved = omega (
    arith,
    after-Sound.inv.logged,
    after-Sound.inv.log_room,
    size_upto-total width memory.lanes
        (omega (arith, after-Sound.inv.logged, after-Sound.inv.log_room)),
  )

  -- The descriptor that an operation works on has the least count that was read in its round, or,
  -- for a decrement, the greatest.
  pub chosen-IsBest :
      (thread : ℕ) (op : Operation) (i index : ℕ) (d : Descriptor) (seen : List ℕ)
      → ((after validate_size choices width sched).locals thread ≡ next op i index d seen)
      → IsBest op d.count seen × (length seen ≡ i)
  chosen-IsBest thread op i index d seen e = (k.2, k.3)
    where
      k : Holds width memory (next op i index d seen)
      k = subst (Holds width memory) e (after-Sound.holds thread)
