-- ===== src/Counter2Dd/Laws.antt =====
-- What holds of the decoupled counter after any interleaving of any number of threads.
use elastic_2d_relaxation.Calls.{increments, decrements}
use elastic_2d_relaxation.Prelude.{
  ℕ, zero, suc, ◌+◌, ◌-◌, ◌*◌, ◌^◌, ◌≤◌, ◌<◌, ◌≡◌, refl, Bool, Option, none, some, ◌⊎◌, arith, ap,
  length, total, total-none, total-le_but_one,
}
use mathlib.Core.Option
use mathlib.Core.Path.{subst}
use elastic_2d_relaxation.Counter2Dd.Inv
use elastic_2d_relaxation.Parameters.{parameters}
use elastic_2d_relaxation.Search.{Config, IsValid}
use elastic_2d_relaxation.Window2Dd.Get
use elastic_2d_relaxation.Window2Dd.Get.{GetWindow}
use elastic_2d_relaxation.Window2Dd.GetHolds.{returned-GetHolds}
use elastic_2d_relaxation.Interleave.{System, Schedule, run, Sound, run-Sound}
use elastic_2d_relaxation.Counter2Dd.{
  Descriptor, put_count, get_count, put_counts, Shared, Local, decrementing, Created, fresh,
  create_counter, step, size_upto, counter_size,
}
use elastic_2d_relaxation.Counter2Dd.Inv.{view, Inv, Holds}
use elastic_2d_relaxation.Counter2Dd.Steps.{rely_guarantee}

-- So short a schedule that no 64-bit counter can wrap.
abbrev pub Fits : Config → Schedule → Type 0
Fits cfg sched = (length sched * cfg.depth < 2 ^ 64) × (length sched < 2 ^ 64)

-- The memory, and a thread, after `sched`.
abbrev pub after : Bool → Created → Schedule → System Shared Local
after validate_size c sched = run (step validate_size c.config) sched c.system

fresh-Inv : (cfg : Config) (n : ℕ) → n * cfg.depth < 2 ^ 64 → n < 2 ^ 64 → Inv cfg n fresh.shared
fresh-Inv cfg n room log_room = record {
  in_window = record { upper = λ i lt. omega arith; lower = λ i lt. omega arith };
  in_step = record {
    got_le = λ i lt. omega arith;
    put_le = λ i lt. omega arith;
    behind_put = omega arith;
    get_steps = (0, omega arith);
    put_steps = (0, omega arith);
  };
  room = omega arith;
  log_room = omega arith;
  puts_logged = total-none put_count cfg.width (λ _. refl);
  gets_logged = total-none get_count cfg.width (λ _. refl);
}

map-fresh :
    {A : Type 0} (f : A → Created) (o : Option A) {c : Created}
    → ((a : A) → (f a).system ≡ fresh)
    → Option.map f o ≡ some c
    → c.system ≡ fresh
map-fresh f none h e = cc
map-fresh f (some a) h e = cc (h a)

create_counter-fresh :
    (t w d m b : ℕ) {c : Created} → create_counter t w d m b ≡ some c → c.system ≡ fresh
unfolding create_counter
create_counter-fresh t w d m b e = map-fresh _ (parameters 2 t w d m b) (λ _. refl) e

-- Without overflow the loop of `counter_size` is a subtraction of sums.
size_upto-total :
    (n : ℕ) (lanes : ℕ → Descriptor)
    → ((i : ℕ) → i < n → get_count (lanes i) ≤ put_count (lanes i))
    → total put_count n lanes < 2 ^ 64
    → size_upto n lanes + total get_count n lanes ≡ total put_count n lanes
unfolding size_upto total
size_upto-total zero lanes le small = refl
size_upto-total (suc n) lanes le small =
    omega
      (arith, le n (omega arith), size_upto-total n lanes (λ i q. le i (omega arith)) (omega arith))

module _ (t w d m b : ℕ) {c : Created} (made : create_counter t w d m b ≡ some c)
    (valid : IsValid c.config) (validate_size : Bool) (sched : Schedule)
    (fits : Fits c.config sched) where
  created-Sound : Sound (rely_guarantee validate_size valid) (length sched) c.system
  created-Sound = rw (create_counter-fresh t w d m b made) (record {
    inv = fresh-Inv c.config (length sched) fits.0 fits.1;
    holds = λ _. record {
      index_in = valid.some_width;
      put_le = omega arith;
      get_le = omega arith;
      at_pc = tt;
    };
  })

  after-Sound : Sound (rely_guarantee validate_size valid) 0 (after validate_size c sched)
  after-Sound = run-Sound (rely_guarantee validate_size valid) sched c.system created-Sound

  abbrev memory : Shared
  memory = (after validate_size c sched).shared

  inv : Inv c.config 0 memory
  inv = after-Sound.inv

  -- No lane is above the put window, and none is more than its depth below.
  pub lanes_in_window :
      (i : ℕ)
      → i < c.config.width
      → (put_counts memory i ≤ memory.put_max)
        × (memory.put_max ≤ put_counts memory i + c.config.depth)
  lanes_in_window i lt = (inv.in_window.upper i lt, inv.in_window.lower i lt)

  -- The increments that took effect are at most what the lane `j` has in each lane, and `depth`
  -- more in each of the other `width - 1` lanes.
  pub increments_relaxed :
      (j : ℕ)
      → j < c.config.width
      → increments memory.log
        ≤ c.config.width * put_counts memory j + c.config.depth * (c.config.width - 1)
  increments_relaxed j lt =
      omega (arith, inv.puts_logged, bound, ap (λ (x : ℕ). c.config.depth * x) whole)
    where
      bound :
          total put_count c.config.width memory.lanes + c.config.depth
          ≤ c.config.width * put_counts memory j + c.config.width * c.config.depth
      bound =
          total-le_but_one put_count c.config.width (put_counts memory j) c.config.depth j
            memory.lanes (λ i q. omega (arith, inv.in_window.upper i q, inv.in_window.lower j lt))
            (omega arith) lt

      whole : c.config.width ≡ (c.config.width - 1) + 1
      whole = omega (arith, valid.some_width)

  -- A lane has had no more gets than puts, and the get window is not past the put window.
  counts_ordered :
      (i : ℕ)
      → i < c.config.width
      → (get_count (memory.lanes i) ≤ put_counts memory i) × (memory.get_max ≤ memory.put_max)
  counts_ordered i lt = (inv.in_step.got_le i lt, inv.in_step.behind_put)

  -- `counter_size`, run alone, is the increments less the decrements that took effect.
  pub counter_size-conserved :
      counter_size c.config memory + decrements memory.log ≡ increments memory.log
  unfolding counter_size
  counter_size-conserved = omega (
    arith,
    inv.puts_logged,
    inv.gets_logged,
    size_upto-total c.config.width memory.lanes inv.in_step.got_le
        (omega (arith, inv.puts_logged, inv.log_room)),
  )

  -- A `get_window` that has returned holds a descriptor inside the get window, or every lane has
  -- had as many gets as it had puts when the call began.
  pub get_window_returns :
      (thread : ℕ) (w : GetWindow Descriptor) (d : Descriptor)
      → (((after validate_size c sched).locals thread).pc ≡ decrementing w)
      → Get.returned w.pc ≡ some d
      → (get_count d < memory.get_max)
        ⊎ ((i : ℕ) → i < c.config.width → w.base i ≤ get_count (memory.lanes i))
  get_window_returns thread w d e r =
      returned-GetHolds get_count c.config w d r
        (subst (Inv.AtPc c.config memory) e (after-Sound.holds thread).at_pc)
