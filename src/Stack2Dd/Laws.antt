-- ===== src/Stack2Dd/Laws.antt =====
-- What holds of the decoupled stack after any interleaving of any number of threads.
use elastic_2d_relaxation.Prelude.{
  ℕ, suc, ◌+◌, ◌-◌, ◌*◌, ◌^◌, ◌≤◌, ◌<◌, ◌≡◌, refl, some, ◌⊎◌, arith, length, total-none,
  map-some_all,
}
use mathlib.Core.Path.{subst}
use elastic_2d_relaxation.Parameters.{parameters}
use elastic_2d_relaxation.Search.{Config, IsValid}
use elastic_2d_relaxation.Linked.{IsAllocator, contents, Legal, pushes, pops}
use elastic_2d_relaxation.Linked.Chains.{Chain}
use elastic_2d_relaxation.Linked.Sizes.{size_upto-Linked}
use elastic_2d_relaxation.Window2Dd.Get
use elastic_2d_relaxation.Window2Dd.Get.{GetWindow}
use elastic_2d_relaxation.Window2Dd.GetHolds.{returned-GetHolds}
use elastic_2d_relaxation.Window2Dd.Relaxed.{puts_relaxed}
use elastic_2d_relaxation.Interleave.{System, Schedule, run, Sound, run-Sound}
use elastic_2d_relaxation.Stack2Dd.{
  Descriptor, node, put_count, get_count, put_counts, Shared, Local, popping, Created, fresh,
  create_stack, step, stack_size,
}
use elastic_2d_relaxation.Stack2Dd.Inv
use elastic_2d_relaxation.Stack2Dd.Inv.{Inv}
use elastic_2d_relaxation.Stack2Dd.Steps.{rely_guarantee}

-- So short a schedule that no window of 64 bits and no count of 32 bits can wrap.
abbrev pub Fits : Config → Schedule → Type 0
Fits cfg sched = (length sched * cfg.depth < 2 ^ 64) × (length sched < 2 ^ 32)

-- The memory, and the threads, after `sched`.
abbrev pub after : (ℕ → ℕ) → Created → Schedule → System Shared Local
after address c sched = run (step address c.config) sched c.system

fresh-Inv :
    (address : ℕ → ℕ) (cfg : Config) (n : ℕ)
    → n * cfg.depth < 2 ^ 64
    → n < 2 ^ 32
    → Inv address cfg n fresh.shared
unfolding fresh contents
fresh-Inv address cfg n room log_room = record {
  in_lanes = record {
    in_window = record { upper = λ i lt. omega arith; lower = λ i lt. omega arith };
    in_step = record {
      got_le = λ i lt. omega arith;
      put_le = λ i lt. omega arith;
      behind_put = omega arith;
      get_steps = (0, omega arith);
      put_steps = (0, omega arith);
    };
    room = omega arith;
    puts_logged = total-none put_count cfg.width (λ _. refl);
    gets_logged = total-none get_count cfg.width (λ _. refl);
  };
  linked = record { chains = λ i lt. refl; legal = tt };
  heights = λ i lt. omega arith;
  log_room = omega arith;
}

create_stack-fresh :
    (t w d m b : ℕ) {c : Created} → create_stack t w d m b ≡ some c → c.system ≡ fresh
unfolding create_stack
create_stack-fresh t w d m b e =
    map-some_all (λ c. c.system ≡ fresh) _ (parameters 3 t w d m b) (λ _. refl) e

module _ (t w d m b : ℕ) {c : Created} (made : create_stack t w d m b ≡ some c)
    (valid : IsValid c.config) {address : ℕ → ℕ} (alloc : IsAllocator address) (sched : Schedule)
    (fits : Fits c.config sched) where
  created-Sound : Sound (rely_guarantee alloc valid) (length sched) c.system
  unfolding fresh
  created-Sound = rw (create_stack-fresh t w d m b made) (record {
    inv = fresh-Inv address c.config (length sched) fits.0 fits.1;
    holds = λ _. record {
      index_in = valid.some_width;
      put_le = omega arith;
      get_le = omega arith;
      at_pc = tt;
    };
  })

  after-Sound : Sound (rely_guarantee alloc valid) 0 (after address c sched)
  after-Sound = run-Sound (rely_guarantee alloc valid) sched c.system created-Sound

  abbrev memory : Shared
  memory = (after address c sched).shared

  inv : Inv address c.config 0 memory
  inv = after-Sound.inv

  -- Every lane is a linked list of what was pushed to it and not popped, the last push first, and
  -- its put count is the length of that list and its get count.
  pub lane-Chain :
      (i : ℕ)
      → i < c.config.width
      → Chain address memory.nodes memory.published (node (memory.lanes i)) (contents memory.log i)
        × (length (contents memory.log i) + get_count (memory.lanes i) ≡ put_counts memory i)
  lane-Chain i lt = (inv.linked.chains i lt, inv.heights i lt)

  -- Every pop that has taken effect returned what was on top of its lane: the last value that was
  -- pushed there and not popped.
  pub pops-Legal : Legal c.config.width memory.log
  pops-Legal = inv.linked.legal

  -- `stack_size`, run alone with fuel for all nodes that were pushed, ends with the pushes less the
  -- pops.
  pub stack_size-conserved :
      stack_size (suc (pushes memory.log)) c.config memory
      ≡ some (pushes memory.log - pops memory.log)
  unfolding stack_size
  stack_size-conserved =
      size_upto-Linked address c.config.width inv.linked (omega (arith, inv.log_room))

  -- No lane is above the put window or more than its depth below it, and so the pushes are at most
  -- what the lane `j` has had in each lane, and `depth` more in each of the others.
  pub pushes_relaxed :
      (j : ℕ)
      → j < c.config.width
      → (put_counts memory j ≤ memory.put_max)
        × (memory.put_max ≤ put_counts memory j + c.config.depth)
        × (pushes memory.log
            ≤ c.config.width * put_counts memory j + c.config.depth * (c.config.width - 1))
  pushes_relaxed j lt = (
    inv.in_lanes.in_window.upper j lt,
    inv.in_lanes.in_window.lower j lt,
    puts_relaxed put_count get_count c.config 0 memory.lanes memory.lanes memory.put_max
        memory.get_max (pushes memory.log) (pops memory.log) inv.in_lanes valid j lt,
  )

  -- A `get_window` of a pop that has returned holds a descriptor inside the get window, or every
  -- lane has had as many pops as it had pushes when the call began.
  pop_window_returns :
      (thread : ℕ) (call : GetWindow Descriptor) (found : Descriptor)
      → (((after address c sched).locals thread).pc ≡ popping call)
      → Get.returned call.pc ≡ some found
      → (get_count found < memory.get_max)
        ⊎ ((i : ℕ) → i < c.config.width → call.base i ≤ get_count (memory.lanes i))
  pop_window_returns thread call found e r =
      returned-GetHolds get_count c.config call found r
        (subst (Inv.AtPc address c.config memory) e (after-Sound.holds thread).at_pc).0
