-- ===== src/Stack2Dc/Laws.antt =====
-- What holds of the coupled stack after any interleaving of any number of threads.
use elastic_2d_relaxation.Prelude.{
  ℕ, suc, ◌+◌, ◌-◌, ◌*◌, ◌^◌, ◌<◌, ◌≡◌, refl, some, inr, arith, length, map-some_all,
}
use elastic_2d_relaxation.Parameters.{parameters, shift_for-pos}
use elastic_2d_relaxation.Search.{IsValid}
use elastic_2d_relaxation.Linked.{IsAllocator, contents, Legal, pushes, pops}
use elastic_2d_relaxation.Linked.Chains.{Chain}
use elastic_2d_relaxation.Linked.Sizes.{size_upto-Linked}
use elastic_2d_relaxation.Window2Dc.{initialize_global_window}
use elastic_2d_relaxation.Interleave.{System, Schedule, run, Sound, run-Sound}
use elastic_2d_relaxation.Stack2Dc.{
  node, count, Shared, Local, Created, fresh, create_stack, step, stack_size,
}
use elastic_2d_relaxation.Stack2Dc.Inv.{Inv}
use elastic_2d_relaxation.Stack2Dc.Steps.{rely_guarantee}

-- A depth that `initialize_global_window` can hold, and so short a schedule that no 64-bit counter
-- can wrap.
abbrev pub Fits : Created → Schedule → Type 0
Fits c sched =
    (c.config.depth < 2 ^ 16)
    × (c.config.depth + length sched * c.step_size < 2 ^ 64)
    × (length sched + c.config.depth < 2 ^ 64)

-- The memory, and the threads, after `sched`.
abbrev pub after : (ℕ → ℕ) → Created → Schedule → System Shared Local
after address c sched = run (step address c.config c.step_size) sched c.system

-- What `create_stack` sets up.
abbrev SetUp : Created → Type 0
SetUp c = (c.system ≡ fresh c.config.depth) × (0 < c.step_size)

create_stack-SetUp : (t w d m b : ℕ) {c : Created} → create_stack t w d m b ≡ some c → SetUp c
unfolding create_stack
create_stack-SetUp t w d m b e =
    map-some_all SetUp _ (parameters 2 t w d m b) (λ p. (refl, shift_for-pos p.depth)) e

module _ (t w d m b : ℕ) {c : Created} (made : create_stack t w d m b ≡ some c)
    (valid : IsValid c.config) {address : ℕ → ℕ} (alloc : IsAllocator address) (sched : Schedule)
    (fits : Fits c sched) where
  set_up : SetUp c
  set_up = create_stack-SetUp t w d m b made

  created-Sound : Sound (rely_guarantee c.step_size alloc valid set_up.1) (length sched) c.system
  unfolding fresh initialize_global_window contents
  created-Sound = rw set_up.0 (record {
    inv = record {
      roomy = record {
        aligned = (0, omega (arith, fits.0), omega (arith, fits.0));
        room = omega (arith, fits.0, fits.1);
      };
      linked = record { chains = λ i lt. refl; legal = tt };
      heights = λ i lt. refl;
      log_room = omega (arith, fits.2);
    };
    holds = λ _. record { index_in = valid.some_width; copied = inr refl; at_pc = tt };
  })

  after-Sound : Sound (rely_guarantee c.step_size alloc valid set_up.1) 0 (after address c sched)
  after-Sound =
      run-Sound (rely_guarantee c.step_size alloc valid set_up.1) sched c.system created-Sound

  abbrev memory : Shared
  memory = (after address c sched).shared

  inv : Inv address c.config c.step_size 0 memory
  inv = after-Sound.inv

  -- Every lane is a linked list of what was pushed to it and not popped, the last push first, and
  -- its count is the length of that list.
  pub coupled_lane-Chain :
      (i : ℕ)
      → i < c.config.width
      → Chain address memory.nodes memory.published (node (memory.lanes i)) (contents memory.log i)
        × (length (contents memory.log i) ≡ count (memory.lanes i))
  coupled_lane-Chain i lt = (inv.linked.chains i lt, inv.heights i lt)

  -- Every pop that has taken effect returned what was on top of its lane: the last value that was
  -- pushed there and not popped.
  pub coupled_pops-Legal : Legal c.config.width memory.log
  coupled_pops-Legal = inv.linked.legal

  -- `stack_size`, run alone with fuel for all nodes that were pushed, ends with the pushes less the
  -- pops.
  coupled_stack_size-conserved :
      stack_size (suc (pushes memory.log)) c.config memory
      ≡ some (pushes memory.log - pops memory.log)
  unfolding stack_size
  coupled_stack_size-conserved =
      size_upto-Linked address c.config.width inv.linked (omega (arith, inv.log_room))
