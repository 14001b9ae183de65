-- ===== src/MultiStack/Laws.antt =====
-- What holds of the multi-stack, and of the stack of src/stack-dra, after any interleaving of any
-- number of threads.
use elastic_2d_relaxation.Prelude.{
  ℕ, suc, ◌-◌, ◌^◌, ◌<◌, ◌≡◌, ◌≢◌, refl, some, List, [], ◌∷◌, arith, length, ap,
}
use mathlib.Core.Path.{subst}
use elastic_2d_relaxation.Linked.{IsAllocator, contents, Legal, pushes, pops}
use elastic_2d_relaxation.Linked.Chains.{Chain}
use elastic_2d_relaxation.Linked.Sizes.{size_upto-Linked}
use elastic_2d_relaxation.Interleave.{System, Schedule, run, Sound, run-Sound}
use elastic_2d_relaxation.MultiStack.{
  Operation, Pc, attempt, Shared, create_stack, rank, ticks, one_more, step, dra_step, stack_size,
}
use elastic_2d_relaxation.MultiStack.Inv.{Marks, Marked, IsRanked, Inv, Holds}
use elastic_2d_relaxation.MultiStack.Steps.{rely_guarantee}

-- The clock's ticks mark nothing.
pub ticks-Marks : Marks ticks (λ _ _. Unit)
ticks-Marks = record { lowest = λ stamps c. tt; above = λ stamps node c n nz lt k. tt }

-- The timestamps of src/stack-dra count the nodes below.
pub one_more-Marks : Marks one_more (λ stamp height. stamp ≡ height)
unfolding one_more
one_more-Marks = record {
  lowest = λ stamps c. refl;
  above = λ stamps node c n nz lt k. ground (arith, k);
}

-- The memory, and the threads, after `sched`.
abbrev pub after :
    (ℕ → ℕ)
    → ((stamps : ℕ → ℕ) (node c : ℕ) → ℕ)
    → (choices width : ℕ) → Schedule
    → System Shared Pc
after address stamp_for choices width sched =
    run (step address stamp_for choices width) sched create_stack

module _ {address : ℕ → ℕ} (alloc : IsAllocator address) {mark : ℕ → ℕ → Type 0}
    {stamp_for : (stamps : ℕ → ℕ) (node c : ℕ) → ℕ} (law : Marks stamp_for mark) (choices : ℕ)
    {width : ℕ} (some_width : 0 < width) (sched : Schedule) (fits : length sched < 2 ^ 64) where
  created-Sound :
      Sound
        (rely_guarantee {width = width} choices alloc law some_width)
        (length sched)
        create_stack
  unfolding create_stack contents
  created-Sound = record {
    inv = record {
      linked = record { chains = λ i lt. refl; legal = tt };
      marked = λ i lt. tt;
      log_room = omega (arith, fits);
    };
    holds = λ _. tt;
  }

  after-Sound :
      Sound
        (rely_guarantee {width = width} choices alloc law some_width)
        0
        (after address stamp_for choices width sched)
  after-Sound =
      run-Sound (rely_guarantee {width = width} choices alloc law some_width) sched create_stack
        created-Sound

  abbrev memory : Shared
  memory = (after address stamp_for choices width sched).shared

  inv : Inv address mark width 0 memory
  inv = after-Sound.inv

  -- Every pop that has taken effect returned what was on top of its lane, the last value that was
  -- pushed there and not popped.
  pub multi_pops-Legal : Legal width memory.log
  multi_pops-Legal = inv.linked.legal

  -- `stack_size`, run alone with fuel for all nodes that were pushed, ends with the pushes less the
  -- pops.
  multi_stack_size-conserved :
      stack_size (suc (pushes memory.log)) width memory ≡ some (pushes memory.log - pops memory.log)
  unfolding stack_size
  multi_stack_size-conserved =
      size_upto-Linked address width inv.linked (omega (arith, inv.log_room))

  -- The node that an operation has chosen has the least rank of all that it read in its round, or,
  -- for a pop, the greatest: `NULL` ranks lowest, and then the nodes by their timestamps.
  pub chosen-IsRanked :
      (thread : ℕ) (op : Operation) (index node : ℕ) (seen : List ℕ)
      → ((after address stamp_for choices width sched).locals thread ≡ attempt op index node seen)
      → IsRanked op (rank memory.stamps node) seen
  chosen-IsRanked thread op index node seen e =
      (subst (Holds address mark width memory) e (after-Sound.holds thread)).ranked

-- The timestamp above a chain with the stamps of src/stack-dra.
top_stamp :
    (address : ℕ → ℕ) (h : Shared) (n p : ℕ) (vs : List ℕ)
    → Chain address h.nodes n p vs
    → Marked (λ stamp height. stamp ≡ height) h.nodes h.stamps p vs
    → p ≢ 0
    → suc (h.stamps p) ≡ length vs
top_stamp address h n p [] c k nz = absurd (nz c)
top_stamp address h n p (v ∷ vs) c k nz = ap suc k.0

-- The memory of src/stack-dra after `sched`.
abbrev pub dra_memory : (address : ℕ → ℕ) (choices width : ℕ) → Schedule → Shared
dra_memory address choices width sched =
    (run (dra_step address choices width) sched create_stack).shared

-- In src/stack-dra the timestamp of the top node of a lane is one less than the height of the lane,
-- so the operations there compare lanes by their heights.
pub dra_stamps_heights :
    {address : ℕ → ℕ} (alloc : IsAllocator address) (choices : ℕ) {width : ℕ}
    (some_width : 0 < width) (sched : Schedule) (fits : length sched < 2 ^ 64) (i : ℕ)
    → i < width
    → (dra_memory address choices width sched).lanes i ≢ 0
    → suc (
        (dra_memory address choices width sched).stamps
          ((dra_memory address choices width sched).lanes i))
      ≡ length (contents (dra_memory address choices width sched).log i)
unfolding dra_step
dra_stamps_heights {address} alloc choices {width} some_width sched fits i lt nz =
    top_stamp address (dra_memory address choices width sched) _ _ _ (v.linked.chains i lt)
      (v.marked i lt) nz
  where
    v :
        Inv address
          (λ stamp height. stamp ≡ height)
          width
          0
          (dra_memory address choices width sched)
    v = inv alloc one_more-Marks choices some_width sched fits
