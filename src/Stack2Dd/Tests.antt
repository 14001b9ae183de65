-- ===== src/Stack2Dd/Tests.antt =====
-- Runs of the decoupled stack, and its theorems at them.
use elastic_2d_relaxation.Prelude.{
  suc, ◌+◌, ◌-◌, ◌*◌, ◌≤◌, ◌≡◌, ◌≢◌, ℕ, refl, some, [], ◌∷◌, ◌++◌, arith, length,
}
use elastic_2d_relaxation.Search.{IsValid}
use elastic_2d_relaxation.Interleave.{System, steps, Schedule, run}
use elastic_2d_relaxation.Linked.{suc-IsAllocator, pushed, popped, contents, Legal, pushes, pops}
use elastic_2d_relaxation.Linked.Chains.{Chain}
use elastic_2d_relaxation.Stack2Dd.{
  Created, fresh, create_stack, step, stack_size, node, get_count, put_counts, Shared, Local,
}
use elastic_2d_relaxation.Stack2Dd.Races.{pushes_of, wide_window_never_fills}
use elastic_2d_relaxation.Stack2Dd.Laws.{
  Fits, after, lane-Chain, pops-Legal, stack_size-conserved, pushes_relaxed,
}

-- Two lanes of depth 2.
abbrev stack : Created
stack = record {
  config = record { width = 2; depth = 2; random_hops = 2; index_bits = 32 };
  k_mode = 0;
  relaxation_bound = 6;
  system = fresh;
}

stack-created : create_stack 1 2 2 0 0 ≡ some stack
unfolding create_stack
stack-created = refl

stack-IsValid : IsValid stack.config
stack-IsValid = omega arith

-- Pushes of thread 0, which push 0, and pops of thread 1, one begun in the midst of the pushes.
abbrev sched : Schedule
sched = steps 40 0 0 ++ steps 30 1 1 ++ steps 9 0 0 ++ steps 30 1 1

abbrev memory : Shared
memory = (after suc stack sched).shared

sched_log :
    memory.log ≡ popped 1 0 ∷ popped 0 0 ∷ popped 0 0 ∷ pushed 1 0 ∷ pushed 0 0 ∷ pushed 0 0 ∷ []
unfolding run step fresh
sched_log = refl

sched-Fits : Fits stack.config sched
sched-Fits = omega arith

lane-Chain_example :
    Chain suc memory.nodes memory.published (node (memory.lanes 0)) (contents memory.log 0)
    × (length (contents memory.log 0) + get_count (memory.lanes 0) ≡ put_counts memory 0)
lane-Chain_example =
    lane-Chain 1 2 2 0 0 stack-created stack-IsValid suc-IsAllocator sched sched-Fits 0
      (omega arith)

pops-Legal_example : Legal 2 memory.log
pops-Legal_example =
    pops-Legal 1 2 2 0 0 stack-created stack-IsValid suc-IsAllocator sched sched-Fits

stack_size-conserved_example :
    stack_size (suc (pushes memory.log)) stack.config memory
    ≡ some (pushes memory.log - pops memory.log)
stack_size-conserved_example =
    stack_size-conserved 1 2 2 0 0 stack-created stack-IsValid suc-IsAllocator sched sched-Fits

pushes_relaxed_example :
    (put_counts memory 1 ≤ memory.put_max)
    × (memory.put_max ≤ put_counts memory 1 + 2)
    × (pushes memory.log ≤ 2 * put_counts memory 1 + 2 * (2 - 1))
pushes_relaxed_example =
    pushes_relaxed 1 2 2 0 0 stack-created stack-IsValid suc-IsAllocator sched sched-Fits 1
      (omega arith)

-- Two empty lanes that have had one push less than 2 ^ 32, in windows that end there.
abbrev full : System Shared Local
full = record {
  shared = record (fresh.shared) {
    lanes = λ _. record { node = 0; put_count = 4294967295; get_count = 4294967295 };
    put_max = 4294967296;
    get_max = 4294967296;
  };
  locals = λ _. record (fresh.locals 0) { put_max = 4294967296 };
}

wide_window_never_fills_example :
    let h = (run (step suc stack.config) (pushes_of 0 (7 ∷ 8 ∷ 9 ∷ [])) full).shared in
    (h.log ≡ pushed 0 9 ∷ pushed 0 8 ∷ pushed 0 7 ∷ [])
    × (h.put_max ≡ 4294967296)
    × (put_counts h 0 ≡ 2)
    × ((j : ℕ) → j ≢ 0 → h.lanes j ≡ full.shared.lanes j)
unfolding fresh
wide_window_never_fills_example =
    wide_window_never_fills suc stack.config 0 (7 ∷ 8 ∷ 9 ∷ []) full (omega arith) (omega arith)
      refl refl
