-- ===== src/Stack2Dc/Tests.antt =====
-- Runs of the coupled stack, and its theorems at them.
use elastic_2d_relaxation.Prelude.{
  suc, ◌≡◌, refl, true, some, [], ◌∷◌, ◌++◌, arith, length, if◌then◌else◌, ◌==◌,
}
use elastic_2d_relaxation.Search.{IsValid}
use elastic_2d_relaxation.Interleave.{steps, Schedule, run}
use elastic_2d_relaxation.Linked.{suc-IsAllocator, pushed, popped, empty, contents, Legal}
use elastic_2d_relaxation.Linked.Chains.{Chain}
use elastic_2d_relaxation.Window2Dc
use elastic_2d_relaxation.Window2Dc.{Call, initialize_global_window}
use elastic_2d_relaxation.Stack2Dc.{
  Created, fresh, create_stack, step, node, count, Shared, Descriptor, popping,
}
use elastic_2d_relaxation.Stack2Dc.Laws.{Fits, after, coupled_lane-Chain, coupled_pops-Legal}
use elastic_2d_relaxation.Stack2Dc.Races.{deep_stack_reads_empty}

-- Two lanes of depth 2, with a shift of 1.
abbrev stack : Created
stack = record {
  config = record { width = 2; depth = 2; random_hops = 2; index_bits = 16 };
  step_size = 1;
  k_mode = 0;
  relaxation_bound = 4;
  system = fresh 2;
}

stack-created : create_stack 1 2 2 0 0 ≡ some stack
unfolding create_stack
stack-created = refl

stack-IsValid : IsValid stack.config
stack-IsValid = omega arith

-- Pushes of thread 0, which push 0, and pops of thread 1, one begun in the midst of the pushes.
abbrev sched : Schedule
sched = steps 40 0 0 ++ steps 30 1 1 ++ steps 9 0 0 ++ steps 30 1 1

abbrev memory : Shared
memory = (after suc stack sched).shared

sched-Fits : Fits stack sched
sched-Fits = omega arith

coupled_lane-Chain_example :
    Chain suc memory.nodes memory.published (node (memory.lanes 0)) (contents memory.log 0)
    × (length (contents memory.log 0) ≡ count (memory.lanes 0))
coupled_lane-Chain_example =
    coupled_lane-Chain 1 2 2 0 0 stack-created stack-IsValid suc-IsAllocator sched sched-Fits 0
      (omega arith)

coupled_pops-Legal_example : Legal 2 memory.log
coupled_pops-Legal_example =
    coupled_pops-Legal 1 2 2 0 0 stack-created stack-IsValid suc-IsAllocator sched sched-Fits

-- Two lanes of depth 65537, for which the window starts at 1.
abbrev deep : Created
deep = record {
  config = record { width = 2; depth = 65537; random_hops = 2; index_bits = 16 };
  step_size = 32768;
  k_mode = 0;
  relaxation_bound = 131074;
  system = fresh 65537;
}

deep-created : create_stack 1 2 65537 0 0 ≡ some deep
unfolding create_stack
deep-created = refl

abbrev bare : Descriptor
bare = record { node = 0; count = 0 }

-- Lane 0 is empty, and lane 1 holds a node, in a window whose max is 1.
abbrev holding : Shared
holding = record (deep.system.shared) {
  lanes = λ i. if i == 0 then bare else record { node = 1; count = 1 };
  published = 1;
}

deep_stack_reads_empty_example :
    let (h, l) = step suc deep.config 32768 0 holding (record (deep.system.locals 0) {
      pc = popping (record {
        place = record { index = 0; hops = 0; random = 0 };
        window = initialize_global_window 65537;
        empty = true;
        pc = Window2Dc.check bare;
      });
    }) in
    (step suc deep.config 32768 0 h l).0 ≡ record holding { log = empty ∷ [] }
unfolding fresh
deep_stack_reads_empty_example =
    deep_stack_reads_empty suc deep.config 32768 0 0 holding (deep.system.locals 0)
      (record { index = 0; hops = 0; random = 0 }) bare (omega arith) (omega arith) refl refl refl

sched_log :
    memory.log
    ≡ popped 0 0
      ∷ popped 1 0
      ∷ pushed 0 0
      ∷ popped 1 0
      ∷ popped 0 0
      ∷ popped 0 0
      ∷ pushed 1 0
      ∷ pushed 1 0
      ∷ pushed 0 0
      ∷ pushed 0 0
      ∷ []
unfolding run step fresh
sched_log = refl
