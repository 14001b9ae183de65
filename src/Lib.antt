-- ===== src/Lib.antt =====
-- The 2D framework of relaxed concurrent data structures (C): what its windows, and the counters,
-- stacks and queue built on them, do under any interleaving of threads.
--
-- The program. A 2D structure is an array of `width` lanes, each a small lock-free structure whose
-- descriptor counts its operations. A window says how far the lanes may run apart: an operation
-- asks the window code for a lane that is inside, and compare-exchanges the lane's descriptor. If a
-- whole round of lanes finds none inside, the window is shifted. The decoupled designs (2Dd) have a
-- window for puts and one for gets, which only rise; the coupled ones (2Dc) have a single window,
-- which rises and falls.
--
-- The files, with the code that each is about.
--   Prelude     the names shared by all; uint64_t arithmetic (`add64`, `sub64`, `mul64`), and sums
--               over families of lanes
--   Interleave  threads that share a memory: `turn` and `run` of a schedule, and the rely-guarantee
--               interface (`RelyGuarantee`) that a component fills; a thread that runs alone
--   Calls       the history of returned calls, which no code reads
--   Parameters  how `create_*` of the static designs turns the relaxation mode and bound into a
--               width and a depth
--   Search      `hop` and `random_index` of include/2Dd-window.c and include/2Dc-window.c
--   Window2Dd   `put_window` and `get_window` of include/2Dd-window.c, in Put and Get; PutHolds and
--               GetHolds have what a thread knows at each place, PutBounds and GetBounds what a step
--               keeps, Solo and PutSolo a thread that runs alone, Lanes and Relaxed the lanes under
--               both windows, Held and PutHeld what is known of the descriptor at hand
--   Counter2Dd  `create_counter`, `increment`, `decrement` and `counter_size` of
--               src/2Dd-counter/2Dd-counter.c; Inv, Moves, Counts, Steps, Laws, Races
--   Window2Dc   `put_window` and `get_window` of include/2Dc-window.c; Holds, Slides, PutBounds,
--               GetBounds, Moves and Held
--   Counter2Dc  the same operations of src/2Dc-counter/2Dc-counter.c; Inv, Moves, Steps, Laws, Races
--   Linked      the nodes of the stacks' lanes: `create_node` and the loops of `stack_size`; Chains
--               has the chains of pointers and what a push and a pop make of them, Lanes the lanes
--               against the history, Sizes what `stack_size` yields
--   Stack2Dd    `create_stack`, `push`, `pop` and `stack_size` of src/2Dd-stack/2Dd-stack.c; Inv,
--               Moves, Steps, Laws, Races
--   Stack2Dc    the same operations of src/2Dc-stack/2Dc-stack.c, in the same modules
--   Queue2Dd    `create_queue`, and in Step `enqueue`, `dequeue` and `queue_size`, of
--               src/2Dd-queue/2Dd-queue.c; Lines has the nodes of the lanes by their places, Fifo
--               the history, Moves, Ends and Links what the steps do, Enqueue, Dequeue and Steps
--               that they keep the invariant, Laws
--   WindowLpw   the windows of the elastic queue, `put_window` and `get_window` of
--               src/2Dd-queue_elastic-lpw/2Dd-window_elastic.c, in PutStep and GetStep, and in
--               Lateral the lateral of lateral_queue.c, the list of the rows at which the width
--               changes; Step has the calls, Inv and Holds what is kept, Stable, Enqueues, Puts,
--               Announces, Swings, Shifts, Gets, GetShifts and Steps that it is, Laws
--   Relaxation  include/relaxation_analysis_queue.c, the sequential lists that measure how far a
--               dequeue was from the front; Chains, Finds, Lists, Distances and Removals have the
--               linked lists, Laws the calls against a reference on lists, Bounds and Maxima the
--               printed maximum, Queues the histories of Queue2Dd, RoundTrip a value added and removed
--   MultiStack  src/multi-stack_random-relaxed/multi-stack_random-relaxed.c and
--               src/stack-dra/stack-dra.c, stacks without a window; Inv, Marked, Ranked, Steps and
--               Laws
--   Controller  the elastic controller of src/2Dd-queue_elastic-lpw/controller.h, whose 16-bit
--               fields are in two's complement
--   MultiCounter src/multi-counter_random-relaxed/multi-counter_random-relaxed.c, a counter without a
--               window that the framework is compared with: the best of some lanes drawn at random;
--               Inv, Steps and Laws
--
-- How code is modelled. A step of a thread makes at most one access to the shared memory: a read,
-- or a compare-exchange. The place where a call stands, with the locals that are live there, is a
-- constructor of `Pc`. A descriptor of two words is read in two steps, and a compare-exchange is
-- one; the copy of the coupled window is read in one, as its comment says it may be. Memory is
-- sequentially consistent. (A step of the multi-stack reads two timestamps, which do not change,
-- and fields of nodes that do not change are read with the access before.) A step takes a number,
-- `choice`, for what the random generator yields if the step draws one; a thread that is idle
-- begins either operation, as the number has it. The window code is a function of the descriptor
-- type with its count, as the C text is included under `DS_TYPE`; `tear` says what two reads of one
-- descriptor make. The counters of statistics (`my_hop_count` and others), latency measurement and
-- allocation failure are left out, and VALIDATESIZE is a parameter.
--
-- Nodes. The allocator is third-party code, and so a parameter: `address k` is the address of the
-- k-th node that is published, and no two coincide (`IsAllocator`), since a node that was freed is
-- not handed out again while a thread may hold its address. A node is its thread's own until the
-- compare-exchange that publishes it, so its address is drawn there. RELAXATION_ANALYSIS is off in
-- the structures, and Relaxation has what it calls. An idle thread that pushes takes its value for
-- the key too, which no code reads.
--
-- The elastic windows are read in two words, one after the other, as in the source. The operations
-- on the lanes are not part of that model: a read of a lane's count yields any number, the step's.
-- An idle thread may also change the width or the depth to come, to a number of 16 bits that is not
-- 0.
--
-- History. `log` in the memory has the calls that took effect, in a stack or a queue with the lane;
-- `line` and `len` in the queue's memory have the nodes of every lane in their order; `base` in a
-- `get_window` call of the decoupled window has the put counts when the call began; `rows` in the
-- elastic memory has the width of the put window that a row belonged to; `seen` in the
-- multi-counter and the multi-stack has what a round has read. No step reads any of them.
--
-- Bounds. Words of 64 bits wrap in the model. The theorems about runs assume a schedule so short
-- that no count or window can reach 2 ^ 64 (`Fits`); a step adds at most one to a count and one
-- shift to a window. The multi-counter's counts are signed, and its runs shorter than 2 ^ 63 steps.
-- Widths fit the parameter of `random_index` (`IsValid`). The 2Dd-stack counts in 32 bits, and its
-- runs are shorter than 2 ^ 32 steps. A loop of an operation is a sequence of steps and needs no
-- fuel; `stack_size` has fuel for the nodes of a lane, and one more than were ever pushed is
-- enough; `queue_size` is given its fuel as an argument; that a lone `put_window` ends is a
-- theorem, with the steps that are enough. In include/2Dc-window.c `get_window` declares `hops` and
-- `random` in 16 bits and hands them to `hop` as 64-bit ones; they are plain counters in the model.
--
-- In the elastic windows a shift of the put window adds less than 2 ^ 16 rows. `remove_linear` has
-- fuel for the nodes that were allocated, and fails only where the source does. A value of the lists
-- is an `sval_t`, a signed number of 64 bits, and stands as its bit pattern; the maximum is the
-- signed one.
--
-- Not modelled: enqueue, dequeue and queue_size of the elastic queues over their lanes; the elastic
-- queue whose lateral is the window; the elastic stack; the deques; the optimised variants; the
-- other comparison designs; the benchmarks, the scripts, the memory allocator, and include/utils.h
-- and its kin; the mean and the variance of the relaxation analysis, which are long doubles. The
-- multi-counter and the multi-stack are modelled as they are built with NUM_CHOICES.
pub mod Prelude
pub mod Interleave
pub mod Search
pub mod Window2Dd
pub mod WindowLpw
pub mod Parameters
pub mod Counter2Dd
pub mod Window2Dc
pub mod Calls
pub mod Counter2Dc
pub mod Controller
pub mod MultiCounter
pub mod Linked
pub mod Stack2Dd
pub mod Stack2Dc
pub mod MultiStack
pub mod Queue2Dd
pub mod Relaxation
