-- ===== src/MultiStack.antt =====
-- src/multi-stack_random-relaxed/multi-stack_random-relaxed.c, built with NUM_CHOICES, and
-- src/stack-dra/stack-dra.c, which differs in the timestamps only: linked stacks whose operations work
-- on the best of some lanes drawn at random. The children hold the invariant, the theorems and the
-- tests.
pub mod Inv
pub mod Marked
pub mod Ranked
pub mod Moves
pub mod Steps
pub mod Laws
mod Tests
use mathlib.Core.Option
use elastic_2d_relaxation.Prelude.{
  ℕ, suc, ◌/◌, ◌%◌, Bool, true, false, not, ◌||◌, Option, List, [], ◌∷◌, if◌then◌else◌, ltb, ◌==◌,
  add64, update,
}
use elastic_2d_relaxation.Interleave.{System}
use elastic_2d_relaxation.Linked.{Node, create_node, size_upto, Event, pushed, popped, empty}

-- The shared memory: the lanes' top nodes, the nodes, and their timestamps by their addresses. No
-- step reads `log`, the calls that have taken effect, the last one first.
pub record Shared : Type 0 where
  pub lanes : ℕ → ℕ
  pub nodes : ℕ → Node
  pub stamps : ℕ → ℕ
  pub published : ℕ
  pub log : List Event

pub data Operation : Type 0 where
  push : (key val : ℕ) → Operation
  pop : Operation

-- Where a thread is, with the locals that are live there: `index` and `node` are the best so far,
-- `i` the loop's counter. No step reads `seen`, the ranks of the nodes read in this round.
pub data Pc : Type 0 where
  idle : Pc
  draw : Operation → Pc  -- the head of the operation's loop
  next : Operation → (i index node : ℕ) (seen : List ℕ) → Pc
  compare : Operation → (i index node index2 node2 : ℕ) (seen : List ℕ) → Pc
  attempt : Operation → (index node : ℕ) (seen : List ℕ) → Pc
  taking : (index node below : ℕ) → Pc

-- `create_stack`
unfoldable pub create_stack : System Shared Pc
create_stack = record {
  shared = record {
    lanes = λ _. 0;
    nodes = λ _. record { key = 0; val = 0; next = 0 };
    stamps = λ _. 0;
    published = 0;
    log = [];
  };
  locals = λ _. idle;
}

-- How a push ranks `NULL` and the nodes, the best first, and a pop, the best last.
abbrev pub rank : (ℕ → ℕ) → ℕ → ℕ
rank stamps node = if node == 0 then 0 else suc (stamps node)

-- `getticks()`, for the ticks `c`.
abbrev pub ticks : (stamps : ℕ → ℕ) (node c : ℕ) → ℕ
ticks stamps node c = c

-- The timestamp that the push of src/stack-dra sets above `node`.
unfoldable pub one_more : (stamps : ℕ → ℕ) (node c : ℕ) → ℕ
one_more stamps node c = if not (node == 0) then add64 (stamps node) 1 else 0

-- Whether the second node is taken in place of the first, in `get_push_index` and `get_pop_index`.
unfoldable pub better : Operation → (ℕ → ℕ) → (node node2 : ℕ) → Bool
better (push _ _) stamps node node2 = (node2 == 0) || ltb (stamps node2) (stamps node)
better pop stamps node node2 =
    if node == 0 then true else if node2 == 0 then false else ltb (stamps node) (stamps node2)

-- Where the loop goes with the node `node`: a push that has found an empty lane leaves it.
unfoldable pub onward : Operation → (i index node : ℕ) (seen : List ℕ) → Pc
onward (push key val) i index node seen =
    if node == 0
    then attempt (push key val) index node seen
    else next (push key val) i index node seen
onward pop i index node seen = next pop i index node seen

-- `address` is the allocator's, `stamp_for` the timestamp of a push, `choices` is NUM_CHOICES.
module _ (address : ℕ → ℕ) (stamp_for : (stamps : ℕ → ℕ) (node c : ℕ) → ℕ) (choices width : ℕ) where
  -- The rest of a round of `push`: the compare-exchange, with the ticks `c`.
  unfoldable pub try_push : ℕ → Shared → (key val index node : ℕ) → Shared × Pc
  unfolding create_node
  try_push c h key val index node =
      if h.lanes index == node
      then (
        record h {
          lanes = update h.lanes index (address h.published);
          nodes = update h.nodes (address h.published) (create_node key val node);
          stamps = update h.stamps (address h.published) (stamp_for h.stamps node c);
          published = suc h.published;
          log = pushed index val ∷ h.log;
        },
        idle,
      )
      else (h, draw (push key val))

  -- The rest of a round of `pop`: the return for an empty lane, or the read of the node below.
  unfoldable pub try_pop : Shared → (index node : ℕ) → Shared × Pc
  try_pop h index node =
      if not (node == 0)
      then (h, taking index node (h.nodes node).next)
      else (record h { log = empty ∷ h.log }, idle)

  -- The compare-exchange of `pop`.
  unfoldable pub take : Shared → (index node below : ℕ) → Shared × Pc
  take h index node below =
      if h.lanes index == node
      then (
        record h {
          lanes = update h.lanes index below;
          log = popped index (h.nodes node).val ∷ h.log;
        },
        idle,
      )
      else (h, draw pop)

  unfoldable pub attempt_at : ℕ → Shared → Operation → (index node : ℕ) → Shared × Pc
  unfolding try_push try_pop
  attempt_at c h (push key val) index node = try_push c h key val index node
  attempt_at c h pop index node = try_pop h index node

  -- One step of a thread. An idle thread calls either operation, as `choice` has it, and pushes a
  -- value under itself as the key; elsewhere `choice` is what the random generator or the clock
  -- yields. The timestamps of published nodes do not change, so two are read in one step.
  unfoldable pub step : ℕ → Shared → Pc → Shared × Pc
  unfolding better onward attempt_at take
  step choice h idle = (h, draw (if choice % 2 == 0 then push (choice / 2) (choice / 2) else pop))
  step choice h (draw op) =
      let index = choice % width in
      let node = h.lanes index in (h, onward op 1 index node (rank h.stamps node ∷ []))
  step choice h (next op i index node seen) =
      let index2 = choice % width in
      if ltb i choices
      then (h, compare op i index node index2 (h.lanes index2) seen)
      else (h, attempt op index node seen)
  step choice h (compare op i index node index2 node2 seen) =
      let seen' = rank h.stamps node2 ∷ seen in
      if better op h.stamps node node2
      then (h, onward op (suc i) index2 node2 seen')
      else (h, onward op (suc i) index node seen')
  step choice h (attempt op index node seen) = attempt_at choice h op index node
  step choice h (taking index node below) = take h index node below

-- A step of src/stack-dra, whose operations are the same but for the timestamp.
unfoldable pub dra_step : (address : ℕ → ℕ) (choices width : ℕ) → ℕ → Shared → Pc → Shared × Pc
unfolding step one_more
dra_step address choices width = step address one_more choices width

-- `stack_size`, with fuel for the nodes of a lane.
unfoldable pub stack_size : ℕ → ℕ → Shared → Option ℕ
unfolding size_upto
stack_size fuel width h = size_upto fuel h.nodes h.lanes width
