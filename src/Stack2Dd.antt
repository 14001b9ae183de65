-- ===== src/Stack2Dd.antt =====
-- src/2Dd-stack/2Dd-stack.c and 2Dd-stack.h: the decoupled stack, whose lanes are linked stacks under
-- the windows of include/2Dd-window.c. `get_array` and `put_array` are one array there. The children
-- hold the invariant, the theorems and the tests.
pub mod Inv
pub mod Moves
pub mod Steps
pub mod Laws
pub mod Races
mod Tests
use mathlib.Core.Option
use elastic_2d_relaxation.Prelude.{
  ℕ, suc, ◌/◌, ◌%◌, Bool, true, false, ◌&&◌, Option, none, some, List, [], ◌∷◌, if◌then◌else◌, ◌==◌,
  add32, update,
}
use elastic_2d_relaxation.Parameters.{Parameters, parameters}
use elastic_2d_relaxation.Interleave.{System}
use elastic_2d_relaxation.Search.{Config}
use elastic_2d_relaxation.Linked.{Node, create_node, size_upto, Event, pushed, popped, empty}
use elastic_2d_relaxation.Window2Dd.Put
use elastic_2d_relaxation.Window2Dd.Put.{PutWindow, put_window}
use elastic_2d_relaxation.Window2Dd.Get
use elastic_2d_relaxation.Window2Dd.Get.{GetWindow, get_window}

-- `descriptor_t`; the counts are of 32 bits.
pub record Descriptor : Type 0 where
  pub node : ℕ
  pub put_count : ℕ
  pub get_count : ℕ

abbrev pub node : Descriptor → ℕ
node d = d.node

abbrev pub put_count : Descriptor → ℕ
put_count d = d.put_count

abbrev pub get_count : Descriptor → ℕ
get_count d = d.get_count

-- A descriptor whose words were read one after the other: the node, and then the two counts.
abbrev pub tear : Descriptor → Descriptor → Descriptor
tear a b = record { node = a.node; put_count = b.put_count; get_count = b.get_count }

-- The comparison of the 16-byte compare-exchange.
abbrev pub same_descriptor : Descriptor → Descriptor → Bool
same_descriptor a b =
    (a.node == b.node) && (a.put_count == b.put_count) && (a.get_count == b.get_count)

-- The shared memory, with how many nodes have been published. No step reads `log`, the calls that
-- have taken effect, the last one first.
pub record Shared : Type 0 where
  pub lanes : ℕ → Descriptor
  pub put_max : ℕ
  pub get_max : ℕ
  pub nodes : ℕ → Node
  pub published : ℕ
  pub log : List Event

-- What a thread is doing. A window call that is done is followed by the compare-exchange of a push,
-- or by the read of the node below the top and then the compare-exchange of a pop.
pub data Pc : Type 0 where
  idle : Pc
  pushing : (key val : ℕ) → PutWindow Descriptor → Pc
  popping : GetWindow Descriptor → Pc
  taking : (index : ℕ) (descriptor : Descriptor) (next : ℕ) → Pc

-- `thread_index`, `thread_PWindow.max` and `thread_GWindow.max` between the calls.
pub record Local : Type 0 where
  pub index : ℕ
  pub put_max : ℕ
  pub get_max : ℕ
  pub pc : Pc

pub record Created : Type 0 where
  pub config : Config
  pub k_mode : ℕ
  pub relaxation_bound : ℕ
  pub system : System Shared Local

-- The windows are not initialised by `create_stack` and start at 0, as static storage does.
unfoldable pub fresh : System Shared Local
fresh = record {
  shared = record {
    lanes = λ _. record { node = 0; put_count = 0; get_count = 0 };
    put_max = 0;
    get_max = 0;
    nodes = λ _. record { key = 0; val = 0; next = 0 };
    published = 0;
    log = [];
  };
  locals = λ _. record { index = 0; put_max = 0; get_max = 0; pc = idle };
}

unfoldable pub create_stack : (num_threads width depth k_mode bound : ℕ) → Option Created
unfolding parameters fresh
create_stack num_threads width depth k_mode bound =
    Option.map
      (λ p. record {
        config = record { width = p.width; depth = p.depth; random_hops = 2; index_bits = 32 };
        k_mode = k_mode;
        relaxation_bound = p.relaxation_bound;
        system = fresh;
      })
      (parameters 3 num_threads width depth k_mode bound)

-- The put counts that `get_window` reads from the `put_array`.
abbrev pub put_counts : Shared → ℕ → ℕ
put_counts h i = (h.lanes i).put_count

-- `address` is the allocator's.
module _ (address : ℕ → ℕ) (cfg : Config) where
  -- `push` after `put_window` returned `d`: the compare-exchange, or another round.
  unfoldable pub try_push :
      Shared → Local → (key val : ℕ) → PutWindow Descriptor → Descriptor → Shared × Local
  unfolding create_node Put.start
  try_push h l key val w d =
      let i = w.place.index in
      let new : Descriptor = record d {
        node = address h.published;
        put_count = add32 d.put_count 1;
      } in
      let l' = record l { index = i; put_max = w.max; pc = idle } in
      if same_descriptor (h.lanes i) d
      then (
        record h {
          lanes = update h.lanes i new;
          nodes = update h.nodes (address h.published) (create_node key val d.node);
          published = suc h.published;
          log = pushed i val ∷ h.log;
        },
        l',
      )
      else (h, record l' { pc = pushing key val (Put.start i w.max true) })

  unfoldable pub push : ℕ → Shared → Local → (key val : ℕ) → PutWindow Descriptor → Shared × Local
  unfolding try_push put_window
  push choice h l key val w = elim (Put.returned w.pc) [
    | some d ↦ try_push h l key val w d
    | none ↦
        let (global, w') = put_window put_count tear cfg choice h.lanes h.put_max w in
        (record h { put_max = global }, record l { pc = pushing key val w' })
  ]

  -- `pop` after `get_window` returned `d`: the return for an empty lane, or the read of the node
  -- below the top.
  unfoldable pub start_take : Shared → Local → GetWindow Descriptor → Descriptor → Shared × Local
  start_take h l w d =
      let l' = record l { index = w.place.index; get_max = w.max; pc = idle } in
      if d.node == 0
      then (record h { log = empty ∷ h.log }, l')
      else (h, record l' { pc = taking w.place.index d (h.nodes d.node).next })

  -- The compare-exchange of `pop`. The value is read from a node that is then the thread's own.
  unfoldable pub take : Shared → Local → ℕ → Descriptor → ℕ → Shared × Local
  unfolding Get.start
  take h l i d next =
      let new : Descriptor = record d { node = next; get_count = add32 d.get_count 1 } in
      if same_descriptor (h.lanes i) d
      then (
        record h { lanes = update h.lanes i new; log = popped i (h.nodes d.node).val ∷ h.log },
        record l { pc = idle },
      )
      else (h, record l { pc = popping (Get.start i l.get_max true (put_counts h)) })

  unfoldable pub pop : ℕ → Shared → Local → GetWindow Descriptor → Shared × Local
  unfolding start_take get_window
  pop choice h l w = elim (Get.returned w.pc) [
    | some d ↦ start_take h l w d
    | none ↦
        let (global, w') =
          get_window get_count tear cfg choice h.lanes (put_counts h) h.get_max w in
        (record h { get_max = global }, record l { pc = popping w' })
  ]

  -- One step of a thread. An idle thread calls either operation, as `choice` has it, and pushes a
  -- value under itself as the key.
  unfoldable pub step_at : ℕ → Shared → Local → Pc → Shared × Local
  unfolding push pop take Put.start Get.start
  step_at choice h l idle =
      if choice % 2 == 0
      then (
        h,
        record l { pc = pushing (choice / 2) (choice / 2) (Put.start l.index l.put_max false) },
      )
      else (h, record l { pc = popping (Get.start l.index l.get_max false (put_counts h)) })
  step_at choice h l (pushing key val w) = push choice h l key val w
  step_at choice h l (popping w) = pop choice h l w
  step_at choice h l (taking i d next) = take h l i d next

  unfoldable pub step : ℕ → Shared → Local → Shared × Local
  unfolding step_at
  step choice h l = step_at choice h l l.pc

-- `stack_size`, with fuel for the nodes of a lane.
unfoldable pub stack_size : ℕ → Config → Shared → Option ℕ
unfolding size_upto
stack_size fuel cfg h = size_upto fuel h.nodes (λ i. (h.lanes i).node) cfg.width
