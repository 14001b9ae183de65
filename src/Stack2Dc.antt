-- ===== src/Stack2Dc.antt =====
-- src/2Dc-stack/2Dc-stack.c and 2Dc-stack.h: the coupled stack, whose lanes are linked stacks under
-- the window of include/2Dc-window.c. The children hold the invariant, the theorems and the tests.
pub mod Inv
pub mod Moves
pub mod Steps
pub mod Laws
pub mod Races
mod Tests
use mathlib.Core.Option
use elastic_2d_relaxation.Prelude.{
  ℕ, suc, ◌/◌, ◌%◌, Bool, true, false, ◌&&◌, Option, none, some, List, [], ◌∷◌, if◌then◌else◌, ltb,
  ◌==◌, add64, sub64, update,
}
use elastic_2d_relaxation.Parameters.{Parameters, parameters, shift_for}
use elastic_2d_relaxation.Interleave.{System}
use elastic_2d_relaxation.Search.{Config}
use elastic_2d_relaxation.Linked.{Node, create_node, size_upto, Event, pushed, popped, empty}
use elastic_2d_relaxation.Window2Dc.{
  Window, initialize_global_window, Call, start, returned, put_window, get_window,
}

-- `descriptor_t`
pub record Descriptor : Type 0 where
  pub node : ℕ
  pub count : ℕ

abbrev pub node : Descriptor → ℕ
node d = d.node

abbrev pub count : Descriptor → ℕ
count d = d.count

-- A descriptor whose words were read one after the other: the node, and then the count.
abbrev pub tear : Descriptor → Descriptor → Descriptor
tear a b = record { node = a.node; count = b.count }

-- The comparison of the 16-byte compare-exchange.
abbrev pub same_descriptor : Descriptor → Descriptor → Bool
same_descriptor a b = (a.node == b.node) && (a.count == b.count)

-- The shared memory, with how many nodes have been published. No step reads `log`, the calls that
-- have taken effect, the last one first.
pub record Shared : Type 0 where
  pub lanes : ℕ → Descriptor
  pub window : Window
  pub nodes : ℕ → Node
  pub published : ℕ
  pub log : List Event

-- What a thread is doing. A window call that is done is followed by the compare-exchange of a push,
-- or by the read of the node below the top and then the compare-exchange of a pop.
pub data Pc : Type 0 where
  idle : Pc
  pushing : (key val : ℕ) → Call Descriptor → Pc
  popping : Call Descriptor → Pc
  taking : (index : ℕ) (descriptor : Descriptor) (next : ℕ) → Pc

-- `thread_index` and `thread_Window` between the calls.
pub record Local : Type 0 where
  pub index : ℕ
  pub window : Window
  pub pc : Pc

pub record Created : Type 0 where
  pub config : Config
  pub step_size : ℕ
  pub k_mode : ℕ
  pub relaxation_bound : ℕ
  pub system : System Shared Local

-- The threads' copies of the window are in static storage.
unfoldable pub fresh : ℕ → System Shared Local
unfolding initialize_global_window
fresh depth = record {
  shared = record {
    lanes = λ _. record { node = 0; count = 0 };
    window = initialize_global_window depth;
    nodes = λ _. record { key = 0; val = 0; next = 0 };
    published = 0;
    log = [];
  };
  locals = λ _. record { index = 0; window = record { max = 0; version = 0 }; pc = idle };
}

unfoldable pub create_stack : (num_threads width depth k_mode bound : ℕ) → Option Created
unfolding parameters shift_for fresh
create_stack num_threads width depth k_mode bound =
    Option.map
      (λ p. record {
        config = record { width = p.width; depth = p.depth; random_hops = 2; index_bits = 16 };
        step_size = shift_for p.depth;
        k_mode = k_mode;
        relaxation_bound = p.relaxation_bound;
        system = fresh p.depth;
      })
      (parameters 2 num_threads width depth k_mode bound)

-- `address` is the allocator's, `step_size` the field `shift`.
module _ (address : ℕ → ℕ) (cfg : Config) (step_size : ℕ) where
  -- `push` after `put_window` returned `d`: the compare-exchange, or another round.
  unfoldable pub try_push :
      Shared → Local → (key val : ℕ) → Call Descriptor → Descriptor → Shared × Local
  unfolding create_node start
  try_push h l key val w d =
      let i = w.place.index in
      let new : Descriptor = record { node = address h.published; count = add64 d.count 1 } in
      let l' : Local = record { index = i; window = w.window; pc = idle } in
      if same_descriptor (h.lanes i) d
      then (
        record h {
          lanes = update h.lanes i new;
          nodes = update h.nodes (address h.published) (create_node key val d.node);
          published = suc h.published;
          log = pushed i val ∷ h.log;
        },
        l',
      )
      else (h, record l' { pc = pushing key val (start i w.window true) })

  unfoldable pub push : ℕ → Shared → Local → (key val : ℕ) → Call Descriptor → Shared × Local
  unfolding try_push put_window
  push choice h l key val w = elim (returned w.pc) [
    | some d ↦ try_push h l key val w d
    | none ↦
        let (global, w') = put_window count tear cfg step_size choice h.lanes h.window w in
        (record h { window = global }, record l { pc = pushing key val w' })
  ]

  -- `pop` after `get_window` returned `d`: the return for an empty lane, or the read of the node
  -- below the top.
  unfoldable pub start_take : Shared → Local → Call Descriptor → Descriptor → Shared × Local
  start_take h l w d =
      let l' : Local = record { index = w.place.index; window = w.window; pc = idle } in
      if d.node == 0
      then (record h { log = empty ∷ h.log }, l')
      else (h, record l' { pc = taking w.place.index d (h.nodes d.node).next })

  -- The compare-exchange of `pop`. The value is read from a node that is then the thread's own.
  unfoldable pub take : Shared → Local → ℕ → Descriptor → ℕ → Shared × Local
  unfolding start
  take h l i d next =
      let new : Descriptor = record { node = next; count = sub64 d.count 1 } in
      if same_descriptor (h.lanes i) d
      then (
        record h { lanes = update h.lanes i new; log = popped i (h.nodes d.node).val ∷ h.log },
        record l { pc = idle },
      )
      else (h, record l { pc = popping (start i l.window true) })

  unfoldable pub pop : ℕ → Shared → Local → Call Descriptor → Shared × Local
  unfolding start_take get_window
  pop choice h l w = elim (returned w.pc) [
    | some d ↦ start_take h l w d
    | none ↦
        let (global, w') = get_window count tear cfg step_size choice h.lanes h.window w in
        (record h { window = global }, record l { pc = popping w' })
  ]

  -- One step of a thread. An idle thread calls either operation, as `choice` has it, and pushes a
  -- value under itself as the key.
  unfoldable pub step_at : ℕ → Shared → Local → Pc → Shared × Local
  unfolding push pop take start
  step_at choice h l idle =
      if choice % 2 == 0
      then (h, record l { pc = pushing (choice / 2) (choice / 2) (start l.index l.window false) })
      else (h, record l { pc = popping (start l.index l.window false) })
  step_at choice h l (pushing key val w) = push choice h l key val w
  step_at choice h l (popping w) = pop choice h l w
  step_at choice h l (taking i d next) = take h l i d next

  unfoldable pub step : ℕ → Shared → Local → Shared × Local
  unfolding step_at
  step choice h l = step_at choice h l l.pc

-- `stack_size`, with fuel for the nodes of a lane.
unfoldable pub stack_size : ℕ → Config → Shared → Option ℕ
unfolding size_upto
stack_size fuel cfg h = size_upto fuel h.nodes (λ i. (h.lanes i).node) cfg.width
