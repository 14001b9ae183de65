-- ===== src/Queue2Dd.antt =====
-- src/2Dd-queue/2Dd-queue.c and 2Dd-queue.h: the decoupled queue, whose lanes are linked queues with
-- a sentinel under the windows of include/2Dd-window.c. A lane's tail may lag one node behind; any
-- thread that meets such a tail helps it on. The children hold the invariant, the theorems and the
-- tests.
pub mod Step
pub mod Lines
pub mod Fifo
pub mod Inv
pub mod Moves
pub mod Ends
pub mod Links
pub mod Enqueue
pub mod Dequeue
pub mod Steps
pub mod Laws
mod Tests
use mathlib.Core.Option
use elastic_2d_relaxation.Prelude.{
  ℕ, suc, ◌+◌, ◌/◌, ◌%◌, Bool, true, false, ◌&&◌, Option, none, some, List, [], ◌∷◌, if◌then◌else◌,
  ltb, leb, ◌==◌, add64, mul64, update,
}
use elastic_2d_relaxation.Parameters.{Parameters, for_width, width_for, single_lane}
use elastic_2d_relaxation.Interleave.{System}
use elastic_2d_relaxation.Search.{Config}
use elastic_2d_relaxation.Linked.{Node, create_node}
use elastic_2d_relaxation.Window2Dd.{initialize_global_window}
use elastic_2d_relaxation.Window2Dd.Put
use elastic_2d_relaxation.Window2Dd.Put.{PutWindow, put_window}
use elastic_2d_relaxation.Window2Dd.Get
use elastic_2d_relaxation.Window2Dd.Get.{GetWindow, get_window}

-- `descriptor_t`; the two counts are a union there.
pub record Descriptor : Type 0 where
  pub node : ℕ
  pub count : ℕ

abbrev pub node : Descriptor → ℕ
node d = d.node

abbrev pub count : Descriptor → ℕ
count d = d.count

-- A descriptor whose words were read one after the other: the node, and then the count.
abbrev pub tear : Descriptor → Descriptor → Descriptor
tear a b = record { node = a.node; count = b.count }

-- The comparison of the 16-byte compare-exchange.
abbrev pub same_descriptor : Descriptor → Descriptor → Bool
same_descriptor a b = (a.node == b.node) && (a.count == b.count)

-- A call that has taken effect, with the lane that it worked on.
pub data Event : Type 0 where
  enqueued : (lane val : ℕ) → Event
  dequeued : (lane val : ℕ) → Event
  empty : Event  -- `dequeue` returned 0 for an empty queue

-- The shared memory. No step reads the history: `log`, the calls that have taken effect, the last one
-- first, and `line i k`, the node that was put into lane `i` after `k` others, of which it has had
-- `len i` after its sentinel.
pub record Shared : Type 0 where
  pub put_array : ℕ → Descriptor
  pub get_array : ℕ → Descriptor
  pub put_max : ℕ
  pub get_max : ℕ
  pub nodes : ℕ → Node
  pub published : ℕ
  pub line : ℕ → ℕ → ℕ
  pub len : ℕ → ℕ
  pub log : List Event

-- What a thread is doing, with the locals that are live there.
pub data Pc : Type 0 where
  idle : Pc
  enqueueing : (key val : ℕ) (contention : Bool) → PutWindow Descriptor → Pc
  -- `tail->next` was `NULL`; before the second test of the window
  checking : (key val : ℕ) (contention : Bool) → Descriptor → Pc
  linking : (key val : ℕ) (contention : Bool) → Descriptor → Pc
  helping : (key val : ℕ) (contention : Bool) → Descriptor → (next : ℕ) → Pc
  swinging : Descriptor → (new_node : ℕ) → Pc  -- the last compare-exchange of `enqueue`
  dequeueing : (contention : Bool) → GetWindow Descriptor → Pc
  -- between the words of `enq_descriptor`
  tail_rest : (contention : Bool) (deq_descriptor : Descriptor) (tail : ℕ) → Pc
  -- before the read of `head->next`
  compare : (contention : Bool) (deq_descriptor enq_descriptor : Descriptor) → Pc
  catching : (contention : Bool) (enq_descriptor : Descriptor) (next : ℕ) → Pc
  advancing : (contention : Bool) (deq_descriptor : Descriptor) (next : ℕ) → Pc

-- `thread_index`, `thread_PWindow.max` and `thread_GWindow.max`.
pub record Local : Type 0 where
  pub index : ℕ
  pub put_max : ℕ
  pub get_max : ℕ
  pub pc : Pc

pub record Created : Type 0 where
  pub config : Config
  pub k_mode : ℕ
  pub relaxation_bound : ℕ
  pub system : System Shared Local

-- The width is a `uint32_t` there.
abbrev pub narrow : Parameters → Parameters
narrow p = record p { width = p.width % 4294967296 }

unfoldable pub parameters : (num_threads width depth k_mode bound : ℕ) → Option Parameters
unfolding for_width width_for single_lane
parameters num_threads width depth k_mode bound =
    if k_mode == 3
    then Option.map narrow (for_width 1 (mul64 num_threads width % 4294967296) bound)
    else if k_mode == 2
    then Option.map
        (λ (w : ℕ).
          if ltb (w % 4294967296) 1
          then single_lane bound
          else record { width = w % 4294967296; depth = depth; relaxation_bound = bound })
        (width_for 1 depth bound)
    else if k_mode == 1
    then Option.map narrow (for_width 1 width bound)
    else if k_mode == 0
    then some (record {
      width = width;
      depth = depth;
      relaxation_bound = mul64 depth ((width + 4294967295) % 4294967296);
    })
    else some (record { width = width; depth = depth; relaxation_bound = bound })

-- The sentinel of lane `i` is the `i`-th node.
unfoldable pub fresh : (address : ℕ → ℕ) (width depth : ℕ) → System Shared Local
unfolding initialize_global_window
fresh address width depth =
    let (put_max, get_max) = initialize_global_window depth in
    record {
      shared = record {
        put_array = λ i. record { node = address i; count = 0 };
        get_array = λ i. record { node = address i; count = 0 };
        put_max = put_max;
        get_max = get_max;
        nodes = λ _. record { key = 0; val = 0; next = 0 };
        published = width;
        line = λ i _. address i;
        len = λ _. 0;
        log = [];
      };
      locals = λ _. record { index = 0; put_max = 0; get_max = 0; pc = idle };
    }

unfoldable pub create_queue :
    (address : ℕ → ℕ) (num_threads width depth k_mode bound : ℕ) → Option Created
unfolding parameters fresh
create_queue address num_threads width depth k_mode bound =
    Option.map
      (λ p. record {
        config = record { width = p.width; depth = p.depth; random_hops = 2; index_bits = 32 };
        k_mode = k_mode;
        relaxation_bound = p.relaxation_bound;
        system = fresh address p.width p.depth;
      })
      (parameters num_threads width depth k_mode bound)
