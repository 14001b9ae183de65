-- ===== src/WindowLpw.antt =====
-- src/2Dd-queue_elastic-lpw: the windows of the elastic queue (2Dd-window_elastic.c and .h) and the
-- lateral (lateral_queue.c and .h), the linked list of the rows at which the width changes. The
-- children hold the code, one access to shared memory a step, what a thread knows in it, the
-- invariant, and the laws.
pub mod Lateral
pub mod PutStep
pub mod GetStep
pub mod Step
pub mod Inv
pub mod Holds
pub mod Stable
pub mod Enqueues
pub mod Puts
pub mod Announces
pub mod Swings
pub mod Shifts
pub mod Gets
pub mod GetShifts
pub mod Steps
pub mod Laws
mod Tests
use elastic_2d_relaxation.Prelude.{
  ℕ, Bool, true, false, ◌&&◌, if◌then◌else◌, leb, ◌==◌, add64, sub64,
}

-- `put_window_t` without its padding. The first word is `max`, the second holds the other fields.
pub record PutContent : Type 0 where
  pub max : ℕ
  pub depth : ℕ
  pub width : ℕ
  pub next_width : ℕ

-- `get_window_t`
pub record GetContent : Type 0 where
  pub max : ℕ
  pub depth : ℕ
  pub width : ℕ

-- `lateral_node_t`; an address is a number, and `NULL` is 0.
pub record LateralNode : Type 0 where
  pub next : ℕ
  pub count : ℕ
  pub width : ℕ

-- The shared memory: the lateral with its nodes, `global_PWindow`, `global_GWindow`, and the fields
-- `width` and `depth` of `mqueue_t`. No step reads `rows`: it records the width of the put window
-- that a row belonged to. `published` counts the nodes.
pub record Shared : Type 0 where
  pub nodes : ℕ → LateralNode
  pub published : ℕ
  pub head : ℕ
  pub tail : ℕ
  pub put : PutContent
  pub get : GetContent
  pub width : ℕ
  pub depth : ℕ
  pub rows : ℕ → ℕ

-- Where a call of `put_window` stands, with the locals that are live only there.
pub data PutPc : Type 0 where
  put_enter : (contention : Bool) → PutPc  -- the read of the first word before the loop
  put_sync : (contention : Bool) → PutPc  -- of the second
  put_read : PutPc  -- the head of the loop
  put_test : (put_count : ℕ) → PutPc
  put_resync : PutPc  -- the read of the second word in the loop
  put_shift : PutPc  -- the test before the shift
  enq_tail : PutPc  -- `try_enq_lateral`
  enq_next : (read_tail : ℕ) → PutPc
  enq_link : (read_tail : ℕ) → PutPc
  enq_swing : (read_tail next_tail : ℕ) → PutPc
  put_depth : PutPc  -- the read of `set->depth`
  put_width : (new_depth : ℕ) → PutPc  -- of `set->width`
  put_cae : (new_depth new_width : ℕ) → PutPc
  put_done : (put_count : ℕ) → PutPc

-- The same for `get_window`.
pub data GetPc : Type 0 where
  get_enter : (contention : Bool) → GetPc
  get_sync : GetPc
  get_read : GetPc
  read_put : (get_count : ℕ) → GetPc
  get_test : (get_count put_count : ℕ) → GetPc
  get_resync : GetPc
  get_empty : (get_count : ℕ) → GetPc  -- the test whether the get window has reached the put window
  shift_max : GetPc  -- `get_shift_max`
  limit : (max : ℕ) → GetPc
  limit_again : GetPc
  lateral_head : (next_max : ℕ) → GetPc  -- `get_next_window_lateral`
  lateral_next : (next_max current_node : ℕ) → GetPc
  get_shift : (max width : ℕ) → GetPc  -- the test before the compare-exchange
  get_cae : (max width : ℕ) → GetPc
  deq_head : (max : ℕ) → GetPc  -- `deq_lateral`
  deq_next : (max read_head new_head : ℕ) → GetPc
  deq_cae : (read_head new_head : ℕ) → GetPc
  get_done : (get_count : ℕ) → GetPc

pub data Pc : Type 0 where
  idle : Pc
  putting : PutPc → Pc
  getting : GetPc → Pc
  reading : Pc  -- between the two reads of the put window at the start of `dequeue`

-- The thread-local windows and indices, and the locals of the call.
pub record Local : Type 0 where
  pub put : PutContent
  pub get : GetContent
  pub put_index : ℕ
  pub get_index : ℕ
  pub hops : ℕ
  pub random : ℕ
  pub notempty : Bool
  pub lower : ℕ  -- `put_count_lower_bound`
  pub pc : Pc

abbrev pub same_put : PutContent → PutContent → Bool
same_put a b =
    (a.max == b.max)
    && (a.depth == b.depth)
    && (a.width == b.width)
    && (a.next_width == b.next_width)

abbrev pub same_get : GetContent → GetContent → Bool
same_get a b = (a.max == b.max) && (a.depth == b.depth) && (a.width == b.width)

-- `create_lateral_queue`: the base node, which is head and tail.
unfoldable pub create_lateral_queue : (width : ℕ) → LateralNode
create_lateral_queue width = record { next = 0; count = 0; width = width }

-- `initialize_global_window` with the new lateral, its base node at `address`.
unfoldable pub create : (address depth width : ℕ) → Shared
unfolding create_lateral_queue
create address depth width = record {
  nodes = λ p. create_lateral_queue width;
  published = 1;
  head = address;
  tail = address;
  put = record { max = depth; depth = depth; width = width; next_width = width };
  get = record { max = depth; depth = depth; width = width };
  width = width;
  depth = depth;
  rows = λ r. width;
}

-- A thread that has not made a call: its windows are zero.
unfoldable pub fresh : Local
fresh = record {
  put = record { max = 0; depth = 0; width = 0; next_width = 0 };
  get = record { max = 0; depth = 0; width = 0 };
  put_index = 0;
  get_index = 0;
  hops = 0;
  random = 0;
  notempty = false;
  lower = 0;
  pc = idle;
}
