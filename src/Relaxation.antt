-- ===== src/Relaxation.antt =====
-- include/relaxation_analysis_queue.c: the clone of the queue under test, a linked list that is kept
-- under a lock, and the list of the distances from the front at which its items were removed. The
-- children hold the reference on lists, what the writes make of chains, and the laws.
pub mod Chains
pub mod Finds
pub mod Lists
pub mod Distances
pub mod Removals
pub mod Laws
pub mod Bounds
pub mod Maxima
pub mod Queues
pub mod RoundTrip
mod Tests
use mathlib.Core.Option
use elastic_2d_relaxation.Prelude.{
  ℕ, zero, suc, Bool, Option, none, some, if◌then◌else◌, ◌==◌, ltb, add64, sub64, update,
}

-- `linear_node_t`; an address is a number, and `NULL` is 0.
pub record LinearNode : Type 0 where
  pub val : ℕ
  pub next : ℕ

-- `linear_list_t`
pub record LinearList : Type 0 where
  pub size : ℕ
  pub head : ℕ
  pub tail : ℕ

-- The memory, with `linear_clone` and `error_dists`; `allocated` counts the nodes.
pub record Analysis : Type 0 where
  pub nodes : ℕ → LinearNode
  pub allocated : ℕ
  pub linear_clone : LinearList
  pub error_dists : LinearList

unfoldable pub initial : Analysis
initial = record {
  nodes = λ p. record { val = 0; next = 0 };
  allocated = 0;
  linear_clone = record { size = 0; head = 0; tail = 0 };
  error_dists = record { size = 0; head = 0; tail = 0 };
}

abbrev pub set_next : (ℕ → LinearNode) → (p next : ℕ) → ℕ → LinearNode
set_next nodes p next = update nodes p (record (nodes p) { next = next })

-- A node whose `next` is `NULL`, at the end of a list.
unfoldable pub append : (ℕ → LinearNode) → LinearList → ℕ → (ℕ → LinearNode) × LinearList
append nodes list p =
    if list.head == 0
    then (nodes, record { size = add64 list.size 1; head = p; tail = p })
    else (set_next nodes list.tail p, record list { size = add64 list.size 1; tail = p })

-- `address` is the allocator's. `end` is 1 for the head and 0 for the tail; for another one the
-- macro `error` is called, and the size is one too large.
module _ (address : ℕ → ℕ) where
  unfoldable pub add_linear : Analysis → (val end : ℕ) → Analysis
  unfolding append
  add_linear h val end =
      let p = address h.allocated in
      let nodes = update h.nodes p (record { val = val; next = 0 }) in
      let (linked, list) = append nodes h.linear_clone p in
      let h' = record h { nodes = nodes; allocated = suc h.allocated } in
      let counted = record (h.linear_clone) { size = add64 h.linear_clone.size 1 } in
      if h.linear_clone.head == 0
      then record h' { nodes = linked; linear_clone = list }
      else if end == 1
      then record h' {
        nodes = set_next nodes p h.linear_clone.head;
        linear_clone = record counted { head = p };
      }
      else if end == 0
      then record h' { nodes = linked; linear_clone = list }
      else record h' { linear_clone = counted }

-- `add_relaxed_dist` for a node with the value `dist`
unfoldable pub add_relaxed_dist : Analysis → (p dist : ℕ) → Analysis
unfolding append
add_relaxed_dist h p dist =
    let nodes = update h.nodes p (record { val = dist; next = 0 }) in
    let (linked, list) = append nodes h.error_dists p in
    record h { nodes = linked; error_dists = list }

-- The loop of `remove_linear` with fuel: the node before the one with the value, and how many are
-- skipped. `none` stands for a read through `NULL`, and for the assertion in the loop.
unfoldable pub search : ℕ → (ℕ → LinearNode) → (val last_node skipped : ℕ) → Option (ℕ × ℕ)
search zero nodes val last_node skipped = none
search (suc fuel) nodes val last_node skipped =
    let next = (nodes last_node).next in
    let rest = search fuel nodes val next (add64 skipped 1) in
    if next == 0 then none else if (nodes next).val == val then some (last_node, skipped) else rest

-- What `remove_linear` does with the result of the loop.
unfoldable pub unlink : Analysis → (last_node skipped : ℕ) → Analysis
unfolding add_relaxed_dist
unlink h last_node skipped =
    let found = (h.nodes last_node).next in
    let list = h.linear_clone in
    add_relaxed_dist
      (record h {
        nodes = set_next h.nodes last_node (h.nodes found).next;
        linear_clone = record list {
          size = sub64 list.size 1;
          tail = if found == list.tail then last_node else list.tail;
        };
      })
      found skipped

-- `remove_linear`; `none` stands for a failed assertion and for a read through `NULL`.
unfoldable pub remove_linear : ℕ → Analysis → (val : ℕ) → Option Analysis
unfolding search unlink add_relaxed_dist Option.map
remove_linear fuel h val =
    let list = h.linear_clone in
    let size = sub64 list.size 1 in
    let next = (h.nodes list.head).next in
    let first =
      add_relaxed_dist
        (record h {
          linear_clone = record {
            size = size;
            head = next;
            tail = if list.head == list.tail then 0 else list.tail;
          };
        })
        list.head 0 in
    let found = Option.map (λ r. unlink h r.0 r.1) (search fuel h.nodes val list.head 1) in
    if list.head == 0
    then none
    else if (h.nodes list.head).val == val
    then if list.head == list.tail
      then if next == 0 then if size == 0 then some first else none else none
      else some first
    else found

-- `a < b` on `sval_t`, which is an `intptr_t`; a value is its 64-bit pattern, and adding 2 ^ 63 flips
-- the sign bit.
abbrev pub ltb_signed : ℕ → ℕ → Bool
ltb_signed a b = ltb (add64 a 9223372036854775808) (add64 b 9223372036854775808)

-- The loop of `print_relaxation_measurements` that finds the maximum, with fuel.
unfoldable pub max_from : ℕ → (ℕ → LinearNode) → (node max : ℕ) → Option ℕ
max_from zero nodes node max = none
max_from (suc fuel) nodes node max =
    let val = (nodes node).val in
    let rest = max_from fuel nodes (nodes node).next (if ltb_signed max val then val else max) in
    if node == 0 then some max else rest

-- `max_relaxation`, which is asked for when there is a distance.
unfoldable pub max_relaxation : ℕ → Analysis → Option ℕ
unfolding max_from
max_relaxation fuel h =
    let found = max_from fuel h.nodes h.error_dists.head 0 in
    if h.error_dists.head == 0 then none else found
