-- ===== src/WindowLpw/Lateral.antt =====
-- src/2Dd-queue_elastic-lpw/lateral_queue.c: what its functions do between two accesses to memory
-- that others write. A node's count and width never change once it is published.
use elastic_2d_relaxation.Prelude.{
  ℕ, suc, not, ◌&&◌, if◌then◌else◌, ltb, leb, ◌==◌, add64, sub64, update,
}
use elastic_2d_relaxation.WindowLpw.{
  LateralNode, PutPc, enq_tail, enq_next, enq_link, enq_swing, put_depth, GetPc, lateral_next,
  get_shift, Shared,
}

-- `create_lateral_node`
unfoldable pub create_lateral_node : (count width : ℕ) → LateralNode
create_lateral_node count width = record { next = 0; count = count; width = width }

-- `maybe_enq_lateral` up to the read of the tail
unfoldable pub maybe_enq_lateral : (width next_width : ℕ) → PutPc
maybe_enq_lateral width next_width = if not (width == next_width) then enq_tail else put_depth

-- `try_enq_lateral`: the read of the tail and of its count
unfoldable pub try_enq_lateral : Shared → (count : ℕ) → PutPc
try_enq_lateral h count = if ltb (h.nodes h.tail).count count then enq_next h.tail else put_depth

-- the read of `read_tail->next`
unfoldable pub read_next : Shared → (read_tail : ℕ) → PutPc
read_next h read_tail =
    let next = (h.nodes read_tail).next in
    if next == 0 then enq_link read_tail else enq_swing read_tail next

-- The memory with a new node at `address` behind `read_tail`.
unfoldable pub linked : Shared → (address read_tail count width : ℕ) → Shared
unfolding create_lateral_node
linked h address read_tail count width =
    let nodes = update h.nodes address (create_lateral_node count width) in
    record h {
      nodes = update nodes read_tail (record (nodes read_tail) { next = address });
      published = suc h.published;
    }

-- `CAE(&read_tail->next, &next_tail, &new_node)`
unfoldable pub link : Shared → (address read_tail count width : ℕ) → Shared × PutPc
unfolding linked
link h address read_tail count width =
    let next = (h.nodes read_tail).next in
    if next == 0
    then (linked h address read_tail count width, enq_swing read_tail address)
    else (h, enq_swing read_tail next)

-- `CAE(&lateral->tail, &read_tail, &next_tail)`
unfoldable pub swing : Shared → (read_tail next_tail : ℕ) → Shared
swing h read_tail next_tail = if h.tail == read_tail then record h { tail = next_tail } else h

-- `get_next_window_lateral`: the read of `current_node->next` and what follows
unfoldable pub get_next_window_lateral : Shared → (prev_max next_max current_node : ℕ) → GetPc
get_next_window_lateral h prev_max next_max current_node =
    let lookahead = (h.nodes current_node).next in
    let count = (h.nodes lookahead).count in
    let width = (h.nodes current_node).width in
    if not (lookahead == 0) && leb count (add64 prev_max 1)
    then lateral_next next_max lookahead
    else if not (lookahead == 0) && leb count next_max
    then get_shift (sub64 count 1) width
    else get_shift next_max width

-- `CAE(&lateral->head, &read_head, &new_head)`
unfoldable pub cut : Shared → (read_head new_head : ℕ) → Shared
cut h read_head new_head = if h.head == read_head then record h { head = new_head } else h
