-- ===== src/Queue2Dd/Step.antt =====
-- `enqueue`, `dequeue` and `queue_size` of src/2Dd-queue/2Dd-queue.c, one access to shared memory a step.
use mathlib.Core.Option
use elastic_2d_relaxation.Prelude.{
  ℕ, zero, suc, ◌/◌, ◌%◌, Bool, true, false, Option, none, some, ◌∷◌, if◌then◌else◌, leb, ◌==◌,
  add64, update,
}
use elastic_2d_relaxation.Search.{Config}
use elastic_2d_relaxation.Linked.{Node, create_node}
use elastic_2d_relaxation.Window2Dd.Put
use elastic_2d_relaxation.Window2Dd.Put.{PutWindow, put_window}
use elastic_2d_relaxation.Window2Dd.Get
use elastic_2d_relaxation.Window2Dd.Get.{GetWindow, get_window}
use elastic_2d_relaxation.Queue2Dd.{
  Descriptor, count, tear, same_descriptor, enqueued, dequeued, empty, Shared, Pc, idle, enqueueing,
  checking, linking, helping, swinging, dequeueing, tail_rest, compare, catching, advancing, Local,
}

-- The put counts that `get_window` reads from the `put_array`.
abbrev pub put_counts : Shared → ℕ → ℕ
put_counts h i = (h.put_array i).count

-- The loops of `enqueue` and `dequeue` from their start.
unfoldable pub search_put : Local → (key val : ℕ) → Bool → Local
unfolding Put.start
search_put l key val contention = record l {
  pc = enqueueing key val contention (Put.start l.index l.put_max contention);
}

unfoldable pub search_get : Shared → Local → Bool → Local
unfolding Get.start
search_get h l contention = record l {
  pc = dequeueing contention (Get.start l.index l.get_max contention (put_counts h));
}

-- A compare-exchange that moves the tail of lane `i` from `d` to the node after it.
unfoldable pub swing : Shared → ℕ → Descriptor → (next : ℕ) → Bool × Shared
swing h i d next =
    if same_descriptor (h.put_array i) d
    then (
      true,
      record h {
        put_array = update h.put_array i (record { node = next; count = add64 d.count 1 });
      },
    )
    else (false, h)

-- The memory with a new node after `tail` in lane `i`, and the history.
unfoldable pub linked : Shared → (address : ℕ) → ℕ → (key val tail : ℕ) → Shared
unfolding create_node
linked h address i key val tail =
    let nodes = update h.nodes address (create_node key val 0) in
    record h {
      nodes = update nodes tail (record (nodes tail) { next = address });
      published = suc h.published;
      line = update h.line i (update (h.line i) (suc (h.len i)) address);
      len = update h.len i (suc (h.len i));
      log = enqueued i val ∷ h.log;
    }

-- `address` is the allocator's.
module _ (address : ℕ → ℕ) (cfg : Config) where
  -- The read of `tail->next` after `put_window` returned `d`.
  unfoldable pub read_tail :
      Shared → Local → (key val : ℕ) → Bool → PutWindow Descriptor → Descriptor → Local
  read_tail h l key val contention w d =
      let l' = record l { index = w.place.index; put_max = w.max } in
      let next = (h.nodes d.node).next in
      if next == 0
      then record l' { pc = checking key val contention d }
      else record l' { pc = helping key val contention d next }

  -- `enq_cas(&tail->next, new_node)`
  unfoldable pub link : Shared → Local → (key val : ℕ) → Bool → Descriptor → Shared × Local
  unfolding linked search_put
  link h l key val contention d =
      if (h.nodes d.node).next == 0
      then (
        linked h (address h.published) l.index key val d.node,
        record l { pc = swinging d (address h.published) },
      )
      else (h, search_put l key val true)

  unfoldable pub enqueue : ℕ → Shared → Local → Pc → Shared × Local
  unfolding read_tail link swing search_put put_window
  enqueue choice h l (enqueueing key val contention w) = elim (Put.returned w.pc) [
    | some d ↦ (h, read_tail h l key val contention w d)
    | none ↦
        let (global, w') = put_window count tear cfg choice h.put_array h.put_max w in
        (record h { put_max = global }, record l { pc = enqueueing key val contention w' })
  ]
  enqueue choice h l (checking key val contention d) =
      if leb l.put_max (h.put_array l.index).count
      then (h, search_put l key val contention)
      else (h, record l { pc = linking key val contention d })
  enqueue choice h l (linking key val contention d) = link h l key val contention d
  enqueue choice h l (helping key val contention d next) =
      let (swung, h') = swing h l.index d next in
      (h', search_put l key val (if swung then contention else true))
  enqueue choice h l (swinging d new_node) =
      let (swung, h') = swing h l.index d new_node in (h', record l { pc = idle })
  enqueue choice h l pc = (h, l)

  -- After the read of `head->next`, with both descriptors at hand.
  unfoldable pub read_head : Shared → Local → Bool → Descriptor → Descriptor → Shared × Local
  read_head h l contention deq enq =
      let next = (h.nodes deq.node).next in
      if deq.node == enq.node
      then if next == 0
        then (record h { log = empty ∷ h.log }, record l { pc = idle })
        else (h, record l { pc = catching contention enq next })
      else (h, record l { pc = advancing contention deq next })

  -- `deq_cae`; the value is read from a node whose value never changes.
  unfoldable pub advance : Shared → Local → Bool → Descriptor → (next : ℕ) → Shared × Local
  unfolding search_get
  advance h l contention d next =
      if same_descriptor (h.get_array l.index) d
      then (
        record h {
          get_array = update h.get_array l.index (record { node = next; count = add64 d.count 1 });
          log = dequeued l.index (h.nodes next).val ∷ h.log;
        },
        record l { pc = idle },
      )
      else (h, search_get h l true)

  unfoldable pub dequeue : ℕ → Shared → Local → Pc → Shared × Local
  unfolding read_head advance swing search_get get_window
  dequeue choice h l (dequeueing contention w) = elim (Get.returned w.pc) [
    | some d ↦
        let i = w.place.index in
        (
          h,
          record l { index = i; get_max = w.max; pc = tail_rest contention d (h.put_array i).node },
        )
    | none ↦
        let (global, w') =
          get_window count tear cfg choice h.get_array (put_counts h) h.get_max w in
        (record h { get_max = global }, record l { pc = dequeueing contention w' })
  ]
  dequeue choice h l (tail_rest contention d tail) =
      let enq : Descriptor = record { node = tail; count = (h.put_array l.index).count } in
      (h, record l { pc = compare contention d enq })
  dequeue choice h l (compare contention d enq) = read_head h l contention d enq
  dequeue choice h l (catching contention enq next) =
      let (swung, h') = swing h l.index enq next in
      (h', search_get h' l (if swung then contention else true))
  dequeue choice h l (advancing contention d next) = advance h l contention d next
  dequeue choice h l pc = (h, l)

  -- One step of a thread. An idle thread calls either operation, as `choice` has it, and enqueues a
  -- value under itself as the key.
  unfoldable pub step_at : ℕ → Shared → Local → Pc → Shared × Local
  unfolding enqueue dequeue search_put search_get
  step_at choice h l idle =
      if choice % 2 == 0
      then (h, search_put l (choice / 2) (choice / 2) false)
      else (h, search_get h l false)
  step_at choice h l (enqueueing key val c w) = enqueue choice h l (enqueueing key val c w)
  step_at choice h l (checking key val c d) = enqueue choice h l (checking key val c d)
  step_at choice h l (linking key val c d) = enqueue choice h l (linking key val c d)
  step_at choice h l (helping key val c d next) = enqueue choice h l (helping key val c d next)
  step_at choice h l (swinging d new_node) = enqueue choice h l (swinging d new_node)
  step_at choice h l pc = dequeue choice h l pc

  unfoldable pub step : ℕ → Shared → Local → Shared × Local
  unfolding step_at
  step choice h l = step_at choice h l l.pc

-- The loop of `queue_size` over one lane, with fuel.
unfoldable pub walk : ℕ → (ℕ → Node) → (head tail size : ℕ) → Option ℕ
walk zero nodes head tail size = none
walk (suc fuel) nodes head tail size =
    let rest = walk fuel nodes (nodes head).next tail (add64 size 1) in
    if head == tail then some size else rest

-- `queue_size` over the first `n` lanes.
unfoldable pub size_upto : ℕ → Shared → ℕ → Option ℕ
unfolding walk Option.bind
size_upto fuel h zero = some 0
size_upto fuel h (suc n) =
    Option.bind (size_upto fuel h n) (walk fuel h.nodes (h.get_array n).node (h.put_array n).node)

unfoldable pub queue_size : ℕ → Config → Shared → Option ℕ
unfolding size_upto
queue_size fuel cfg h = size_upto fuel h cfg.width
