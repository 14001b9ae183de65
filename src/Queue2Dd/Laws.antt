-- ===== src/Queue2Dd/Laws.antt =====
-- What holds of the decoupled queue after any interleaving of any number of threads.
use elastic_2d_relaxation.Prelude.{
  ℕ, zero, suc, ◌+◌, ◌*◌, ◌^◌, ◌≤◌, ◌<◌, ◌≡◌, ◌∙◌, refl, sym, ap, some, arith, length, total-none,
  map-some_all,
}
use elastic_2d_relaxation.Search.{Config, IsValid}
use elastic_2d_relaxation.Linked.{IsAllocator}
use elastic_2d_relaxation.Interleave.{System, Schedule, run, Sound, run-Sound}
use elastic_2d_relaxation.Window2Dd.{initialize_global_window}
use elastic_2d_relaxation.Queue2Dd.{
  node, count, Shared, Local, Created, parameters, fresh, create_queue,
}
use elastic_2d_relaxation.Queue2Dd.Step.{put_counts, step}
use elastic_2d_relaxation.Queue2Dd.Fifo.{contents, Legal, stretch, length-stretch, Leads}
use elastic_2d_relaxation.Queue2Dd.Lines.{Lined}
use elastic_2d_relaxation.Queue2Dd.Inv.{vals, InLane, Inv}
use elastic_2d_relaxation.Queue2Dd.Steps.{rely_guarantee}

-- So short a schedule that no window of 64 bits can wrap.
abbrev pub Fits : Config → Schedule → Type 0
Fits cfg sched = cfg.depth + length sched * cfg.depth < 2 ^ 64

-- The memory, and the threads, after `sched`.
abbrev pub after : (ℕ → ℕ) → Created → Schedule → System Shared Local
after address c sched = run (step address c.config) sched c.system

fresh-Inv :
    (address : ℕ → ℕ) (cfg : Config) (n : ℕ)
    → IsAllocator address
    → cfg.depth + n * cfg.depth < 2 ^ 64
    → Inv address cfg n (fresh address cfg.width cfg.depth).shared
unfolding fresh initialize_global_window contents stretch
fresh-Inv address cfg n alloc room = record {
  swung = 0;
  in_lanes = record {
    in_window = record { upper = λ i lt. omega arith; lower = λ i lt. omega arith };
    in_step = record {
      got_le = λ i lt. omega arith;
      put_le = λ i lt. omega arith;
      behind_put = omega arith;
      get_steps = (1, omega arith);
      put_steps = (1, omega arith);
    };
    room = room;
    puts_logged = total-none count cfg.width (λ _. refl);
    gets_logged = total-none count cfg.width (λ _. refl);
  };
  lined = record {
    placed = λ i k lt le. (i, lt, refl);
    apart = λ i k j m lt le q le2 e. (alloc.distinct i j e, omega (arith, le, le2));
    followed = λ i k lt below. absurd (omega (arith, below));
    last = λ i lt. refl;
  };
  in_lane = λ i lt. record {
    tail_at = refl;
    head_at = refl;
    tail_le = omega arith;
    lag = omega arith;
    len_le = omega arith;
    held = (0, refl, refl);
  };
  legal = tt;
}

create_queue-fresh :
    (address : ℕ → ℕ) (t w d m b : ℕ) {c : Created}
    → create_queue address t w d m b ≡ some c
    → c.system ≡ fresh address c.config.width c.config.depth
unfolding create_queue
create_queue-fresh address t w d m b e =
    map-some_all (λ c. c.system ≡ fresh address c.config.width c.config.depth) _
      (parameters t w d m b) (λ _. refl) e

-- A stretch of a lane up to its last node, followed from the node before it.
stretch-Leads :
    (address : ℕ → ℕ) (width : ℕ) (h : Shared)
    → Lined address width h.nodes h.published h.line h.len
    → (i : ℕ) → i < width
    → IsAllocator address
    → (n g : ℕ) → g + n ≡ h.len i
    → Leads h.nodes (h.line i g) (stretch (vals h i) (suc g) n)
unfolding stretch
stretch-Leads address width h v i lt alloc zero g e =
    ap (λ (k : ℕ). (h.nodes (h.line i k)).next) (omega (arith, e)) ∙ v.last i lt
stretch-Leads address width h v i lt alloc (suc n) g e = (
  λ null.
      alloc.not_null (v.placed i (suc g) lt (omega arith)).0
        (sym (v.placed i (suc g) lt (omega arith)).2 ∙ sym next ∙ null),
  ap (λ (p : ℕ). (h.nodes p).val) next,
  rw next (stretch-Leads address width h v i lt alloc n (suc g) (omega arith)),
)
  where
    next : (h.nodes (h.line i g)).next ≡ h.line i (suc g)
    next = v.followed i g lt (omega arith)

module _ {address : ℕ → ℕ} (alloc : IsAllocator address) (t w d m b : ℕ) {c : Created}
    (made : create_queue address t w d m b ≡ some c) (valid : IsValid c.config) (sched : Schedule)
    (fits : Fits c.config sched) where
  created-Sound : Sound (rely_guarantee alloc valid) (length sched) c.system
  unfolding fresh
  created-Sound = rw (create_queue-fresh address t w d m b made) (record {
    inv = fresh-Inv address c.config (length sched) alloc fits;
    holds = λ _. record {
      index_in = valid.some_width;
      put_le = omega arith;
      get_le = omega arith;
      at_pc = tt;
    };
  })

  after-Sound : Sound (rely_guarantee alloc valid) 0 (after address c sched)
  after-Sound = run-Sound (rely_guarantee alloc valid) sched c.system created-Sound

  abbrev memory : Shared
  memory = (after address c sched).shared

  inv : Inv address c.config 0 memory
  inv = after-Sound.inv

  -- Every dequeue that has taken effect returned what was in front of its lane: the first value that
  -- was enqueued there and not dequeued.
  pub dequeues-Legal : Legal c.config.width memory.log
  dequeues-Legal = inv.legal

  -- From the head of every lane the pointers lead through what was enqueued there and not dequeued,
  -- the first one first, to `NULL`, and the tail's count is behind that by one node at most.
  pub queue_lane-Leads :
      (i : ℕ)
      → i < c.config.width
      → Leads memory.nodes (node (memory.get_array i)) (contents memory.log i)
        × (put_counts memory i ≤ count (memory.get_array i) + length (contents memory.log i))
        × (count (memory.get_array i) + length (contents memory.log i) ≤ suc (put_counts memory i))
  queue_lane-Leads i lt = (
    rw (lane.head_at, lane.held.2)
        (stretch-Leads address c.config.width memory inv.lined i lt alloc lane.held.0
          (count (memory.get_array i)) lane.held.1),
    omega (arith, lane.tail_le, lane.held.1, held_length),
    omega (arith, lane.lag, lane.held.1, held_length),
  )
    where
      lane : InLane memory i
      lane = inv.in_lane i lt

      held_length : length (contents memory.log i) ≡ lane.held.0
      held_length =
          ap (length {A = ℕ}) lane.held.2
          ∙ length-stretch (vals memory i) (suc (count (memory.get_array i))) lane.held.0

  -- No lane has had more than `depth` enqueues more than another: the values that were dequeued
  -- there and those that it holds, together.
  pub enqueues_apart :
      (i j : ℕ)
      → i < c.config.width
      → j < c.config.width
      → count (memory.get_array i) + length (contents memory.log i)
        ≤ count (memory.get_array j) + length (contents memory.log j) + c.config.depth
  enqueues_apart i j lt lt2 = omega (
    arith,
    (inv.in_lane i lt).len_le,
    (inv.in_lane i lt).held.1,
    held_length i lt,
    inv.in_lanes.in_window.lower j lt2,
    (queue_lane-Leads j lt2).1,
  )
    where
      held_length :
          (i : ℕ) (lt : i < c.config.width)
          → length (contents memory.log i) ≡ (inv.in_lane i lt).held.0
      held_length i lt =
          ap (length {A = ℕ}) (inv.in_lane i lt).held.2
          ∙ length-stretch (vals memory i) (suc (count (memory.get_array i)))
              (inv.in_lane i lt).held.0
