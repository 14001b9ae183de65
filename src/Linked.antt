-- ===== src/Linked.antt =====
-- The lanes of the stacks: linked nodes in a shared memory, as in src/2Dd-stack/2Dd-stack.c, and in the
-- other stacks, whose `node_t`, `create_node` and `stack_size` are the same. What a lane holds is
-- told by the history of the calls. The children hold the lemmas on chains, on lanes and on sizes.
pub mod Chains
pub mod Lanes
pub mod Sizes
use mathlib.Core.Option
use elastic_2d_relaxation.Prelude.{
  ℕ, zero, suc, arith, ◌<◌, ◌≡◌, ◌≢◌, Option, none, some, List, [], ◌∷◌, if◌then◌else◌, ◌==◌, add64,
  update,
}

-- `node_t`; an address is a number, and `NULL` is 0.
pub record Node : Type 0 where
  pub key : ℕ
  pub val : ℕ
  pub next : ℕ

-- `create_node`. The node is its thread's own until a compare-exchange publishes its address.
unfoldable pub create_node : ℕ → ℕ → ℕ → Node
create_node key val next = record { key = key; val = val; next = next }

-- What is asked of the allocator: the address of the `k`-th node that is published. A node that is
-- freed is not handed out again while a thread may still hold its address, so no two coincide.
pub record IsAllocator (address : ℕ → ℕ) : Type 0 where
  pub not_null : (k : ℕ) → address k ≢ 0
  pub distinct : (j k : ℕ) → address j ≡ address k → j ≡ k

-- An allocator that hands out 1, 2 and so on.
pub suc-IsAllocator : IsAllocator suc
suc-IsAllocator = record { not_null = λ k. omega arith; distinct = λ j k e. omega arith }

-- The loop of `stack_size` over the nodes of one lane, with fuel.
unfoldable pub walk : ℕ → (ℕ → Node) → ℕ → ℕ → Option ℕ
walk zero nodes p size = none
walk (suc fuel) nodes p size =
    let rest = walk fuel nodes (nodes p).next (add64 size 1) in if p == 0 then some size else rest

-- `stack_size` over the first `n` lanes, whose top nodes are `tops`.
unfoldable pub size_upto : ℕ → (ℕ → Node) → (ℕ → ℕ) → ℕ → Option ℕ
unfolding walk Option.bind
size_upto fuel nodes tops zero = some 0
size_upto fuel nodes tops (suc n) =
    Option.bind (size_upto fuel nodes tops n) (walk fuel nodes (tops n))

-- A call of a stack that has taken effect, with the lane that it worked on.
pub data Event : Type 0 where
  pushed : (lane val : ℕ) → Event
  popped : (lane val : ℕ) → Event
  empty : Event  -- `pop` returned 0 for an empty stack

abbrev pub tail : List ℕ → List ℕ
tail [] = []
tail (v ∷ vs) = vs

-- What every lane holds after the calls of a history, the last call first.
unfoldable pub contents : List Event → ℕ → List ℕ
contents [] i = []
contents (pushed lane val ∷ log) i =
    let rest = contents log i in if lane == i then val ∷ rest else rest
contents (popped lane val ∷ log) i =
    let rest = contents log i in if lane == i then tail rest else rest
contents (empty ∷ log) i = contents log i

-- Every pop returned what was on top of its lane: the lanes are stacks.
abbrev pub Legal : ℕ → List Event → Type 0
Legal width [] = Unit
Legal width (pushed lane val ∷ log) = (lane < width) × Legal width log
Legal width (popped lane val ∷ log) =
    (lane < width) × (contents log lane ≡ val ∷ tail (contents log lane)) × Legal width log
Legal width (empty ∷ log) = Legal width log

abbrev pub pushes : List Event → ℕ
pushes [] = 0
pushes (pushed _ _ ∷ log) = suc (pushes log)
pushes (_ ∷ log) = pushes log

abbrev pub pops : List Event → ℕ
pops [] = 0
pops (popped _ _ ∷ log) = suc (pops log)
pops (_ ∷ log) = pops log
