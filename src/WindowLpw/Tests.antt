-- ===== src/WindowLpw/Tests.antt =====
-- Runs of the elastic windows, and their theorems at them.
use elastic_2d_relaxation.Prelude.{
  ℕ, suc, ◌+◌, ◌≤◌, ◌<◌, ◌*◌, ◌-◌, ◌^◌, ◌≡◌, ◌⊎◌, map, refl, some, [], ◌∷◌, ◌++◌, arith,
}
use elastic_2d_relaxation.Linked.{suc-IsAllocator}
use elastic_2d_relaxation.Interleave.{steps, Schedule, run}
use elastic_2d_relaxation.WindowLpw.{Shared, lateral_head, get_done, getting, create, fresh}
use elastic_2d_relaxation.WindowLpw.Step.{step}
use elastic_2d_relaxation.WindowLpw.Inv.{IsLateral, SameSecond}
use elastic_2d_relaxation.WindowLpw.Laws.{
  Fits, start, after, row_width, get_window_uniform, lateral_rows, next_window_uniform,
  put_returns_untorn, lateral_head_below, nodes_in_order,
}

-- Thread 0 sets the next width to 3 and shifts the put window until a lane has room for the count 7;
-- thread 1 is about to shift the get window to the first rows of the new width.
abbrev widened : Schedule
widened = (0, 13) ∷ (0, 0) ∷ steps 60 0 7 ++ (1, 1) ∷ steps 16 1 7

abbrev widened_memory : Shared
widened_memory = (after suc 0 2 1 widened).shared

widened_rows : map widened_memory.rows (1 ∷ 2 ∷ 3 ∷ 4 ∷ 5 ∷ 6 ∷ []) ≡ 1 ∷ 1 ∷ 1 ∷ 1 ∷ 3 ∷ 3 ∷ []
unfolding run step start create fresh
widened_rows = refl

widened-Fits : Fits 2 widened
widened-Fits = omega arith

get_window_uniform_example :
    (widened_memory.get.max ≤ widened_memory.put.max)
    × ((r : ℕ)
        → widened_memory.get.max < r + widened_memory.get.depth
        → r ≤ widened_memory.get.max
        → widened_memory.rows r ≡ widened_memory.get.width)
get_window_uniform_example =
    get_window_uniform suc-IsAllocator 0 2 1 (omega arith) (omega arith) widened widened-Fits

lateral_rows_example :
    row_width widened_memory.published widened_memory.nodes widened_memory.head 5
    ≡ some (widened_memory.rows 5)
unfolding run step start create fresh
lateral_rows_example =
    lateral_rows suc-IsAllocator 0 2 1 (omega arith) (omega arith) widened widened-Fits 5
      (omega arith) (omega arith)

next_window_uniform_example :
    (((after suc 0 2 1 widened).locals 1).get.max ≤ 6)
    × (6 ≤ widened_memory.put.max)
    × (0 < 3)
    × (widened_memory.get.max ≡ ((after suc 0 2 1 widened).locals 1).get.max
        → (r : ℕ) → ((after suc 0 2 1 widened).locals 1).get.max < r
        → r ≤ 6
        → widened_memory.rows r ≡ 3)
unfolding run step start create fresh
next_window_uniform_example =
    next_window_uniform suc-IsAllocator 0 2 1 (omega arith) (omega arith) widened widened-Fits 1 6 3
      refl

-- The `put_window` of thread 0 returns.
abbrev put : Schedule
put = (0, 13) ∷ (0, 0) ∷ steps 36 0 7

put_returns_untorn_example :
    (7 < ((after suc 0 2 1 put).locals 0).put.max)
    × (((after suc 0 2 1 put).locals 0).put_index < ((after suc 0 2 1 put).locals 0).put.width)
    × (((after suc 0 2 1 put).locals 0).put.max ≤ (after suc 0 2 1 put).shared.put.max)
    × ((after suc 0 2 1 put).shared.put.max ≡ ((after suc 0 2 1 put).locals 0).put.max
        → SameSecond (after suc 0 2 1 put).shared.put ((after suc 0 2 1 put).locals 0).put)
unfolding run step start create fresh
put_returns_untorn_example =
    put_returns_untorn suc-IsAllocator 0 2 1 (omega arith) (omega arith) put (omega arith) 0 7 refl

-- Thread 1 is about to read the head of the lateral.
abbrev heading : Schedule
heading = (0, 13) ∷ (0, 0) ∷ steps 60 0 7 ++ (1, 1) ∷ steps 12 1 7

lateral_head_below_example :
    ((after suc 0 2 1 heading).shared.nodes (after suc 0 2 1 heading).shared.head).count ≤ 6
unfolding run step start create fresh
lateral_head_below_example =
    lateral_head_below suc-IsAllocator 0 2 1 (omega arith) (omega arith) heading (omega arith) 1 6
      refl refl

nodes_in_order_example :
    IsLateral suc widened_memory
    × ((t : ℕ) × (widened_memory.tail ≡ suc t)
        × ((suc t ≡ widened_memory.published) ⊎ (suc (suc t) ≡ widened_memory.published)))
nodes_in_order_example =
    nodes_in_order suc-IsAllocator 0 2 1 (omega arith) (omega arith) widened widened-Fits

-- Thread 1 plans the window up to row 4 while thread 0 shifts the get window past it and drops the
-- first node: the head's count 5 is then above the plan of thread 1.
abbrev overtaken : Schedule
overtaken = (0, 13) ∷ (0, 0) ∷ steps 36 0 7 ++ (1, 1) ∷ steps 12 1 7 ++ steps 60 0 7

overtaken_head :
    (((after suc 0 2 1 overtaken).locals 1).pc ≡ getting (lateral_head 4))
    × (((after suc 0 2 1 overtaken).shared.nodes (after suc 0 2 1 overtaken).shared.head).count ≡ 5)
unfolding run step start create fresh
overtaken_head = (refl, refl)

-- Thread 1 copies the put window up to row 2, and thread 0 shifts it to row 8: the get
-- window of thread 1 takes in all rows up to there, three times the depth 2.
abbrev stale : Schedule
stale = (1, 1) ∷ steps 9 1 7 ++ (0, 0) ∷ steps 30 0 7 ++ steps 10 1 7

stale_get : (after suc 0 2 1 stale).shared.get ≡ record { max = 8; depth = 6; width = 1 }
unfolding run step start create fresh
stale_get = refl

-- Thread 1 reads the first word of the put window, up to row 2, and the second one after the next
-- window, of depth 100, is in place: the bound wraps, and any lane passes for one with an item.
abbrev torn : Schedule
torn = (1, 1) ∷ (0, 99 * 5 + 4) ∷ (0, 0) ∷ steps 12 0 7 ++ steps 5 1 0

torn_lower :
    (((after suc 0 2 1 torn).locals 1).lower ≡ 2 ^ 64 - 98)
    × (((after suc 0 2 1 torn).locals 1).pc ≡ getting (get_done 0))
unfolding run step start create fresh
torn_lower = (refl, refl)
