-- ===== src/WindowLpw/Laws.antt =====
-- What holds of the elastic windows and the lateral after any interleaving of any number of threads.
use mathlib.Core.Path.{subst}
use elastic_2d_relaxation.Prelude.{
  ℕ, zero, suc, ◌+◌, ◌*◌, ◌^◌, ◌≤◌, ◌<◌, ◌≡◌, refl, sym, ap, Option, some, none, arith, length,
  false, not, ◌&&◌, leb, ◌==◌, if◌then◌else◌, u64_mod, dec_lt, Bool-cases, ◌⊎◌, inl, inr,
}
use elastic_2d_relaxation.Linked.{IsAllocator}
use elastic_2d_relaxation.Interleave.{System, Schedule, run, Sound, run-Sound}
use elastic_2d_relaxation.WindowLpw.{
  LateralNode, put_done, lateral_head, get_cae, putting, getting, Shared, Local, create, fresh,
}
use elastic_2d_relaxation.WindowLpw.Step.{step}
use elastic_2d_relaxation.WindowLpw.Inv.{SameSecond, IsSmall, count_at, IsLateral, Inv, Agrees}
use elastic_2d_relaxation.WindowLpw.Holds.{AtPc, torn}
use elastic_2d_relaxation.WindowLpw.Steps.{rely_guarantee}

-- So short a schedule that no row of 64 bits can wrap.
abbrev pub Fits : ℕ → Schedule → Type 0
Fits depth sched = depth + length sched * 65536 + 65536 ≤ 2 ^ 64

-- A new queue, and threads that have made no call.
unfoldable pub start : (ℕ → ℕ) → (depth width : ℕ) → System Shared Local
unfolding create fresh
start address depth width = record { shared = create (address 0) depth width; locals = λ t. fresh }

abbrev pub after : (ℕ → ℕ) → (random_hops depth width : ℕ) → Schedule → System Shared Local
after address random_hops depth width sched =
    run (step address random_hops) sched (start address depth width)

-- The width that the lateral tells for a row: that of the last node with at most its count, in at
-- most `fuel` nodes from `p` on.
unfoldable pub row_width : (fuel : ℕ) → (ℕ → LateralNode) → (p row : ℕ) → Option ℕ
row_width zero nodes p row = none
row_width (suc fuel) nodes p row =
    let rest = row_width fuel nodes (nodes p).next row in
    if not ((nodes p).next == 0) && leb (nodes (nodes p).next).count row
    then rest
    else some (nodes p).width

create-Inv :
    (address : ℕ → ℕ) (n depth width : ℕ)
    → IsSmall depth
    → IsSmall width
    → depth + n * 65536 + 65536 ≤ u64_mod
    → Inv address n (create (address 0) depth width)
unfolding create
create-Inv address n depth width d w room = (
  room,
  record {
    lateral = record {
      some_node = omega arith;
      next_node = λ k lt. absurd (omega arith);
      last_node = λ k e. refl;
      rising = λ j k lt le. absurd (omega arith);
      widths = λ k lt. omega arith;
      counts = λ k lt. omega arith;
      head_at = (0, omega arith, refl, omega arith);
      tail_at = (0, omega arith, refl, λ k above lt. absurd (omega arith));
    };
    put_depth_le = omega arith;
    put_small = (d, w.0, w.0);
    behind_put = omega arith;
    set_small = (d, w);
    above = λ k lt e. absurd (omega arith);
    current = λ k e le. refl;
    rows_at = λ k r lt span le. refl;
    put_rows = λ r low le. refl;
    get_rows = λ r low le. refl;
  },
)

-- A walk that starts below a row, with fuel for the nodes that are left, finds the row's width.
row_width-some :
    (address : ℕ → ℕ) (h : Shared)
    → IsAllocator address
    → Agrees address h
    → (fuel k p r : ℕ) → k < h.published
    → h.published ≤ k + fuel
    → p ≡ address k
    → count_at address h k ≤ r
    → r ≤ h.put.max
    → row_width fuel h.nodes p r ≡ some (h.rows r)
unfolding row_width
row_width-some address h alloc v zero k p r lt enough e from le = absurd (omega arith)
row_width-some address h alloc v (suc fuel) k p r lt enough e from le =
    elim (dec_lt (suc k) h.published) [
      | yes more ↦ elim (Bool-cases (leb (count_at address h (suc k)) r)) [
        | inl on ↦
            rw (e, v.lateral.next_node k more, nonzero (suc k), on)
              (row_width-some address h alloc v fuel (suc k) (address (suc k)) r more (omega arith)
                refl (ground arith) le)
        | inr stop ↦
            rw (e, v.lateral.next_node k more, nonzero (suc k), stop)
              (ap some (sym (v.rows_at k r lt (from, λ _. ground arith) le)))
      ]
      | no end ↦
          rw (e, v.lateral.last_node k (omega arith))
            (ap some (sym (v.rows_at k r lt (from, λ more. absurd (omega arith)) le)))
    ]
  where
    nonzero : (i : ℕ) → (address i == 0) ≡ false
    nonzero i = ground (arith, alloc.not_null i)

module _ {address : ℕ → ℕ} (alloc : IsAllocator address) (random_hops depth width : ℕ)
    (deep : IsSmall depth) (wide : IsSmall width) (sched : Schedule) (fits : Fits depth sched) where
  start-Sound : Sound (rely_guarantee random_hops alloc) (length sched) (start address depth width)
  unfolding start fresh
  start-Sound = record {
    inv = create-Inv address (length sched) depth width deep wide fits;
    holds = λ t. record {
      put_le = omega arith;
      get_le = omega arith;
      synced = λ _ now. absurd (omega arith);
      at_pc = tt;
    };
  }

  after-Sound :
      Sound (rely_guarantee random_hops alloc) 0 (after address random_hops depth width sched)
  after-Sound =
      run-Sound (rely_guarantee random_hops alloc) sched (start address depth width) start-Sound

  abbrev memory : Shared
  memory = (after address random_hops depth width sched).shared

  abbrev thread : ℕ → Local
  thread t = (after address random_hops depth width sched).locals t

  inv : Agrees address memory
  inv = after-Sound.inv.1

  -- The get window does not pass the put window, and all its rows belonged to put windows of its width.
  pub get_window_uniform :
      (memory.get.max ≤ memory.put.max)
      × ((r : ℕ)
          → memory.get.max < r + memory.get.depth
          → r ≤ memory.get.max
          → memory.rows r ≡ memory.get.width)
  get_window_uniform = (inv.behind_put, inv.get_rows)

  -- From the get window on, the lateral tells of every row the width of the put window that it
  -- belonged to: the walk over the nodes from the head ends within `published` nodes, and finds it.
  pub lateral_rows :
      (r : ℕ)
      → memory.get.max ≤ r
      → r ≤ memory.put.max
      → row_width memory.published memory.nodes memory.head r ≡ some (memory.rows r)
  lateral_rows r from le =
      let (k, lt, e, c) = inv.lateral.head_at in
      row_width-some address memory alloc inv memory.published k memory.head r lt (omega arith) e
        (omega arith) le

  -- A thread about to exchange the get window has a maximum that is at least its own window's and at
  -- most the put window's, as the source asserts, and a width that is not 0. If no other thread has
  -- shifted the get window, all the rows between its own maximum and the new one have that width.
  pub next_window_uniform :
      (t m w : ℕ)
      → (thread t).pc ≡ getting (get_cae m w)
      → ((thread t).get.max ≤ m)
        × (m ≤ memory.put.max)
        × (0 < w)
        × (memory.get.max ≡ (thread t).get.max
            → (r : ℕ) → (thread t).get.max < r
            → r ≤ m
            → memory.rows r ≡ w)
  next_window_uniform t m w at =
      let a = subst (AtPc address memory (thread t)) at (after-Sound.holds t).at_pc in
      (a.0.0, a.0.1, a.1.0, a.1.1)

  -- A `put_window` that returns has found a lane of its window with room below the window's maximum.
  -- Its window, read in two words, is one that was global: if the maximum is still the global one,
  -- so are the other three fields.
  pub put_returns_untorn :
      (t count : ℕ)
      → (thread t).pc ≡ putting (put_done count)
      → (count < (thread t).put.max)
        × ((thread t).put_index < (thread t).put.width)
        × ((thread t).put.max ≤ memory.put.max)
        × (memory.put.max ≡ (thread t).put.max → SameSecond memory.put (thread t).put)
  put_returns_untorn t count at =
      let a = subst (AtPc address memory (thread t)) at (after-Sound.holds t).at_pc in
      (a.0, a.1, (after-Sound.holds t).put_le, (after-Sound.holds t).synced (ap (torn address) at))

  -- The assertion `current_node->count <= *next_max` of `get_next_window_lateral` holds in a thread
  -- whose get window is still the global one when it reads the head of the lateral.
  pub lateral_head_below :
      (t m : ℕ)
      → (thread t).pc ≡ getting (lateral_head m)
      → memory.get.max ≡ (thread t).get.max
      → (memory.nodes memory.head).count ≤ m
  lateral_head_below t m at now =
      let a = subst (AtPc address memory (thread t)) at (after-Sound.holds t).at_pc in
      let (k, lt, e, c) = inv.lateral.head_at in
      subst (λ (x : ℕ). (memory.nodes x).count ≤ m) (sym e) (omega arith)

  tail_near :
      (t : ℕ) × (memory.tail ≡ address t)
      × ((suc t ≡ memory.published) ⊎ (suc (suc t) ≡ memory.published))
  tail_near =
      let (t, lt, e, above) = inv.lateral.tail_at in
      elim (dec_lt (suc t) memory.published) [
        | no last ↦ (t, e, inl (omega arith))
        | yes more ↦ elim (dec_lt (suc (suc t)) memory.published) [
          | no near ↦ (t, e, inr (omega arith))
          | yes far ↦ absurd (
              omega (
                arith,
                above (suc t) (omega arith) more,
                above (suc (suc t)) (omega arith) far,
                inv.lateral.rising (suc t) (suc (suc t)) (omega arith) far,
              ))
        ]
      ]

  -- The nodes of the lateral are in strictly rising order of their counts along `next` up to the last
  -- one, no count is more than one above the put window, and the tail is the last node or, with the
  -- node of the next put window linked, the last but one.
  pub nodes_in_order :
      IsLateral address memory
      × ((t : ℕ) × (memory.tail ≡ address t)
          × ((suc t ≡ memory.published) ⊎ (suc (suc t) ≡ memory.published)))
  nodes_in_order = (inv.lateral, tail_near)
