-- ===== src/Window2Dc.antt =====
-- include/2Dc-window.c and include/2Dc-window.h: the single window of the coupled designs, one
-- access to shared memory a step. The child `Holds` has what a thread knows inside a call; `Slides`,
-- `PutBounds` and `GetBounds` have what the steps keep.
pub mod Holds
pub mod Slides
pub mod PutBounds
pub mod GetBounds
pub mod Moves
pub mod Held
use elastic_2d_relaxation.Prelude.{
  ◌%◌, ℕ, Bool, true, false, not, ◌&&◌, Option, none, some, if◌then◌else◌, ltb, leb, ◌==◌, add64,
  sub64,
}
use elastic_2d_relaxation.Search.{Config, Place, start_place, hop}

-- `window_t`
pub record Window : Type 0 where
  pub max : ℕ
  pub version : ℕ

-- The depth is a `uint16_t` there.
unfoldable pub initialize_global_window : ℕ → Window
initialize_global_window depth = record { max = depth % 65536; version = 1 }

-- The comparison of the 16-byte compare-exchange.
abbrev pub same_window : Window → Window → Bool
same_window a b = (a.max == b.max) && (a.version == b.version)

-- Where a call stands, with the local variables that are live only there.
pub data Pc (D : Type 0) : Type 0 where
  enter : (contention : Bool) → Pc D
  sync : (contention : Bool) → Pc D  -- `read_window` before the loop
  read : Pc D  -- the head of the loop
  read_rest : (first : D) → Pc D  -- between the words of the descriptor
  check : (descriptor : D) → Pc D  -- the read of the global version, and the tests
  resync : Pc D  -- `read_window` in the loop
  shift : Pc D  -- the test before the compare-exchange
  exchange : Pc D
  reload : Pc D  -- `read_window` after a compare-exchange that failed
  done : (descriptor : D) → Pc D

-- The descriptor that the call has returned, if it has.
abbrev pub returned : {D : Type 0} → Pc D → Option D
returned (done d) = some d
returned _ = none

-- `thread_index`, `thread_Window` and the locals of a call; `put_window` has no `empty`.
pub record Call (D : Type 0) : Type 0 where
  pub place : Place
  pub window : Window
  pub empty : Bool
  pub pc : Pc D

unfoldable pub start : {D : Type 0} → ℕ → Window → Bool → Call D
start index window contention = record {
  place = record { index = index; hops = 0; random = 0 };
  window = window;
  empty = true;
  pc = Pc.enter contention;
}

-- `hops = 0; empty = 1`, and back to the head of the loop.
unfoldable pub rescan : {D : Type 0} → Window → Call D → Call D
rescan window w = record w {
  window = window;
  place = record (w.place) { hops = 0 };
  empty = true;
  pc = Pc.read;
}

-- The window that `put_window`, and `get_window`, shifts to.
abbrev pub raised : ℕ → Window → Window
raised step_size window = record {
  max = add64 window.max step_size;
  version = add64 window.version 1;
}

abbrev pub lowered : ℕ → Window → Window
lowered step_size window = record {
  max = sub64 window.max step_size;
  version = add64 window.version 1;
}

module _ {D : Type 0} (count : D → ℕ) (tear : D → D → D) (cfg : Config) (step_size : ℕ) where
  -- The tests of `put_window` at the lane, with the global version that was read.
  unfoldable pub put_check : ℕ → ℕ → Call D → D → Call D
  unfolding hop
  put_check choice version w d =
      if not (version == w.window.version)
      then record w { place = record (w.place) { hops = 0 }; pc = resync }
      else if ltb (count d) w.window.max
      then record w { pc = done d }
      else if not (w.place.hops == cfg.width)
      then record w { place = hop cfg choice w.place; pc = read }
      else record w { pc = shift }

  -- The tests of `get_window`.
  unfoldable pub get_check : ℕ → ℕ → Call D → D → Call D
  unfolding hop
  get_check choice version w d =
      if not (version == w.window.version)
      then record w { place = record (w.place) { hops = 0 }; empty = true; pc = resync }
      else if ltb w.window.max (add64 (count d) cfg.depth)
      then record w { pc = done d }
      else if not (w.place.hops == cfg.width)
      then record w {
        empty = if ltb 0 (count d) then false else w.empty;
        place = hop cfg choice w.place;
        pc = read;
      }
      else if w.empty
      then record w { pc = done d }
      else record w { pc = shift }

  -- The compare-exchange of the global window: a failure writes what it found to the thread's copy.
  unfoldable pub slide : (Window → Window) → Window → Call D → Window × Call D
  unfolding rescan
  slide moved global w =
      if same_window global w.window
      then (moved w.window, rescan (moved w.window) w)
      else (global, record w { window = global; pc = reload })

  -- What both searches do outside their tests.
  unfoldable pub common_at : ℕ → (ℕ → D) → Window → Call D → Pc D → Window × Call D
  unfolding rescan
  common_at choice lanes global w (enter contention) =
      if w.window.version == global.version
      then (global, record w { place = start_place cfg choice contention w.place; pc = read })
      else (global, record w { pc = sync contention })
  common_at choice lanes global w (sync contention) = (
    global,
    record w { window = global; place = start_place cfg choice contention w.place; pc = read },
  )
  common_at choice lanes global w read = (global, record w { pc = read_rest (lanes w.place.index) })
  common_at choice lanes global w (read_rest first) =
      (global, record w { pc = check (tear first (lanes w.place.index)) })
  common_at choice lanes global w resync = (global, record w { window = global; pc = read })
  common_at choice lanes global w reload = (global, rescan global w)
  common_at choice lanes global w _ = (global, w)

  -- One step of `put_window`: the new global window, and the thread's state.
  unfoldable pub put_at : ℕ → (ℕ → D) → Window → Call D → Pc D → Window × Call D
  unfolding put_check slide common_at rescan
  put_at choice lanes global w (check d) = (global, put_check choice global.version w d)
  put_at choice lanes global w shift =
      if w.window.version == global.version
      then (global, record w { pc = exchange })
      else (global, rescan w.window w)
  put_at choice lanes global w exchange = slide (raised step_size) global w
  put_at choice lanes global w pc = common_at choice lanes global w pc

  -- One step of `get_window`.
  unfoldable pub get_at : ℕ → (ℕ → D) → Window → Call D → Pc D → Window × Call D
  unfolding get_check slide common_at rescan
  get_at choice lanes global w (check d) = (global, get_check choice global.version w d)
  get_at choice lanes global w shift =
      if (w.window.version == global.version) && leb cfg.depth (lowered step_size w.window).max
      then (global, record w { pc = exchange })
      else (global, rescan w.window w)
  get_at choice lanes global w exchange = slide (lowered step_size) global w
  get_at choice lanes global w pc = common_at choice lanes global w pc

  unfoldable pub put_window : ℕ → (ℕ → D) → Window → Call D → Window × Call D
  unfolding put_at
  put_window choice lanes global w = put_at choice lanes global w w.pc

  unfoldable pub get_window : ℕ → (ℕ → D) → Window → Call D → Window × Call D
  unfolding get_at
  get_window choice lanes global w = get_at choice lanes global w w.pc
