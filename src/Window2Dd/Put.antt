-- ===== src/Window2Dd/Put.antt =====
-- `put_window` of include/2Dd-window.c, one access to shared memory a step.
use elastic_2d_relaxation.Prelude.{
  ℕ, Bool, not, if◌then◌else◌, ltb, ◌==◌, add64, Option, none, some,
}
use elastic_2d_relaxation.Search.{Config, Place, random_index, start_place, hop}

-- Where the call stands, with the local variables that are live there besides `hops`, `random`.
pub data PutPc (D : Type 0) : Type 0 where
  enter : (contention : Bool) → PutPc D
  sync : PutPc D  -- the body of the `if` before the loop
  read : PutPc D  -- the head of the loop
  read_rest : (first : D) → PutPc D  -- between the two words of the descriptor
  check : (descriptor : D) → PutPc D  -- the read of the global window, and the tests
  shift : PutPc D  -- the test before the compare-exchange
  exchange : PutPc D
  reload : PutPc D  -- after the compare-exchange
  done : (descriptor : D) → PutPc D

-- The descriptor that the call has returned, if it has.
abbrev pub returned : {D : Type 0} → PutPc D → Option D
returned (done d) = some d
returned _ = none

-- `thread_index`, `thread_PWindow.max` and the locals of a call.
pub record PutWindow (D : Type 0) : Type 0 where
  pub place : Place
  pub max : ℕ
  pub pc : PutPc D

-- The call `put_window(set, contention)` in a thread that stands at lane `index`.
unfoldable pub start : {D : Type 0} → ℕ → ℕ → Bool → PutWindow D
start index max contention = record {
  place = record { index = index; hops = 0; random = 0 };
  max = max;
  pc = PutPc.enter contention;
}

module _ {D : Type 0} (put_count : D → ℕ) (tear : D → D → D) (cfg : Config) where
  -- The body of the loop from the read of the global window on, up to the next shared access.
  unfoldable pub put_check : ℕ → ℕ → PutWindow D → D → PutWindow D
  unfolding hop
  put_check choice global w d =
      if not (global == w.max)
      then record w { max = global; place = record (w.place) { hops = 0 }; pc = read }
      else if ltb (put_count d) global
      then record w { pc = done d }
      else if not (w.place.hops == cfg.width)
      then record w { place = hop cfg choice w.place; pc = read }
      else record w { pc = shift }

  -- One step of the call: the new value of `global_PWindow.content.max`, and the thread's state.
  -- A compare-exchange that fails writes the value found to `thread_PWindow`.
  unfoldable pub put_at : ℕ → (ℕ → D) → ℕ → PutWindow D → PutPc D → ℕ × PutWindow D
  unfolding put_check random_index
  put_at choice lanes global w (enter contention) =
      let place = start_place cfg choice contention w.place in
      (global, record w { place = place; pc = if w.max == global then read else sync })
  put_at choice lanes global w sync = (global, record w { max = global; pc = read })
  put_at choice lanes global w read = (global, record w { pc = read_rest (lanes w.place.index) })
  put_at choice lanes global w (read_rest first) =
      (global, record w { pc = check (tear first (lanes w.place.index)) })
  put_at choice lanes global w (check d) = (global, put_check choice global w d)
  put_at choice lanes global w shift =
      (global, record w { pc = if w.max == global then exchange else reload })
  put_at choice lanes global w exchange =
      if global == w.max
      then (add64 w.max cfg.depth, record w { pc = reload })
      else (global, record w { max = global; pc = reload })
  put_at choice lanes global w reload =
      (global, record w { max = global; place = record (w.place) { hops = 0 }; pc = read })
  put_at choice lanes global w (done d) = (global, w)

  unfoldable pub put_window : ℕ → (ℕ → D) → ℕ → PutWindow D → ℕ × PutWindow D
  unfolding put_at
  put_window choice lanes global w = put_at choice lanes global w w.pc
