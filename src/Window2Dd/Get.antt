-- ===== src/Window2Dd/Get.antt =====
-- `get_window` of include/2Dd-window.c, one access to shared memory a step.
use elastic_2d_relaxation.Prelude.{
  ℕ, Bool, true, false, not, ◌&&◌, if◌then◌else◌, ltb, ◌==◌, add64, Option, none, some,
}
use elastic_2d_relaxation.Search.{Config, Place, random_index, start_place, hop}

-- Where the call stands, with the local variables that are live only there.
pub data GetPc (D : Type 0) : Type 0 where
  enter : (contention : Bool) → GetPc D  -- the copy of the global window
  compare : GetPc D  -- the second test against it
  sync : GetPc D
  read : GetPc D  -- the head of the loop
  read_rest : (first : D) → GetPc D  -- between the two words of the descriptor
  read_put : (descriptor : D) → GetPc D
  check : (descriptor : D) (put_count : ℕ) → GetPc D
  shift : GetPc D  -- the test before the compare-exchange
  exchange : GetPc D
  reload : GetPc D  -- after the compare-exchange
  done : (descriptor : D) → GetPc D

-- The descriptor that the call has returned, if it has.
abbrev pub returned : {D : Type 0} → GetPc D → Option D
returned (done d) = some d
returned _ = none

-- `thread_index`, `thread_GWindow.max` and the locals of a call. No step reads `base`: it records
-- the put counts at the call, for the statement of what an empty return means.
pub record GetWindow (D : Type 0) : Type 0 where
  pub place : Place
  pub max : ℕ
  pub notempty : Bool
  pub base : ℕ → ℕ
  pub pc : GetPc D

-- The call `get_window(set, contention)` in a thread that stands at lane `index`.
unfoldable pub start : {D : Type 0} → ℕ → ℕ → Bool → (ℕ → ℕ) → GetWindow D
start index max contention base = record {
  place = record { index = index; hops = 0; random = 0 };
  max = max;
  notempty = false;
  base = base;
  pc = GetPc.enter contention;
}

-- `hops = notempty = 0` with a new copy of the window, and back to the head of the loop.
unfoldable pub rescan : {D : Type 0} → ℕ → GetWindow D → GetWindow D
rescan global w = record w {
  max = global;
  place = record (w.place) { hops = 0 };
  notempty = false;
  pc = GetPc.read;
}

module _ {D : Type 0} (get_count : D → ℕ) (tear : D → D → D) (cfg : Config) where
  -- The body of the loop from the read of the global window on, up to the next shared access.
  unfoldable pub get_check : ℕ → ℕ → GetWindow D → D → ℕ → GetWindow D
  unfolding hop rescan
  get_check choice global w d put =
      if not (global == w.max)
      then rescan global w
      else if ltb (get_count d) global && not (put == get_count d)
      then record w { pc = done d }
      else if not (w.place.hops == cfg.width)
      then record w {
        notempty = if not w.notempty && not (put == get_count d) then true else w.notempty;
        place = hop cfg choice w.place;
        pc = read;
      }
      else if w.notempty
      then record w { pc = shift }
      else record w { pc = done d }

  -- One step of the call: the new value of `global_GWindow.content.max`, and the thread's state.
  -- `lanes` is the `get_array`, `puts` the put counts of the `put_array`.
  unfoldable pub get_at : ℕ → (ℕ → D) → (ℕ → ℕ) → ℕ → GetWindow D → GetPc D → ℕ × GetWindow D
  unfolding get_check random_index rescan
  get_at choice lanes puts global w (enter contention) =
      let place = start_place cfg choice contention w.place in
      (global, record w { place = place; max = global; pc = compare })
  get_at choice lanes puts global w compare =
      (global, record w { pc = if w.max == global then read else sync })
  get_at choice lanes puts global w sync =
      (global, record w { max = global; notempty = false; pc = read })
  get_at choice lanes puts global w read =
      (global, record w { pc = read_rest (lanes w.place.index) })
  get_at choice lanes puts global w (read_rest first) =
      (global, record w { pc = read_put (tear first (lanes w.place.index)) })
  get_at choice lanes puts global w (read_put d) =
      (global, record w { pc = check d (puts w.place.index) })
  get_at choice lanes puts global w (check d put) = (global, get_check choice global w d put)
  get_at choice lanes puts global w shift =
      (global, record w { pc = if w.max == global then exchange else reload })
  get_at choice lanes puts global w exchange =
      if global == w.max
      then (add64 w.max cfg.depth, record w { pc = reload })
      else (global, record w { max = global; pc = reload })
  get_at choice lanes puts global w reload = (global, rescan global w)
  get_at choice lanes puts global w (done d) = (global, w)

  unfoldable pub get_window : ℕ → (ℕ → D) → (ℕ → ℕ) → ℕ → GetWindow D → ℕ × GetWindow D
  unfolding get_at
  get_window choice lanes puts global w = get_at choice lanes puts global w w.pc
