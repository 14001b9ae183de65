-- ===== src/Counter2Dd/Races.antt =====
-- Two races of `decrement` with an increment of the lane at hand: the steps of get_window and of
-- decrement in 2Dd-counter.c, in the states where they happen.
use elastic_2d_relaxation.Calls.{empty}
use elastic_2d_relaxation.Prelude.{ℕ, ◌+◌, ◌^◌, ◌≤◌, ◌<◌, ◌≡◌, ◌≢◌, Bool, false, ◌∷◌, arith}
use elastic_2d_relaxation.Search.{Config, Place}
use elastic_2d_relaxation.Window2Dd.Get.{GetPc, GetWindow, check, done, get_check, get_window}
use elastic_2d_relaxation.Counter2Dd.{
  Descriptor, get_count, tear, Shared, Local, decrementing, try_decrement, step,
}

module _ (validate_size : Bool) (cfg : Config) (c c' : ℕ) (h : Shared) (l : Local) (place : Place)
    (base : ℕ → ℕ) (d : Descriptor) (p : ℕ) where
  -- A search that has found no lane with elements, at its read of the get window.
  abbrev search : GetPc Descriptor → GetWindow Descriptor
  search pc = record { place = place; max = h.get_max; notempty = false; base = base; pc = pc }

  -- The thread after that read, and after the operation's compare-exchange that follows.
  abbrev returns : Shared × Local
  returns = step validate_size cfg c h (record l { pc = decrementing (search (check d p)) })

  abbrev ends : Shared × Local
  ends = step validate_size cfg c' returns.0 returns.1

  abbrev Returned : Type 0
  Returned = get_check get_count tear cfg c h.get_max (search (check d p)) d p ≡ search (done d)

  ends-try :
      Returned
      → ends
        ≡ try_decrement validate_size cfg h
            (record l { pc = decrementing (search (done d)) })
            (search (done d))
            d
  unfolding step get_window
  ends-try e = rw e

  late-Returned : place.hops ≡ cfg.width → h.get_max ≤ d.get_count → Returned
  unfolding get_check
  late-Returned round above = ground arith

  stale-Returned : d.get_count < h.get_max → p ≢ d.get_count → Returned
  unfolding get_check
  stale-Returned inside filled = ground arith

  -- At the end of a scan that found every lane empty, a lane that has been filled since and has
  -- used up the window is taken from all the same: its get count passes the get window.
  pub late_fill_overruns :
      place.hops ≡ cfg.width
      → h.get_max ≤ d.get_count
      → d.get_count < d.put_count
      → d.put_count < 2 ^ 64
      → h.lanes place.index ≡ d
      → (get_count (ends.0.lanes place.index) ≡ d.get_count + 1)
        × (ends.0.get_max < get_count (ends.0.lanes place.index))
  unfolding try_decrement
  late_fill_overruns round above left small here =
      rw (ends-try (late-Returned round above)) (ground arith)

  -- A lane inside the window that was empty when its descriptor was read, and was filled before
  -- its put count was, makes `decrement` return 0 for an empty counter, whatever the lanes hold.
  pub stale_descriptor_reads_empty :
      d.get_count < h.get_max
      → d.put_count ≡ d.get_count
      → d.put_count < 2 ^ 64
      → p ≢ d.get_count
      → (ends.0.lanes ≡ h.lanes) × (ends.0.log ≡ empty ∷ h.log)
  unfolding try_decrement
  stale_descriptor_reads_empty inside drained small filled =
      rw (ends-try (stale-Returned inside filled)) (ground arith)
