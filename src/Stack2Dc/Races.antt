-- ===== src/Stack2Dc/Races.antt =====
-- What src/2Dc-stack does when its depth does not fit the 16 bits of `initialize_global_window`.
use elastic_2d_relaxation.Prelude.{ℕ, ◌^◌, ◌≤◌, ◌<◌, ◌≡◌, true, ◌∷◌, arith}
use elastic_2d_relaxation.Search.{Config, Place}
use elastic_2d_relaxation.Linked.{empty}
use elastic_2d_relaxation.Window2Dc
use elastic_2d_relaxation.Window2Dc.{
  Window, Call, initialize_global_window, get_check, get_window, check, done,
}
use elastic_2d_relaxation.Stack2Dc.{
  Descriptor, count, tear, Shared, Local, popping, pop, start_take, step,
}

module _ (address : ℕ → ℕ) (cfg : Config) (step_size c c' : ℕ) (h : Shared) (l : Local)
    (place : Place) (d : Descriptor) where
  -- A first round of a pop that has read the descriptor of its lane, and the current window.
  abbrev search : Window2Dc.Pc Descriptor → Call Descriptor
  search pc = record { place = place; window = h.window; empty = true; pc = pc }

  abbrev first_step : Shared × Local
  first_step = step address cfg step_size c h (record l { pc = popping (search (check d)) })

  inside :
      2 ^ 16 ≤ cfg.depth
      → cfg.depth < 2 ^ 64
      → h.window ≡ initialize_global_window cfg.depth
      → d.count ≡ 0
      → get_check count tear cfg step_size c h.window.version (search (check d)) d ≡ search (done d)
  unfolding get_check initialize_global_window
  inside deep small created none_left = ground arith

  -- A stack of depth 2 ^ 16 or more starts with a window below its depth, and a pop that comes to
  -- an empty lane then returns 0 for an empty stack, whatever the other lanes hold.
  pub deep_stack_reads_empty :
      2 ^ 16 ≤ cfg.depth
      → cfg.depth < 2 ^ 64
      → h.window ≡ initialize_global_window cfg.depth
      → d.count ≡ 0
      → d.node ≡ 0
      → (step address cfg step_size c' first_step.0 first_step.1).0
        ≡ record h { log = empty ∷ h.log }
  unfolding step pop get_window start_take
  deep_stack_reads_empty deep small created none_left null =
      rw (inside deep small created none_left) (ground (arith, null))
