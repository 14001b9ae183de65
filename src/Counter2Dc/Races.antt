-- ===== src/Counter2Dc/Races.antt =====
-- What a thread's first decrement of the coupled counter can do: its copy of the window in static
-- storage has the version that src/2Dc-counter/2Dc-counter.c gives the window it creates.
use elastic_2d_relaxation.Prelude.{
  ℕ, suc, ◌^◌, ◌<◌, ◌≡◌, refl, Bool, true, false, some, ◌∷◌, ◌++◌, arith, ap, ◌∙◌,
}
use elastic_2d_relaxation.Calls.{empty}
use elastic_2d_relaxation.Search.{Config}
use elastic_2d_relaxation.Window2Dc
use elastic_2d_relaxation.Window2Dc.{enter, read, read_rest, check, done, start, get_window}
use elastic_2d_relaxation.Interleave.{
  System, Schedule, Absent, steps, alone, alone-step, run-alone, run-append, run-Absent,
}
use elastic_2d_relaxation.Counter2Dc.{
  Descriptor, count, Shared, Local, decrementing, Created, fresh, create_counter, step,
}
use elastic_2d_relaxation.Counter2Dc.Laws.{after, create_counter-SetUp}

-- A thread as it starts.
abbrev fresh_thread : ℕ → Local
fresh_thread depth = (fresh depth).locals 0

module _ (validate_size : Bool) (cfg : Config) (step_size : ℕ) (h : Shared) where
  -- The thread inside `get_window`.
  abbrev at : Window2Dc.Pc Descriptor → Local
  at pc = record (fresh_thread cfg.depth) {
    pc = decrementing (record {
      place = record { index = 0; hops = 0; random = 0 };
      window = (fresh_thread cfg.depth).window;
      empty = true;
      pc = pc;
    });
  }

  abbrev Steps : Local → Local → Type 0
  Steps l l' = step validate_size cfg step_size 1 h l ≡ (h, l')

  calls : Steps (fresh_thread cfg.depth) (at (enter false))
  unfolding step start fresh
  calls = refl

  enters : h.window.version ≡ 0 → Steps (at (enter false)) (at read)
  unfolding step get_window fresh
  enters v = rw v refl

  reads : Steps (at read) (at (read_rest (h.lanes 0)))
  unfolding step get_window fresh
  reads = refl

  reads_rest : Steps (at (read_rest (h.lanes 0))) (at (check (h.lanes 0)))
  unfolding step get_window fresh
  reads_rest = refl

  checks :
      0 < cfg.depth
      → cfg.depth < 2 ^ 64
      → h.window.version ≡ 0
      → count (h.lanes 0) ≡ 0
      → Steps (at (check (h.lanes 0))) (at (done (h.lanes 0)))
  unfolding step get_window fresh
  checks p f v e = ground arith

  returns :
      count (h.lanes 0) ≡ 0
      → step validate_size cfg step_size 1 h (at (done (h.lanes 0)))
        ≡ (record h { log = empty ∷ h.log }, fresh_thread cfg.depth)
  unfolding step fresh
  returns e = ground arith

  next :
      (n : ℕ) (l : Local) {h' : Shared} {l' : Local}
      → step validate_size cfg step_size 1 h l ≡ (h', l')
      → alone (step validate_size cfg step_size) 1 (suc n) h l
        ≡ alone (step validate_size cfg step_size) 1 n h' l'
  next n l e = alone-step (step validate_size cfg step_size) 1 n h l e

  alone_reads_empty :
      0 < cfg.depth
      → cfg.depth < 2 ^ 64
      → h.window.version ≡ 0
      → count (h.lanes 0) ≡ 0
      → alone (step validate_size cfg step_size) 1 6 h (fresh_thread cfg.depth)
        ≡ (record h { log = empty ∷ h.log }, fresh_thread cfg.depth)
  unfolding alone
  alone_reads_empty p f v e =
      next 5 (fresh_thread cfg.depth) calls
      ∙ next 4 (at (enter false)) (enters v)
      ∙ next 3 (at read) reads
      ∙ next 2 (at (read_rest (h.lanes 0))) reads_rest
      ∙ next 1 (at (check (h.lanes 0))) (checks p f v e)
      ∙ next 0 (at (done (h.lanes 0))) (returns e)

-- On a counter from `create_counter`, of a depth that is positive and below 2 ^ 64, in which other
-- threads have run but the window has still the version that it was created with, the first
-- decrement of a thread that has made no step returns 0 for an empty counter in its six steps if
-- lane 0 is empty, whatever the other lanes hold, and leaves the lanes and the window as they are.
pub first_decrement_reads_empty :
    (num_threads width d m b : ℕ) {c : Created}
    → create_counter num_threads width d m b ≡ some c
    → 0 < c.config.depth
    → c.config.depth < 2 ^ 64
    → (validate_size : Bool) (sched : Schedule) (t : ℕ) → Absent t sched
    → (after validate_size c sched).shared.window.version ≡ c.system.shared.window.version
    → count ((after validate_size c sched).shared.lanes 0) ≡ 0
    → (after validate_size c (sched ++ steps 6 t 1)).shared
      ≡ record ((after validate_size c sched).shared) {
        log = empty ∷ (after validate_size c sched).shared.log;
      }
unfolding fresh
first_decrement_reads_empty num_threads width d m b {c} made deep fits validate_size sched t out v
      e =
    let set_up = create_counter-SetUp num_threads width d m b made in
    let s : System Shared Local = after validate_size c sched in
    let start : s.locals t ≡ fresh_thread c.config.depth =
      run-Absent (step validate_size c.config c.step_size) t sched c.system out
      ∙ ap (λ (x : System Shared Local). x.locals t) set_up.0 in
    let created : s.shared.window.version ≡ 0 =
      v ∙ ap (λ (x : System Shared Local). x.shared.window.version) set_up.0 in
    ap (λ (x : System Shared Local). x.shared)
      (run-append (step validate_size c.config c.step_size) sched (steps 6 t 1) c.system)
    ∙ (run-alone (step validate_size c.config c.step_size) 1 6 t s).0
    ∙ ap (λ (l : Local). (alone (step validate_size c.config c.step_size) 1 6 s.shared l).0) start
    ∙ ap (λ (x : Shared × Local). x.0)
        (alone_reads_empty validate_size c.config c.step_size s.shared deep fits created e)
