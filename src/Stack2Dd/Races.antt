-- ===== src/Stack2Dd/Races.antt =====
-- What src/2Dd-stack does once the put window has outgrown the 32-bit counts of its lanes.
use mathlib.Core.Path.{subst}
use elastic_2d_relaxation.Prelude.{
  ℕ, suc, ◌+◌, ◌*◌, ◌/◌, ◌%◌, ◌^◌, ◌≤◌, ◌<◌, ◌≡◌, ◌≢◌, refl, ap, ◌∙◌, false, List, [], ◌∷◌, ◌++◌,
  arith, length, update, ◌==◌, ==_refl, add32,
}
use elastic_2d_relaxation.Interleave.{
  System, Schedule, steps, run, alone, alone-step, run-alone, run-append,
}
use elastic_2d_relaxation.Search.{Config}
use elastic_2d_relaxation.Linked.{Event, create_node, pushed}
use elastic_2d_relaxation.Window2Dd.Put.{
  PutPc, enter, read, read_rest, check, done, start, put_check, put_window,
}
use elastic_2d_relaxation.Stack2Dd.{
  Descriptor, put_count, tear, Shared, Local, idle, pushing, push, try_push, step,
}

-- The turns of thread `t` for a push of each of the values, with nobody in between.
abbrev pub pushes_of : ℕ → List ℕ → Schedule
pushes_of t [] = []
pushes_of t (v ∷ vals) = steps 6 t (2 * v) ++ pushes_of t vals

-- Pushes of the values into lane `i`, the last one first.
abbrev pub logged : ℕ → List ℕ → List Event → List Event
logged i [] log = log
logged i (v ∷ vals) log = logged i vals (pushed i v ∷ log)

module _ (address : ℕ → ℕ) (cfg : Config) where
  module _ (v : ℕ) (h : Shared) (i m : ℕ) where
    -- A thread between two calls, with the current put window.
    abbrev resting : Local
    resting = record { index = i; put_max = h.put_max; get_max = m; pc = idle }

    -- The thread inside `put_window`.
    abbrev at : PutPc Descriptor → Local
    at pc = record resting {
      pc =
          pushing v v (record {
            place = record { index = i; hops = 0; random = 0 };
            max = h.put_max;
            pc = pc;
          });
    }

    abbrev after_push : Shared
    after_push = record h {
      lanes = update h.lanes i (record (h.lanes i) {
        node = address h.published;
        put_count = add32 (put_count (h.lanes i)) 1;
      });
      nodes = update h.nodes (address h.published) (create_node v v (h.lanes i).node);
      published = h.published + 1;
      log = pushed i v ∷ h.log;
    }

    abbrev Steps : Local → Local → Type 0
    Steps l l' = step address cfg (2 * v) h l ≡ (h, l')

    even : (2 * v % 2) ≡ 0
    even = omega arith

    half : 2 * v / 2 ≡ v
    half = omega arith

    calls : Steps resting (at (enter false))
    unfolding step start
    calls = ground (arith, even, half)

    enters : Steps (at (enter false)) (at read)
    unfolding step push put_window
    enters = rw (==_refl h.put_max) refl

    reads : Steps (at read) (at (read_rest (h.lanes i)))
    unfolding step push put_window
    reads = refl

    reads_rest : Steps (at (read_rest (h.lanes i))) (at (check (h.lanes i)))
    unfolding step push put_window
    reads_rest = refl

    admitted :
        put_count (h.lanes i) < h.put_max
        → put_check put_count tear cfg
            (2 * v)
            h.put_max
            (record {
              place = record { index = i; hops = 0; random = 0 };
              max = h.put_max;
              pc = check (h.lanes i);
            })
            (h.lanes i)
          ≡ record {
            place = record { index = i; hops = 0; random = 0 };
            max = h.put_max;
            pc = done (h.lanes i);
          }
    unfolding put_check
    admitted below = ground arith

    checks :
        put_count (h.lanes i) < h.put_max → Steps (at (check (h.lanes i))) (at (done (h.lanes i)))
    unfolding step push put_window
    checks below = rw (admitted below) refl

    pushes : step address cfg (2 * v) h (at (done (h.lanes i))) ≡ (after_push, resting)
    unfolding step push try_push create_node
    pushes =
        rw
          (==_refl (h.lanes i).node, ==_refl (put_count (h.lanes i)), ==_refl (h.lanes i).get_count)
          (ground arith)

    next :
        (n : ℕ) (l : Local) {h' : Shared} {l' : Local}
        → step address cfg (2 * v) h l ≡ (h', l')
        → alone (step address cfg) (2 * v) (suc n) h l ≡ alone (step address cfg) (2 * v) n h' l'
    next n l e = alone-step (step address cfg) (2 * v) n h l e

    -- A call of `push` by one thread is six steps.
    alone_pushes :
        put_count (h.lanes i) < h.put_max
        → alone (step address cfg) (2 * v) 6 h resting ≡ (after_push, resting)
    unfolding alone
    alone_pushes below =
        next 5 resting calls
        ∙ next 4 (at (enter false)) enters
        ∙ next 3 (at read) reads
        ∙ next 2 (at (read_rest (h.lanes i))) reads_rest
        ∙ next 1 (at (check (h.lanes i))) (checks below)
        ∙ next 0 (at (done (h.lanes i))) pushes

  -- What a run of pushes makes of the memory.
  abbrev OnlyIn : ℕ → List ℕ → Shared → Shared → Type 0
  OnlyIn i vals h h' =
      (h'.log ≡ logged i vals h.log)
      × (h'.put_max ≡ h.put_max)
      × (put_count (h'.lanes i) ≡ (put_count (h.lanes i) + length vals) % 2 ^ 32)
      × ((j : ℕ) → j ≢ i → h'.lanes j ≡ h.lanes j)

  OnlyIn-first :
      (v : ℕ) (vals : List ℕ) (h h' : Shared) (i m : ℕ)
      → OnlyIn i vals (after_push v h i m) h'
      → OnlyIn i (v ∷ vals) h h'
  OnlyIn-first v vals h h' i m o =
      (o.0, o.1, ground (arith, o.2, ==_refl i), λ j other. o.3 j other ∙ rw (differ j other) refl)
    where
      differ : (j : ℕ) → j ≢ i → (i == j) ≡ false
      differ j other = ground arith

  one_push :
      (t i m v : ℕ) (s : System Shared Local)
      → put_count (s.shared.lanes i) < s.shared.put_max
      → s.locals t ≡ resting 0 s.shared i m
      → let s' = run (step address cfg) (steps 6 t (2 * v)) s in
        (s'.shared ≡ after_push v s.shared i m) × (s'.locals t ≡ resting 0 s.shared i m)
  one_push t i m v s below rests =
      let (memory, local) = run-alone (step address cfg) (2 * v) 6 t s in
      let done : alone (step address cfg) (2 * v) 6 s.shared (s.locals t)
          ≡ (after_push v s.shared i m, resting 0 s.shared i m) =
        rw rests (alone_pushes v s.shared i m below) in
      (
        memory ∙ ap (λ (x : Shared × Local). x.0) done,
        local ∙ ap (λ (x : Shared × Local). x.1) done,
      )

  no_push :
      (i : ℕ) (s : System Shared Local)
      → put_count (s.shared.lanes i) < 2 ^ 32
      → OnlyIn i [] s.shared (run (step address cfg) [] s).shared
  unfolding run
  no_push i s narrow = (refl, refl, omega arith, λ j other. refl)

  pushes_on :
      (t i m : ℕ) (vals : List ℕ) (s : System Shared Local)
      → 2 ^ 32 ≤ s.shared.put_max
      → put_count (s.shared.lanes i) < 2 ^ 32
      → s.locals t ≡ resting 0 s.shared i m
      → OnlyIn i vals s.shared (run (step address cfg) (pushes_of t vals) s).shared
  pushes_on t i m [] s wide narrow rests = no_push i s narrow
  pushes_on t i m (v ∷ vals) s wide narrow rests =
      let s' : System Shared Local = run (step address cfg) (steps 6 t (2 * v)) s in
      let (memory, local) = one_push t i m v s (omega arith) rests in
      let h' : Shared = (run (step address cfg) (pushes_of t vals) s').shared in
      let rest : OnlyIn i vals s'.shared h' =
        pushes_on t i m vals s' (rw memory wide) (rw (memory, ==_refl i) (omega arith))
          (local ∙ rw memory refl) in
      rw (run-append (step address cfg) (steps 6 t (2 * v)) (pushes_of t vals) s) (
        OnlyIn-first v vals s.shared h' i m
          (subst (λ (h : Shared). OnlyIn i vals h h') memory rest))

-- A put count of 32 bits never reaches a put window of 2 ^ 32 or more: a thread between two calls,
-- with that window and at a lane whose count has 32 bits, that pushes any values with nobody in
-- between, pushes all of them into its lane, in six steps each. The lane's count wraps, and the put
-- window and the other lanes stay as they are.
pub wide_window_never_fills :
    (address : ℕ → ℕ) (cfg : Config) (t : ℕ) (vals : List ℕ) (s : System Shared Local)
    → 2 ^ 32 ≤ s.shared.put_max
    → put_count (s.shared.lanes (s.locals t).index) < 2 ^ 32
    → (s.locals t).pc ≡ idle
    → (s.locals t).put_max ≡ s.shared.put_max
    → let i = (s.locals t).index in
      let h = (run (step address cfg) (pushes_of t vals) s).shared in
      (h.log ≡ logged i vals s.shared.log)
      × (h.put_max ≡ s.shared.put_max)
      × (put_count (h.lanes i) ≡ (put_count (s.shared.lanes i) + length vals) % 2 ^ 32)
      × ((j : ℕ) → j ≢ i → h.lanes j ≡ s.shared.lanes j)
wide_window_never_fills address cfg t vals s wide narrow rests current =
    pushes_on address cfg t (s.locals t).index (s.locals t).get_max vals s wide narrow
      (ground arith)
