-- ===== src/Relaxation/Queues.antt =====
-- The relaxation analysis of the decoupled queue: `enq_cas` and `deq_cas` of src/2Dd-queue/2Dd-queue.c add
-- and remove the value that is enqueued or dequeued, under the lock of the lists. Built for the analysis,
-- the queue's values are the counts of `gen_relaxation_count`; here they are any values.
use mathlib.Core.Option
use mathlib.Core.Path.{subst}
use elastic_2d_relaxation.Prelude.{
  ℕ, zero, suc, ◌^◌, ◌<◌, ◌≡◌, refl, sym, ◌∙◌, ap, List, [], ◌∷◌, ◌++◌, inl, inr, Option, some,
  none, arith, some-eq, Option-cases, ==_refl, length,
}
use elastic_2d_relaxation.Linked.{tail, IsAllocator}
use elastic_2d_relaxation.Search.{IsValid}
use elastic_2d_relaxation.Interleave.{Schedule}
use elastic_2d_relaxation.Queue2Dd.{Event, enqueued, dequeued, empty, Created, create_queue}
use elastic_2d_relaxation.Queue2Dd.Laws.{Fits, after, dequeues-Legal}
use elastic_2d_relaxation.Relaxation.{initial}
use elastic_2d_relaxation.Queue2Dd.Fifo.{contents, Legal, dequeues}
use elastic_2d_relaxation.Relaxation.Laws.{
  Op, at_tail, removal, index_of, expected_one, expected, replay, Agrees, analysis-Agrees,
}

-- The calls of the analysis that a history has led to, the first one first.
unfoldable pub trace : List Event → List Op
trace [] = []
trace (enqueued lane val ∷ log) = trace log ++ (at_tail val ∷ [])
trace (dequeued lane val ∷ log) = trace log ++ (removal val ∷ [])
trace (empty ∷ log) = trace log

unfoldable pub zeros : ℕ → List ℕ
zeros zero = []
zeros (suc n) = 0 ∷ zeros n

zeros-snoc : (n : ℕ) → zeros n ++ (0 ∷ []) ≡ zeros (suc n)
unfolding zeros
zeros-snoc zero = refl
zeros-snoc (suc n) = ap (λ (vs : List ℕ). 0 ∷ vs) (zeros-snoc n)

bind-some_right : {A : Type 0} (o : Option A) → Option.bind o (λ a. some a) ≡ o
unfolding Option.bind
bind-some_right none = refl
bind-some_right (some a) = refl

none-some : {A : Type 0} {a : A} → none ≡ some a → ⊥
none-some e = cc

-- The value in front is removed at distance 0.
pub first-removed :
    (val : ℕ) (vs rest ds : List ℕ)
    → vs ≡ val ∷ rest
    → expected_one (removal val) (vs, ds) ≡ some (rest, ds ++ (0 ∷ []))
unfolding expected_one index_of Option.map
first-removed val vs rest ds e = rw (e, ==_refl val) refl

-- One more call at the end.
pub expected-snoc :
    (ops : List Op) (op : Op) (s t : List ℕ × List ℕ)
    → expected ops s ≡ some t
    → expected (ops ++ (op ∷ [])) s ≡ expected_one op t
unfolding expected Option.bind
expected-snoc [] op s t e = bind-some_right (expected_one op s) ∙ ap (expected_one op) (some-eq e)
expected-snoc (o ∷ ops) op s t e = elim (Option-cases (expected_one o s)) [
  | inl fails ↦ absurd (none-some (sym (ap (λ x. Option.bind x (expected ops)) fails) ∙ e))
  | inr (s', e') ↦
      rw e' (expected-snoc ops op s' t (sym (ap (λ x. Option.bind x (expected ops)) e') ∙ e))
]

-- Over one lane that is a queue, nothing is ever in front of what is removed.
pub one_lane-zeros :
    (log : List Event)
    → Legal 1 log
    → expected (trace log) ([], []) ≡ some (contents log 0, zeros (dequeues log))
unfolding trace contents zeros expected expected_one
one_lane-zeros [] legal = refl
one_lane-zeros (empty ∷ log) legal = one_lane-zeros log legal
one_lane-zeros (enqueued lane val ∷ log) (lt, legal) =
    let e : lane ≡ 0 = omega arith in
    expected-snoc (trace log) (at_tail val) ([], []) (contents log 0, zeros (dequeues log))
      (one_lane-zeros log legal)
    ∙ rw e refl
one_lane-zeros (dequeued lane val ∷ log) (lt, front, legal) =
    let e : lane ≡ 0 = omega arith in
    expected-snoc (trace log) (removal val) ([], []) (contents log 0, zeros (dequeues log))
      (one_lane-zeros log legal)
    ∙ first-removed val (contents log 0) (tail (contents log 0)) (zeros (dequeues log))
        (subst (λ (i : ℕ). contents log i ≡ val ∷ tail (contents log i)) e front)
    ∙ rw e (ap (λ (ds : List ℕ). some (tail (contents log 0), ds)) (zeros-snoc (dequeues log)))

-- However the threads are interleaved, the analysis of a decoupled queue of one lane does not fail: it
-- holds what was enqueued and not dequeued, in order, and measures the distance 0 for every dequeue.
pub one_lane-strict :
    {address places : ℕ → ℕ} (alloc : IsAllocator address)
    → IsAllocator places
    → (t w d m b : ℕ) {c : Created} (made : create_queue address t w d m b ≡ some c)
    → (valid : IsValid c.config) (sched : Schedule) (fits : Fits c.config sched)
    → c.config.width ≡ 1
    → length (trace (after address c sched).shared.log) < 2 ^ 64
    → Agrees places (replay places (trace (after address c sched).shared.log) initial) (
        some (
          contents (after address c sched).shared.log 0,
          zeros (dequeues (after address c sched).shared.log),
        ))
one_lane-strict {address} {places} alloc place t w d m b {c} made valid sched fits one room =
    subst (Agrees places (replay places (trace (after address c sched).shared.log) initial))
      (one_lane-zeros (after address c sched).shared.log (
        subst (λ (n : ℕ). Legal n (after address c sched).shared.log) one
          (dequeues-Legal alloc t w d m b made valid sched fits)))
      (analysis-Agrees places place (trace (after address c sched).shared.log) room)
