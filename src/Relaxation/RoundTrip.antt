-- ===== src/Relaxation/RoundTrip.antt =====
-- A value that is put in front of the clone and removed at once.
use elastic_2d_relaxation.Prelude.{
  ℕ, ◌+◌, ◌^◌, ◌<◌, ◌≡◌, ◌∙◌, List, [], ◌∷◌, ◌++◌, some, refl, arith, length,
}
use mathlib.Core.Path.{subst}
use elastic_2d_relaxation.Linked.{IsAllocator}
use elastic_2d_relaxation.Relaxation.{initial}
use elastic_2d_relaxation.Relaxation.Laws.{
  Op, at_head, removal, expected_one, expected, replay, Agrees, analysis-Agrees,
}
use elastic_2d_relaxation.Relaxation.Queues.{expected-snoc, first-removed}

length-two : (ops : List Op) (a b : Op) → length ((ops ++ (a ∷ [])) ++ (b ∷ [])) ≡ length ops + 2
length-two [] a b = refl
length-two (op ∷ ops) a b = omega (arith, length-two ops a b)

head-front : (val : ℕ) (vs ds : List ℕ) → expected_one (at_head val) (vs, ds) ≡ some (val ∷ vs, ds)
unfolding expected_one
head-front val vs ds = refl

-- After any calls that the analysis gets through, a value that `add_linear` puts at the head and
-- `remove_linear` then removes leaves the clone as it was, even if the value was there before, and
-- adds a distance of 0.
pub front-removal :
    {address : ℕ → ℕ}
    → IsAllocator address
    → (ops : List Op) (vs ds : List ℕ) (val : ℕ) → length ops + 2 < 2 ^ 64
    → expected ops ([], []) ≡ some (vs, ds)
    → Agrees address
        (replay address ((ops ++ (at_head val ∷ [])) ++ (removal val ∷ [])) initial)
        (some (vs, ds ++ (0 ∷ [])))
front-removal {address} alloc ops vs ds val room e =
    subst
      (Agrees address (replay address ((ops ++ (at_head val ∷ [])) ++ (removal val ∷ [])) initial))
      both
      (analysis-Agrees address alloc ((ops ++ (at_head val ∷ [])) ++ (removal val ∷ []))
        (omega (arith, length-two ops (at_head val) (removal val))))
  where
    front : expected (ops ++ (at_head val ∷ [])) ([], []) ≡ expected_one (at_head val) (vs, ds)
    front = expected-snoc ops (at_head val) ([], []) (vs, ds) e

    both :
        expected ((ops ++ (at_head val ∷ [])) ++ (removal val ∷ [])) ([], [])
        ≡ some (vs, ds ++ (0 ∷ []))
    both =
        expected-snoc (ops ++ (at_head val ∷ [])) (removal val) ([], []) (val ∷ vs, ds)
          (front ∙ head-front val vs ds)
        ∙ first-removed val (val ∷ vs) vs ds refl
