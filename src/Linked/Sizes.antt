-- ===== src/Linked/Sizes.antt =====
-- The sizes of the lanes: the loops of `stack_size` end, and yield the pushes less the pops.
use elastic_2d_relaxation.Prelude.{
  ℕ, zero, suc, ◌+◌, ◌≤◌, ◌<◌, ◌^◌, ◌≡◌, refl, some, List, [], ◌∷◌, arith, length, total,
  total-differ, total-none, ◌∙◌, total-ext, ap, ◌-◌, le-total, add64,
}
use mathlib.Core.Option
use elastic_2d_relaxation.Linked.{
  Node, walk, size_upto, Event, pushed, popped, empty, contents, Legal, pushes, pops,
}
use elastic_2d_relaxation.Linked.Chains.{Chain}
use elastic_2d_relaxation.Linked.Lanes.{Linked}

-- Enough fuel for a chain is one more than its length.
walk-Chain :
    (address : ℕ → ℕ) (fuel : ℕ) (nodes : ℕ → Node) (n p size : ℕ) (vs : List ℕ)
    → Chain address nodes n p vs
    → length vs < fuel
    → size + length vs < 2 ^ 64
    → walk fuel nodes p size ≡ some (size + length vs)
unfolding walk
walk-Chain address zero nodes n p size vs c enough small = absurd (omega arith)
walk-Chain address (suc fuel) nodes n p size [] c enough small = ground arith
walk-Chain address (suc fuel) nodes n p size (v ∷ vs) c enough small = rw walks (
    ground (
      arith,
      walk-Chain address fuel nodes n (nodes p).next (add64 size 1) vs c.3 (omega arith)
          (omega arith),
    ))
  where
    walks : walk (suc fuel) nodes p size ≡ walk fuel nodes (nodes p).next (add64 size 1)
    walks = ground (arith, c.0)

-- Every push that was not popped lies in some lane.
pub lengths :
    (width : ℕ) (log : List Event)
    → Legal width log
    → total length width (contents log) + pops log ≡ pushes log
unfolding contents
lengths width [] g = omega (arith, total-none {A = List ℕ} length width {f = λ _. []} (λ _. refl))
lengths width (pushed lane val ∷ log) (lt, g) = ground (
  arith,
  lengths width log g,
  total-differ length width lane {f = contents log} {g = contents (pushed lane val ∷ log)} lt
      (λ j ne. ground arith),
)
lengths width (popped lane val ∷ log) (lt, top, g) = ground (
  arith,
  lengths width log g,
  ap (length {A = ℕ}) top,
  total-differ (length {A = ℕ}) width lane {f = contents log} {g = contents (popped lane val ∷ log)}
      lt (λ j ne. ground arith),
)
lengths width (empty ∷ log) g = omega (
  arith,
  lengths width log g,
  total-ext (length {A = ℕ}) width {f = contents (empty ∷ log)} {g = contents log} (λ j lt. refl),
)

module _ (address : ℕ → ℕ) (width : ℕ) {nodes : ℕ → Node} {n : ℕ} {tops : ℕ → ℕ} {log : List Event}
    (l : Linked address width nodes n tops log) (small : pushes log < 2 ^ 64) where
  pub length-le : (i : ℕ) → i < width → length (contents log i) ≤ pushes log
  length-le i lt =
      omega (arith, le-total (length {A = ℕ}) width (contents log) i lt, lengths width log l.legal)

  size_upto-total :
      (k : ℕ)
      → k ≤ width
      → total (length {A = ℕ}) k (contents log) ≤ total (length {A = ℕ}) width (contents log)
      → size_upto (suc (pushes log)) nodes tops k ≡ some (total length k (contents log))
  unfolding size_upto total Option.bind
  size_upto-total zero le part = refl
  size_upto-total (suc k) le part = rw (size_upto-total k (omega arith) (omega arith)) (
      walk-Chain address (suc (pushes log)) nodes n (tops k)
        (total (length {A = ℕ}) k (contents log)) (contents log k) (l.chains k (omega arith))
        (omega (arith, length-le k (omega arith))) (omega (arith, lengths width log l.legal)))

  -- With fuel for every node that was ever pushed, `stack_size` run alone ends with the pushes less
  -- the pops.
  pub size_upto-Linked :
      size_upto (suc (pushes log)) nodes tops width ≡ some (pushes log - pops log)
  size_upto-Linked =
      size_upto-total width (omega arith) (omega arith)
      ∙ ap some (omega (arith, lengths width log l.legal))
