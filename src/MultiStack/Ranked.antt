-- ===== src/MultiStack/Ranked.antt =====
-- The best of the nodes that a round has read, when it goes on to another node.
use elastic_2d_relaxation.Prelude.{ℕ, ◌≤◌, ◌≡◌, true, false, List, [], ◌∷◌, arith}
use elastic_2d_relaxation.MultiStack.{Operation, push, pop, rank, better}
use elastic_2d_relaxation.MultiStack.Inv.{IsRanked, GoesOn}

IsRanked-push :
    (key val b b' : ℕ) (seen : List ℕ)
    → b' ≤ b
    → IsRanked (push key val) b seen
    → IsRanked (push key val) b' seen
IsRanked-push key val b b' [] le k = tt
IsRanked-push key val b b' (r ∷ seen) le k =
    (omega (arith, k.0), IsRanked-push key val b b' seen le k.1)

IsRanked-pop : (b b' : ℕ) (seen : List ℕ) → b ≤ b' → IsRanked pop b seen → IsRanked pop b' seen
IsRanked-pop b b' [] le k = tt
IsRanked-pop b b' (r ∷ seen) le k = (omega (arith, k.0), IsRanked-pop b b' seen le k.1)

pub IsRanked-single : (op : Operation) (r : ℕ) → IsRanked op r (r ∷ [])
IsRanked-single (push key val) r = (omega arith, tt)
IsRanked-single pop r = (omega arith, tt)

module _ (stamps : ℕ → ℕ) (node node2 : ℕ) (seen : List ℕ) where
  pub IsRanked-taken :
      (op : Operation)
      → GoesOn op node
      → better op stamps node node2 ≡ true
      → IsRanked op (rank stamps node) seen
      → IsRanked op (rank stamps node2) (rank stamps node2 ∷ seen)
  unfolding better
  IsRanked-taken (push key val) goes e k = (
    omega arith,
    IsRanked-push key val (rank stamps node) (rank stamps node2) seen (ground arith) k,
  )
  IsRanked-taken pop goes e k =
      (omega arith, IsRanked-pop (rank stamps node) (rank stamps node2) seen (ground arith) k)

  pub IsRanked-kept :
      (op : Operation)
      → better op stamps node node2 ≡ false
      → IsRanked op (rank stamps node) seen
      → IsRanked op (rank stamps node) (rank stamps node2 ∷ seen)
  unfolding better
  IsRanked-kept (push key val) e k = (ground arith, k)
  IsRanked-kept pop e k = (ground arith, k)
