-- ===== src/Controller/Tests.antt =====
-- Calls of the controller, and its theorems at them.
use elastic_2d_relaxation.Prelude.{◌≡◌, refl, true, false, none, some, [], ◌∷◌, arith}
use elastic_2d_relaxation.Controller.{Controller, inc_put_controller}
use elastic_2d_relaxation.Controller.Laws.{
  asks, balance_asks, IsBalanced, asks-balance, votes_forgotten,
}

-- A thread that is about to ask for more lanes.
abbrev contended : Controller
contended = record { count = 4950; iters = 7; this_max = 12; votes = 65534 }

contended-IsBalanced : IsBalanced contended
contended-IsBalanced = omega arith

asks-balance_example :
    asks (false ∷ true ∷ true ∷ []) contended ≡ balance_asks (false ∷ true ∷ true ∷ []) 9950
asks-balance_example = asks-balance (false ∷ true ∷ true ∷ []) contended contended-IsBalanced

-- The second of the three calls asks.
three_calls : asks (false ∷ true ∷ true ∷ []) contended ≡ false ∷ true ∷ false ∷ []
unfolding asks
three_calls = refl

-- For the window that the votes are for, two votes for fewer lanes outweigh one for more.
votes_kept : (inc_put_controller contended 12 8).0 ≡ none
unfolding inc_put_controller
votes_kept = refl

votes_forgotten_example : (inc_put_controller contended 70000 8).0 ≡ some 13
unfolding balance_asks
votes_forgotten_example =
    votes_forgotten contended 70000 8 contended-IsBalanced (omega arith) (omega arith) (omega arith)
      refl
