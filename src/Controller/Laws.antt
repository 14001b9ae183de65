-- ===== src/Controller/Laws.antt =====
-- The controller of src/2Dd-queue_elastic-lpw/controller.h is a bounded balance.
use elastic_2d_relaxation.Prelude.{
  ℕ, ◌+◌, ◌-◌, ◌*◌, ◌%◌, ◌≤◌, ◌<◌, ◌≡◌, refl, Bool, true, false, Option, none, some, List, [], ◌∷◌,
  if◌then◌else◌, leb, ◌==◌, arith, add16, sub16, ◌&&◌, ltb, not,
}
use elastic_2d_relaxation.Controller.{
  Controller, vote_up, vote_down, inc_controller, dec_controller, inc_put_controller,
  dec_put_controller, regulate,
}

-- One call for a put: `inc_controller` after contention, `dec_controller` without.
unfoldable pub regulated : Bool → Controller → Bool × Controller
unfolding inc_controller dec_controller
regulated contention c = if contention then inc_controller c else dec_controller c

-- Which of a sequence of calls ask for a change.
unfoldable pub asks : List Bool → Controller → List Bool
unfolding regulated
asks [] c = []
asks (contention ∷ calls) c = let (fired, c') = regulated contention c in fired ∷ asks calls c'

-- The balance between 0 and 10000 that the controller keeps, 5000 where it starts: contention adds
-- 75 and its absence takes 1, and a call that would leave the bounds asks and starts anew.
unfoldable pub balanced : Bool → ℕ → Bool × ℕ
balanced true b = if leb (b + 75) 10000 then (false, b + 75) else (true, 5000)
balanced false b = if b == 0 then (true, 5000) else (false, b - 1)

unfoldable pub balance_asks : List Bool → ℕ → List Bool
unfolding balanced
balance_asks [] b = []
balance_asks (contention ∷ calls) b =
    let (fired, b') = balanced contention b in fired ∷ balance_asks calls b'

abbrev pub balance : Controller → ℕ
balance c = (c.count + 5000) % 65536

pub record IsBalanced (c : Controller) : Type 0 where
  pub count_fits : c.count < 65536
  pub iters_fits : c.iters < 65536
  pub in_bounds : balance c ≤ 10000

-- `iters` never gets as far as its threshold.
regulate-same : (c : Controller) → c.iters < 65536 → regulate c ≡ c
unfolding regulate
regulate-same c h = ground arith

record Agrees (out : Bool × Controller) (spec : Bool × ℕ) : Type 0 where
  same_answer : out.0 ≡ spec.0
  same_balance : balance out.1 ≡ spec.1
  still : IsBalanced out.1

inc_controller-Agrees :
    (c : Controller) → IsBalanced c → Agrees (inc_controller c) (balanced true (balance c))
unfolding inc_controller balanced
inc_controller-Agrees c h =
    rw
      (regulate-same (record c { count = add16 c.count 75; iters = add16 c.iters 1 })
        (ground arith))
      (ground (arith, h))

dec_controller-Agrees :
    (c : Controller) → IsBalanced c → Agrees (dec_controller c) (balanced false (balance c))
unfolding dec_controller balanced
dec_controller-Agrees c h =
    rw
      (regulate-same (record c { count = sub16 c.count 1; iters = add16 c.iters 1 }) (ground arith))
      (ground (arith, h))

regulated-Agrees :
    (contention : Bool) (c : Controller)
    → IsBalanced c
    → Agrees (regulated contention c) (balanced contention (balance c))
unfolding regulated
regulated-Agrees true c h = inc_controller-Agrees c h
regulated-Agrees false c h = dec_controller-Agrees c h

-- The controller asks for a change at exactly the calls at which the balance does.
pub asks-balance :
    (calls : List Bool) (c : Controller)
    → IsBalanced c
    → asks calls c ≡ balance_asks calls (balance c)
unfolding asks balance_asks
asks-balance [] c h = refl
asks-balance (contention ∷ calls) c h =
    rw (a.same_answer, asks-balance calls (regulated contention c).1 a.still, a.same_balance) refl
  where
    a : Agrees (regulated contention c) (balanced contention (balance c))
    a = regulated-Agrees contention c h

vote_up-five :
    (max width : ℕ) (c : Controller) {asked : ℕ}
    → (vote_up max width c).0 ≡ some asked
    → asked ≡ add16 width 5
unfolding vote_up
vote_up-five max width c e = ground arith

vote_down-five :
    (max width : ℕ) (c : Controller) {asked : ℕ}
    → (vote_down max width c).0 ≡ some asked
    → (asked ≡ sub16 width 5) × (5 < width)
unfolding vote_down
vote_down-five max width c e = ground arith

if-asks :
    (b : Bool) (v : Option ℕ × Controller) (c : Controller) (asked : ℕ)
    → (if b then v else (none, c)).0 ≡ some asked
    → v.0 ≡ some asked
if-asks true v c asked e = e
if-asks false v c asked e = cc

inc_asks_five :
    (c : Controller) (max width asked : ℕ)
    → (inc_put_controller c max width).0 ≡ some asked
    → asked ≡ add16 width 5
unfolding inc_put_controller
inc_asks_five c max width asked e = vote_up-five max width (inc_controller c).1 {asked = asked} (
    if-asks ((inc_controller c).0 && not (width * 2 == 0)) (vote_up max width (inc_controller c).1)
      (inc_controller c).1 asked e)

dec_asks_five :
    (c : Controller) (max width asked : ℕ)
    → (dec_put_controller c max width).0 ≡ some asked
    → (asked ≡ sub16 width 5) × (5 < width)
unfolding dec_put_controller
dec_asks_five c max width asked e = vote_down-five max width (dec_controller c).1 {asked = asked} (
    if-asks ((dec_controller c).0 && ltb 1 width) (vote_down max width (dec_controller c).1)
      (dec_controller c).1 asked e)

-- A width that is asked for after contention is five more than the thread's, if that fits 16 bits.
asked_for_more :
    (c : Controller) (max width asked : ℕ)
    → width + 5 < 65536
    → (inc_put_controller c max width).0 ≡ some asked
    → asked ≡ width + 5
asked_for_more c max width asked small e = omega (arith, inc_asks_five c max width asked e)

-- A width that is asked for without contention is five less than the thread's, and still positive.
asked_for_fewer :
    (c : Controller) (max width asked : ℕ)
    → width < 65536
    → (dec_put_controller c max width).0 ≡ some asked
    → (asked + 5 ≡ width) × (0 < asked)
asked_for_fewer c max width asked small e = omega (arith, dec_asks_five c max width asked e)

inc_controller-this_max :
    (c : Controller) → IsBalanced c → (inc_controller c).1.this_max ≡ c.this_max
unfolding inc_controller
inc_controller-this_max c h =
    rw
      (regulate-same (record c { count = add16 c.count 75; iters = add16 c.iters 1 })
        (ground arith))
      (ground arith)

vote_up-forgets :
    (max width : ℕ) (c : Controller)
    → c.this_max < 65536
    → 65536 ≤ max
    → (vote_up max width c).0 ≡ some (add16 width 5)
unfolding vote_up
vote_up-forgets max width c fits large = ground arith

-- Once the put window has reached 2 ^ 16, `this_max` cannot hold it: the votes are dropped at every
-- call, and whenever the balance asks for more lanes the call does, however the votes stood.
pub votes_forgotten :
    (c : Controller) (max width : ℕ)
    → IsBalanced c
    → c.this_max < 65536
    → 65536 ≤ max
    → 0 < width
    → (balanced true (balance c)).0 ≡ true
    → (inc_put_controller c max width).0 ≡ some (add16 width 5)
unfolding inc_put_controller
votes_forgotten c max width h fits large p fires = rw (inc_controller-Agrees c h).same_answer (
    rw (fires, wide)
      (vote_up-forgets max width (inc_controller c).1 (omega (arith, inc_controller-this_max c h))
        large))
  where
    wide : (width * 2 == 0) ≡ false
    wide = ground arith
