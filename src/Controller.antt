-- ===== src/Controller.antt =====
-- src/2Dd-queue_elastic-lpw/controller.h: when a thread of the elastic queue asks for another width.
-- An `int16_t` is a number below 2 ^ 16, in two's complement. `update_width`, which the code calls
-- there, is the width that a call returns. The children hold the theorems and the tests.
pub mod Laws
mod Tests
use elastic_2d_relaxation.Prelude.{
  ℕ, ◌+◌, ◌*◌, ◌/◌, Bool, true, false, not, ◌&&◌, Option, none, some, if◌then◌else◌, ltb, leb, ◌==◌,
  add16, sub16, ◌%◌,
}

-- `elastic_controller_t`
pub record Controller : Type 0 where
  pub count : ℕ
  pub iters : ℕ
  pub this_max : ℕ
  pub votes : ℕ

abbrev pub negative : ℕ → Bool
negative x = leb 32768 x

-- `x >> 1`
abbrev pub halved : ℕ → ℕ
halved x = if negative x then 32768 + x / 2 else x / 2

-- The test of `iters` against ITER_TRESHOLD, and what follows it.
unfoldable pub regulate : Controller → Controller
regulate c =
    if not (negative c.iters) && (c.iters == 40000000)
    then record c { count = halved c.count; iters = 0 }
    else c

unfoldable pub inc_controller : Controller → Bool × Controller
unfolding regulate
inc_controller c =
    let c' = regulate (record c { count = add16 c.count 75; iters = add16 c.iters 1 }) in
    if not (negative c'.count) && ltb 5000 c'.count
    then (true, record c' { count = 0 })
    else (false, c')

unfoldable pub dec_controller : Controller → Bool × Controller
unfolding regulate
dec_controller c =
    let c' = regulate (record c { count = sub16 c.count 1; iters = add16 c.iters 1 }) in
    if negative c'.count && ltb c'.count 60536 then (true, record c' { count = 0 }) else (false, c')

-- The votes are for one window.
abbrev pub for_window : ℕ → Controller → Controller
for_window max c = if c.this_max == max then c else record c { votes = 0; this_max = max % 65536 }

-- The vote for more lanes, or for fewer, and the width asked for if the votes are for it.
unfoldable pub vote_up : ℕ → ℕ → Controller → Option ℕ × Controller
vote_up max width c =
    let voted = for_window max c in
    let votes = add16 voted.votes 1 in
    let asked = if not (negative votes) && ltb 0 votes then some (add16 width 5) else none in
    (asked, record voted { votes = votes })

unfoldable pub vote_down : ℕ → ℕ → Controller → Option ℕ × Controller
vote_down max width c =
    let voted = for_window max c in
    let votes = sub16 voted.votes 1 in
    let asked = if negative votes && ltb 5 width then some (sub16 width 5) else none in
    (asked, record voted { votes = votes })

-- `max` and `width` are the thread's put window.
unfoldable pub inc_put_controller : Controller → (max width : ℕ) → Option ℕ × Controller
unfolding inc_controller vote_up
inc_put_controller c max width =
    let (fired, c') = inc_controller c in
    if fired && not (width * 2 == 0) then vote_up max width c' else (none, c')

unfoldable pub dec_put_controller : Controller → (max width : ℕ) → Option ℕ × Controller
unfolding dec_controller vote_down
dec_put_controller c max width =
    let (fired, c') = dec_controller c in
    if fired && ltb 1 width then vote_down max width c' else (none, c')
