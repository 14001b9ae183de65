-- ===== src/Search.antt =====
-- The search for a lane, which include/2Dd-window.c and include/2Dc-window.c share: `hop` and
-- `random_index`, and what a scan of the lanes has seen.
use elastic_2d_relaxation.Prelude.{
  ℕ, Bool, ◌+◌, ◌-◌, ◌%◌, ◌^◌, ◌≤◌, ◌<◌, ◌≡◌, ◌≢◌, arith, ltb, leb, if◌then◌else◌, add64,
  ℕ_discrete,
}
use native.Mathlib.Nat.{mod-lt, mod-eq_of_lt}

-- The fields of the data structure that the windows read, which never change, and the width of
-- the parameter of `random_index`: 32 bits in 2Dd-window.c, 16 in 2Dc-window.c.
pub record Config : Type 0 where
  pub width : ℕ
  pub depth : ℕ
  pub random_hops : ℕ
  pub index_bits : ℕ

pub record IsValid (cfg : Config) : Type 0 where
  pub some_width : 0 < cfg.width
  pub width_fits : cfg.width < 2 ^ 32
  pub index_fits : cfg.width < 2 ^ cfg.index_bits
  pub hops_fit : cfg.random_hops < 2 ^ 64

-- `my_random(...) % width` for the number `c` that the generator yields.
unfoldable pub random_index : Config → ℕ → ℕ
random_index cfg c = c % (cfg.width % 2 ^ cfg.index_bits)

-- Where a search stands: its lane, and how many hops of either kind it has made.
pub record Place : Type 0 where
  pub index : ℕ
  pub hops : ℕ
  pub random : ℕ

unfoldable pub hop : Config → ℕ → Place → Place
unfolding random_index
hop cfg c p =
    if ltb p.random cfg.random_hops
    then record p { random = add64 p.random 1; index = random_index cfg c }
    else record p {
      hops = add64 p.hops 1;
      index = if leb cfg.width (add64 p.index 1) then 0 else add64 p.index 1;
    }

-- How many sequential hops ago a search that now stands at `index` stood at lane `i`.
abbrev pub behind : ℕ → ℕ → ℕ → ℕ
behind width index i = if ltb i index then index - 1 - i else index + width - 1 - i

pub random_index-lt : {cfg : Config} (c : ℕ) → IsValid cfg → random_index cfg c < cfg.width
unfolding random_index
random_index-lt {cfg} c v = rw (mod-eq_of_lt v.index_fits) (mod-lt c v.some_width)

-- A search that has hopped sequentially has used up its random hops, and has not gone round twice.
pub record InPlace (cfg : Config) (p : Place) : Type 0 where
  pub index_in : p.index < cfg.width
  pub hops_in : p.hops ≤ cfg.width
  pub random_in : p.random ≤ cfg.random_hops
  pub random_first : p.hops ≢ 0 → p.random ≡ cfg.random_hops

pub hop-InPlace :
    {cfg : Config} (c : ℕ) (p : Place)
    → IsValid cfg
    → InPlace cfg p
    → p.hops ≢ cfg.width
    → InPlace cfg (hop cfg c p)
unfolding hop
hop-InPlace {cfg} c p v q h = ground (arith, random_index-lt {cfg = cfg} c v)

-- The place from which a call starts: a random lane after contention, the last lane otherwise.
abbrev pub start_place : Config → ℕ → Bool → Place → Place
start_place cfg c contention p = record p {
  index = if contention then random_index cfg c else p.index;
}

pub start_place-InPlace :
    {cfg : Config} (c : ℕ) (contention : Bool) (p : Place)
    → IsValid cfg
    → InPlace cfg p
    → InPlace cfg (start_place cfg c contention p)
start_place-InPlace {cfg} c contention p v q = ground (arith, random_index-lt {cfg = cfg} c v)

-- The lanes seen in the `hops` last sequential hops satisfy `P`.
abbrev pub Seen : Config → Place → (ℕ → Type 0) → Type 0
Seen cfg p P = (i : ℕ) → i < cfg.width → behind cfg.width p.index i < p.hops → P i

-- A hop away from a lane that satisfies `P` adds that lane to the lanes seen.
pub hop-Seen :
    {cfg : Config} (c : ℕ) (p : Place) (P : ℕ → Type 0)
    → IsValid cfg
    → InPlace cfg p
    → p.hops ≢ cfg.width
    → P p.index
    → Seen cfg p P
    → Seen cfg (hop cfg c p) P
unfolding hop
hop-Seen {cfg} c p P v q h here seen i lt b = elim (ℕ_discrete i p.index) [
  | yes e ↦ rw e here
  | no ne ↦ seen i lt (ground (arith, random_index-lt {cfg = cfg} c v))
]

-- After `width` sequential hops every lane has been seen.
pub Seen-all :
    {cfg : Config} (p : Place) (P : ℕ → Type 0)
    → InPlace cfg p
    → p.hops ≡ cfg.width
    → Seen cfg p P
    → (i : ℕ) → i < cfg.width
    → P i
Seen-all p P q e seen i lt = seen i lt (ground arith)
