-- ===== src/MultiCounter/Inv.antt =====
-- The invariant of the multi-counter, and what a thread knows of its round of drawn lanes.
use elastic_2d_relaxation.Prelude.{
  ℕ, ◌+◌, ◌^◌, ◌≤◌, ◌<◌, ◌≡◌, true, false, List, [], ◌∷◌, arith, length, total,
}
use elastic_2d_relaxation.Calls.{increments, decrements}
use elastic_2d_relaxation.MultiCounter.{
  count, Operation, increment, decrement, Pc, first, next, second, Shared, better,
}

-- No count read in the round was less than the best, or, for a decrement, more.
abbrev pub IsBest : Operation → ℕ → List ℕ → Type 0
IsBest op best [] = Unit
IsBest increment best (c ∷ seen) = (best ≤ c) × IsBest increment best seen
IsBest decrement best (c ∷ seen) = (c ≤ best) × IsBest decrement best seen

IsBest-mono-inc :
    (b b' : ℕ) (seen : List ℕ) → b' ≤ b → IsBest increment b seen → IsBest increment b' seen
IsBest-mono-inc b b' [] le k = tt
IsBest-mono-inc b b' (c ∷ seen) le k = (omega (arith, k.0), IsBest-mono-inc b b' seen le k.1)

IsBest-mono-dec :
    (b b' : ℕ) (seen : List ℕ) → b ≤ b' → IsBest decrement b seen → IsBest decrement b' seen
IsBest-mono-dec b b' [] le k = tt
IsBest-mono-dec b b' (c ∷ seen) le k = (omega (arith, k.0), IsBest-mono-dec b b' seen le k.1)

pub IsBest-single : (op : Operation) (c : ℕ) → IsBest op c (c ∷ [])
IsBest-single increment c = (omega arith, tt)
IsBest-single decrement c = (omega arith, tt)

-- A better lane becomes the best, and another does not.
pub IsBest-taken :
    (op : Operation) (best c : ℕ) (seen : List ℕ)
    → best < 2 ^ 63
    → c < 2 ^ 63
    → better op best c ≡ true
    → IsBest op best seen
    → IsBest op c (c ∷ seen)
unfolding better
IsBest-taken increment best c seen p q e k =
    (omega arith, IsBest-mono-inc best c seen (ground arith) k)
IsBest-taken decrement best c seen p q e k =
    (omega arith, IsBest-mono-dec best c seen (ground arith) k)

pub IsBest-kept :
    (op : Operation) (best c : ℕ) (seen : List ℕ)
    → best < 2 ^ 63
    → c < 2 ^ 63
    → better op best c ≡ false
    → IsBest op best seen
    → IsBest op best (c ∷ seen)
unfolding better
IsBest-kept increment best c seen p q e k = (ground arith, k)
IsBest-kept decrement best c seen p q e k = (ground arith, k)

-- The invariant with `n` steps to go.
pub record Inv (width n : ℕ) (h : Shared) : Type 0 where
  pub log_room : increments h.log + n < 2 ^ 63
  pub logged : total count width h.lanes + decrements h.log ≡ increments h.log

-- What a thread knows of its own round.
abbrev pub Holds : ℕ → Shared → Pc → Type 0
Holds width h (first op index version) = index < width
Holds width h (next op i index d seen) =
    (index < width) × (d.count < 2 ^ 63) × IsBest op d.count seen × (length seen ≡ i)
Holds width h (second op i index d seen index2 version2) =
    (index < width)
    × (d.count < 2 ^ 63)
    × IsBest op d.count seen
    × (length seen ≡ i)
    × (index2 < width)
Holds width h _ = Unit
