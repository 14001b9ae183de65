-- ===== src/Relaxation/Chains.antt =====
-- Chains of nodes with the values they hold, and what the writes of the relaxation analysis make of
-- them.
use elastic_2d_relaxation.Prelude.{
  ℕ, zero, suc, ◌≡◌, ◌≢◌, refl, ap, List, [], ◌∷◌, ◌++◌, Bool, true, false, ◌||◌, Option, some,
  none, arith, ◌==◌, ==_refl, update, if◌then◌else◌,
}
use mathlib.Core.Option
use elastic_2d_relaxation.Relaxation.{LinearNode, set_next}

-- The address and the value of each node, in order.
abbrev pub Cells : Type 0
Cells = List (ℕ × ℕ)

abbrev pub has : ℕ → Cells → Bool
has a [] = false
has a ((p, _) ∷ cs) = (p == a) || has a cs

abbrev pub vals : Cells → List ℕ
vals [] = []
vals ((_, v) ∷ cs) = v ∷ vals cs

-- The last address, and 0 of no cells.
abbrev pub last : Cells → ℕ
last [] = 0
last ((p, _) ∷ []) = p
last (_ ∷ c ∷ cs) = last (c ∷ cs)

-- From `p` the `next` pointers lead through the distinct nodes of the cells to `NULL`.
abbrev pub Chain : (ℕ → LinearNode) → ℕ → Cells → Type 0
Chain nodes p [] = p ≡ 0
Chain nodes p ((a, v) ∷ cs) =
    (p ≡ a) × (a ≢ 0) × ((nodes a).val ≡ v) × (has a cs ≡ false) × Chain nodes (nodes a).next cs

-- A write outside a chain leaves it as it is.
pub Chain-frame :
    (nodes : ℕ → LinearNode) (b : ℕ) (x : LinearNode) (p : ℕ) (cs : Cells)
    → has b cs ≡ false
    → Chain nodes p cs
    → Chain (update nodes b x) p cs
Chain-frame nodes b x p [] out c = c
Chain-frame nodes b x p ((a, v) ∷ cs) out (e, nz, val, apart, rest) =
    rw differ (e, nz, val, apart, Chain-frame nodes b x (nodes a).next cs (ground arith) rest)
  where
    differ : (b == a) ≡ false
    differ = ground arith

pub has-append : (a : ℕ) (cs ds : Cells) → has a (cs ++ ds) ≡ (has a cs || has a ds)
has-append a [] ds = refl
has-append a ((p, v) ∷ cs) ds = ground (arith, has-append a cs ds)

pub vals-append : (cs ds : Cells) → vals (cs ++ ds) ≡ vals cs ++ vals ds
vals-append [] ds = refl
vals-append ((p, v) ∷ cs) ds = ap (λ (vs : List ℕ). v ∷ vs) (vals-append cs ds)

pub has-last : (c : ℕ × ℕ) (cs : Cells) → has (last (c ∷ cs)) (c ∷ cs) ≡ true
has-last (p, v) [] = ground arith
has-last (p, v) (d ∷ cs) = ground (arith, has-last d cs)

pub last-append : (cs : Cells) (a v : ℕ) → last (cs ++ ((a, v) ∷ [])) ≡ a
last-append [] a v = refl
last-append (c ∷ []) a v = refl
last-append (c ∷ d ∷ cs) a v = last-append (d ∷ cs) a v

-- A node whose `next` is `NULL`, linked to the last one of a chain.
pub Chain-append :
    (nodes : ℕ → LinearNode) (p a v : ℕ) (c : ℕ × ℕ) (cs : Cells)
    → Chain nodes p (c ∷ cs)
    → has a (c ∷ cs) ≡ false
    → a ≢ 0
    → (nodes a).val ≡ v
    → (nodes a).next ≡ 0
    → Chain (set_next nodes (last (c ∷ cs)) a) p ((c ∷ cs) ++ ((a, v) ∷ []))
Chain-append nodes p a v (b, w) [] (e, nz, val, apart, rest) out live is null =
    rw (==_refl b, differ) (e, nz, val, ground arith, (refl, live, is, refl, null))
  where
    differ : (b == a) ≡ false
    differ = ground arith
Chain-append nodes p a v (b, w) (d ∷ cs) (e, nz, val, apart, rest) out live is null = rw differ (
  e,
  nz,
  val,
  ground (arith, has-append b (d ∷ cs) ((a, v) ∷ [])),
  Chain-append nodes (nodes b).next a v d cs rest (ground arith) live is null,
)
  where
    differ : (last (d ∷ cs) == b) ≡ false
    differ = ground (arith, has-last d cs)

-- The cells without the one after the first `n`.
abbrev pub drop_at : ℕ → Cells → Cells
drop_at n [] = []
drop_at zero (c ∷ cs) = cs
drop_at (suc n) (c ∷ cs) = c ∷ drop_at n cs

pub not-has-drop_at : (a n : ℕ) (cs : Cells) → has a cs ≡ false → has a (drop_at n cs) ≡ false
not-has-drop_at a n [] out = out
not-has-drop_at a zero ((p, v) ∷ cs) out = ground arith
not-has-drop_at a (suc n) ((p, v) ∷ cs) out = ground (arith, not-has-drop_at a n cs)

pub has-differ : (a b : ℕ) (cs : Cells) → has a cs ≡ true → has b cs ≡ false → (a == b) ≡ false
has-differ a b [] inside out = cc
has-differ a b ((p, v) ∷ cs) inside out = ground (arith, has-differ a b cs)

-- Where a value stands first.
abbrev pub position : ℕ → Cells → Option ℕ
position val [] = none
position val ((p, v) ∷ cs) =
    let rest = position val cs in if v == val then some 0 else Option.map suc rest
