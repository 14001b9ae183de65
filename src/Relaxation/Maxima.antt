-- ===== src/Relaxation/Maxima.antt =====
-- The maximum that `print_relaxation_measurements` prints.
use mathlib.Core.Path.{subst}
use elastic_2d_relaxation.Prelude.{
  ℕ, zero, suc, ◌^◌, ◌≤◌, ◌<◌, ◌≡◌, refl, ◌∙◌, List, [], ◌∷◌, inl, inr, ◌⊎◌, false, Option, some,
  none, arith, Bool-cases, ◌==◌, ltb, length, sym,
}
use elastic_2d_relaxation.Linked.{IsAllocator}
use elastic_2d_relaxation.Relaxation.{
  LinearNode, Analysis, initial, ltb_signed, max_from, max_relaxation,
}
use elastic_2d_relaxation.Relaxation.Chains.{Cells, vals, Chain}
use elastic_2d_relaxation.Relaxation.Lists.{Represents}
use elastic_2d_relaxation.Relaxation.Laws.{Op, replay, expected, Agrees, analysis-Agrees}
use elastic_2d_relaxation.Relaxation.Bounds.{AtMost, IsLow, expected-IsLow}

abbrev pub Among : ℕ → List ℕ → Type 0
Among m [] = ⊥
Among m (v ∷ vs) = (m ≡ v) ⊎ Among m vs

-- On numbers below 2 ^ 63 the signed comparison is the plain one.
ltb_signed-eq : (a b : ℕ) → a < 2 ^ 63 → b < 2 ^ 63 → ltb_signed a b ≡ ltb a b
ltb_signed-eq a b p q = ground arith

max_from-some :
    (fuel : ℕ) (nodes : ℕ → LinearNode) (p max : ℕ) (cs : Cells) (bound : ℕ)
    → Chain nodes p cs
    → length cs < fuel
    → bound < 2 ^ 63
    → max ≤ bound
    → AtMost (vals cs) bound
    → (m : ℕ) × (max_from fuel nodes p max ≡ some m)
      × (max ≤ m)
      × AtMost (vals cs) m
      × ((m ≡ max) ⊎ Among m (vals cs))
unfolding max_from
max_from-some zero nodes p max cs bound c enough small low all_low = absurd (omega arith)
max_from-some (suc fuel) nodes p max [] bound c enough small low all_low =
    (max, rw c refl, omega arith, tt, inl refl)
max_from-some (suc fuel) nodes p max ((a, v) ∷ cs) bound c enough small low all_low =
    elim (Bool-cases (ltb max v)) [
      | inl up ↦
          let (m, e, le, all, from) =
            max_from-some fuel nodes (nodes a).next v cs bound c.4 (omega arith) small all_low.0
              all_low.1 in
          (m, rw (c.0, some_node, c.2, signed, up) e, ground arith, (le, all), inr from)
      | inr keep ↦
          let (m, e, le, all, from) =
            max_from-some fuel nodes (nodes a).next max cs bound c.4 (omega arith) small low
              all_low.1 in
          (
            m,
            rw (c.0, some_node, c.2, signed, keep) e,
            le,
            (ground arith, all),
            elim from [ inl same ↦ inl same | inr i ↦ inr (inr i) ],
          )
    ]
  where
    some_node : (a == 0) ≡ false
    some_node = ground (arith, c.1)

    signed : ltb_signed max v ≡ ltb max v
    signed = ltb_signed-eq max v (omega arith) (omega (arith, all_low))

max_relaxation-from :
    (fuel : ℕ) (h : Analysis)
    → (h.error_dists.head == 0) ≡ false
    → max_relaxation fuel h ≡ max_from fuel h.nodes h.error_dists.head 0
unfolding max_relaxation
max_relaxation-from fuel h e = rw e refl

max_relaxation-some :
    (address : ℕ → ℕ) (h : Analysis) (cs es : Cells) (d : ℕ) (ds : List ℕ) (bound : ℕ)
    → Represents address h cs es
    → vals es ≡ d ∷ ds
    → bound < 2 ^ 63
    → AtMost (d ∷ ds) bound
    → (m : ℕ) × (max_relaxation (suc h.allocated) h ≡ some m) × AtMost (d ∷ ds) m × Among m (d ∷ ds)
unfolding max_relaxation
max_relaxation-some address h cs [] d ds bound v e small low = cc
max_relaxation-some address h cs ((a, w) ∷ es) d ds bound v e small low =
    let (m, found, le, all, from) =
      max_from-some (suc h.allocated) h.nodes h.error_dists.head 0 ((a, w) ∷ es) bound v.dists.chain
        (omega (arith, v.enough)) small (omega arith)
        (subst (λ (vs : List ℕ). AtMost vs bound) (sym e) low) in
    (
      m,
      max_relaxation-from (suc h.allocated) h some_head ∙ found,
      subst (λ (vs : List ℕ). AtMost vs m) e all,
      subst (λ (vs : List ℕ). Among m vs) e
          (elim from [ inl same ↦ inl (omega (arith, all)) | inr i ↦ i ]),
    )
  where
    some_head : (h.error_dists.head == 0) ≡ false
    some_head = ground (arith, v.dists.chain)

-- The number that is printed as `max_relaxation` after fewer than 2 ^ 63 calls that do not fail, with
-- a removal among them, is one of the distances, the numbers of values that were in front of a
-- removed one, and none of them is greater.
pub analysis-max :
    {address : ℕ → ℕ}
    → IsAllocator address
    → (ops : List Op) (vs : List ℕ) (d : ℕ) (ds : List ℕ) → length ops < 2 ^ 63
    → expected ops ([], []) ≡ some (vs, d ∷ ds)
    → (h : Analysis) × (m : ℕ) × (replay address ops initial ≡ some h)
      × (max_relaxation (suc h.allocated) h ≡ some m)
      × AtMost (d ∷ ds) m
      × Among m (d ∷ ds)
analysis-max {address} alloc ops vs d ds room e = at (replay address ops initial) refl (
    subst (Agrees address (replay address ops initial)) e
      (analysis-Agrees address alloc ops (omega arith)))
  where
    at :
        (o : Option Analysis)
        → replay address ops initial ≡ o
        → Agrees address o (some (vs, d ∷ ds))
        → (h : Analysis) × (m : ℕ) × (replay address ops initial ≡ some h)
          × (max_relaxation (suc h.allocated) h ≡ some m)
          × AtMost (d ∷ ds) m
          × Among m (d ∷ ds)
    at none q a = absurd a
    at (some h) q (cs, es, v, is, is') =
        let (m, found, all, from) =
          max_relaxation-some address h cs es d ds (length ops) v is' room distances_low in
        (h, m, q, found, all, from)
      where
        distances_low : AtMost (d ∷ ds) (length ops)
        distances_low =
            (subst (IsLow (length ops) (length ops)) e
              (expected-IsLow ops [] [] (length ops) (omega arith) tt)).1
