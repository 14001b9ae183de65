-- ===== src/Relaxation/Distances.antt =====
-- A removed node at the end of the distances, and the first node of the clone.

use mathlib.Core.Path.{subst}
use elastic_2d_relaxation.Prelude.{
  ℕ, suc, ◌+◌, ◌≤◌, ◌<◌, ◌≡◌, ◌≢◌, refl, sym, ◌∙◌, ap, [], ◌∷◌, ◌++◌, inl, inr, true, false, some,
  none, u64_mod, sub64, arith, Bool-cases, ◌==◌, ==_refl, update, if◌then◌else◌, length,
}
use elastic_2d_relaxation.Relaxation.{
  LinearNode, LinearList, Analysis, add_relaxed_dist, remove_linear,
}
use elastic_2d_relaxation.Relaxation.Chains.{
  Cells, has, last, Chain, has-append, has-last, has-differ, drop_at, position,
}
use elastic_2d_relaxation.Prelude.{map-some, some-eq}
use elastic_2d_relaxation.Relaxation.Finds.{position-hit, position-miss}
use elastic_2d_relaxation.Relaxation.Lists.{
  IsList, IsList-frame, Represents, append-IsList, append-frame, length-snoc,
}

pub not-has-zero :
    (nodes : ℕ → LinearNode) (p a : ℕ) (cs : Cells) → Chain nodes p cs → has a cs ≡ true → a ≢ 0
not-has-zero nodes p a [] h among zero_is = cc
not-has-zero nodes p a ((b, w) ∷ cs) h among zero_is =
    ground (arith, h.1, not-has-zero nodes (nodes b).next a cs h.4)

pub length-drop_at :
    (val n : ℕ) (cs : Cells)
    → position val cs ≡ some n
    → (length cs ≡ suc (length (drop_at n cs))) × (n < length cs)
length-drop_at val n [] at = cc
length-drop_at val n ((a, v) ∷ cs) at = elim (Bool-cases (v == val)) [
  | inl hit ↦
      let zero_is : n ≡ 0 = some-eq (sym at ∙ position-hit val a v cs hit) in
      rw zero_is (refl, omega arith)
  | inr miss ↦
      let (m, here, e) =
        map-some suc (position val cs) (sym (position-miss val a v cs miss) ∙ at) in
      subst
        (λ (x : ℕ).
          (suc (length cs) ≡ suc (length (drop_at x ((a, v) ∷ cs)))) × (x < suc (length cs)))
        e (omega (arith, length-drop_at val m cs here))
]

-- A node that is in neither list goes to the end of the distances.
pub dist-Represents :
    (address : ℕ → ℕ) (h : Analysis) (cs ds : Cells) (p d : ℕ)
    → Represents address h cs ds
    → has p cs ≡ false
    → has p ds ≡ false
    → p ≢ 0
    → ((k : ℕ) → h.allocated ≤ k → (p == address k) ≡ false)
    → length cs + length ds < h.allocated
    → h.allocated < u64_mod
    → Represents address (add_relaxed_dist h p d) cs (ds ++ ((p, d) ∷ []))
unfolding add_relaxed_dist
dist-Represents address h cs ds p d v out_c out_d live old enough room = record {
  clone =
      append-frame p ds cs framed (λ a among. ground (arith, v.apart a))
        (IsList-frame p node cs out_c v.clone);
  dists = append-IsList p d ds framed out_d live (ground (arith, ==_refl p)) (omega arith);
  apart = λ a among.
      ground (arith, has-append a ds ((p, d) ∷ []), v.apart a, has-differ a p cs among out_c);
  unused = λ k le. (
    (v.unused k le).0,
    ground (arith, has-append (address k) ds ((p, d) ∷ []), (v.unused k le).1, old k le),
  );
  enough = omega (arith, length-snoc ds (p, d));
}
  where
    node : LinearNode
    node = record { val = d; next = 0 }

    framed : IsList (update h.nodes p node) h.error_dists ds
    framed = IsList-frame p node ds out_d v.dists

-- The assertion on an empty clone.
pub remove-empty :
    (fuel : ℕ) (h : Analysis) (val : ℕ) → h.linear_clone.head ≡ 0 → remove_linear fuel h val ≡ none
unfolding remove_linear
remove-empty fuel h val e = rw e refl

pub first-tail :
    (a w head tail : ℕ) (cs : Cells)
    → head ≡ a
    → tail ≡ last ((a, w) ∷ cs)
    → has a cs ≡ false
    → (if head == tail then 0 else tail) ≡ last cs
first-tail a w head tail [] e e' out = rw (e, e', ==_refl a) refl
first-tail a w head tail (c ∷ cs) e e' out = rw (e, e', other) refl
  where
    other : (a == last (c ∷ cs)) ≡ false
    other = ground (arith, has-differ (last (c ∷ cs)) a (c ∷ cs) (has-last c cs) out)

-- A list whose head is its tail has one node.
pub alone :
    (nodes : ℕ → LinearNode) (list : LinearList) (a w : ℕ) (cs : Cells)
    → IsList nodes list ((a, w) ∷ cs)
    → (list.head == list.tail) ≡ true
    → (((nodes list.head).next == 0) ≡ true) × ((sub64 list.size 1 == 0) ≡ true)
alone nodes list a w [] i same =
    (ground (arith, ap (λ (p : ℕ). (nodes p).next) i.chain.0, i.chain.4), ground (arith, i.size_is))
alone nodes list a w (c ∷ cs) i same = absurd (
    ground (
      arith,
      i.chain.0,
      i.tail_is,
      has-differ (last (c ∷ cs)) a (c ∷ cs) (has-last c cs) i.chain.3,
    ))
