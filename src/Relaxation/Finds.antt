-- ===== src/Relaxation/Finds.antt =====
-- What the loop of `remove_linear` finds.
use elastic_2d_relaxation.Prelude.{
  some-eq, map-some, ℕ, zero, suc, ◌+◌, ◌<◌, ◌≡◌, refl, sym, ◌∙◌, ap, [], ◌∷◌, inl, inr, true,
  false, Option, some, none, u64_mod, add64, arith, Bool-cases, ◌==◌, ==_refl, if◌then◌else◌,
  length,
}
use mathlib.Core.Option
use mathlib.Core.Path.{subst}
use elastic_2d_relaxation.Relaxation.{LinearNode, set_next, search}
use elastic_2d_relaxation.Relaxation.Chains.{
  Cells, has, last, Chain, Chain-frame, drop_at, not-has-drop_at, has-last, has-differ, position,
}

pub position-hit :
    (val p v : ℕ) (cs : Cells) → (v == val) ≡ true → position val ((p, v) ∷ cs) ≡ some 0
position-hit val p v cs hit = rw hit refl

pub position-miss :
    (val p v : ℕ) (cs : Cells)
    → (v == val) ≡ false
    → position val ((p, v) ∷ cs) ≡ Option.map suc (position val cs)
position-miss val p v cs miss = rw miss refl

pub map-none : {A B : Type 0} (f : A → B) (o : Option A) → Option.map f o ≡ none → o ≡ none
map-none f none e = refl
map-none f (some a) e = cc

-- What the loop of `remove_linear` finds behind the cell `(b, w)`: at distance `n` from there the
-- node after `l` is the one to be unlinked.
pub record Found (nodes : ℕ → LinearNode) (p : ℕ) (c : ℕ × ℕ) (cs : Cells) (l n : ℕ) : Type 0 where
  pub among : has l (c ∷ cs) ≡ true
  pub other : has (nodes l).next cs ≡ true
  pub cut : Chain (set_next nodes l (nodes (nodes l).next).next) p (c ∷ drop_at n cs)
  pub gone : has (nodes l).next (c ∷ drop_at n cs) ≡ false
  pub new_last :
      last (c ∷ drop_at n cs) ≡ (if (nodes l).next == last (c ∷ cs) then l else last (c ∷ cs))

last-first :
    (b w a v : ℕ) (cs : Cells)
    → has a cs ≡ false
    → last ((b, w) ∷ cs) ≡ (if a == last ((a, v) ∷ cs) then b else last ((a, v) ∷ cs))
last-first b w a v [] out = rw (==_refl a) refl
last-first b w a v (c ∷ cs) out = rw other refl
  where
    other : (a == last (c ∷ cs)) ≡ false
    other = ground (arith, has-differ (last (c ∷ cs)) a (c ∷ cs) (has-last c cs) out)

module _ (fuel : ℕ) (nodes : ℕ → LinearNode) (val p skipped b w a v : ℕ) (cs : Cells)
    (h : Chain nodes p ((b, w) ∷ (a, v) ∷ cs)) where
  some_node : (a == 0) ≡ false
  some_node = ground (arith, h.4.1)

  search-hit : (v == val) ≡ true → search (suc fuel) nodes val p skipped ≡ some (p, skipped)
  unfolding search
  search-hit hit = rw (h.0, h.4.0, some_node, h.4.2, hit) refl

  search-miss :
      (v == val) ≡ false
      → search (suc fuel) nodes val p skipped ≡ search fuel nodes val a (add64 skipped 1)
  unfolding search
  search-miss miss = rw (h.0, h.4.0, some_node, h.4.2, miss) refl

  differ : (l : ℕ) → has l ((a, v) ∷ cs) ≡ true → (l == b) ≡ false
  differ l among = has-differ l b ((a, v) ∷ cs) among h.3

  hit-Found : Found nodes p (b, w) ((a, v) ∷ cs) b 0
  hit-Found = record {
    among = ground (arith, ==_refl b);
    other = ground (arith, h.4.0);
    cut = rw (==_refl b) (
      h.0,
      h.1,
      h.2,
      ground (arith, h.3),
      Chain-frame nodes b (record (nodes b) { next = (nodes (nodes b).next).next })
          (nodes (nodes b).next).next cs (ground (arith, h.3))
          (subst (λ (x : ℕ). Chain nodes (nodes x).next cs) (sym h.4.0) h.4.4),
    );
    gone = subst (λ (x : ℕ). has x ((b, w) ∷ cs) ≡ false) (sym h.4.0) (ground (arith, h.3, h.4.3));
    new_last =
        subst
          (λ (x : ℕ).
            last ((b, w) ∷ cs)
            ≡ (if x == last ((b, w) ∷ (a, v) ∷ cs) then b else last ((b, w) ∷ (a, v) ∷ cs)))
          (sym h.4.0) (last-first b w a v cs h.4.3);
  }

  miss-Found :
      (l m : ℕ) → Found nodes a (a, v) cs l m → Found nodes p (b, w) ((a, v) ∷ cs) l (suc m)
  miss-Found l m f = record {
    among = ground (arith, f.among);
    other = ground (arith, f.other);
    cut = rw (differ l f.among) (
      h.0,
      h.1,
      h.2,
      ground (arith, h.3, not-has-drop_at b m cs),
      subst
          (λ (x : ℕ).
            Chain (set_next nodes l (nodes (nodes l).next).next) x ((a, v) ∷ drop_at m cs))
          (sym h.4.0) f.cut,
    );
    gone = ground (arith, f.gone, has-differ (nodes l).next b cs f.other (ground (arith, h.3)));
    new_last = f.new_last;
  }

pub search-none :
    (fuel : ℕ) (nodes : ℕ → LinearNode) (val p skipped : ℕ) (c : ℕ × ℕ) (cs : Cells)
    → Chain nodes p (c ∷ cs)
    → position val cs ≡ none
    → search fuel nodes val p skipped ≡ none
unfolding search
search-none zero nodes val p skipped c cs h missing = refl
search-none (suc fuel) nodes val p skipped (b, w) [] (e, nz, is, apart, rest) missing =
    rw (e, rest) refl
search-none (suc fuel) nodes val p skipped (b, w) ((a, v) ∷ cs) h missing =
    elim (Bool-cases (v == val)) [
      | inl hit ↦ absurd (ground arith)
      | inr miss ↦
          search-miss fuel nodes val p skipped b w a v cs h miss
          ∙ search-none fuel nodes val a (add64 skipped 1) (a, v) cs
              (refl, h.4.1, h.4.2, h.4.3, h.4.4)
              (map-none suc (position val cs) (sym (position-miss val a v cs miss) ∙ missing))
    ]

-- The node that the loop of `remove_linear` stops before.
pub search-Found :
    (fuel : ℕ) (nodes : ℕ → LinearNode) (val p skipped n : ℕ) (c : ℕ × ℕ) (cs : Cells)
    → Chain nodes p (c ∷ cs)
    → position val cs ≡ some n
    → length cs < fuel
    → skipped + length cs < u64_mod
    → (l : ℕ) × (search fuel nodes val p skipped ≡ some (l, skipped + n)) × Found nodes p c cs l n
search-Found fuel nodes val p skipped n c [] h at enough small = cc
search-Found zero nodes val p skipped n c (d ∷ cs) h at enough small = absurd (omega arith)
search-Found (suc fuel) nodes val p skipped n (b, w) ((a, v) ∷ cs) h at enough small =
    elim (Bool-cases (v == val)) [
      | inl hit ↦
          let none_skipped : skipped ≡ skipped + 0 = omega arith in
          let zero_is : n ≡ 0 = some-eq (sym at ∙ position-hit val a v cs hit) in
          rw zero_is (
            b,
            search-hit fuel nodes val p skipped b w a v cs h hit
                ∙ ap (λ (x : ℕ). some (x, skipped)) h.0
                ∙ ap (λ (x : ℕ). some (b, x)) none_skipped,
            hit-Found fuel nodes val p skipped b w a v cs h,
          )
      | inr miss ↦
          let (m, here, e) =
            map-some suc (position val cs) (sym (position-miss val a v cs miss) ∙ at) in
          let counted : add64 skipped 1 ≡ skipped + 1 = omega arith in
          let (l, found, f) =
            search-Found fuel nodes val a (add64 skipped 1) m (a, v) cs
              (refl, h.4.1, h.4.2, h.4.3, h.4.4) here (omega arith) (omega arith) in
          subst
            (λ (x : ℕ).
              (l : ℕ) × (search (suc fuel) nodes val p skipped ≡ some (l, skipped + x))
              × Found nodes p (b, w) ((a, v) ∷ cs) l x)
            e
            (
              l,
              search-miss fuel nodes val p skipped b w a v cs h miss
                  ∙ found
                  ∙ ap (λ (x : ℕ). some (l, x)) (omega (arith, counted)),
              miss-Found fuel nodes val p skipped b w a v cs h l m f,
            )
    ]
