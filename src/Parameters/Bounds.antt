-- ===== src/Parameters/Bounds.antt =====
-- The width and depth that `create_*` chooses keep the relaxation that was asked for.
use elastic_2d_relaxation.Prelude.{
  ℕ, ◌+◌, ◌-◌, ◌*◌, ◌/◌, ◌^◌, ◌≤◌, ◌<◌, ◌≡◌, ◌≢◌, some, arith, true, ◌∙◌, ◌⊎◌, ltb, Bool-cases, inl,
  inr, if◌then◌else◌, add64, sub64, mul64, ap, map-some, bind-some, some-eq,
}
use mathlib.Core.Path.{subst}
use elastic_2d_relaxation.Parameters.{
  Parameters, div64, single_lane, width_for, narrowed, for_width, for_depth, parameters,
}

-- The bound of the design for these parameters, and the one that was asked for.
pub record Keeps (factor bound : ℕ) (p : Parameters) : Type 0 where
  pub relaxed : factor * p.depth * (p.width - 1) ≤ p.relaxation_bound
  pub asked : p.relaxation_bound ≤ bound
  pub some_width : 0 < p.width

-- `a * (b / a) ≤ b`
mul-div-le : (a b : ℕ) → a * (b / a) ≤ b
mul-div-le a b = omega arith

mul-le_of_div : (a b n : ℕ) → n ≤ b / a → a * n ≤ b
mul-le_of_div a b n le = grind (arith, mul-div-le)

div-lt_one : (a b : ℕ) → 0 < a → b / a < 1 → b < a
div-lt_one a b pos lt =
    let none_fits : b / a ≡ 0 = omega arith in omega (arith, ap (λ (q : ℕ). a * q) none_fits)

mul-pred-le : (a n : ℕ) → a * (n - 1) ≤ a * n
mul-pred-le a n = grind arith

le-mul : (a n : ℕ) → 0 < a → n ≤ a * n
le-mul a n pos = grind arith

mul-pos : (a b : ℕ) → 0 < a → 0 < b → 0 < a * b
mul-pos a b p q = grind arith

single_lane-Keeps : (factor bound : ℕ) → Keeps factor bound (single_lane bound)
unfolding single_lane
single_lane-Keeps factor bound = omega arith

div64-some : (a b : ℕ) {q : ℕ} → div64 a b ≡ some q → (b ≢ 0) × (q ≡ a / b)
unfolding div64
div64-some a b e = ground arith

-- A width other than 0, to which the sum wraps past the largest `uint64_t`, fits the bound.
width_for-le :
    (factor depth bound : ℕ) {w : ℕ}
    → factor * depth < 2 ^ 64
    → width_for factor depth bound ≡ some w
    → w ≢ 0
    → factor * depth * (w - 1) ≤ bound
unfolding width_for
width_for-le factor depth bound {w} small e ne =
    let (q, d, r) = map-some (λ q. add64 q 1) (div64 bound (mul64 factor depth)) e in
    let (_, quotient) = div64-some bound (mul64 factor depth) d in
    let same : mul64 factor depth ≡ factor * depth = omega arith in
    mul-le_of_div (factor * depth) bound (w - 1) (omega (arith, ap (λ (m : ℕ). bound / m) same))

chosen-Keeps :
    (factor depth bound w : ℕ)
    → factor * depth < 2 ^ 64
    → width_for factor depth bound ≡ some w
    → Keeps factor bound (
        if ltb w 1
        then single_lane bound
        else record { width = w; depth = depth; relaxation_bound = bound })
chosen-Keeps factor depth bound w small e = elim (Bool-cases (ltb w 1)) [
  | inl wrapped ↦ rw wrapped (single_lane-Keeps factor bound)
  | inr some_width ↦ rw some_width (record {
    relaxed = width_for-le factor depth bound small e (ground arith);
    asked = omega arith;
    some_width = ground arith;
  })
]

for_depth-Keeps :
    (factor depth bound : ℕ) {p : Parameters}
    → factor * depth < 2 ^ 64
    → for_depth factor depth bound ≡ some p
    → Keeps factor bound p
unfolding for_depth
for_depth-Keeps factor depth bound small e =
    let (w, q, r) = map-some _ (width_for factor depth bound) e in
    subst (Keeps factor bound) r (chosen-Keeps factor depth bound w small q)

width_for-pos :
    (factor depth bound : ℕ) {w : ℕ}
    → bound + 1 < 2 ^ 64
    → width_for factor depth bound ≡ some w
    → 0 < w
unfolding width_for
width_for-pos factor depth bound small e =
    let (q, d, r) = map-some (λ q. add64 q 1) (div64 bound (mul64 factor depth)) e in
    let (_, quotient) = div64-some bound (mul64 factor depth) d in
    let le : bound / mul64 factor depth ≤ bound = omega arith in omega arith

shallow-Keeps :
    (factor bound w : ℕ)
    → factor < 2 ^ 64
    → bound + 1 < 2 ^ 64
    → width_for factor 1 bound ≡ some w
    → Keeps factor bound (record { width = w; depth = 1; relaxation_bound = bound })
shallow-Keeps factor bound w small fits e = record {
  relaxed =
      width_for-le factor 1 bound (omega arith) e
        (omega (arith, width_for-pos factor 1 bound fits e));
  asked = omega arith;
  some_width = width_for-pos factor 1 bound fits e;
}

module _ (factor width bound : ℕ) {p : Parameters} (some_factor : 0 < factor)
    (small : factor * (width - 1) < 2 ^ 64) (fits : factor < 2 ^ 64) where
  narrowed-Keeps :
      1 < width
      → narrowed factor width bound (bound / (factor * (width - 1))) ≡ some p
      → Keeps factor bound p
  unfolding narrowed
  narrowed-Keeps wide e = elim (Bool-cases (ltb (bound / (factor * (width - 1))) 1)) [
    | inl shallow ↦
        let (w, q, r) = map-some _ (width_for factor 1 bound) (rw (shallow, narrowed) at e) in
        subst (Keeps factor bound) r
          (shallow-Keeps factor bound w fits (omega (arith, below shallow)) q)
    | inr deep ↦ subst (Keeps factor bound) (some-eq (rw (deep, narrowed) at e)) (record {
      relaxed = grind (arith, mul-div-le (factor * (width - 1)) bound);
      asked = omega arith;
      some_width = omega arith;
    })
  ]
    where
      below : ltb (bound / (factor * (width - 1))) 1 ≡ true → bound < factor * (width - 1)
      below shallow =
          div-lt_one (factor * (width - 1)) bound
            (mul-pos factor (width - 1) some_factor (omega arith)) (ground arith)

  for_width-Keeps : width < 2 ^ 64 → for_width factor width bound ≡ some p → Keeps factor bound p
  unfolding for_width
  for_width-Keeps word e = elim (Bool-cases (ltb width 2)) [
    | inl single ↦
        subst (Keeps factor bound) (some-eq (rw (single, for_width) at e))
          (single_lane-Keeps factor bound)
    | inr several ↦
        let (q, d, r) =
          bind-some (div64 bound (mul64 factor (sub64 width 1))) (narrowed factor width bound)
            (rw (several, for_width) at e) in
        narrowed-Keeps (ground arith) (
          subst (λ n. narrowed factor width bound n ≡ some p)
            ((div64-some bound _ d).1 ∙ ap (λ (n : ℕ). bound / n) (divisor (ground arith))) r)
  ]
    where
      divisor : 1 < width → mul64 factor (sub64 width 1) ≡ factor * (width - 1)
      divisor wide = let lanes : sub64 width 1 ≡ width - 1 = omega arith in rw lanes (omega arith)

-- The limits within which the products of `create_*` do not wrap.
pub record Fits (factor num_threads width depth bound : ℕ) : Type 0 where
  pub some_factor : 0 < factor
  pub factor_fits : factor < 2 ^ 64
  pub given_width : factor * width < 2 ^ 64
  pub thread_width : factor * (num_threads * width) < 2 ^ 64
  pub given_depth : factor * depth < 2 ^ 64

-- In the modes 1, 2 and 3 the width and depth that are chosen are at least one lane, and the
-- relaxation that they allow, `factor * depth * (width - 1)`, is at most the bound asked for.
pub parameters-Keeps :
    (factor num_threads width depth k_mode bound : ℕ) {p : Parameters}
    → Fits factor num_threads width depth bound
    → (k_mode ≡ 1) ⊎ ((k_mode ≡ 2) ⊎ (k_mode ≡ 3))
    → parameters factor num_threads width depth k_mode bound ≡ some p
    → Keeps factor bound p
unfolding parameters
parameters-Keeps factor t width depth k_mode bound f (inl one) e =
    for_width-Keeps factor width bound f.some_factor
      (omega (arith, f.given_width, mul-pred-le factor width)) f.factor_fits
      (omega (arith, f.given_width, le-mul factor width f.some_factor)) (rw (one, parameters) at e)
parameters-Keeps factor t width depth k_mode bound f (inr (inl two)) e =
    for_depth-Keeps factor depth bound f.given_depth (rw (two, parameters) at e)
parameters-Keeps factor t width depth k_mode bound f (inr (inr three)) e =
    for_width-Keeps factor (mul64 t width) bound f.some_factor
      (omega (arith, f.thread_width, product, mul-pred-le factor (mul64 t width))) f.factor_fits
      (omega arith) (rw (three, parameters) at e)
  where
    product : factor * mul64 t width ≤ factor * (t * width)
    product =
        let small : t * width < 2 ^ 64 = omega (arith, le-mul factor (t * width) f.some_factor) in
        let same : mul64 t width ≡ t * width = omega arith in rw same (omega arith)
