-- ===== src/Prelude/Lists.antt =====
-- Lists measured by native numbers, and families indexed by them.
use Prim.Native.Nat.{ℕ, zero, suc, ◌+◌, ◌*◌, ◌≤◌, ◌<◌}
use mathlib.Core.Logic.{◌≢◌}
use mathlib.Core.Path.{◌≡◌, refl}
use native.Mathlib.Omega.{arith}
use native.Mathlib.Decide.{dec_lt, ℕ_discrete}
use mathlib.Core.List.{List, [], ◌∷◌}
use elastic_2d_relaxation.Prelude.Tests.{◌==◌, if◌then◌else◌}

abbrev pub length {ℓ} : {A : Type ℓ} → List A → ℕ
length [] = 0
length (x ∷ xs) = suc (length xs)

-- The family `f` with the value at `i` replaced.
abbrev pub update {ℓ} : {A : Type ℓ} → (ℕ → A) → ℕ → A → ℕ → A
update f i a j = if i == j then a else f j

-- The sum of the weights of the first `n` members of a family.
module _ {ℓ} {A : Type ℓ} (weight : A → ℕ) where
  unfoldable pub total : ℕ → (ℕ → A) → ℕ
  total zero f = 0
  total (suc n) f = total n f + weight (f n)

  -- Families that agree below `n` have one sum.
  pub total-ext :
      (n : ℕ) {f g : ℕ → A}
      → ((j : ℕ) → j < n → weight (f j) ≡ weight (g j))
      → total n f ≡ total n g
  unfolding total
  total-ext zero same = refl
  total-ext (suc n) same =
      omega (arith, same n (omega arith), total-ext n (λ j lt. same j (omega arith)))

  -- Families that differ at `i` alone have sums that differ by the weights there.
  pub total-differ :
      (n i : ℕ) {f g : ℕ → A}
      → i < n
      → ((j : ℕ) → i ≢ j → weight (f j) ≡ weight (g j))
      → total n g + weight (f i) ≡ total n f + weight (g i)
  unfolding total
  total-differ zero i lt same = absurd (omega arith)
  total-differ (suc n) i {f} {g} lt same = elim (ℕ_discrete i n) [
    | yes e ↦ rw e (omega (arith, total-ext n {f = f} {g = g} (λ j q. same j (omega arith))))
    | no ne ↦ omega (arith, same n ne, total-differ n i {f = f} {g = g} (omega arith) same)
  ]

  pub total-update :
      (n : ℕ) (f : ℕ → A) (i : ℕ) (a : A)
      → i < n
      → total n (update f i a) + weight (f i) ≡ total n f + weight a
  total-update n f i a lt =
      ground (arith, total-differ n i {f = f} {g = update f i a} lt (λ j ne. ground arith))

  pub total-none : (n : ℕ) {f : ℕ → A} → ((i : ℕ) → weight (f i) ≡ 0) → total n f ≡ 0
  unfolding total
  total-none zero none = refl
  total-none (suc n) none = omega (arith, none n, total-none n none)

  -- A member is at most the sum.
  pub le-total : (n : ℕ) (f : ℕ → A) (i : ℕ) → i < n → weight (f i) ≤ total n f
  unfolding total
  le-total zero f i lt = absurd (omega arith)
  le-total (suc n) f i lt = elim (ℕ_discrete i n) [
    | yes e ↦ rw e (omega arith)
    | no ne ↦ omega (arith, le-total n f i (omega arith))
  ]

  -- A bound on each member bounds the sum.
  pub total-le : (n b : ℕ) (f : ℕ → A) → ((i : ℕ) → i < n → weight (f i) ≤ b) → total n f ≤ n * b
  unfolding total
  total-le zero b f h = omega arith
  total-le (suc n) b f h =
      omega (arith, h n (omega arith), total-le n b f (λ i lt. h i (omega arith)))

  -- One member at most `b`, the others at most `b + d`.
  pub total-le_but_one :
      (n b d j : ℕ) (f : ℕ → A)
      → ((i : ℕ) → i < n → weight (f i) ≤ b + d)
      → weight (f j) ≤ b
      → j < n
      → total n f + d ≤ n * b + n * d
  unfolding total
  total-le_but_one zero b d j f h hj lt = absurd (omega arith)
  total-le_but_one (suc n) b d j f h hj lt = elim (dec_lt j n) [
    | yes below ↦
        omega
          (arith, h n (omega arith), total-le_but_one n b d j f (λ i q. h i (omega arith)) hj below)
    | no last ↦ ground (arith, total-le n (b + d) f (λ i q. h i (omega arith)), hj)
  ]
