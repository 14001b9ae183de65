-- ===== src/Relaxation/Bounds.antt =====
-- The distances that the reference of the relaxation analysis yields, and how many calls there were.
use mathlib.Core.Option
use elastic_2d_relaxation.Prelude.{
  ℕ, zero, suc, ◌+◌, ◌≤◌, ◌<◌, ◌≡◌, refl, ap, List, [], ◌∷◌, ◌++◌, inl, inr, Option, some, none,
  arith, Bool-cases, ◌==◌, length,
}
use elastic_2d_relaxation.Relaxation.Laws.{
  Op, at_tail, at_head, removal, index_of, remove_at, expected_one, expected,
}

abbrev pub AtMost : List ℕ → ℕ → Type 0
AtMost [] m = Unit
AtMost (v ∷ vs) m = (v ≤ m) × AtMost vs m

-- What `index_of` finds is an index.
abbrev IsIndex : ℕ → Option ℕ → Type 0
IsIndex len none = Unit
IsIndex len (some n) = n < len

index_of-IsIndex : (val : ℕ) (vs : List ℕ) → IsIndex (length vs) (index_of val vs)
unfolding index_of
index_of-IsIndex val [] = tt
index_of-IsIndex val (v ∷ vs) = elim (Bool-cases (v == val)) [
  | inl here ↦ rw here (omega arith)
  | inr later ↦ rw later (after (index_of val vs) (index_of-IsIndex val vs))
]
  where
    after : (o : Option ℕ) → IsIndex (length vs) o → IsIndex (suc (length vs)) (Option.map suc o)
    after none i = tt
    after (some n) i = omega arith

length-remove_at : (n : ℕ) (vs : List ℕ) → length (remove_at n vs) ≤ length vs
length-remove_at n [] = omega arith
length-remove_at zero (v ∷ vs) = omega arith
length-remove_at (suc n) (v ∷ vs) = omega (arith, length-remove_at n vs)

length-snoc : (vs : List ℕ) (v : ℕ) → length (vs ++ (v ∷ [])) ≡ suc (length vs)
length-snoc [] v = refl
length-snoc (x ∷ vs) v = ap suc (length-snoc vs v)

AtMost-snoc : (ds : List ℕ) (d m : ℕ) → AtMost ds m → d ≤ m → AtMost (ds ++ (d ∷ [])) m
AtMost-snoc [] d m all le = (le, tt)
AtMost-snoc (x ∷ ds) d m (low, all) le = (low, AtMost-snoc ds d m all le)

-- The reference holds at most `len` values, and no distance above `m`.
abbrev pub IsLow : (len m : ℕ) → Option (List ℕ × List ℕ) → Type 0
IsLow len m none = Unit
IsLow len m (some (vs, ds)) = (length vs ≤ len) × AtMost ds m

expected_one-IsLow :
    (op : Op) (vs ds : List ℕ) (m : ℕ)
    → length vs ≤ m
    → AtMost ds m
    → IsLow (suc (length vs)) m (expected_one op (vs, ds))
unfolding expected_one
expected_one-IsLow (at_tail val) vs ds m le all = (omega (arith, length-snoc vs val), all)
expected_one-IsLow (at_head val) vs ds m le all = (omega arith, all)
expected_one-IsLow (removal val) vs ds m le all = at (index_of val vs) (index_of-IsIndex val vs)
  where
    at :
        (o : Option ℕ)
        → IsIndex (length vs) o
        → IsLow (suc (length vs)) m (Option.map (λ n. (remove_at n vs, ds ++ (n ∷ []))) o)
    at none i = tt
    at (some n) i = (omega (arith, length-remove_at n vs), AtMost-snoc ds n m all (omega arith))

-- So the distances stay below the number of calls.
pub expected-IsLow :
    (ops : List Op) (vs ds : List ℕ) (m : ℕ)
    → length vs + length ops ≤ m
    → AtMost ds m
    → IsLow m m (expected ops (vs, ds))
unfolding expected Option.bind
expected-IsLow [] vs ds m le all = (omega arith, all)
expected-IsLow (op ∷ ops) vs ds m le all =
    at (expected_one op (vs, ds)) (expected_one-IsLow op vs ds m (omega arith) all)
      (λ vs' ds'. expected-IsLow ops vs' ds' m)
  where
    at :
        (o : Option (List ℕ × List ℕ))
        → IsLow (suc (length vs)) m o
        → ((vs' ds' : List ℕ)
            → length vs' + length ops ≤ m
            → AtMost ds' m
            → IsLow m m (expected ops (vs', ds')))
        → IsLow m m (Option.bind o (expected ops))
    at none low rest = tt
    at (some (vs', ds')) low rest = rest vs' ds' (omega arith) low.1
