-- ===== src/Relaxation/Laws.antt =====
-- The relaxation analysis against its reference on lists: the calls of one run, in the order in which
-- the lock lets them in.
use mathlib.Core.Option
use elastic_2d_relaxation.Prelude.{
  ℕ, zero, suc, ◌+◌, ◌^◌, ◌≤◌, ◌<◌, ◌≡◌, refl, sym, ◌∙◌, ap, List, [], ◌∷◌, ◌++◌, inl, inr, Option,
  some, none, u64_mod, arith, ◌==◌, Option-cases, ◌⊎◌, if◌then◌else◌, length,
}
use elastic_2d_relaxation.Linked.{IsAllocator}
use elastic_2d_relaxation.Relaxation.{Analysis, initial, add_linear, remove_linear}
use elastic_2d_relaxation.Relaxation.Chains.{Cells, vals, vals-append, drop_at, position}
use elastic_2d_relaxation.Relaxation.Lists.{Represents, add-back, add-front}
use elastic_2d_relaxation.Relaxation.Distances.{remove-empty}
use elastic_2d_relaxation.Relaxation.Removals.{remove-Represents, missing}

pub data Op : Type 0 where
  at_tail : (val : ℕ) → Op  -- `add_linear(val, 0)`
  at_head : (val : ℕ) → Op  -- `add_linear(val, 1)`
  removal : (val : ℕ) → Op  -- `remove_linear(val)`

unfoldable pub perform : (ℕ → ℕ) → Op → Analysis → Option Analysis
perform address (at_tail val) h = some (add_linear address h val 0)
perform address (at_head val) h = some (add_linear address h val 1)
perform address (removal val) h = remove_linear h.allocated h val

unfoldable pub replay : (ℕ → ℕ) → List Op → Analysis → Option Analysis
unfolding Option.bind
replay address [] h = some h
replay address (op ∷ ops) h = Option.bind (perform address op h) (replay address ops)

-- Where a value stands first in a list.
unfoldable pub index_of : ℕ → List ℕ → Option ℕ
unfolding Option.map
index_of val [] = none
index_of val (v ∷ vs) =
    let rest = index_of val vs in if v == val then some 0 else Option.map suc rest

abbrev pub remove_at : ℕ → List ℕ → List ℕ
remove_at n [] = []
remove_at zero (v ∷ vs) = vs
remove_at (suc n) (v ∷ vs) = v ∷ remove_at n vs

-- The clone and the distances as lists. A value that is not in the clone cannot be removed.
unfoldable pub expected_one : Op → List ℕ × List ℕ → Option (List ℕ × List ℕ)
unfolding index_of Option.map
expected_one (at_tail val) (vs, ds) = some (vs ++ (val ∷ []), ds)
expected_one (at_head val) (vs, ds) = some (val ∷ vs, ds)
expected_one (removal val) (vs, ds) =
    Option.map (λ n. (remove_at n vs, ds ++ (n ∷ []))) (index_of val vs)

unfoldable pub expected : List Op → List ℕ × List ℕ → Option (List ℕ × List ℕ)
unfolding Option.bind
expected [] s = some s
expected (op ∷ ops) s = Option.bind (expected_one op s) (expected ops)

-- The memory holds the two lists; both have failed; no other pair agrees.
abbrev pub Agrees : (ℕ → ℕ) → Option Analysis → Option (List ℕ × List ℕ) → Type 0
Agrees address none none = Unit
Agrees address (some h) (some (vs, ds)) =
    (cs : Cells) × (es : Cells) × Represents address h cs es × (vals cs ≡ vs) × (vals es ≡ ds)
Agrees address _ _ = ⊥

position-index_of : (val : ℕ) (cs : Cells) → position val cs ≡ index_of val (vals cs)
unfolding index_of
position-index_of val [] = refl
position-index_of val ((p, v) ∷ cs) = rw (position-index_of val cs) refl

vals-drop_at : (n : ℕ) (cs : Cells) → vals (drop_at n cs) ≡ remove_at n (vals cs)
vals-drop_at n [] = refl
vals-drop_at zero ((p, v) ∷ cs) = refl
vals-drop_at (suc n) ((p, v) ∷ cs) = ap (λ (vs : List ℕ). v ∷ vs) (vals-drop_at n cs)

add-allocated :
    (address : ℕ → ℕ) (h : Analysis) (val end : ℕ)
    → (add_linear address h val end).allocated ≤ suc h.allocated
unfolding add_linear
add-allocated address h val end = ground arith

module _ (address : ℕ → ℕ) (alloc : IsAllocator address) where
  -- What one call makes of agreeing states, with the count of nodes.
  abbrev Next : Op → Analysis → (vs ds : List ℕ) → Type 0
  Next op h vs ds =
      ((perform address op h ≡ none) × (expected_one op (vs, ds) ≡ none))
      ⊎ ((h' : Analysis) × (vs' : List ℕ) × (ds' : List ℕ) × (perform address op h ≡ some h')
          × (expected_one op (vs, ds) ≡ some (vs', ds'))
          × Agrees address (some h') (some (vs', ds'))
          × (h'.allocated ≤ suc h.allocated))

  remove-Next :
      (h : Analysis) (cs es : Cells) (val : ℕ)
      → Represents address h cs es
      → h.allocated + 1 < u64_mod
      → Next (removal val) h (vals cs) (vals es)
  unfolding perform expected_one
  remove-Next h [] es val v room = inl (remove-empty h.allocated h val v.clone.chain, refl)
  remove-Next h ((a, w) ∷ cs) es val v room = elim (Option-cases (position val ((a, w) ∷ cs))) [
    | inl absent ↦ inl (
      missing address h a w cs es v (omega arith) h.allocated val (omega (arith, v.enough)) absent,
      ap (Option.map λ n. (remove_at n (w ∷ vals cs), vals es ++ (n ∷ [])))
          (sym (position-index_of val ((a, w) ∷ cs)) ∙ absent),
    )
    | inr (n, at) ↦
        let (h', p, e, r, same) =
          remove-Represents address h a w cs es v (omega arith) h.allocated val
            (omega (arith, v.enough)) n at in
        inr (
          h',
          remove_at n (w ∷ vals cs),
          vals es ++ (n ∷ []),
          e,
          ap (Option.map λ n. (remove_at n (w ∷ vals cs), vals es ++ (n ∷ [])))
              (sym (position-index_of val ((a, w) ∷ cs)) ∙ at),
          (
            drop_at n ((a, w) ∷ cs),
            es ++ ((p, n) ∷ []),
            r,
            vals-drop_at n ((a, w) ∷ cs),
            vals-append es ((p, n) ∷ []),
          ),
          omega arith,
        )
  ]

  perform-Next :
      (op : Op) (h : Analysis) (cs es : Cells)
      → Represents address h cs es
      → h.allocated + 1 < u64_mod
      → Next op h (vals cs) (vals es)
  unfolding perform expected_one
  perform-Next (removal val) h cs es v room = remove-Next h cs es val v room
  perform-Next (at_tail val) h cs es v room = inr (
    add_linear address h val 0,
    vals cs ++ (val ∷ []),
    vals es,
    refl,
    refl,
    (
      cs ++ ((address h.allocated, val) ∷ []),
      es,
      add-back address alloc h cs es v room val,
      vals-append cs ((address h.allocated, val) ∷ []),
      refl,
    ),
    add-allocated address h val 0,
  )
  perform-Next (at_head val) h cs es v room = inr (
    add_linear address h val 1,
    val ∷ vals cs,
    vals es,
    refl,
    refl,
    ((address h.allocated, val) ∷ cs, es, add-front address alloc h cs es v room val, refl, refl),
    add-allocated address h val 1,
  )

  replay-Agrees :
      (ops : List Op) (h : Analysis) (cs es : Cells)
      → Represents address h cs es
      → h.allocated + length ops < u64_mod
      → Agrees address (replay address ops h) (expected ops (vals cs, vals es))
  unfolding replay expected Option.bind
  replay-Agrees [] h cs es v room = (cs, es, v, refl, refl)
  replay-Agrees (op ∷ ops) h cs es v room = elim (perform-Next op h cs es v (omega arith)) [
    | inl (e, e') ↦ rw (e, e') tt
    | inr (h', vs, ds, e, e', (cs', es', v', is, is'), more) ↦
        rw (e, e', ← is, ← is') (replay-Agrees ops h' cs' es' v' (omega arith))
  ]

  initial-Represents : Represents address initial [] []
  unfolding initial
  initial-Represents = record {
    clone = record { chain = refl; tail_is = refl; size_is = refl };
    dists = record { chain = refl; tail_is = refl; size_is = refl };
    apart = λ a among. refl;
    unused = λ k le. (refl, refl);
    enough = omega arith;
  }

  -- Any sequence of calls, from the start: the analysis fails where the reference does, on the removal
  -- of a value that is not in the clone, and otherwise its two linked lists hold what the reference
  -- has, the values in order and for every removal the number of values that were in front.
  pub analysis-Agrees :
      (ops : List Op)
      → length ops < 2 ^ 64
      → Agrees address (replay address ops initial) (expected ops ([], []))
  unfolding initial
  analysis-Agrees ops room = replay-Agrees ops initial [] [] initial-Represents (omega arith)
