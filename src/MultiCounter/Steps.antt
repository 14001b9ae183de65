-- ===== src/MultiCounter/Steps.antt =====
-- Every step of every thread keeps the invariant of the multi-counter.
use elastic_2d_relaxation.Prelude.{
  ℕ, suc, ◌+◌, ◌^◌, ◌≤◌, ◌<◌, ◌≡◌, refl, Bool, ◌∷◌, inl, inr, arith, ltb, ◌==◌, update,
  total-update, le-total, Bool-cases,
}
use native.Mathlib.Nat.{mod-lt}
use elastic_2d_relaxation.Calls.{Event, incremented, decremented, increments, decrements}
use elastic_2d_relaxation.Interleave.{RelyGuarantee}
use elastic_2d_relaxation.MultiCounter.{
  Descriptor, count, Operation, increment, decrement, Pc, idle, draw, first, next, second, Shared,
  same_descriptor, better, try_increment, try_decrement, attempt, step,
}
use elastic_2d_relaxation.MultiCounter.Inv.{IsBest-single, IsBest-taken, IsBest-kept, Inv, Holds}

module _ {width : ℕ} (some_width : 0 < width) (n choice : ℕ) (h : Shared)
    (v : Inv width (suc n) h) where
  abbrev Kept : Shared × Pc → Type 0
  Kept out = Inv width n out.0 × Holds width out.0 out.1 × Unit {0}

  small : (i : ℕ) → i < width → count (h.lanes i) < 2 ^ 63
  small i lt = omega (arith, v.logged, v.log_room, le-total count width h.lanes i lt)

  rest : Inv width n h
  rest = record { log_room = omega (arith, v.log_room); logged = v.logged }

  counted :
      (i : ℕ) (new : Descriptor) (event : Event)
      → i < width
      → increments (event ∷ h.log) ≤ suc (increments h.log)
      → count new + increments h.log + decrements (event ∷ h.log)
        ≡ count (h.lanes i) + increments (event ∷ h.log) + decrements h.log
      → Kept (record { lanes = update h.lanes i new; log = event ∷ h.log }, idle)
  counted i new event lt grows e = (
    record {
      log_room = omega (arith, v.log_room);
      logged = omega (arith, v.logged, total-update count width h.lanes i new lt);
    },
    tt,
    tt,
  )

  attempt-Kept :
      (validate_size : Bool) (choices : ℕ) (op : Operation) (index : ℕ) (d : Descriptor)
      → index < width
      → Kept (attempt validate_size choices width op h index d)
  unfolding attempt try_increment try_decrement
  attempt-Kept validate_size choices increment index d lt =
      elim (Bool-cases (same_descriptor (h.lanes index) d)) [
        | inl found ↦
            rw found
              (counted index _ (incremented _) lt (omega arith) (ground (arith, small index lt)))
        | inr lost ↦ rw lost (rest, tt, tt)
      ]
  attempt-Kept validate_size choices decrement index d lt = elim (Bool-cases (d.count == 0)) [
    | inl null ↦
        rw null (record { log_room = omega (arith, v.log_room); logged = v.logged }, tt, tt)
    | inr left ↦ rw left (elim (Bool-cases (same_descriptor (h.lanes index) d)) [
      | inl found ↦
          rw found
            (counted index _ (decremented _) lt (omega arith) (ground (arith, small index lt)))
      | inr lost ↦ rw lost (rest, tt, tt)
    ])
  ]

  pub step-Kept :
      (validate_size : Bool) (choices : ℕ) (pc : Pc)
      → Holds width h pc
      → Kept (step validate_size choices width choice h pc)
  unfolding step
  step-Kept validate_size choices idle a = (rest, tt, tt)
  step-Kept validate_size choices (draw op) a = (rest, mod-lt choice some_width, tt)
  step-Kept validate_size choices (first op index version) a =
      (rest, (a, small index a, IsBest-single op (count (h.lanes index)), refl), tt)
  step-Kept validate_size choices (next op i index d seen) a = elim (Bool-cases (ltb i choices)) [
    | inl more ↦ rw more (rest, (a.0, a.1, a.2, a.3, mod-lt choice some_width), tt)
    | inr enough ↦ rw enough (attempt-Kept validate_size choices op index d a.0)
  ]
  step-Kept validate_size choices (second op i index d seen index2 version2) a =
      elim (Bool-cases (better op d.count (count (h.lanes index2)))) [
        | inl gain ↦ rw gain (
          rest,
          (
            a.4,
            small index2 a.4,
            IsBest-taken op d.count (count (h.lanes index2)) seen a.1 (small index2 a.4) gain a.2,
            omega (arith, a.3),
          ),
          tt,
        )
        | inr loss ↦ rw loss (
          rest,
          (
            a.0,
            a.1,
            IsBest-kept op d.count (count (h.lanes index2)) seen a.1 (small index2 a.4) loss a.2,
            omega (arith, a.3),
          ),
          tt,
        )
      ]

pub Holds-any : (width : ℕ) (h h' : Shared) (pc : Pc) → Holds width h pc → Holds width h' pc
Holds-any width h h' idle a = a
Holds-any width h h' (draw op) a = a
Holds-any width h h' (first op index version) a = a
Holds-any width h h' (next op i index d seen) a = a
Holds-any width h h' (second op i index d seen index2 version2) a = a

abbrev pub rely_guarantee :
    {width : ℕ} (validate_size : Bool) (choices : ℕ)
    → 0 < width
    → RelyGuarantee (step validate_size choices width)
rely_guarantee {width} validate_size choices some_width = record {
  Inv = Inv width;
  Holds = Holds width;
  Grows = λ _ _. Unit {0};
  keeps = λ n c h pc v k. step-Kept some_width n c h v validate_size choices pc k;
  stable = λ h h' pc _ k. Holds-any width h h' pc k;
}
