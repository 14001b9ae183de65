-- ===== src/Counter2Dc/Steps.antt =====
-- Every step of every thread keeps the invariant of the coupled counter.
use elastic_2d_relaxation.Prelude.{
  ℕ, suc, ◌%◌, ◌<◌, refl, Bool, true, false, ◌∷◌, inl, inr, arith, Bool-cases, Option-cases, ltb,
  ◌==◌, le-total,
}
use elastic_2d_relaxation.Calls.{incremented, decremented, empty}
use elastic_2d_relaxation.Search.{Config, IsValid}
use elastic_2d_relaxation.Window2Dc.{Call, returned}
use elastic_2d_relaxation.Window2Dc.Holds.{PutHolds, GetHolds, start-PutHolds, start-GetHolds}
use elastic_2d_relaxation.Interleave.{RelyGuarantee}
use elastic_2d_relaxation.Counter2Dc.{
  Descriptor, count, Shared, Pc, idle, incrementing, decrementing, Local, try_increment,
  try_decrement, increment, decrement, step_at, step,
}
use elastic_2d_relaxation.Counter2Dc.Inv.{Inv, AtPc, Holds, small, Kept}
use elastic_2d_relaxation.Counter2Dc.Moves.{settled, quiet, put_step, get_step, counted}

module _ {cfg : Config} (valid : IsValid cfg) (step_size : ℕ) (some_step : 0 < step_size)
    (n choice : ℕ) (h : Shared) (l : Local) (v : Inv cfg step_size (suc n) h)
    (k : Holds cfg step_size h l) where
  try_increment-Kept :
      (validate_size : Bool) (w : Call Descriptor) (d : Descriptor)
      → PutHolds count cfg step_size w
      → Kept cfg step_size n (try_increment validate_size cfg step_size h l w d)
  unfolding try_increment
  try_increment-Kept validate_size w d a =
      elim (Bool-cases (count (h.lanes w.place.index) == d.count)) [
        | inl found ↦ rw found (
            counted valid step_size some_step n choice h l v k w.place.index _ (incremented _)
              w.window a.in_place.index_in a.copied (omega arith)
              (ground (
                arith,
                v.logged,
                v.log_room,
                le-total count cfg.width h.lanes w.place.index a.in_place.index_in,
              )))
        | inr lost ↦ rw lost (
            quiet valid step_size some_step n choice h l v k _ (record {
              index_in = a.in_place.index_in;
              copied = a.copied;
              at_pc =
                  start-PutHolds count cfg step_size w.place.index w.window true a.in_place.index_in
                    a.copied;
            }))
      ]

  try_decrement-Kept :
      (validate_size : Bool) (w : Call Descriptor) (d : Descriptor)
      → GetHolds count cfg step_size w
      → Kept cfg step_size n (try_decrement validate_size cfg step_size h l w d)
  unfolding try_decrement
  try_decrement-Kept validate_size w d a = elim (Bool-cases (ltb 0 d.count)) [
    | inr null ↦ rw null (
        settled valid step_size some_step n choice h l v k (empty ∷ h.log) _ refl refl
          (record { index_in = a.in_place.index_in; copied = a.copied; at_pc = tt }))
    | inl left ↦ rw left (elim (Bool-cases (count (h.lanes w.place.index) == d.count)) [
      | inl found ↦ rw found (
          counted valid step_size some_step n choice h l v k w.place.index _ (decremented _)
            w.window a.in_place.index_in a.copied (omega arith)
            (ground (arith, small cfg step_size v w.place.index a.in_place.index_in)))
      | inr lost ↦ rw lost (
          quiet valid step_size some_step n choice h l v k _ (record {
            index_in = a.in_place.index_in;
            copied = a.copied;
            at_pc =
                start-GetHolds count cfg step_size w.place.index w.window true a.in_place.index_in
                  a.copied;
          }))
    ])
  ]

  increment-Kept :
      (validate_size : Bool) (w : Call Descriptor)
      → PutHolds count cfg step_size w
      → Kept cfg step_size n (increment validate_size cfg step_size choice h l w)
  unfolding increment
  increment-Kept validate_size w a = elim (Option-cases (returned w.pc)) [
    | inl running ↦
        rw (running, increment) (put_step valid step_size some_step n choice h l v k w a)
    | inr (d, e) ↦ rw (e, increment) (try_increment-Kept validate_size w d a)
  ]

  decrement-Kept :
      (validate_size : Bool) (w : Call Descriptor)
      → GetHolds count cfg step_size w
      → Kept cfg step_size n (decrement validate_size cfg step_size choice h l w)
  unfolding decrement
  decrement-Kept validate_size w a = elim (Option-cases (returned w.pc)) [
    | inl running ↦
        rw (running, decrement) (get_step valid step_size some_step n choice h l v k w a)
    | inr (d, e) ↦ rw (e, decrement) (try_decrement-Kept validate_size w d a)
  ]

  step_at-Kept :
      (validate_size : Bool) (pc : Pc)
      → AtPc cfg step_size pc
      → Kept cfg step_size n (step_at validate_size cfg step_size choice h l pc)
  unfolding step_at
  step_at-Kept validate_size idle a = elim (Bool-cases (choice % 2 == 0)) [
    | inl put ↦ rw put (
        quiet valid step_size some_step n choice h l v k _ (record {
          index_in = k.index_in;
          copied = k.copied;
          at_pc = start-PutHolds count cfg step_size l.index l.window false k.index_in k.copied;
        }))
    | inr get ↦ rw get (
        quiet valid step_size some_step n choice h l v k _ (record {
          index_in = k.index_in;
          copied = k.copied;
          at_pc = start-GetHolds count cfg step_size l.index l.window false k.index_in k.copied;
        }))
  ]
  step_at-Kept validate_size (incrementing w) a = increment-Kept validate_size w a
  step_at-Kept validate_size (decrementing w) a = decrement-Kept validate_size w a

  pub step-Kept :
      (validate_size : Bool) → Kept cfg step_size n (step validate_size cfg step_size choice h l)
  unfolding step
  step-Kept validate_size = step_at-Kept validate_size l.pc k.at_pc

abbrev pub rely_guarantee :
    {cfg : Config} (step_size : ℕ) (validate_size : Bool)
    → IsValid cfg
    → 0 < step_size
    → RelyGuarantee (step validate_size cfg step_size)
rely_guarantee {cfg} step_size validate_size valid some_step = record {
  Inv = Inv cfg step_size;
  Holds = Holds cfg step_size;
  Grows = λ _ _. Unit {0};
  keeps = λ n c h l v k. step-Kept valid step_size some_step n c h l v k validate_size;
  stable = λ h h' l _ k. record { index_in = k.index_in; copied = k.copied; at_pc = k.at_pc };
}
