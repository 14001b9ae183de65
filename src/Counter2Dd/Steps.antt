-- ===== src/Counter2Dd/Steps.antt =====
-- Every step of every thread keeps the invariant of the decoupled counter.
use elastic_2d_relaxation.Calls.{empty}
use elastic_2d_relaxation.Prelude.{
  ℕ, suc, ◌%◌, ◌≡◌, refl, Bool, true, false, some, ◌∷◌, inl, inr, arith, Bool-cases, Option-cases,
  ltb, ◌==◌, sub64,
}
use elastic_2d_relaxation.Search.{Config, IsValid}
use elastic_2d_relaxation.Window2Dd.Put
use elastic_2d_relaxation.Window2Dd.Put.{PutWindow, put_window}
use elastic_2d_relaxation.Window2Dd.Get
use elastic_2d_relaxation.Window2Dd.Get.{GetWindow, get_window}
use elastic_2d_relaxation.Window2Dd.PutHolds.{PutHolds, start-PutHolds, returned-PutHolds}
use elastic_2d_relaxation.Window2Dd.GetHolds.{GetHolds, start-GetHolds}
use elastic_2d_relaxation.Interleave.{RelyGuarantee}
use elastic_2d_relaxation.Counter2Dd.{
  Descriptor, put_count, get_count, put_counts, same_descriptor, Shared, Pc, idle, incrementing,
  decrementing, Local, try_increment, try_decrement, increment, decrement, step_at, step,
}
use elastic_2d_relaxation.Counter2Dd.Inv.{view, Inv, AtPc, Holds, Grows, Holds-Grows, Kept}
use elastic_2d_relaxation.Counter2Dd.Moves.{settled, quiet, put_step, get_step}
use elastic_2d_relaxation.Counter2Dd.Counts.{put_counted, get_counted}

module _ {cfg : Config} (valid : IsValid cfg) (n choice : ℕ) (h : Shared) (l : Local)
    (v : Inv cfg (suc n) h) (k : Holds cfg h l) where
  abbrev puts : ℕ → ℕ
  puts = put_counts h

  try_increment-Kept :
      (validate_size : Bool) (w : PutWindow Descriptor) (d : Descriptor)
      → Put.returned w.pc ≡ some d
      → PutHolds put_count cfg h.lanes h.put_max w
      → Kept cfg n h (try_increment validate_size cfg h l w d)
  unfolding try_increment
  try_increment-Kept validate_size w d e a =
      elim (Bool-cases (same_descriptor (h.lanes w.place.index) d)) [
        | inl found ↦ rw found (
            put_counted valid n choice h l v k w.place.index a.in_place.index_in d found _
              (omega (arith, returned-PutHolds put_count cfg w d e a)) w.max a.max_le)
        | inr lost ↦ rw lost (
            quiet valid n choice h l v k _ (record {
              index_in = a.in_place.index_in;
              put_le = a.max_le;
              get_le = k.get_le;
              at_pc =
                  start-PutHolds put_count cfg w.place.index w.max true a.in_place.index_in
                    a.max_le;
            }))
      ]

  try_decrement-Kept :
      (validate_size : Bool) (w : GetWindow Descriptor) (d : Descriptor)
      → GetHolds get_count cfg (view h) w
      → Kept cfg n h (try_decrement validate_size cfg h l w d)
  unfolding try_decrement
  try_decrement-Kept validate_size w d a =
      elim (Bool-cases (ltb 0 (sub64 d.put_count d.get_count))) [
        | inr null ↦ rw null (
            settled valid n choice h l v k (empty ∷ h.log) _ refl refl (record {
              index_in = a.in_place.index_in;
              put_le = k.put_le;
              get_le = a.max_le;
              at_pc = tt;
            }))
        | inl left ↦ rw left (elim (Bool-cases (same_descriptor (h.lanes w.place.index) d)) [
          | inl found ↦ rw found (
              get_counted valid n choice h l v k w.place.index a.in_place.index_in d found _ left
                w.max a.max_le)
          | inr lost ↦ rw lost (
              quiet valid n choice h l v k _ (record {
                index_in = a.in_place.index_in;
                put_le = k.put_le;
                get_le = a.max_le;
                at_pc =
                    start-GetHolds get_count cfg w.place.index w.max true puts a.in_place.index_in
                      a.max_le (λ i lt. omega arith);
              }))
        ])
      ]

  increment-Kept :
      (validate_size : Bool) (w : PutWindow Descriptor)
      → PutHolds put_count cfg h.lanes h.put_max w
      → Kept cfg n h (increment validate_size cfg choice h l w)
  unfolding increment
  increment-Kept validate_size w a = elim (Option-cases (Put.returned w.pc)) [
    | inl running ↦ rw (running, increment) (put_step valid n choice h l v k w a)
    | inr (d, e) ↦ rw (e, increment) (try_increment-Kept validate_size w d e a)
  ]

  decrement-Kept :
      (validate_size : Bool) (w : GetWindow Descriptor)
      → GetHolds get_count cfg (view h) w
      → Kept cfg n h (decrement validate_size cfg choice h l w)
  unfolding decrement
  decrement-Kept validate_size w a = elim (Option-cases (Get.returned w.pc)) [
    | inl running ↦ rw (running, decrement) (get_step valid n choice h l v k w a)
    | inr (d, e) ↦ rw (e, decrement) (try_decrement-Kept validate_size w d a)
  ]

  step_at-Kept :
      (validate_size : Bool) (pc : Pc)
      → AtPc cfg h pc
      → Kept cfg n h (step_at validate_size cfg choice h l pc)
  unfolding step_at
  step_at-Kept validate_size idle a = elim (Bool-cases (choice % 2 == 0)) [
    | inl put ↦ rw put (
        quiet valid n choice h l v k _ (record {
          index_in = k.index_in;
          put_le = k.put_le;
          get_le = k.get_le;
          at_pc = start-PutHolds put_count cfg l.index l.put_max false k.index_in k.put_le;
        }))
    | inr get ↦ rw get (
        quiet valid n choice h l v k _ (record {
          index_in = k.index_in;
          put_le = k.put_le;
          get_le = k.get_le;
          at_pc =
              start-GetHolds get_count cfg l.index l.get_max false puts k.index_in k.get_le
                (λ i lt. omega arith);
        }))
  ]
  step_at-Kept validate_size (incrementing w) a = increment-Kept validate_size w a
  step_at-Kept validate_size (decrementing w) a = decrement-Kept validate_size w a

  pub step-Kept : (validate_size : Bool) → Kept cfg n h (step validate_size cfg choice h l)
  unfolding step
  step-Kept validate_size = step_at-Kept validate_size l.pc k.at_pc

abbrev pub rely_guarantee :
    {cfg : Config} (validate_size : Bool) → IsValid cfg → RelyGuarantee (step validate_size cfg)
rely_guarantee {cfg} validate_size valid = record {
  Inv = Inv cfg;
  Holds = Holds cfg;
  Grows = Grows cfg;
  keeps = λ n c h l v k. step-Kept valid n c h l v k validate_size;
  stable = Holds-Grows cfg;
}
