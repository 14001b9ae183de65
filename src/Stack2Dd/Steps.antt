-- ===== src/Stack2Dd/Steps.antt =====
-- Every step of every thread keeps the invariant of the decoupled stack.
use elastic_2d_relaxation.Prelude.{
  ℕ, suc, ◌%◌, ◌≡◌, refl, true, false, some, inl, inr, arith, Bool-cases, Option-cases, ◌==◌,
}
use elastic_2d_relaxation.Search.{Config, IsValid}
use elastic_2d_relaxation.Linked.{IsAllocator}
use elastic_2d_relaxation.Window2Dd.Put
use elastic_2d_relaxation.Window2Dd.Put.{PutWindow, put_window}
use elastic_2d_relaxation.Window2Dd.Get
use elastic_2d_relaxation.Window2Dd.Get.{GetWindow, get_window}
use elastic_2d_relaxation.Window2Dd.Held.{CallHeld, returned-Held}
use elastic_2d_relaxation.Window2Dd.PutHolds.{PutHolds, start-PutHolds, returned-PutHolds}
use elastic_2d_relaxation.Window2Dd.GetHolds.{GetHolds, start-GetHolds}
use elastic_2d_relaxation.Interleave.{RelyGuarantee}
use elastic_2d_relaxation.Stack2Dd.{
  Descriptor, put_count, get_count, put_counts, same_descriptor, Shared, Pc, idle, pushing, popping,
  taking, Local, try_push, push, start_take, take, pop, step_at, step,
}
use elastic_2d_relaxation.Stack2Dd.Inv.{
  seen_by_get, Inv, HasNode, AtPc, Holds, Grows, Holds-Grows, Kept,
}
use elastic_2d_relaxation.Stack2Dd.Moves.{
  quiet, emptied, push_step, pop_step, pushed-Kept, popped-Kept,
}

module _ (address : ℕ → ℕ) (alloc : IsAllocator address) {cfg : Config} (valid : IsValid cfg)
    (n choice : ℕ) (h : Shared) (l : Local) (v : Inv address cfg (suc n) h)
    (k : Holds address cfg h l) where
  try_push-Kept :
      (key val : ℕ) (w : PutWindow Descriptor) (d : Descriptor)
      → Put.returned w.pc ≡ some d
      → PutHolds put_count cfg h.lanes h.put_max w
      → Kept address cfg n h (try_push address cfg h l key val w d)
  unfolding try_push
  try_push-Kept key val w d e a = elim (Bool-cases (same_descriptor (h.lanes w.place.index) d)) [
    | inl found ↦ rw found (
        pushed-Kept address alloc valid n choice h l v k w.place.index a.in_place.index_in d found
          key val w.max (omega (arith, returned-PutHolds put_count cfg w d e a)) a.max_le)
    | inr lost ↦ rw lost (
        quiet address alloc valid n choice h l v k _ (record {
          index_in = a.in_place.index_in;
          put_le = a.max_le;
          get_le = k.get_le;
          at_pc =
              start-PutHolds put_count cfg w.place.index w.max true a.in_place.index_in a.max_le;
        }))
  ]

  start_take-Kept :
      (w : GetWindow Descriptor) (d : Descriptor)
      → GetHolds get_count cfg (seen_by_get cfg h) w
      → HasNode address cfg h d
      → Kept address cfg n h (start_take address cfg h l w d)
  unfolding start_take
  start_take-Kept w d a has = elim (Bool-cases (d.node == 0)) [
    | inl null ↦ rw null (
        emptied address alloc valid n choice h l v k _ (record {
          index_in = a.in_place.index_in;
          put_le = k.put_le;
          get_le = a.max_le;
          at_pc = tt;
        }))
    | inr top ↦ rw top (
        quiet address alloc valid n choice h l v k _ (record {
          index_in = a.in_place.index_in;
          put_le = k.put_le;
          get_le = a.max_le;
          at_pc = (
            a.in_place.index_in,
            record { some_node = ground arith; is_published = has (ground arith); below = refl },
          );
        }))
  ]

  take-Kept :
      (i : ℕ) (d : Descriptor) (next : ℕ)
      → AtPc address cfg h (taking i d next)
      → Kept address cfg n h (take address cfg h l i d next)
  unfolding take
  take-Kept i d next a = elim (Bool-cases (same_descriptor (h.lanes i) d)) [
    | inl found ↦ rw found (popped-Kept address alloc valid n choice h l v k i a.0 d found next a.1)
    | inr lost ↦ rw lost (
        quiet address alloc valid n choice h l v k _ (record {
          index_in = k.index_in;
          put_le = k.put_le;
          get_le = k.get_le;
          at_pc = (
            start-GetHolds get_count cfg i l.get_max true (put_counts h) a.0 k.get_le
                (λ j lt. omega arith),
            tt,
          );
        }))
  ]

  push-Kept :
      (key val : ℕ) (w : PutWindow Descriptor)
      → PutHolds put_count cfg h.lanes h.put_max w
      → Kept address cfg n h (push address cfg choice h l key val w)
  unfolding push
  push-Kept key val w a = elim (Option-cases (Put.returned w.pc)) [
    | inl running ↦ rw (running, push) (push_step address alloc valid n choice h l v k key val w a)
    | inr (d, e) ↦ rw (e, push) (try_push-Kept key val w d e a)
  ]

  pop-Kept :
      (w : GetWindow Descriptor)
      → GetHolds get_count cfg (seen_by_get cfg h) w
      → CallHeld (λ _. HasNode address cfg h) w
      → Kept address cfg n h (pop address cfg choice h l w)
  unfolding pop
  pop-Kept w a held = elim (Option-cases (Get.returned w.pc)) [
    | inl running ↦ rw (running, pop) (pop_step address alloc valid n choice h l v k w a held)
    | inr (d, e) ↦
        rw (e, pop)
          (start_take-Kept w d a
            (returned-Held (λ _. HasNode address cfg h) w.place.index w.pc d e held))
  ]

  step_at-Kept :
      (pc : Pc) → AtPc address cfg h pc → Kept address cfg n h (step_at address cfg choice h l pc)
  unfolding step_at
  step_at-Kept idle a = elim (Bool-cases (choice % 2 == 0)) [
    | inl put ↦ rw put (
        quiet address alloc valid n choice h l v k _ (record {
          index_in = k.index_in;
          put_le = k.put_le;
          get_le = k.get_le;
          at_pc = start-PutHolds put_count cfg l.index l.put_max false k.index_in k.put_le;
        }))
    | inr get ↦ rw get (
        quiet address alloc valid n choice h l v k _ (record {
          index_in = k.index_in;
          put_le = k.put_le;
          get_le = k.get_le;
          at_pc = (
            start-GetHolds get_count cfg l.index l.get_max false (put_counts h) k.index_in k.get_le
                (λ j lt. omega arith),
            tt,
          );
        }))
  ]
  step_at-Kept (pushing key val w) a = push-Kept key val w a
  step_at-Kept (popping w) a = pop-Kept w a.0 a.1
  step_at-Kept (taking i d next) a = take-Kept i d next a

  pub step-Kept : Kept address cfg n h (step address cfg choice h l)
  unfolding step
  step-Kept = step_at-Kept l.pc k.at_pc

abbrev pub rely_guarantee :
    {address : ℕ → ℕ} {cfg : Config}
    → IsAllocator address
    → IsValid cfg
    → RelyGuarantee (step address cfg)
rely_guarantee {address} {cfg} alloc valid = record {
  Inv = Inv address cfg;
  Holds = Holds address cfg;
  Grows = Grows address cfg;
  keeps = λ n c h l v k. step-Kept address alloc valid n c h l v k;
  stable = Holds-Grows address cfg;
}
