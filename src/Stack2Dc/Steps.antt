-- ===== src/Stack2Dc/Steps.antt =====
-- Every step of every thread keeps the invariant of the coupled stack.
use elastic_2d_relaxation.Prelude.{
  ℕ, suc, ◌%◌, ◌<◌, refl, true, false, inl, inr, arith, Bool-cases, Option-cases, ◌==◌,
}
use elastic_2d_relaxation.Search.{Config, IsValid}
use elastic_2d_relaxation.Linked.{IsAllocator}
use elastic_2d_relaxation.Window2Dc.{Call, returned}
use elastic_2d_relaxation.Window2Dc.Held.{Held, returned-Held}
use elastic_2d_relaxation.Window2Dc.Holds.{PutHolds, GetHolds, start-PutHolds, start-GetHolds}
use elastic_2d_relaxation.Interleave.{RelyGuarantee}
use elastic_2d_relaxation.Stack2Dc.{
  Descriptor, count, same_descriptor, Shared, Pc, idle, pushing, popping, taking, Local, try_push,
  push, start_take, take, pop, step_at, step,
}
use elastic_2d_relaxation.Stack2Dc.Inv.{Inv, HasNode, AtPc, Holds, Grows, Holds-Grows, Kept}
use elastic_2d_relaxation.Stack2Dc.Moves.{
  quiet, emptied, push_step, pop_step, pushed-Kept, popped-Kept,
}

module _ (address : ℕ → ℕ) (alloc : IsAllocator address) {cfg : Config} (valid : IsValid cfg)
    (step_size : ℕ) (some_step : 0 < step_size) (n choice : ℕ) (h : Shared) (l : Local)
    (v : Inv address cfg step_size (suc n) h) (k : Holds address cfg step_size h l) where
  try_push-Kept :
      (key val : ℕ) (w : Call Descriptor) (d : Descriptor)
      → PutHolds count cfg step_size w
      → Kept address cfg step_size n h (try_push address cfg step_size h l key val w d)
  unfolding try_push
  try_push-Kept key val w d a = elim (Bool-cases (same_descriptor (h.lanes w.place.index) d)) [
    | inl found ↦ rw found (
        pushed-Kept address alloc valid step_size some_step n choice h l v k w.place.index
          a.in_place.index_in d found key val w.window a.copied)
    | inr lost ↦ rw lost (
        quiet address alloc valid step_size some_step n choice h l v k _ (record {
          index_in = a.in_place.index_in;
          copied = a.copied;
          at_pc =
              start-PutHolds count cfg step_size w.place.index w.window true a.in_place.index_in
                a.copied;
        }))
  ]

  start_take-Kept :
      (w : Call Descriptor) (d : Descriptor)
      → GetHolds count cfg step_size w
      → HasNode address cfg step_size h d
      → Kept address cfg step_size n h (start_take address cfg step_size h l w d)
  unfolding start_take
  start_take-Kept w d a has = elim (Bool-cases (d.node == 0)) [
    | inl null ↦ rw null (
        emptied address alloc valid step_size some_step n choice h l v k _
          (record { index_in = a.in_place.index_in; copied = a.copied; at_pc = tt }))
    | inr top ↦ rw top (
        quiet address alloc valid step_size some_step n choice h l v k _ (record {
          index_in = a.in_place.index_in;
          copied = a.copied;
          at_pc = (
            a.in_place.index_in,
            record { some_node = ground arith; is_published = has (ground arith); below = refl },
          );
        }))
  ]

  take-Kept :
      (i : ℕ) (d : Descriptor) (next : ℕ)
      → AtPc address cfg step_size h (taking i d next)
      → Kept address cfg step_size n h (take address cfg step_size h l i d next)
  unfolding take
  take-Kept i d next a = elim (Bool-cases (same_descriptor (h.lanes i) d)) [
    | inl found ↦ rw found (
        popped-Kept address alloc valid step_size some_step n choice h l v k i a.0 d found next a.1)
    | inr lost ↦ rw lost (
        quiet address alloc valid step_size some_step n choice h l v k _ (record {
          index_in = k.index_in;
          copied = k.copied;
          at_pc = (start-GetHolds count cfg step_size i l.window true a.0 k.copied, tt);
        }))
  ]

  push-Kept :
      (key val : ℕ) (w : Call Descriptor)
      → PutHolds count cfg step_size w
      → Kept address cfg step_size n h (push address cfg step_size choice h l key val w)
  unfolding push
  push-Kept key val w a = elim (Option-cases (returned w.pc)) [
    | inl running ↦
        rw (running, push)
          (push_step address alloc valid step_size some_step n choice h l v k key val w a)
    | inr (d, e) ↦ rw (e, push) (try_push-Kept key val w d a)
  ]

  pop-Kept :
      (w : Call Descriptor)
      → GetHolds count cfg step_size w
      → Held (HasNode address cfg step_size h) w.pc
      → Kept address cfg step_size n h (pop address cfg step_size choice h l w)
  unfolding pop
  pop-Kept w a held = elim (Option-cases (returned w.pc)) [
    | inl running ↦
        rw (running, pop)
          (pop_step address alloc valid step_size some_step n choice h l v k w a held)
    | inr (d, e) ↦
        rw (e, pop)
          (start_take-Kept w d a (returned-Held (HasNode address cfg step_size h) w.pc d e held))
  ]

  step_at-Kept :
      (pc : Pc)
      → AtPc address cfg step_size h pc
      → Kept address cfg step_size n h (step_at address cfg step_size choice h l pc)
  unfolding step_at
  step_at-Kept idle a = elim (Bool-cases (choice % 2 == 0)) [
    | inl put ↦ rw put (
        quiet address alloc valid step_size some_step n choice h l v k _ (record {
          index_in = k.index_in;
          copied = k.copied;
          at_pc = start-PutHolds count cfg step_size l.index l.window false k.index_in k.copied;
        }))
    | inr get ↦ rw get (
        quiet address alloc valid step_size some_step n choice h l v k _ (record {
          index_in = k.index_in;
          copied = k.copied;
          at_pc =
              (start-GetHolds count cfg step_size l.index l.window false k.index_in k.copied, tt);
        }))
  ]
  step_at-Kept (pushing key val w) a = push-Kept key val w a
  step_at-Kept (popping w) a = pop-Kept w a.0 a.1
  step_at-Kept (taking i d next) a = take-Kept i d next a

  pub step-Kept : Kept address cfg step_size n h (step address cfg step_size choice h l)
  unfolding step
  step-Kept = step_at-Kept l.pc k.at_pc

abbrev pub rely_guarantee :
    {address : ℕ → ℕ} {cfg : Config} (step_size : ℕ)
    → IsAllocator address
    → IsValid cfg
    → 0 < step_size
    → RelyGuarantee (step address cfg step_size)
rely_guarantee {address} {cfg} step_size alloc valid some_step = record {
  Inv = Inv address cfg step_size;
  Holds = Holds address cfg step_size;
  Grows = Grows address cfg step_size;
  keeps = λ n c h l v k. step-Kept address alloc valid step_size some_step n c h l v k;
  stable = Holds-Grows address cfg step_size;
}
