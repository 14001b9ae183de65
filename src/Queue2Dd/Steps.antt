-- ===== src/Queue2Dd/Steps.antt =====
-- Every step of every thread keeps the invariant of the decoupled queue.
use elastic_2d_relaxation.Prelude.{ℕ, suc, ◌%◌, ◌/◌, inl, inr, Bool-cases, ◌==◌, false}
use elastic_2d_relaxation.Search.{Config, IsValid}
use elastic_2d_relaxation.Linked.{IsAllocator}
use elastic_2d_relaxation.Interleave.{RelyGuarantee}
use elastic_2d_relaxation.Queue2Dd.{
  Shared, Pc, idle, enqueueing, checking, linking, helping, swinging, dequeueing, tail_rest,
  compare, catching, advancing, Local,
}
use elastic_2d_relaxation.Queue2Dd.Step.{step_at, step}
use elastic_2d_relaxation.Queue2Dd.Inv.{AtPc, Holds, Grows, Holds-Grows, Inv, Kept}
use elastic_2d_relaxation.Queue2Dd.Moves.{quiet}
use elastic_2d_relaxation.Queue2Dd.Enqueue.{search_put-Holds, enqueue-Kept}
use elastic_2d_relaxation.Queue2Dd.Dequeue.{search_get-Holds, dequeue-Kept}

module _ (address : ℕ → ℕ) (alloc : IsAllocator address) {cfg : Config} (valid : IsValid cfg)
    (n choice : ℕ) (h : Shared) (l : Local) (v : Inv address cfg (suc n) h)
    (k : Holds cfg h l) where
  step_at-Kept :
      (pc : Pc) → AtPc cfg h l pc → Kept address cfg n h (step_at address cfg choice h l pc)
  unfolding step_at
  step_at-Kept idle a = elim (Bool-cases (choice % 2 == 0)) [
    | inl put ↦ rw put (
        quiet address valid n h v _
          (search_put-Holds cfg h l (choice / 2) (choice / 2) false k.index_in k.put_le k.get_le))
    | inr get ↦
        rw get (
          quiet address valid n h v _ (search_get-Holds cfg h l false k.index_in k.put_le k.get_le))
  ]
  step_at-Kept (enqueueing key val c w) a =
      enqueue-Kept address alloc valid n choice h l v k (enqueueing key val c w) a k
  step_at-Kept (checking key val c d) a =
      enqueue-Kept address alloc valid n choice h l v k (checking key val c d) a k
  step_at-Kept (linking key val c d) a =
      enqueue-Kept address alloc valid n choice h l v k (linking key val c d) a k
  step_at-Kept (helping key val c d next) a =
      enqueue-Kept address alloc valid n choice h l v k (helping key val c d next) a k
  step_at-Kept (swinging d next) a =
      enqueue-Kept address alloc valid n choice h l v k (swinging d next) a k
  step_at-Kept (dequeueing c w) a =
      dequeue-Kept address valid n choice h l v k alloc (dequeueing c w) a k
  step_at-Kept (tail_rest c d tail) a =
      dequeue-Kept address valid n choice h l v k alloc (tail_rest c d tail) a k
  step_at-Kept (compare c d enq) a =
      dequeue-Kept address valid n choice h l v k alloc (compare c d enq) a k
  step_at-Kept (catching c enq next) a =
      dequeue-Kept address valid n choice h l v k alloc (catching c enq next) a k
  step_at-Kept (advancing c d next) a =
      dequeue-Kept address valid n choice h l v k alloc (advancing c d next) a k

  pub step-Kept : Kept address cfg n h (step address cfg choice h l)
  unfolding step
  step-Kept = step_at-Kept l.pc k.at_pc

abbrev pub rely_guarantee :
    {address : ℕ → ℕ} {cfg : Config}
    → IsAllocator address
    → IsValid cfg
    → RelyGuarantee (step address cfg)
rely_guarantee {address} {cfg} alloc valid = record {
  Inv = Inv address cfg;
  Holds = Holds cfg;
  Grows = Grows cfg;
  keeps = λ n c h l v k. step-Kept address alloc valid n c h l v k;
  stable = Holds-Grows cfg;
}
