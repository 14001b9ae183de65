-- ===== src/WindowLpw/Steps.antt =====
-- Every step of a thread on the elastic windows keeps the invariant.
use elastic_2d_relaxation.Prelude.{ℕ, suc, ◌/◌, ◌%◌, ◌≡◌, refl, inl, inr, arith, ◌==◌, Bool-cases}
use elastic_2d_relaxation.Interleave.{RelyGuarantee}
use elastic_2d_relaxation.Linked.{IsAllocator}
use elastic_2d_relaxation.WindowLpw.{Pc, idle, putting, getting, reading, Shared, Local}
use elastic_2d_relaxation.WindowLpw.Step.{call, step_at, step, update_width, update_depth}
use elastic_2d_relaxation.WindowLpw.Inv.{IsSmall, Inv, Grows, ends-Agrees, ends-Grows}
use elastic_2d_relaxation.WindowLpw.Holds.{Holds, AtPc}
use elastic_2d_relaxation.WindowLpw.Stable.{Holds-Grows, quiet, still}
use elastic_2d_relaxation.WindowLpw.Puts.{Kept}
use elastic_2d_relaxation.WindowLpw.Shifts.{put_window-Kept}
use elastic_2d_relaxation.WindowLpw.GetShifts.{get_window-Kept}

module _ (address : ℕ → ℕ) (alloc : IsAllocator address) (random_hops n choice : ℕ) (h : Shared)
    (l : Local) (v : Inv address (suc n) h) (k : Holds address h l) where
  small : (x : ℕ) → IsSmall (suc (x % 65535))
  small x = omega arith

  -- A change of the width or the depth to come.
  set_Kept :
      (width depth : ℕ)
      → IsSmall depth × IsSmall width
      → Kept address n h (record h { width = width; depth = depth }, l)
  set_Kept width depth s = (
    (
      omega (arith, v.0),
      ends-Agrees address h v.1 h.head h.tail width depth s v.1.lateral.head_at v.1.lateral.tail_at,
    ),
    Holds-Grows address l (ends-Grows address h v.1 h.head h.tail width depth (λ r. r)) k,
    ends-Grows address h v.1 h.head h.tail width depth (λ r. r),
  )

  call-Kept : (op x : ℕ) → l.pc ≡ idle → Kept address n h (call op x h l)
  unfolding call update_width update_depth
  call-Kept op x at = elim (Bool-cases (op == 0)) [
    | inl e ↦ rw e (still address n h l v k (ground arith) _ refl k.get_le (tt))
    | inr e ↦ rw e (elim (Bool-cases (op == 1)) [
      | inl e ↦ rw e (
          quiet address n h _ v
            (record { put_le = omega arith; get_le = k.get_le; synced = λ whole. cc; at_pc = tt }))
      | inr e ↦ rw e (elim (Bool-cases (op == 2)) [
        | inl e ↦ rw e (still address n h l v k (ground arith) _ refl k.get_le (tt))
        | inr e ↦ rw e (elim (Bool-cases (op == 3)) [
          | inl e ↦ rw e (set_Kept (suc (x % 65535)) h.depth (v.1.set_small.0, small x))
          | inr e ↦ rw e (set_Kept h.width (suc (x % 65535)) (small x, v.1.set_small.1))
        ])
      ])
    ])
  ]

  step_at-Kept :
      (pc : Pc)
      → l.pc ≡ pc
      → AtPc address h l pc
      → Kept address n h (step_at address random_hops choice h l pc)
  unfolding step_at
  step_at-Kept idle at a = call-Kept (choice % 5) (choice / 5) at
  step_at-Kept (putting pc) at a =
      put_window-Kept address alloc random_hops n choice h l v k pc at a
  step_at-Kept (getting pc) at a =
      get_window-Kept address alloc random_hops n choice h l v k (ground arith) pc a
  step_at-Kept reading at a = quiet address n h _ v (record {
    put_le = k.put_le;
    get_le = k.get_le;
    synced = λ _ now. (refl, refl, refl);
    at_pc = tt;
  })

  pub step-Kept : Kept address n h (step address random_hops choice h l)
  unfolding step
  step-Kept = step_at-Kept l.pc refl k.at_pc

abbrev pub rely_guarantee :
    {address : ℕ → ℕ} (random_hops : ℕ)
    → IsAllocator address
    → RelyGuarantee (step address random_hops)
rely_guarantee {address} random_hops alloc = record {
  Inv = Inv address;
  Holds = Holds address;
  Grows = Grows address;
  keeps = λ n c h l v k. step-Kept address alloc random_hops n c h l v k;
  stable = λ h h' l g k. Holds-Grows address l g k;
}
