-- ===== src/WindowLpw/Puts.antt =====
-- Every step of `put_window` keeps the invariant of the elastic windows.
use mathlib.Core.Path.{subst}
use elastic_2d_relaxation.Prelude.{
  ℕ, suc, ◌≤◌, ◌<◌, ◌≡◌, refl, sym, inl, inr, arith, ◌==◌, Bool, Bool-cases, ltb,
}
use native.Mathlib.Nat.{mod-lt}
use elastic_2d_relaxation.Linked.{IsAllocator}
use elastic_2d_relaxation.WindowLpw.{
  PutContent, put_enter, put_sync, put_test, put_shift, putting, Shared, Local,
}
use elastic_2d_relaxation.WindowLpw.Lateral.{maybe_enq_lateral}
use elastic_2d_relaxation.WindowLpw.PutStep.{
  put_begin, put_rescan, put_check, put_window, random_index, hop, hop_index, second_word,
}
use elastic_2d_relaxation.WindowLpw.Inv.{SameSecond, Inv, Grows}
use elastic_2d_relaxation.WindowLpw.Holds.{Holds, AtPut}
use elastic_2d_relaxation.WindowLpw.Stable.{quiet, still}

abbrev pub Kept : (ℕ → ℕ) → ℕ → Shared → Shared × Local → Type 0
Kept address n h r = Inv address n r.0 × Holds address r.0 r.1 × Grows address h r.0

module _ (address : ℕ → ℕ) (alloc : IsAllocator address) (random_hops n choice : ℕ) (h : Shared)
    (l : Local) (v : Inv address (suc n) h) (k : Holds address h l) where
  begin_in :
      (c : Bool) (m : Local) → 0 < m.put.width → (put_begin choice c m).put_index < m.put.width
  unfolding put_begin random_index
  begin_in c m some = ground (arith, mod-lt choice some)

  -- The window at hand is the global one where their maxima agree, and has lanes.
  synced_width : SameSecond h.put l.put → 0 < l.put.width
  synced_width s = omega (arith, v.1.put_small)

  pub enter_Kept :
      (c : Bool)
      → l.pc ≡ putting (put_enter c)
      → Kept address n h (put_window address random_hops choice h l (put_enter c))
  unfolding put_window put_begin
  enter_Kept c at = elim (Bool-cases (l.put.max == h.put.max)) [
    | inl e ↦ rw e (
        quiet address n h _ v (record {
          put_le = k.put_le;
          get_le = k.get_le;
          synced = λ _ now. here (ground arith);
          at_pc = begin_in c l (synced_width (here (ground arith)));
        }))
    | inr e ↦ rw e (
        quiet address n h _ v (record {
          put_le = omega arith;
          get_le = k.get_le;
          synced = λ whole now. cc;
          at_pc = tt;
        }))
  ]
    where
      here : l.put.max ≡ h.put.max → SameSecond h.put l.put
      here e = k.synced (ground arith) (sym e)

  pub sync_Kept :
      (c : Bool) → Kept address n h (put_window address random_hops choice h l (put_sync c))
  unfolding put_window put_begin
  sync_Kept c = quiet address n h _ v (record {
    put_le = k.put_le;
    get_le = k.get_le;
    synced = λ _ now. (refl, refl, refl);
    at_pc = begin_in c (record l { put = second_word l.put h.put }) (omega (arith, v.1.put_small));
  })

  pub rescan_Kept :
      (w : PutContent)
      → w.max ≤ h.put.max
      → 0 < w.width
      → (h.put.max ≡ w.max → SameSecond h.put w)
      → Kept address n h (h, put_rescan l w)
  unfolding put_rescan
  rescan_Kept w le some same =
      quiet address n h _ v (record {
        put_le = le;
        get_le = k.get_le;
        synced = λ _ now. same now;
        at_pc = ground arith;
      })

  hopped :
      AtPut address h l (put_test 0)
      → hop_index random_hops l.random l.put.width choice l.put_index < l.put.width
  unfolding hop_index random_index
  hopped lane = let some : 0 < l.put.width = omega arith in ground (arith, mod-lt choice some)

  hop_width : l.put.width ≡ (hop random_hops l).put.width
  unfolding hop
  hop_width = ground arith

  pub check_Kept :
      (count : ℕ)
      → AtPut address h l (put_test count)
      → l.pc ≡ putting (put_test count)
      → Kept address n h (put_window address random_hops choice h l (put_test count))
  unfolding put_window put_check hop hop_index random_index
  check_Kept count lane at = elim (Bool-cases (l.put.max == h.put.max)) [
    | inr e ↦ rw e (
        quiet address n h _ v (record {
          put_le = omega arith;
          get_le = k.get_le;
          synced = λ whole now. cc;
          at_pc = tt;
        }))
    | inl e ↦ rw e (elim (Bool-cases (ltb count l.put.max)) [
      | inl below ↦
          rw below (still address n h l v k (ground arith) _ refl k.get_le ((ground arith, lane)))
      | inr full ↦ rw full (elim (Bool-cases (ltb l.hops l.put.width)) [
        | inl more ↦ rw more (
            quiet address n h _ v (record {
              put_le = ground (arith, k.put_le);
              get_le = ground (arith, k.get_le);
              synced = λ _. ground (arith, k.synced (ground arith));
              at_pc =
                  subst
                    (λ (x : ℕ). hop_index random_hops l.random l.put.width choice l.put_index < x)
                    hop_width (hopped lane);
            }))
        | inr all ↦ rw all (still address n h l v k (ground arith) _ refl k.get_le (omega arith))
      ])
    ])
  ]

  pub shift_Kept :
      l.pc ≡ putting put_shift
      → 0 < l.put.width
      → Kept address n h (put_window address random_hops choice h l put_shift)
  unfolding put_window maybe_enq_lateral
  shift_Kept at some = elim (Bool-cases (l.put.max == h.put.max)) [
    | inr e ↦ rw e (rescan_Kept l.put k.put_le some (k.synced (ground arith)))
    | inl e ↦ rw e (elim (Bool-cases (l.put.width == l.put.next_width)) [
      | inl same ↦ rw same (
          still address n h l v k (ground arith) _ refl k.get_le
            (λ now. inl (ground (arith, k.synced (ground arith) now))))
      | inr other ↦ rw other (
          still address n h l v k (ground arith) _ refl k.get_le
            ((ground arith, inl (ground arith))))
    ])
  ]
