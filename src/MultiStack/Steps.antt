-- ===== src/MultiStack/Steps.antt =====
-- Every step of every thread keeps the invariant of the multi-stack.
use elastic_2d_relaxation.Prelude.{
  ℕ, suc, ◌%◌, ◌/◌, if◌then◌else◌, ◌<◌, refl, sym, List, inl, inr, arith, ltb, ◌==◌, ==_iff,
  Bool-cases,
}
use native.Mathlib.Nat.{mod-lt}
use elastic_2d_relaxation.Linked.{IsAllocator}
use elastic_2d_relaxation.Interleave.{RelyGuarantee}
use elastic_2d_relaxation.MultiStack.{
  Operation, push, pop, Pc, idle, draw, next, compare, attempt, taking, Shared, better, onward,
  try_push, try_pop, take, attempt_at, step,
}
use elastic_2d_relaxation.MultiStack.Inv.{
  Marks, Inv, HasNode, IsBest, Holds, Grows, Holds-Grows, Kept, lane-HasNode,
}
use elastic_2d_relaxation.MultiStack.Ranked.{IsRanked-single, IsRanked-taken, IsRanked-kept}
use elastic_2d_relaxation.MultiStack.Moves.{quiet, emptied, pushed-Kept, popped-Kept}

module _ {address : ℕ → ℕ} (alloc : IsAllocator address) {mark : ℕ → ℕ → Type 0}
    {stamp_for : (stamps : ℕ → ℕ) (node c : ℕ) → ℕ} (law : Marks stamp_for mark) {width : ℕ}
    (some_width : 0 < width) (choices n choice : ℕ) (h : Shared)
    (v : Inv address mark width (suc n) h) where
  attempt_at-Kept :
      (op : Operation) (index node : ℕ)
      → index < width
      → HasNode address mark width h node
      → Kept address mark width n h
          (attempt_at address stamp_for choices width choice h op index node)
  unfolding attempt_at try_push try_pop
  attempt_at-Kept (push key val) index node lt has = elim (Bool-cases (h.lanes index == node)) [
    | inl found ↦
        rw (found, sym ((==_iff (h.lanes index) node).0 found))
          (pushed-Kept alloc law some_width choices n choice h v index lt key val)
    | inr lost ↦ rw lost (quiet alloc law some_width choices n choice h v (draw (push key val)) tt)
  ]
  attempt_at-Kept pop index node lt has = elim (Bool-cases (node == 0)) [
    | inl null ↦ rw null (emptied alloc law some_width choices n choice h v)
    | inr some_node ↦ rw some_node (
        quiet alloc law some_width choices n choice h v (taking index node (h.nodes node).next) (
          lt,
          record { some_node = ground arith; is_published = has (ground arith); below = refl },
        ))
  ]

  take-Kept :
      (index node below : ℕ)
      → Holds address mark width h (taking index node below)
      → Kept address mark width n h (take address stamp_for choices width h index node below)
  unfolding take
  take-Kept index node below (lt, a) = elim (Bool-cases (h.lanes index == node)) [
    | inl found ↦
        rw (found, sym ((==_iff (h.lanes index) node).0 found), a.below)
          (rw (sym ((==_iff (h.lanes index) node).0 found)) (
            popped-Kept alloc law some_width choices n choice h v index lt
              (rw ((==_iff (h.lanes index) node).0 found) a.some_node)))
    | inr lost ↦ rw lost (quiet alloc law some_width choices n choice h v (draw pop) tt)
  ]

  onward-Holds :
      (op : Operation) (i index node : ℕ) (seen : List ℕ)
      → IsBest address mark width h op index node seen
      → Holds address mark width h (onward op i index node seen)
  unfolding onward
  onward-Holds (push key val) i index node seen b = elim (Bool-cases (node == 0)) [
    | inl e ↦ rw e b
    | inr e ↦ rw e (b, ground arith)
  ]
  onward-Holds pop i index node seen b = (b, tt)

  pub step-Kept :
      (pc : Pc)
      → Holds address mark width h pc
      → Kept address mark width n h (step address stamp_for choices width choice h pc)
  unfolding step
  step-Kept idle a =
      quiet alloc law some_width choices n choice h v
        (draw (if choice % 2 == 0 then push (choice / 2) (choice / 2) else pop)) tt
  step-Kept (draw op) a = quiet alloc law some_width choices n choice h v _ (
      onward-Holds op 1 _ _ _ (record {
        index_in = mod-lt choice some_width;
        has_node = lane-HasNode address mark width v _ (mod-lt choice some_width);
        ranked = IsRanked-single op _;
      }))
  step-Kept (next op i index node seen) a = elim (Bool-cases (ltb i choices)) [
    | inl more ↦ rw more (
        quiet alloc law some_width choices n choice h v
          (compare op i index node (choice % width) (h.lanes (choice % width)) seen)
          (
            a.0,
            a.1,
            mod-lt choice some_width,
            lane-HasNode address mark width v _ (mod-lt choice some_width),
          ))
    | inr enough ↦
        rw enough (quiet alloc law some_width choices n choice h v (attempt op index node seen) a.0)
  ]
  step-Kept (compare op i index node index2 node2 seen) (b, goes, lt, has) =
      elim (Bool-cases (better op h.stamps node node2)) [
        | inl gain ↦ rw gain (
            quiet alloc law some_width choices n choice h v _ (
              onward-Holds op (suc i) index2 node2 _ (record {
                index_in = lt;
                has_node = has;
                ranked = IsRanked-taken h.stamps node node2 seen op goes gain b.ranked;
              })))
        | inr loss ↦ rw loss (
            quiet alloc law some_width choices n choice h v _ (
              onward-Holds op (suc i) index node _ (record {
                index_in = b.index_in;
                has_node = b.has_node;
                ranked = IsRanked-kept h.stamps node node2 seen op loss b.ranked;
              })))
      ]
  step-Kept (attempt op index node seen) b = attempt_at-Kept op index node b.index_in b.has_node
  step-Kept (taking index node below) a = take-Kept index node below a

abbrev pub rely_guarantee :
    {address : ℕ → ℕ} {mark : ℕ → ℕ → Type 0} {stamp_for : (stamps : ℕ → ℕ) (node c : ℕ) → ℕ}
    {width : ℕ} (choices : ℕ)
    → IsAllocator address
    → Marks stamp_for mark
    → 0 < width
    → RelyGuarantee (step address stamp_for choices width)
rely_guarantee {address} {mark} {stamp_for} {width} choices alloc law some_width = record {
  Inv = Inv address mark width;
  Holds = Holds address mark width;
  Grows = Grows address mark width;
  keeps = λ n c h pc v k. step-Kept alloc law some_width choices n c h v pc k;
  stable = Holds-Grows address mark width;
}
