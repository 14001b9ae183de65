-- ===== src/WindowLpw/Holds.antt =====
-- What a thread knows in its calls of the elastic windows, whatever the others do.
use elastic_2d_relaxation.Prelude.{ℕ, suc, ◌+◌, ◌≤◌, ◌<◌, ◌≡◌, ◌≢◌, ◌⊎◌, Bool, true, false}
use elastic_2d_relaxation.WindowLpw.{
  PutPc, put_sync, put_resync, put_read, put_test, put_shift, enq_tail, enq_next, enq_link,
  enq_swing, put_depth, put_width, put_cae, put_done, GetPc, limit, lateral_head, lateral_next,
  get_shift, get_cae, deq_head, deq_next, deq_cae, Pc, idle, putting, getting, reading, Shared,
  Local,
}
use elastic_2d_relaxation.WindowLpw.Inv.{SameSecond, IsSmall, IsReady, HasNode, count_at}

module _ (address : ℕ → ℕ) where
  -- A thread about to announce the next width: its window is the global one, or some other thread
  -- has announced it.
  abbrev pub Announces : Shared → Local → Type 0
  Announces h l =
      (l.put.width ≢ l.put.next_width)
      × ((h.put.max ≡ l.put.max) ⊎ HasNode address h (l.put.max + 1))

  -- It has read the tail, node `k`; as long as the window stays, a node behind it is the announced one.
  abbrev pub BehindTail : Shared → Local → ℕ → Type 0
  BehindTail h l k =
      h.put.max ≡ l.put.max → suc k < h.published → count_at address h (suc k) ≡ l.put.max + 1

  abbrev pub AtTail : Shared → Local → ℕ → Type 0
  AtTail h l read_tail =
      Announces h l
      × (k : ℕ) × (k < h.published)
      × (read_tail ≡ address k)
      × (count_at address h k < l.put.max + 1)
      × BehindTail h l k

  abbrev pub Ready : Shared → Local → Type 0
  Ready h l = h.put.max ≡ l.put.max → IsReady address h

  -- What is known at each place of `put_window`; a thread has a valid lane in the loop.
  abbrev pub AtPut : Shared → Local → PutPc → Type 0
  AtPut h l put_read = l.put_index < l.put.width
  AtPut h l (put_test _) = l.put_index < l.put.width
  AtPut h l put_shift = 0 < l.put.width
  AtPut h l enq_tail = Announces h l
  AtPut h l (enq_next read_tail) = AtTail h l read_tail
  AtPut h l (enq_link read_tail) = AtTail h l read_tail
  AtPut h l (enq_swing read_tail next_tail) =
      (k : ℕ) × (suc k < h.published)
      × (read_tail ≡ address k)
      × (next_tail ≡ address (suc k))
      × BehindTail h l k
  AtPut h l put_depth = Ready h l
  AtPut h l (put_width new_depth) = Ready h l × IsSmall new_depth
  AtPut h l (put_cae new_depth new_width) = Ready h l × IsSmall new_depth × IsSmall new_width
  AtPut h l (put_done count) = (count < l.put.max) × (l.put_index < l.put.width)
  AtPut h l _ = Unit

  -- A maximum for the next get window, and its width as far as it is known.
  abbrev pub IsNext : Shared → Local → ℕ → Type 0
  IsNext h l max = (l.get.max ≤ max) × (max ≤ h.put.max)

  abbrev pub Spans : Shared → Local → (max width : ℕ) → Type 0
  Spans h l max width =
      (0 < width) × (h.get.max ≡ l.get.max → (r : ℕ) → l.get.max < r → r ≤ max → h.rows r ≡ width)

  -- A node with at most this count.
  abbrev pub IsBelow : Shared → (max p : ℕ) → Type 0
  IsBelow h max p = (k : ℕ) × (k < h.published) × (p ≡ address k) × (count_at address h k ≤ max)

  abbrev pub AtGet : Shared → Local → GetPc → Type 0
  AtGet h l (limit max) = l.get.max ≤ max
  AtGet h l (lateral_head max) = IsNext h l max
  AtGet h l (lateral_next max current) =
      IsNext h l max
      × (k : ℕ) × (k < h.published)
      × (current ≡ address k)
      × (h.get.max ≡ l.get.max → count_at address h k ≤ l.get.max + 1)
  AtGet h l (get_shift max width) = IsNext h l max × Spans h l max width
  AtGet h l (get_cae max width) = IsNext h l max × Spans h l max width
  AtGet h l (deq_head max) = max ≤ h.get.max
  AtGet h l (deq_next max read_head new_head) = (max ≤ h.get.max) × IsBelow h h.get.max new_head
  AtGet h l (deq_cae read_head new_head) = IsBelow h h.get.max new_head
  AtGet h l _ = Unit

  abbrev pub AtPc : Shared → Local → Pc → Type 0
  AtPc h l (putting pc) = AtPut h l pc
  AtPc h l (getting pc) = AtGet h l pc
  AtPc h l _ = Unit

  -- A thread between the two words of the put window has the first only.
  abbrev pub torn : Pc → Bool
  torn reading = true
  torn idle = false
  torn (getting _) = false
  torn (putting (put_sync _)) = true
  torn (putting put_resync) = true
  torn (putting _) = false

  pub record Holds (h : Shared) (l : Local) : Type 0 where
    pub put_le : l.put.max ≤ h.put.max
    pub get_le : l.get.max ≤ h.get.max
    pub synced : torn l.pc ≡ false → h.put.max ≡ l.put.max → SameSecond h.put l.put
    pub at_pc : AtPc h l l.pc
