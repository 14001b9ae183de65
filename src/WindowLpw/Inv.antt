-- ===== src/WindowLpw/Inv.antt =====
-- The invariant of the elastic windows and the lateral, and the changes that a step makes.
use elastic_2d_relaxation.Prelude.{refl, ℕ, suc, ◌+◌, ◌*◌, ◌≤◌, ◌<◌, ◌≡◌, ◌≢◌, ◌⊎◌, arith, u64_mod}
use elastic_2d_relaxation.WindowLpw.{PutContent, Shared}

-- The second words agree.
abbrev pub SameSecond : PutContent → PutContent → Type 0
SameSecond a b = (a.depth ≡ b.depth) × (a.width ≡ b.width) × (a.next_width ≡ b.next_width)

-- A number that `depth_t` or `width_t` holds and that is not 0.
abbrev pub IsSmall : ℕ → Type 0
IsSmall x = (0 < x) × (x < 65536)

module _ (address : ℕ → ℕ) where
  -- The `k`-th node of the lateral.
  abbrev pub count_at : Shared → ℕ → ℕ
  count_at h k = (h.nodes (address k)).count

  abbrev pub width_at : Shared → ℕ → ℕ
  width_at h k = (h.nodes (address k)).width

  -- Row `r` lies between the node `k` and the next one.
  abbrev pub InSpan : Shared → (k r : ℕ) → Type 0
  InSpan h k r = (count_at h k ≤ r) × (suc k < h.published → r < count_at h (suc k))

  -- The nodes of the lateral, in the order in which they were linked.
  pub record IsLateral (h : Shared) : Type 0 where
    pub some_node : 0 < h.published
    pub next_node : (k : ℕ) → suc k < h.published → (h.nodes (address k)).next ≡ address (suc k)
    pub last_node : (k : ℕ) → suc k ≡ h.published → (h.nodes (address k)).next ≡ 0
    pub rising : (j k : ℕ) → j < k → k < h.published → count_at h j < count_at h k
    pub widths : (k : ℕ) → k < h.published → 0 < width_at h k
    pub counts : (k : ℕ) → k < h.published → count_at h k ≤ h.put.max + 1
    pub head_at : (k : ℕ) × (k < h.published) × (h.head ≡ address k) × (count_at h k ≤ h.get.max)
    -- The tail is one node behind at most, and only before the window is shifted.
    pub tail_at :
        (t : ℕ) × (t < h.published)
        × (h.tail ≡ address t)
        × ((k : ℕ) → t < k → k < h.published → count_at h k ≡ h.put.max + 1)

  -- The lateral, the windows and the rows agree.
  pub record Agrees (h : Shared) : Type 0 where
    pub lateral : IsLateral h
    pub put_depth_le : h.put.depth ≤ h.put.max
    pub put_small : IsSmall h.put.depth × (0 < h.put.width) × (0 < h.put.next_width)
    pub behind_put : h.get.max ≤ h.put.max
    pub set_small : IsSmall h.depth × IsSmall h.width
    -- A node above the put window announces the next width, which is another one.
    pub above :
        (k : ℕ)
        → k < h.published
        → count_at h k ≡ h.put.max + 1
        → (width_at h k ≡ h.put.next_width) × (h.put.width ≢ h.put.next_width)
    pub current :
        (k : ℕ) → suc k ≡ h.published → count_at h k ≤ h.put.max → width_at h k ≡ h.put.width
    pub rows_at :
        (k r : ℕ) → k < h.published → InSpan h k r → r ≤ h.put.max → h.rows r ≡ width_at h k
    pub put_rows : (r : ℕ) → h.put.max < r + h.put.depth → r ≤ h.put.max → h.rows r ≡ h.put.width
    pub get_rows : (r : ℕ) → h.get.max < r + h.get.depth → r ≤ h.get.max → h.rows r ≡ h.get.width

  -- The put window has room for `n` steps and one more.
  abbrev pub Inv : ℕ → Shared → Type 0
  Inv n h = (h.put.max + n * 65536 + 65536 ≤ u64_mod) × Agrees h

  -- Some node has this count.
  abbrev pub HasNode : Shared → ℕ → Type 0
  HasNode h c = (k : ℕ) × (k < h.published) × (count_at h k ≡ c)

  -- The lateral is ready for the shift of the put window.
  abbrev pub IsReady : Shared → Type 0
  IsReady h =
      (h.put.width ≡ h.put.next_width)
      ⊎ ((t : ℕ) × (suc t ≡ h.published) × (h.tail ≡ address t) × (count_at h t ≡ h.put.max + 1))

  -- The changes that a step confines itself to.
  pub record Grows (h h' : Shared) : Type 0 where
    pub more : h.published ≤ h'.published
    pub same_count : (k : ℕ) → k < h.published → count_at h' k ≡ count_at h k
    pub new_count : (k : ℕ) → h.published ≤ k → k < h'.published → count_at h' k ≡ h.put.max + 1
    pub put_le : h.put.max ≤ h'.put.max
    pub get_le : h.get.max ≤ h'.get.max
    pub same_put : h'.put.max ≡ h.put.max → SameSecond h'.put h.put
    pub ready_stays : h'.put.max ≡ h.put.max → IsReady h → IsReady h'
    pub announced :
        h.put.max < h'.put.max → (h.put.width ≡ h.put.next_width) ⊎ HasNode h' (h.put.max + 1)
    pub same_rows : (r : ℕ) → r ≤ h.put.max → h'.rows r ≡ h.rows r

  pub Grows-refl : (h : Shared) → Grows h h
  Grows-refl h = record {
    more = omega arith;
    same_count = λ k lt. refl;
    new_count = λ k old new. absurd (omega arith);
    put_le = omega arith;
    get_le = omega arith;
    same_put = λ e. (refl, refl, refl);
    ready_stays = λ e r. r;
    announced = λ lt. absurd (omega arith);
    same_rows = λ r le. refl;
  }

  abbrev pub HeadAt : Shared → ℕ → Type 0
  HeadAt h head = (k : ℕ) × (k < h.published) × (head ≡ address k) × (count_at h k ≤ h.get.max)

  abbrev pub TailAt : Shared → ℕ → Type 0
  TailAt h tail =
      (t : ℕ) × (t < h.published)
      × (tail ≡ address t)
      × ((k : ℕ) → t < k → k < h.published → count_at h k ≡ h.put.max + 1)

  -- The ends of the lateral and the width and depth to come may change on their own.
  module _ (h : Shared) (v : Agrees h) (head tail width depth : ℕ) where
    abbrev pub ends : Shared
    ends = record h { head = head; tail = tail; width = width; depth = depth }

    pub ends-Agrees : IsSmall depth × IsSmall width → HeadAt h head → TailAt h tail → Agrees ends
    ends-Agrees small at_head at_tail = record {
      lateral = record {
        some_node = v.lateral.some_node;
        next_node = v.lateral.next_node;
        last_node = v.lateral.last_node;
        rising = v.lateral.rising;
        widths = v.lateral.widths;
        counts = v.lateral.counts;
        head_at = at_head;
        tail_at = at_tail;
      };
      put_depth_le = v.put_depth_le;
      put_small = v.put_small;
      behind_put = v.behind_put;
      set_small = small;
      above = v.above;
      current = v.current;
      rows_at = v.rows_at;
      put_rows = v.put_rows;
      get_rows = v.get_rows;
    }

    pub ends-Grows : (IsReady h → IsReady ends) → Grows h ends
    ends-Grows stays = record {
      more = omega arith;
      same_count = λ k lt. refl;
      new_count = λ k old new. absurd (omega arith);
      put_le = omega arith;
      get_le = omega arith;
      same_put = λ e. (refl, refl, refl);
      ready_stays = λ e. stays;
      announced = λ lt. absurd (omega arith);
      same_rows = λ r le. refl;
    }
