-- ===== src/WindowLpw/GetShifts.antt =====
-- The shift of the elastic get window and the removal of the lateral's nodes below it.
use elastic_2d_relaxation.Prelude.{
  ℕ, suc, ◌-◌, ◌%◌, ◌≤◌, ◌<◌, ◌≡◌, refl, inl, inr, arith, ◌==◌, true, false, Bool-cases, leb, sub64,
  not, ◌&&◌,
}
use elastic_2d_relaxation.Linked.{IsAllocator}
use elastic_2d_relaxation.WindowLpw.{
  GetContent, GetPc, get_enter, get_sync, get_read, read_put, get_test, get_resync, get_empty,
  shift_max, limit, limit_again, lateral_head, lateral_next, get_shift, get_cae, deq_head, deq_next,
  deq_cae, get_done, getting, Shared, Local, same_get,
}
use elastic_2d_relaxation.WindowLpw.Lateral.{cut}
use elastic_2d_relaxation.WindowLpw.GetStep.{get_rescan, get_exchange, deq_lateral, get_window}
use elastic_2d_relaxation.WindowLpw.Inv.{Inv, Agrees, Grows, ends-Agrees, ends-Grows}
use elastic_2d_relaxation.WindowLpw.Holds.{Holds, torn, AtGet}
use elastic_2d_relaxation.WindowLpw.Stable.{still}
use elastic_2d_relaxation.WindowLpw.Puts.{Kept}
use elastic_2d_relaxation.WindowLpw.Gets
use elastic_2d_relaxation.WindowLpw.Gets.{next-cases}

module _ (address : ℕ → ℕ) (h : Shared) (v : Agrees address h) (new : GetContent)
    (ahead : h.get.max ≤ new.max) (below : new.max ≤ h.put.max)
    (rows : (r : ℕ) → h.get.max < r → r ≤ new.max → h.rows r ≡ new.width)
    (deep : new.depth ≤ new.max - h.get.max) where
  got_Agrees : Agrees address (record h { get = new })
  got_Agrees = record {
    lateral = record {
      some_node = v.lateral.some_node;
      next_node = v.lateral.next_node;
      last_node = v.lateral.last_node;
      rising = v.lateral.rising;
      widths = v.lateral.widths;
      counts = v.lateral.counts;
      head_at = let (j, lt, e, le) = v.lateral.head_at in (j, lt, e, omega arith);
      tail_at = v.lateral.tail_at;
    };
    put_depth_le = v.put_depth_le;
    put_small = v.put_small;
    behind_put = below;
    set_small = v.set_small;
    above = v.above;
    current = v.current;
    rows_at = v.rows_at;
    put_rows = v.put_rows;
    get_rows = λ r low le. rows r (omega arith) le;
  }

  got_Grows : Grows address h (record h { get = new })
  got_Grows = record {
    more = omega arith;
    same_count = λ j lt. refl;
    new_count = λ j old now. absurd (omega arith);
    put_le = omega arith;
    get_le = ahead;
    same_put = λ e. (refl, refl, refl);
    ready_stays = λ e r. r;
    announced = λ lt. absurd (omega arith);
    same_rows = λ r le. refl;
  }

module _ (address : ℕ → ℕ) (alloc : IsAllocator address) (random_hops n choice : ℕ) (h : Shared)
    (l : Local) (v : Inv address (suc n) h) (k : Holds address h l)
    (was : torn address l.pc ≡ false) where
  exchanged_Kept :
      (m w : ℕ)
      → AtGet address h l (get_cae m w)
      → h.get.max ≡ l.get.max
      → Kept address n h (
        record h { get = record { max = m; depth = sub64 m l.get.max % 65536; width = w } },
        record l {
          get = record { max = m; depth = sub64 m l.get.max % 65536; width = w };
          pc = getting (deq_head m);
        },
      )
  exchanged_Kept m w (a, s) now = (
    (omega (arith, v.0), got_Agrees address h v.1 new (omega arith) a.1 rows deep),
    record {
      put_le = k.put_le;
      get_le = omega arith;
      synced = λ _. k.synced was;
      at_pc = omega arith;
    },
    got_Grows address h v.1 new (omega arith) a.1 rows deep,
  )
    where
      new : GetContent
      new = record { max = m; depth = sub64 m l.get.max % 65536; width = w }

      rows : (r : ℕ) → h.get.max < r → r ≤ m → h.rows r ≡ w
      rows r above le = s.1 now r (omega arith) le

      deep : sub64 m l.get.max % 65536 ≤ m - h.get.max
      deep = omega (arith, v.0, a)

  exchange_Kept :
      (m w : ℕ)
      → AtGet address h l (get_cae m w)
      → Kept address n h (get_window address random_hops choice h l (get_cae m w))
  unfolding get_window get_exchange
  exchange_Kept m w a = elim (Bool-cases (same_get h.get l.get)) [
    | inl e ↦ rw e (exchanged_Kept m w a (ground arith))
    | inr e ↦
        rw e (Gets.rescan_Kept address alloc random_hops n choice h l v k was h.get (omega arith))
  ]

  deq_head_Kept :
      (m : ℕ)
      → AtGet address h l (deq_head m)
      → Kept address n h (get_window address random_hops choice h l (deq_head m))
  unfolding get_window
  deq_head_Kept m a = still address n h l v k was _ refl k.get_le (a, v.1.lateral.head_at)

  probed :
      (m p q : ℕ)
      → m ≤ h.get.max
      → (j : ℕ) → j < h.published
      → q ≡ address j
      → (not ((h.nodes q).next == 0) && leb (h.nodes (h.nodes q).next).count m) ≡ true
      → AtGet address h l (deq_next m p (h.nodes q).next)
  probed m p q a j lt e on =
      elim (next-cases address alloc random_hops n choice h l v k was q j lt e) [
        | inl (none, last) ↦ absurd (ground arith)
        | inr (next, more, c) ↦ (a, (suc j, more, next, ground arith))
      ]

  deq_next_Kept :
      (m p q : ℕ)
      → AtGet address h l (deq_next m p q)
      → Kept address n h (get_window address random_hops choice h l (deq_next m p q))
  unfolding get_window deq_lateral
  deq_next_Kept m p q (a, (j, lt, e, c)) =
      elim (Bool-cases (not ((h.nodes q).next == 0) && leb (h.nodes (h.nodes q).next).count m)) [
        | inl on ↦ rw on (still address n h l v k was _ refl k.get_le (probed m p q a j lt e on))
        | inr end ↦ rw end (elim (Bool-cases (p == q)) [
          | inl same ↦
              rw same
                (Gets.rescan_Kept address alloc random_hops n choice h l v k was l.get k.get_le)
          | inr other ↦ rw other (still address n h l v k was _ refl k.get_le (j, lt, e, c))
        ])
      ]

  deq_cae_Kept :
      (p q : ℕ)
      → AtGet address h l (deq_cae p q)
      → Kept address n h (get_window address random_hops choice h l (deq_cae p q))
  unfolding get_window cut get_rescan
  deq_cae_Kept p q a = elim (Bool-cases (h.head == p)) [
    | inr moved ↦
        rw moved (Gets.rescan_Kept address alloc random_hops n choice h l v k was l.get k.get_le)
    | inl there ↦ rw there (
      (
        omega (arith, v.0),
        ends-Agrees address h v.1 q h.tail h.width h.depth v.1.set_small a v.1.lateral.tail_at,
      ),
      record { put_le = k.put_le; get_le = k.get_le; synced = λ _. k.synced was; at_pc = tt },
      ends-Grows address h v.1 q h.tail h.width h.depth (λ r. r),
    )
  ]

  pub get_window-Kept :
      (pc : GetPc)
      → AtGet address h l pc
      → Kept address n h (get_window address random_hops choice h l pc)
  unfolding get_window
  get_window-Kept (get_enter c) a = Gets.enter_Kept address alloc random_hops n choice h l v k was c
  get_window-Kept get_sync a = still address n h l v k was _ refl k.get_le tt
  get_window-Kept get_read a = Gets.read_Kept address alloc random_hops n choice h l v k was
  get_window-Kept (read_put c) a = still address n h l v k was _ refl k.get_le tt
  get_window-Kept (get_test c p) a =
      Gets.check_Kept address alloc random_hops n choice h l v k was c p
  get_window-Kept get_resync a =
      Gets.rescan_Kept address alloc random_hops n choice h l v k was
        (record (l.get) { depth = h.get.depth; width = h.get.width }) k.get_le
  get_window-Kept (get_empty c) a = Gets.empty_Kept address alloc random_hops n choice h l v k was c
  get_window-Kept shift_max a = Gets.max_Kept address alloc random_hops n choice h l v k was
  get_window-Kept (limit m) a = Gets.limit_Kept address alloc random_hops n choice h l v k was m a
  get_window-Kept limit_again a =
      still address n h l v k was _ refl k.get_le (omega (arith, k.get_le, v.1.behind_put))
  get_window-Kept (lateral_head m) a =
      Gets.head_Kept address alloc random_hops n choice h l v k was m a
  get_window-Kept (lateral_next m p) a =
      Gets.next_Kept address alloc random_hops n choice h l v k was m p a
  get_window-Kept (get_shift m w) a =
      Gets.shift_Kept address alloc random_hops n choice h l v k was m w a
  get_window-Kept (get_cae m w) a = exchange_Kept m w a
  get_window-Kept (deq_head m) a = deq_head_Kept m a
  get_window-Kept (deq_next m p q) a = deq_next_Kept m p q a
  get_window-Kept (deq_cae p q) a = deq_cae_Kept p q a
  get_window-Kept (get_done c) a = still address n h l v k was _ refl k.get_le tt
