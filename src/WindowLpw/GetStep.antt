-- ===== src/WindowLpw/GetStep.antt =====
-- `get_window` of src/2Dd-queue_elastic-lpw/2Dd-window_elastic.c, one access to shared memory a step. As in
-- `put_window`, a read of a lane's count yields any number.
use elastic_2d_relaxation.Prelude.{
  ℕ, true, false, not, ◌&&◌, ◌%◌, if◌then◌else◌, ltb, leb, ◌==◌, add64, sub64,
}
use elastic_2d_relaxation.WindowLpw.{
  GetContent, GetPc, get_enter, get_sync, get_read, read_put, get_test, get_resync, get_empty,
  shift_max, limit, limit_again, lateral_head, lateral_next, get_shift, get_cae, deq_head, deq_next,
  deq_cae, get_done, idle, getting, Shared, Local, same_get,
}
use elastic_2d_relaxation.WindowLpw.Lateral.{get_next_window_lateral, cut}
use elastic_2d_relaxation.WindowLpw.PutStep.{fix, random_index, hop_index, hop}

unfoldable pub get_rescan : Local → Local
get_rescan l = record l {
  hops = 0;
  notempty = false;
  get_index = fix l.get_index l.get.width;
  pc = getting get_read;
}

-- `deq_lateral`: the read of `new_head->next` and what follows
unfoldable pub deq_lateral : Shared → Local → (max read_head new_head : ℕ) → Local
unfolding get_rescan
deq_lateral h l max read_head new_head =
    let probe = (h.nodes new_head).next in
    if not (probe == 0) && leb (h.nodes probe).count max
    then record l { pc = getting (deq_next max read_head probe) }
    else if not (read_head == new_head)
    then record l { pc = getting (deq_cae read_head new_head) }
    else get_rescan l

-- The end of `get_window`: the next put starts at the lane if the windows are as wide.
unfoldable pub get_return : Local → (count : ℕ) → Local
get_return l count = record l {
  put_index = if l.get.width == l.put.width then l.get_index else l.put_index;
  pc = getting (get_done count);
}

-- The tests of `get_shift_max`, the second of which reads the global put window.
unfoldable pub get_shift_max : Shared → Local → (max : ℕ) → GetPc
get_shift_max h l max =
    if ltb l.put.max max
    then lateral_head h.put.max
    else if ltb h.put.max max
    then limit_again
    else lateral_head max

-- `address` is the allocator's, `random_hops` the queue's.
module _ (address : ℕ → ℕ) (random_hops : ℕ) where
  -- The loop of `get_window` from the read of the global window on.
  unfoldable pub get_check : ℕ → ℕ → Local → (count put_count : ℕ) → Local
  unfolding hop hop_index get_return
  get_check choice global l count put_count =
      if not (l.get.max == global)
      then record l { get = record (l.get) { max = global }; pc = getting get_resync }
      else if ltb count l.get.max && ltb count put_count
      then get_return l count
      else if not (l.hops == l.get.width)
      then record (hop random_hops l) {
        notempty = if not l.notempty && ltb count put_count then true else l.notempty;
        get_index = hop_index random_hops l.random l.get.width choice l.get_index;
        pc = getting get_read;
      }
      else record l { pc = getting (if l.notempty then shift_max else get_empty count) }

  -- The compare-exchange of the get window. The thread's copy is written here, before `deq_lateral`,
  -- which does not read it.
  unfoldable pub get_exchange : Shared → Local → (max width : ℕ) → Shared × Local
  unfolding get_rescan
  get_exchange h l max width =
      let new_window : GetContent = record {
        max = max;
        depth = sub64 max l.get.max % 65536;
        width = width;
      } in
      if same_get h.get l.get
      then (
        record h { get = new_window },
        record l { get = new_window; pc = getting (deq_head max) },
      )
      else (h, get_rescan (record l { get = h.get }))

  unfoldable pub get_window : ℕ → Shared → Local → GetPc → Shared × Local
  unfolding get_shift_max random_index get_check get_rescan get_exchange get_next_window_lateral
      deq_lateral cut get_return
  get_window choice h l (get_enter contention) =
      let index = if contention then random_index l.get.width choice else l.get_index in
      if l.get.max == h.get.max
      then (
        h,
        record l { get_index = index; lower = sub64 l.put.max l.put.depth; pc = getting get_read },
      )
      else (
        h,
        record l {
          get_index = index;
          get = record (l.get) { max = h.get.max };
          pc = getting get_sync;
        },
      )
  get_window choice h l get_sync = (
    h,
    record l {
      get = record (l.get) { depth = h.get.depth; width = h.get.width };
      get_index = fix l.get_index h.get.width;
      lower = sub64 l.put.max l.put.depth;
      pc = getting get_read;
    },
  )
  get_window choice h l get_read = (
    h,
    record l {
      pc = getting (if leb choice l.lower then get_test choice l.lower else read_put choice);
    },
  )
  get_window choice h l (read_put count) = (h, record l { pc = getting (get_test count choice) })
  get_window choice h l (get_test count put_count) =
      (h, get_check choice h.get.max l count put_count)
  get_window choice h l get_resync = (
    h,
    get_rescan (record l { get = record (l.get) { depth = h.get.depth; width = h.get.width } }),
  )
  get_window choice h l (get_empty count) = (
    h,
    if not (l.get.max == h.put.max)
        then record l { pc = getting shift_max }
        else get_return l count,
  )
  get_window choice h l shift_max = (h, record l { pc = getting (limit (add64 l.get.max h.depth)) })
  get_window choice h l (limit max) = (h, record l { pc = getting (get_shift_max h l max) })
  get_window choice h l limit_again = (h, record l { pc = getting (lateral_head h.put.max) })
  get_window choice h l (lateral_head next_max) =
      (h, record l { pc = getting (lateral_next next_max h.head) })
  get_window choice h l (lateral_next next_max current) =
      (h, record l { pc = getting (get_next_window_lateral h l.get.max next_max current) })
  get_window choice h l (get_shift max width) =
      if l.get.max == h.get.max
      then (h, record l { pc = getting (get_cae max width) })
      else (h, get_rescan l)
  get_window choice h l (get_cae max width) = get_exchange h l max width
  get_window choice h l (deq_head max) = (h, record l { pc = getting (deq_next max h.head h.head) })
  get_window choice h l (deq_next max read_head new_head) =
      (h, deq_lateral h l max read_head new_head)
  get_window choice h l (deq_cae read_head new_head) = (cut h read_head new_head, get_rescan l)
  get_window choice h l (get_done count) = (h, record l { pc = idle })
