-- ===== src/WindowLpw/PutStep.antt =====
-- `put_window` of src/2Dd-queue_elastic-lpw/2Dd-window_elastic.c, one access to shared memory a step. The
-- lanes belong to the operations: a read of a lane's count yields any number.
use elastic_2d_relaxation.Prelude.{
  ℕ, Bool, not, ◌||◌, ◌%◌, if◌then◌else◌, ltb, leb, ◌==◌, add64, add16,
}
use elastic_2d_relaxation.WindowLpw.{
  PutContent, PutPc, put_enter, put_sync, put_read, put_test, put_resync, put_shift, enq_tail,
  enq_next, enq_link, enq_swing, put_depth, put_width, put_cae, put_done, idle, putting, Shared,
  Local, same_put,
}
use elastic_2d_relaxation.WindowLpw.Lateral.{
  maybe_enq_lateral, try_enq_lateral, read_next, link, swing,
}

-- `if (index >= width) index = 0`
abbrev pub fix : ℕ → ℕ → ℕ
fix index width = if leb width index then 0 else index

-- `random_index` for the number that the generator yields
unfoldable pub random_index : (width choice : ℕ) → ℕ
random_index width choice = choice % width

unfoldable pub hop_index : (random_hops random width choice index : ℕ) → ℕ
unfolding random_index
hop_index random_hops random width choice index =
    if ltb random random_hops then random_index width choice else fix (add16 index 1) width

-- `hop` on the counters of a call
unfoldable pub hop : (random_hops : ℕ) → Local → Local
hop random_hops l =
    if ltb l.random random_hops
    then record l { random = add16 l.random 1 }
    else record l { hops = add16 l.hops 1 }

-- `put_window` back at the head of the loop after a new copy of the window
unfoldable pub put_rescan : Local → PutContent → Local
put_rescan l content = record l {
  put = content;
  hops = 0;
  put_index = fix l.put_index content.width;
  pc = putting put_read;
}

-- the second word of the put window in a thread's copy
abbrev pub second_word : PutContent → PutContent → PutContent
second_word own global = record own {
  depth = global.depth;
  width = global.width;
  next_width = global.next_width;
}

-- the index before the loop
unfoldable pub put_begin : ℕ → Bool → Local → Local
unfolding random_index
put_begin choice contention l = record l {
  put_index =
      if contention || leb l.put.width l.put_index
      then random_index l.put.width choice
      else l.put_index;
  pc = putting put_read;
}

-- `address` is the allocator's, `random_hops` the queue's.
module _ (address : ℕ → ℕ) (random_hops : ℕ) where
  -- The loop of `put_window` from the read of the global window on.
  unfoldable pub put_check : ℕ → ℕ → Local → ℕ → Local
  unfolding hop hop_index
  put_check choice global l count =
      if not (l.put.max == global)
      then record l { put = record (l.put) { max = global }; pc = putting put_resync }
      else if ltb count l.put.max
      then record l {
        get_index = if l.get.width == l.put.width then l.put_index else l.get_index;
        pc = putting (put_done count);
      }
      else if ltb l.hops l.put.width
      then record (hop random_hops l) {
        put_index = hop_index random_hops l.random l.put.width choice l.put_index;
        pc = putting put_read;
      }
      else record l { pc = putting put_shift }

  -- The compare-exchange of the put window.
  unfoldable pub put_exchange : Shared → Local → (new_depth new_width : ℕ) → Shared × Local
  unfolding put_rescan
  put_exchange h l new_depth new_width =
      let new_window : PutContent = record {
        max = add64 l.put.max new_depth;
        depth = new_depth;
        width = l.put.next_width;
        next_width = new_width;
      } in
      if same_put h.put l.put
      then (
        record h {
          put = new_window;
          rows = λ r. if leb r h.put.max then h.rows r else l.put.next_width;
        },
        put_rescan l new_window,
      )
      else (h, put_rescan l h.put)

  unfoldable pub put_window : ℕ → Shared → Local → PutPc → Shared × Local
  unfolding put_begin put_check put_rescan put_exchange maybe_enq_lateral try_enq_lateral read_next
      link swing
  put_window choice h l (put_enter contention) =
      if l.put.max == h.put.max then (h, put_begin choice contention l) else (
        h,
        record l { put = record (l.put) { max = h.put.max }; pc = putting (put_sync contention) },
      )
  put_window choice h l (put_sync contention) =
      (h, put_begin choice contention (record l { put = second_word l.put h.put }))
  put_window choice h l put_read = (h, record l { pc = putting (put_test choice) })
  put_window choice h l (put_test count) = (h, put_check choice h.put.max l count)
  put_window choice h l put_resync = (h, put_rescan l (second_word l.put h.put))
  put_window choice h l put_shift =
      if l.put.max == h.put.max
      then (h, record l { pc = putting (maybe_enq_lateral l.put.width l.put.next_width) })
      else (h, put_rescan l l.put)
  put_window choice h l enq_tail =
      (h, record l { pc = putting (try_enq_lateral h (add64 l.put.max 1)) })
  put_window choice h l (enq_next read_tail) =
      (h, record l { pc = putting (read_next h read_tail) })
  put_window choice h l (enq_link read_tail) =
      let (h', pc) = link h (address h.published) read_tail (add64 l.put.max 1) l.put.next_width in
      (h', record l { pc = putting pc })
  put_window choice h l (enq_swing read_tail next_tail) =
      (swing h read_tail next_tail, record l { pc = putting put_depth })
  put_window choice h l put_depth = (h, record l { pc = putting (put_width h.depth) })
  put_window choice h l (put_width new_depth) =
      (h, record l { pc = putting (put_cae new_depth h.width) })
  put_window choice h l (put_cae new_depth new_width) = put_exchange h l new_depth new_width
  put_window choice h l (put_done count) = (h, record l { pc = idle })
