-- ===== src/WindowLpw/Step.antt =====
-- The calls of a thread on the elastic windows of src/2Dd-queue_elastic-lpw, and one step of them.
use elastic_2d_relaxation.Prelude.{ℕ, suc, false, ◌/◌, ◌%◌, if◌then◌else◌, ◌==◌}
use elastic_2d_relaxation.WindowLpw.{
  put_enter, get_enter, Pc, idle, putting, getting, reading, Shared, Local,
}
use elastic_2d_relaxation.WindowLpw.PutStep.{second_word, put_window}
use elastic_2d_relaxation.WindowLpw.GetStep.{get_window}

-- `update_width` and `update_depth`, of whose result no caller makes use; both are given what is not 0
unfoldable pub update_width : Shared → ℕ → Shared
update_width h width = record h { width = width }

unfoldable pub update_depth : Shared → ℕ → Shared
update_depth h depth = record h { depth = depth }

-- A call that an idle thread makes: `put_window`, the start of a `dequeue`, `get_window` again in
-- its loop, or a change of the width or the depth to come.
unfoldable pub call : ℕ → ℕ → Shared → Local → Shared × Local
unfolding update_width update_depth
call choice n h l =
    if choice == 0
    then (h, record l { hops = 0; random = 0; pc = putting (put_enter (n % 2 == 1)) })
    else if choice == 1
    then (h, record l { put = record (l.put) { max = h.put.max }; pc = reading })
    else if choice == 2
    then (
      h,
      record l { hops = 0; random = 0; notempty = false; pc = getting (get_enter (n % 2 == 1)) },
    )
    else if choice == 3
    then (update_width h (suc (n % 65535)), l)
    else (update_depth h (suc (n % 65535)), l)

-- `address` is the allocator's, `random_hops` the queue's.
module _ (address : ℕ → ℕ) (random_hops : ℕ) where
  unfoldable pub step_at : ℕ → Shared → Local → Pc → Shared × Local
  unfolding call put_window get_window
  step_at choice h l idle = call (choice % 5) (choice / 5) h l
  step_at choice h l (putting pc) = put_window address random_hops choice h l pc
  step_at choice h l (getting pc) = get_window address random_hops choice h l pc
  step_at choice h l reading = (
    h,
    record l {
      put = second_word l.put h.put;
      hops = 0;
      random = 0;
      notempty = false;
      pc = getting (get_enter false);
    },
  )

  unfoldable pub step : ℕ → Shared → Local → Shared × Local
  unfolding step_at
  step choice h l = step_at choice h l l.pc
