-- ===== src/Iotop/Priority/Examples.antt =====
-- The priorities of some tasks.
use lepd.Base.{◌+◌, ◌*◌, ◌/◌, ◌<◌, ◌≡◌, none, some, arith}
use lepd.Base.Int.{pos, negsuc}
use lepd.Iotop.Priority.{
  sched_idle, best_effort, class_number, default_of, level_text, str_ioprio, str_ioprio_ext,
  str_ioprio_ext-eq,
}

str_ioprio_ext-eq_example :
    (str_ioprio_ext (pos (class_number best_effort * 8192 + 4)) sched_idle 20
      ≡ some (level_text best_effort 4))
    × (str_ioprio (pos (class_number best_effort * 8192 + 4)) ≡ some (level_text best_effort 4))
    × (str_ioprio_ext (pos 4) sched_idle 20 ≡ some (level_text (default_of sched_idle) (20 / 5)))
    × (20 / 5 < 8)
    × (str_ioprio_ext (negsuc 0) sched_idle 20 ≡ none)
    × (str_ioprio (negsuc 0) ≡ none)
str_ioprio_ext-eq_example =
    str_ioprio_ext-eq best_effort 4 20 sched_idle (omega arith) (omega arith)
