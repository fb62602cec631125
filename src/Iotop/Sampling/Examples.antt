-- ===== src/Iotop/Sampling/Examples.antt =====
-- Samples of a small system.
use text.Mathlib.Text.{◌==◌ as str_eq}
use lepd.Base.{ℕ, ◌≡◌, true, false, none, some, [], ◌∷◌, ◌==◌, if◌then◌else◌, arith}
use lepd.Base.Int.{ℤ}
use lepd.Base.Doubles.{whole}
use lepd.Iotop.{XxxidStats}
use lepd.Iotop.Priority.{sched_other}
use lepd.Iotop.View.{Display}
use lepd.Iotop.Sampling.{Proc, init_params, fetch_data}
use lepd.Iotop.Sampling.Numbers.{Positive, PositiveTask, ids}
use lepd.Iotop.Sampling.Chain.{tasks_of, fetch_data-eq}
use lepd.Iotop.Sampling.Loop.{Moment}

abbrev task : ℕ → XxxidStats whole
task counter = record {
  tid = ℤ.pos 0;
  swapin_delay_total = 0;
  blkio_delay_total = counter;
  read_bytes = counter;
  write_bytes = counter;
  blkio_val = 0;
  swapin_val = 0;
  read_val = 0;
  write_val = 0;
  io_prio = ℤ.pos 0;
  euid = ℤ.pos 0;
  cmdline = "";
}

-- Two processes, of the same two tasks; task 2 gives no reply.
abbrev system : ℕ → Proc (XxxidStats whole)
system counter = record {
  strtol =
      λ n. if str_eq n "1" then (1, true) else (if str_eq n "2" then (2, true) else (0, false));
  proc = "." ∷ "1" ∷ "uptime" ∷ "2" ∷ [];
  task = λ pid. some ("." ∷ "1" ∷ "2" ∷ []);
  nl_xxxid_info = λ pid. if pid == 1 then some (task counter) else none;
  read_cmdline2 = λ pid. none;
}

at_proc : (counter : ℕ) → Positive (system counter) (system counter).proc
at_proc counter = ((λ e. cc), ((λ e. omega arith), ((λ e. cc), ((λ e. omega arith), tt))))

at_tasks : (counter pid : ℕ) → PositiveTask (system counter) ((system counter).task pid)
at_tasks counter pid = ((λ e. cc), ((λ e. omega arith), ((λ e. omega arith), tt)))

fetch_data-eq_example :
    fetch_data whole (system 5) 9 init_params false
    ≡ some (tasks_of whole (system 5) init_params (ids (system 5) true (system 5).proc))
fetch_data-eq_example =
    fetch_data-eq whole (system 5) init_params (at_tasks 5) 9 false (at_proc 5) (omega arith)

abbrev terminal : Display
terminal = record { stream = true; policy = λ tid. sched_other; nice_20 = λ tid. 20 }

abbrev moment : ℕ → Moment (XxxidStats whole)
moment counter = record { found = system counter; display = terminal; cut_short = false }
