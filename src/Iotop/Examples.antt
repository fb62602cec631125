-- ===== src/Iotop/Examples.antt =====
-- The view over whole numbers in place of doubles.
use mathlib.Core.List.{Perm}
use lepd.Base.{true, ℕ, ◌≡◌, false, some, List, [], ◌∷◌, arith, reverse}
use lepd.Base.Int.{ℤ}
use lepd.Base.Doubles.{whole}
use lepd.Iotop.{
  Config, XxxidStats, sort_by_io, sort_desc, sort_asc, create_diff, sort_diff, found, findpid,
}
use lepd.Iotop.Diff.{Accounts, create_diff-Accounts}
use lepd.Iotop.Sorting.{IsOrder, Descending, sort_diff-Descending}
use lepd.Iotop.Priority.{sched_other}
use lepd.Iotop.View.{Display}

abbrev config : Config
config = record { only = false; accumulated = false; kilobytes = false; delay = 1 }

abbrev task : ℕ → ℕ → XxxidStats whole
task tid counter = record {
  tid = ℤ.pos tid;
  swapin_delay_total = 0;
  blkio_delay_total = counter;
  read_bytes = counter;
  write_bytes = counter;
  blkio_val = counter;
  swapin_val = 0;
  read_val = counter;
  write_val = 0;
  io_prio = ℤ.pos 0;
  euid = ℤ.pos 0;
  cmdline = "init";
}

create_diff-Accounts_example :
    Accounts whole
      (task 1 4 ∷ [])
      (task 1 7 ∷ task 2 5 ∷ [])
      (create_diff whole config (task 1 7 ∷ task 2 5 ∷ []) (task 1 4 ∷ []))
unfolding findpid
create_diff-Accounts_example =
    create_diff-Accounts whole config (task 1 7 ∷ task 2 5 ∷ []) (task 1 4 ∷ []) (
      (λ p e. record {
        reads = ground (arith, e);
        writes = ground (arith, e);
        swapin = ground (arith, e);
        blkio = ground (arith, e);
      }),
      ((λ p e. cc), tt),
    )

whole-IsOrder : IsOrder (found whole sort_by_io)
unfolding found
whole-IsOrder = record { asym = λ x y h. ground arith; trans = λ x y z h k. ground arith }

sort_diff-Descending_example :
    (sorted : List (XxxidStats whole)) × (sort_diff whole sort_by_io sort_desc
        (task 1 4 ∷ task 2 9 ∷ task 3 7 ∷ [])
      ≡ some sorted)
    × (sort_diff whole sort_by_io sort_asc (task 1 4 ∷ task 2 9 ∷ task 3 7 ∷ [])
        ≡ some (reverse sorted))
    × Perm sorted (task 1 4 ∷ task 2 9 ∷ task 3 7 ∷ [])
    × Descending (found whole sort_by_io) sorted
sort_diff-Descending_example =
    sort_diff-Descending whole sort_by_io (task 1 4) (task 2 9 ∷ task 3 7 ∷ []) whole-IsOrder

abbrev now : List (XxxidStats whole)
now = task 1 7 ∷ task 2 5 ∷ []

abbrev before : List (XxxidStats whole)
before = task 1 4 ∷ []

abbrev terminal : Display
terminal = record { stream = true; policy = λ tid. sched_other; nice_20 = λ tid. 20 }
