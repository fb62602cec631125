-- ===== src/Sysstat/Stat.antt =====
-- `read_stat_cpu` of src/modules/sysstat-lite/src/rd_stats.c without `uptime0`, which only the tables
-- of interrupts use. The lines of /proc/stat and `sscanf` are arguments.
pub mod Read
use lepd.Base.{
  ℕ, suc, ◌-◌, Option, none, some, List, [], ◌∷◌, ltb, if◌then◌else◌, ◌>>=◌, set, drop, get_or,
  replicate,
}
use lepd.Base.CString.{bytes, begins_with}
use lepd.Sysstat.Cpu.{StatsCpu, no_stats, jiffies}

-- One of the three places of `st_cpu` and `uptime`. The first of the counters are those of all
-- processors, the one at n + 1 those of processor n.
pub record Sample : Type 0 where
  pub cpus : List StatsCpu
  pub uptime : ℕ

-- `salloc_mp_struct` clears the counters of all and of each processor.
unfoldable pub blank : ℕ → ℕ → Sample
blank cpu_nr stale = record { cpus = replicate (suc cpu_nr) no_stats; uptime = stale }

-- The numbers, at most as many as asked for, that `sscanf` reads at the start of a text.
abbrev pub Sscanf : Type 0
Sscanf = ℕ → List ℕ → List ℕ

-- Fields that are missing stay 0.
unfoldable pub of_fields : List ℕ → StatsCpu
of_fields ns = record {
  cpu_user = get_or ns 0 0;
  cpu_nice = get_or ns 1 0;
  cpu_sys = get_or ns 2 0;
  cpu_idle = get_or ns 3 0;
  cpu_iowait = get_or ns 4 0;
  cpu_hardirq = get_or ns 5 0;
  cpu_softirq = get_or ns 6 0;
  cpu_steal = get_or ns 7 0;
  cpu_guest = get_or ns 8 0;
  cpu_guest_nice = get_or ns 9 0;
}

unfoldable pub store_all : StatsCpu → Sample → Sample
store_all c s = record { cpus = set s.cpus 0 c; uptime = jiffies c }

-- Without a number `proc_nb` is not set: a fault.
unfoldable pub store_cpu : ℕ → List ℕ → Sample → Option Sample
unfolding of_fields
store_cpu nbr [] s = none
store_cpu nbr (proc_nb ∷ fields) s = some (
    if ltb proc_nb (nbr - 1)
    then record s { cpus = set s.cpus (suc proc_nb) (of_fields fields) }
    else s)

unfoldable pub read_line : Sscanf → ℕ → List ℕ → Sample → Option Sample
unfolding begins_with of_fields store_all store_cpu
read_line numbers nbr line s =
    if begins_with (bytes "cpu ") line
    then some (store_all (of_fields (numbers 10 (drop 5 line))) s)
    else (if begins_with (bytes "cpu") line
        then (if ltb 1 nbr then store_cpu nbr (numbers 11 (drop 3 line)) s else some s)
        else some s)

unfoldable pub read_lines : Sscanf → ℕ → List (List ℕ) → Sample → Option Sample
unfolding read_line
read_lines numbers nbr [] s = some s
read_lines numbers nbr (line ∷ lines) s =
    read_line numbers nbr line s >>= λ s'. read_lines numbers nbr lines s'

-- A file that does not open ends the process: `none`.
unfoldable pub read_stat_cpu : Sscanf → ℕ → Option (List (List ℕ)) → Sample → Option Sample
unfolding read_lines
read_stat_cpu numbers nbr file s = file >>= λ lines. read_lines numbers nbr lines s
