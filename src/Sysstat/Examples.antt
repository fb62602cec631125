-- ===== src/Sysstat/Examples.antt =====
-- Tests of Sysstat, and its theorems at concrete inputs.
use lepd.Base.{
  ℕ, zero, suc, ◌+◌, ◌-◌, ◌*◌, ◌<◌, ◌≡◌, ◌⊎◌, inl, inr, refl, true, Option, none, some, List, [],
  ◌∷◌, ◌++◌, ◌==◌, ◌&&◌, leb, if◌then◌else◌, get_elem?, length, take, drop, arith,
}
use lepd.Base.CString.{bytes, begins_with, same}
use lepd.Base.Doubles.{whole}
use lepd.Sysstat.Cpu.{StatsCpu, no_stats, jiffies, get_per_cpu_interval}
use lepd.Sysstat.Cpu.Interval.{increases, sum, interval_sum}
use lepd.Sysstat.Stat.{Sscanf, of_fields, blank, read_stat_cpu}
use lepd.Sysstat.Stat.Read.{counters_of, read_stat_cpu-counters}
use lepd.Sysstat.Count.{Entry, is_cpu, get_sys_cpu_nr}
use lepd.Sysstat.Count.Highest.{In, get_sys_cpu_nr-highest}
use lepd.Sysstat.Cpuinfo.{vendor, figureout_cpu}
use lepd.Sysstat.Cpuinfo.Named.{NoColon, Vendored, not_Vendored, figureout_cpu-named}
use lepd.Sysstat.Irqs.{StatsIrqcpu}
use lepd.Sysstat.Irqs.Rows.{irq_values}
use lepd.Sysstat.Irqs.ByName.{DistinctNames, rates, irq_values-rates}

-- Decimal numbers with blanks between them.
abbrev ended : Option ℕ → List ℕ
ended none = []
ended (some n) = n ∷ []

abbrev digit_on : Option ℕ → ℕ → Option ℕ
digit_on none c = some (c - b'0')
digit_on (some n) c = some (10 * n + (c - b'0'))

scan_numbers : List ℕ → Option ℕ → List ℕ
scan_numbers [] cur = ended cur
scan_numbers (c ∷ s) cur =
    let more = scan_numbers s (digit_on cur c) in
    let next = scan_numbers s none in
    if leb b'0' c && leb c b'9' then more else (if c == 32 then ended cur ++ next else ended cur)

scanner : Sscanf
unfolding scan_numbers
scanner k s = take k (scan_numbers s none)

abbrev counters : ℕ → ℕ → ℕ → ℕ → StatsCpu
counters user sys idle guest = record {
  cpu_user = user;
  cpu_nice = 0;
  cpu_sys = sys;
  cpu_idle = idle;
  cpu_iowait = 0;
  cpu_steal = 0;
  cpu_hardirq = 0;
  cpu_softirq = 0;
  cpu_guest = guest;
  cpu_guest_nice = 0;
}

abbrev all_before : StatsCpu
all_before = counters 30 20 400 0

abbrev all_after : StatsCpu
all_after = counters 50 25 475 0

abbrev file_before : List (List ℕ)
file_before =
    bytes "cpu  30 0 20 400 0 0 0 0 0 0"
    ∷ bytes "cpu0 20 0 10 200 0 0 0 0 0 0"
    ∷ bytes "cpu1 10 0 10 200 0 0 0 0 0 0"
    ∷ bytes "intr 5"
    ∷ []

abbrev file_after : List (List ℕ)
file_after =
    bytes "cpu  50 0 25 475 0 0 0 0 0 0"
    ∷ bytes "cpu0 40 0 15 275 0 0 0 0 0 0"
    ∷ bytes "intr 9"
    ∷ []

abbrev cpus_before : List StatsCpu
cpus_before = counters 20 10 200 0 ∷ counters 10 10 200 0 ∷ []

abbrev cpus_after : List StatsCpu
cpus_after = counters 40 15 275 0 ∷ no_stats ∷ []

interval_sum_example :
    get_per_cpu_interval (counters 104 15 275 8) (counters 100 10 200 2)
    ≡ sum (increases (counters 100 10 200 2) (counters 104 15 275 8))
interval_sum_example =
    interval_sum (counters 100 10 200 2) (counters 104 15 275 8) (omega arith) (omega arith)
      (omega arith)

read_stat_cpu-counters_example :
    (cs : List StatsCpu) × (read_stat_cpu scanner 3 (some file_after) (blank 2 0)
      ≡ some (record {
        cpus = of_fields (50 ∷ 0 ∷ 25 ∷ 475 ∷ 0 ∷ 0 ∷ 0 ∷ 0 ∷ 0 ∷ 0 ∷ []) ∷ cs;
        uptime = jiffies (of_fields (50 ∷ 0 ∷ 25 ∷ 475 ∷ 0 ∷ 0 ∷ 0 ∷ 0 ∷ 0 ∷ 0 ∷ []));
      }))
    × (length cs ≡ 2)
    × ((i : ℕ)
        → i < 2
        → get_elem? cs i
          ≡ some (
              counters_of scanner i
                (some (0, 40 ∷ 0 ∷ 15 ∷ 275 ∷ 0 ∷ 0 ∷ 0 ∷ 0 ∷ 0 ∷ 0 ∷ []) ∷ none ∷ [])
                no_stats))
unfolding scanner begins_with
read_stat_cpu-counters_example =
    read_stat_cpu-counters scanner 2 0 (bytes "cpu  50 0 25 475 0 0 0 0 0 0")
      (bytes "cpu0 40 0 15 275 0 0 0 0 0 0" ∷ bytes "intr 9" ∷ [])
      (50 ∷ 0 ∷ 25 ∷ 475 ∷ 0 ∷ 0 ∷ 0 ∷ 0 ∷ 0 ∷ 0 ∷ [])
      (some (0, 40 ∷ 0 ∷ 15 ∷ 275 ∷ 0 ∷ 0 ∷ 0 ∷ 0 ∷ 0 ∷ 0 ∷ []) ∷ none ∷ []) (omega arith)
      (refl, refl) ((refl, refl, refl), ((refl, refl), tt))

abbrev directory : List Entry
directory =
    record { d_name = bytes "cpu0"; is_dir = some true }
    ∷ record { d_name = bytes "cpu5"; is_dir = some true }
    ∷ record { d_name = bytes "cpufreq"; is_dir = some true }
    ∷ []

get_sys_cpu_nr-highest_example :
    (k : ℕ) × (get_sys_cpu_nr scanner true (some directory) ≡ some k)
    × ((m : ℕ) → In scanner m (0 ∷ 5 ∷ []) → m < k)
    × ((k ≡ 0) ⊎ ((m : ℕ) × In scanner m (0 ∷ 5 ∷ []) × (k ≡ suc m)))
unfolding scanner is_cpu
get_sys_cpu_nr-highest_example =
    get_sys_cpu_nr-highest scanner directory (0 ∷ 5 ∷ [])
      (inr (0, 5 ∷ [], refl, refl, refl, inr (5, [], refl, refl, refl, inl (refl, refl))))

figureout_cpu-named_example :
    ((a rest : List ℕ) (after : List (List ℕ))
      → NoColon a
      → Vendored (b':' ∷ rest)
      → figureout_cpu (some ((bytes "processor : 0" ∷ []) ++ (a ++ b':' ∷ rest) ∷ after))
        ≡ some (bytes "cpu_name: " ++ drop 1 rest))
    × (figureout_cpu (some (bytes "processor : 0" ∷ [])) ≡ some (bytes "cpu_name: unknown"))
    × ((line : List ℕ) (after : List (List ℕ))
        → NoColon line
        → figureout_cpu (some ((bytes "processor : 0" ∷ []) ++ line ∷ after)) ≡ none)
unfolding vendor
figureout_cpu-named_example =
    figureout_cpu-named (bytes "processor : 0" ∷ [])
      ((bytes "processor ", (bytes " 0", refl, omega arith, not_Vendored (bytes ": 0") refl)), tt)

-- x86 names its vendor before the first empty line.
intel :
    figureout_cpu (some (bytes "processor : 0" ∷ bytes "vendor_id : GenuineIntel" ∷ [] ∷ []))
    ≡ some (bytes "cpu_name: GenuineIntel")
unfolding figureout_cpu
intel = refl

abbrev cell : ℕ → List ℕ → StatsIrqcpu
cell n name = record { interrupt = n; irq_name = name }

-- Two processors and room for three interrupts; the second one is new, and the third is not used.
abbrev irqs_before : List StatsIrqcpu
irqs_before =
    cell 5 (bytes "8") ∷ cell 70 (bytes "LOC") ∷ cell 0 [] ∷ cell 1 [] ∷ cell 90 [] ∷ cell 0 [] ∷ []

abbrev irqs_after : List StatsIrqcpu
irqs_after =
    cell 3 (bytes "7") ∷ cell 80 (bytes "LOC") ∷ cell 0 [] ∷ cell 4 [] ∷ cell 95 [] ∷ cell 0 [] ∷ []

distinct_before : DistinctNames (take 3 irqs_before)
distinct_before zero zero p q a b e n = refl
distinct_before zero (suc zero) p q a b e n = ground arith
distinct_before zero (suc (suc zero)) p q a b e n = ground arith
distinct_before zero (suc (suc (suc j))) p q a b e n = ground arith
distinct_before (suc zero) zero p q a b e n = ground arith
distinct_before (suc zero) (suc zero) p q a b e n = refl
distinct_before (suc zero) (suc (suc zero)) p q a b e n = ground arith
distinct_before (suc zero) (suc (suc (suc j))) p q a b e n = ground arith
distinct_before (suc (suc zero)) j p q a b e n = absurd (n (ground arith))
distinct_before (suc (suc (suc i))) j p q a b e n = ground arith

irq_values-rates_example :
    irq_values whole 100 1 3 1 irqs_before irqs_after 1 0 (bytes "7" ∷ bytes "LOC" ∷ [])
    ≡ some (rates whole 100 1 3 1 irqs_before irqs_after 1 0 (bytes "7" ∷ bytes "LOC" ∷ []))
irq_values-rates_example =
    irq_values-rates whole 100 1 3 1 irqs_before irqs_after 1 (omega arith) distinct_before
      (omega arith) (omega arith) 0 (bytes "7" ∷ bytes "LOC" ∷ []) (omega arith)
      ((λ e. cc), ((λ e. cc), tt))

-- The new interrupt counts from 0.
new_irq :
    irq_values whole 100 1 3 1 irqs_before irqs_after 1 0 (bytes "7" ∷ bytes "LOC" ∷ [])
    ≡ some (400 ∷ 500 ∷ [])
unfolding irq_values same
new_irq = refl
