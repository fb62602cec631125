-- ===== src/Sysstat/Mpstat/Report.antt =====
-- What `mpstat -P ALL 1 1` writes, from the counters of its two samples.
use lepd.Base.{ℕ, ◌-◌, List, ◌∷◌, ◌==◌, if◌then◌else◌, map}
use lepd.Base.Doubles.{Doubles}
use lepd.Sysstat.Cpu.{StatsCpu, jiffies}
use lepd.Sysstat.Cpu.Interval.{increases, whole_time}
use lepd.Sysstat.Cpu.Shares.{percent, ZeroShare}
use lepd.Sysstat.Stat.{Sample}
use lepd.Sysstat.Mpstat.{Label, Line, header, all_row}
use lepd.Sysstat.Mpstat.Rows.{rows_of}

module _ (d : Doubles) where
  -- The jiffies between two samples of all processors; 1 if there are none.
  abbrev pub machine_time : StatsCpu → StatsCpu → ℕ
  machine_time p c = if whole_time c - whole_time p == 0 then 1 else whole_time c - whole_time p

  -- The values of all processors together.
  abbrev pub machine_usage : StatsCpu → StatsCpu → List d.Double
  machine_usage p c = map (percent d (machine_time p c)) (increases p c)

  -- A report: the header, the row of all, and one row for each processor.
  abbrev pub report :
      Label
      → Label
      → (StatsCpu → StatsCpu → List d.Double)
      → StatsCpu
      → StatsCpu
      → List StatsCpu
      → List StatsCpu
      → List (Line d.Double)
  report before now f p c ps cs =
      header before ∷ all_row now (machine_usage p c) ∷ rows_of d now 0 f ps cs

  module _ (zero_share : ZeroShare d) where
    abbrev sample : StatsCpu → List StatsCpu → Sample
    sample p ps = record { cpus = p ∷ ps; uptime = jiffies p }
