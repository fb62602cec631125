-- ===== src/Sysstat/Mpstat.antt =====
-- `mpstat` of src/modules/sysstat-lite/src/mpstat.c as the server runs it for the usage of the
-- processors, in plain format: `write_plain_cpu_stats`, `write_stats_core` and `rw_mpstat_loop`
-- without the tables of interrupts, and the options that `mpstat_main` takes from "-P ALL 1 1".
pub mod Rows
pub mod Report
pub mod Ending
use lepd.Base.{
  leb, ℕ, suc, ◌+◌, ◌-◌, ◌/◌, ◌%◌, ◌^◌, Option, none, some, List, [], ◌∷◌, ◌++◌, Bool, true, false,
  not, ◌==◌, if◌then◌else◌, ◌>>=◌, get_elem?, replicate,
}
use lepd.Base.Doubles.{Doubles}
use lepd.Sysstat.Cpu.{StatsCpu, no_stats, jiffies, get_interval, get_per_cpu_interval, shares}
use lepd.Sysstat.Stat.{Sample, Sscanf, blank, read_stat_cpu}

-- The text at the start of a line: the time of the first or of the other sample, or "Average:".
pub data Label : Type 0 where
  first_time : Label
  second_time : Label
  average : Label

-- The header line, the row of all processors, and the row of one.
pub data Line (D : Type 0) : Type 0 where
  header : Label → Line D
  all_row : Label → List D → Line D
  cpu_row : Label → ℕ → List D → Line D

pub record Options : Type 0 where
  pub cpu_bitmap : List ℕ
  pub online_only : Bool
  pub dis_hdr : ℕ
  pub interval : ℕ
  pub count : Option ℕ

-- `exited` is `exit(0)`, and `waits` the call of `pause()` behind the first round; the rounds after a
-- signal are not modelled.
pub data Outcome (D : Type 0) : Type 0 where
  returned : List (Line D) → Outcome D
  exited : List (Line D) → Outcome D
  waits : List (Line D) → Outcome D

-- The bit of a processor in the bitmap; a byte behind the bitmap is a fault.
unfoldable pub selected : List ℕ → ℕ → Option Bool
selected bitmap cpu = get_elem? bitmap (cpu / 8) >>= λ byte. some (byte / 2 ^ (cpu % 8) % 2 == 1)

-- An offline processor keeps the counters of the reference.
unfoldable pub kept_online : List StatsCpu → List StatsCpu → List StatsCpu
kept_online [] scps = []
kept_online (scc ∷ sccs) [] = scc ∷ sccs
kept_online (scc ∷ sccs) (scp ∷ scps) =
    (if jiffies scc == 0 then scp else scc) ∷ kept_online sccs scps

-- The loop starts at the first processor, behind the counters of all.
unfoldable pub fix_offline : List StatsCpu → List StatsCpu → List StatsCpu
unfolding kept_online
fix_offline (c ∷ sccs) (p ∷ scps) = c ∷ kept_online sccs scps
fix_offline sccs scps = sccs

-- `if (!dis_hdr) dis = lines / rows;` in the first round, where `lines` is `rows`; a division by 0
-- is a fault.
unfoldable pub first_dis : ℕ → ℕ → Option Bool
first_dis dis_hdr rows =
    if dis_hdr == 0 then (if rows == 0 then none else some (not (rows / rows == 0))) else some true

module _ (d : Doubles) where
  abbrev pub zero_row : List d.Double
  zero_row = replicate 10 (d.of_uint64 0)

  abbrev pub idle_row : List d.Double
  idle_row = replicate 9 (d.of_uint64 0) ++ d.of_uint64 100 ∷ []

  unfoldable pub cpu_line : Bool → Label → ℕ → StatsCpu → StatsCpu → List (Line d.Double)
  cpu_line online_only label cpu scc scp =
      if jiffies scc == 0
      then (if online_only then [] else cpu_row label (cpu - 1) zero_row ∷ [])
      else let pc_itv = get_per_cpu_interval scc scp in
        cpu_row label (cpu - 1) (if pc_itv == 0 then idle_row else shares d scp scc pc_itv) ∷ []

  -- The loop over the processors from `cpu` on.
  unfoldable pub cpu_lines :
      List ℕ → Bool → Label → ℕ → List StatsCpu → List StatsCpu → Option (List (Line d.Double))
  unfolding selected cpu_line
  cpu_lines bitmap online_only label cpu [] scps = some []
  cpu_lines bitmap online_only label cpu (scc ∷ sccs) [] = none
  cpu_lines bitmap online_only label cpu (scc ∷ sccs) (scp ∷ scps) = selected bitmap cpu >>= λ on.
      cpu_lines bitmap online_only label (suc cpu) sccs scps >>= λ rest.
      some (if on then cpu_line online_only label cpu scc scp ++ rest else rest)

  unfoldable pub write_all :
      List ℕ
      → Bool
      → Bool
      → ℕ
      → List StatsCpu
      → List StatsCpu
      → Label
      → Label
      → Option (List (Line d.Double))
  unfolding selected cpu_lines
  write_all bitmap online_only dis g_itv (p ∷ scps) (c ∷ sccs) prev_label curr_label =
      selected bitmap 0 >>= λ on. cpu_lines bitmap online_only curr_label 1 sccs scps >>= λ rows.
      some (
        (if dis then header prev_label ∷ [] else [])
        ++ ((if on then all_row curr_label (shares d p c g_itv) ∷ [] else []) ++ rows))
  write_all bitmap online_only dis g_itv scps sccs prev_label curr_label = none

  unfoldable pub write_plain_cpu_stats :
      Options → Bool → ℕ → Sample → Sample → Label → Label → Option (List (Line d.Double))
  unfolding write_all
  write_plain_cpu_stats o dis g_itv prev curr prev_label curr_label =
      write_all o.cpu_bitmap o.online_only dis g_itv prev.cpus curr.cpus prev_label curr_label

  -- What is written, and the current sample afterwards.
  unfoldable pub write_stats_core :
      Options → Sample → Sample → Bool → Label → Label → Option (List (Line d.Double) × Sample)
  unfolding write_plain_cpu_stats fix_offline
  write_stats_core o prev curr dis prev_label curr_label =
      write_plain_cpu_stats o dis (get_interval prev.uptime curr.uptime) prev curr prev_label
        curr_label
      >>= λ lines. some (lines, record curr { cpus = fix_offline curr.cpus prev.cpus })

  -- A next round waits for a signal first; a count of 0 or 1 ends the loop.
  unfoldable pub next_round :
      Option ℕ → List (Line d.Double) → Option (Outcome d.Double) → Option (Outcome d.Double)
  next_round none out ended = some (waits out)
  next_round (some n) out ended = if leb n 1 then ended else some (waits out)

  -- The average since the first sample ends the loop.
  unfoldable pub after_round :
      Options → Sample → Sample → List (Line d.Double) → Option (Outcome d.Double)
  unfolding write_stats_core next_round
  after_round o saved curr out = next_round o.count out (
      write_stats_core o saved curr (not (o.dis_hdr == 0)) average average >>= λ (lines, last).
      some (returned (out ++ lines)))

  -- The first round. Nothing waits between the first sample and the second.
  unfoldable pub first_round :
      Sscanf → Options → ℕ → ℕ → ℕ → Option (List (List ℕ)) → Sample → Option (Outcome d.Double)
  unfolding write_stats_core first_dis after_round blank
  first_round numbers o cpu_nr rows stale file s0 =
      read_stat_cpu numbers (suc cpu_nr) file (blank cpu_nr stale) >>= λ s1.
      first_dis o.dis_hdr rows >>= λ dis.
      write_stats_core o s0 s1 dis first_time second_time >>= λ (lines, s1').
      after_round o s0 s1' lines

  -- Without an interval the counters since the start of the machine are written.
  unfoldable pub since_start : Options → ℕ → ℕ → Sample → Option (Outcome d.Double)
  unfolding write_stats_core blank
  since_start o cpu_nr stale s0 =
      write_stats_core o (blank cpu_nr stale) s0 true second_time first_time >>= λ (lines, last).
      some (exited lines)

  -- `stale0` and `stale1` are the uptimes that the last run left in the first two places.
  unfoldable pub rw_mpstat_loop :
      Sscanf
      → Options
      → ℕ
      → ℕ
      → ℕ
      → ℕ
      → Option (List (List ℕ))
      → Option (List (List ℕ))
      → Option (Outcome d.Double)
  unfolding first_round since_start blank
  rw_mpstat_loop numbers o cpu_nr rows stale0 stale1 file0 file1 =
      read_stat_cpu numbers (suc cpu_nr) file0 (blank cpu_nr stale0) >>= λ s0.
      if o.interval == 0
      then since_start o cpu_nr stale1 s0
      else first_round numbers o cpu_nr rows stale1 file1 s0

-- What `mpstat_main` makes of the arguments "-P ALL 1 1".
unfoldable pub all_once : ℕ → Options
all_once cpu_nr = record {
  cpu_bitmap = replicate (suc ((cpu_nr + 1) / 8)) 255;
  online_only = false;
  dis_hdr = if cpu_nr == 0 then 0 else 9;
  interval = 1;
  count = some 1;
}
