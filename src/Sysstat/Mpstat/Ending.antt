-- ===== src/Sysstat/Mpstat/Ending.antt =====
-- What `rw_mpstat_loop` comes to: it returns, ends the process, or reaches `pause`.
use lepd.Base.{ℕ, suc, ◌/◌, ◌≤◌, ◌<◌, ◌≡◌, ◌≢◌, Option, none, some, length}
use lepd.Base.Doubles.{Doubles}
use lepd.Sysstat.Stat.{Sample}
use lepd.Sysstat.Mpstat.{Outcome, returned, exited, waits, Options}

-- The first round is the last: the count is given, and 0 or 1.
abbrev pub Last : Option ℕ → Type 0
Last none = ⊥
Last (some n) = n ≤ 1

-- Which outcome the loop comes to.
abbrev pub Ends : {D : Type 0} → Options → Outcome D → Type 0
Ends o (returned lines) = (o.interval ≢ 0) × Last o.count
Ends o (exited lines) = o.interval ≡ 0
Ends o (waits lines) = (o.interval ≢ 0) × (¬ Last o.count)

module _ (d : Doubles) (o : Options) (cpu_nr : ℕ) (covers : cpu_nr / 8 < length o.cpu_bitmap) where
  -- A sample of all and of each processor.
  abbrev Full : Sample → Type 0
  Full s = length s.cpus ≡ suc cpu_nr

  -- What the end of a round comes to, by the count.
  abbrev EndsBy : Option ℕ → Outcome d.Double → Type 0
  EndsBy count (returned lines) = Last count
  EndsBy count (exited lines) = ⊥
  EndsBy count (waits lines) = ¬ Last count
