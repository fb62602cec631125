-- ===== src/Sysstat/Irqs/Forget.antt =====
-- The totals of the processors after two reads of interrupts into one sample.
use lepd.Base.{ℕ, ◌≡◌, refl, Option, List, ◌∷◌, length, drop_all, arith}
use lepd.Sysstat.Irqs.{Strtoul, StatsIrqcpu, reset_totals, read_interrupts_stat}

-- `read_interrupts_stat` starts the totals of the processors from 0: what another read has counted
-- into them, as that of /proc/interrupts before that of /proc/softirqs, is lost.
pub read_interrupts_stat-forgets :
    (strtoul : Strtoul) (cpu_nr ic_nr : ℕ) (file : Option (List (List ℕ)))
    (cells : List StatsIrqcpu) (all : ℕ) (counted zeros : List ℕ)
    → length counted ≡ cpu_nr
    → length zeros ≡ cpu_nr
    → read_interrupts_stat strtoul cpu_nr ic_nr file
        (record { cells = cells; totals = all ∷ counted })
      ≡ read_interrupts_stat strtoul cpu_nr ic_nr file
          (record { cells = cells; totals = all ∷ zeros })
unfolding read_interrupts_stat reset_totals
read_interrupts_stat-forgets strtoul cpu_nr ic_nr file cells all counted zeros e e' =
    rw (drop_all cpu_nr counted (omega arith), drop_all cpu_nr zeros (omega arith)) refl
