-- ===== src/Sysstat/Cpu.antt =====
-- `struct stats_cpu`, and `ll_sp_value`, `get_interval` and `get_per_cpu_interval` of common.c.
pub mod Interval
pub mod Shares
use lepd.Base.{ℕ, ◌+◌, ◌-◌, ◌%◌, ◌^◌, List, [], ◌∷◌, Bool, ◌==◌, ltb, if◌then◌else◌}
use lepd.Base.Words.{minus_64}
use lepd.Base.Doubles.{Doubles}

-- Jiffies spent in each mode; each counter is an `unsigned long long`.
pub record StatsCpu : Type 0 where
  pub cpu_user : ℕ
  pub cpu_nice : ℕ
  pub cpu_sys : ℕ
  pub cpu_idle : ℕ
  pub cpu_iowait : ℕ
  pub cpu_steal : ℕ
  pub cpu_hardirq : ℕ
  pub cpu_softirq : ℕ
  pub cpu_guest : ℕ
  pub cpu_guest_nice : ℕ

abbrev pub no_stats : StatsCpu
no_stats = record {
  cpu_user = 0;
  cpu_nice = 0;
  cpu_sys = 0;
  cpu_idle = 0;
  cpu_iowait = 0;
  cpu_steal = 0;
  cpu_hardirq = 0;
  cpu_softirq = 0;
  cpu_guest = 0;
  cpu_guest_nice = 0;
}

-- The sum of the modes, without the guests, which user and nice include.
unfoldable pub jiffies : StatsCpu → ℕ
jiffies c =
    (c.cpu_user + c.cpu_nice + c.cpu_sys + c.cpu_idle + c.cpu_iowait + c.cpu_hardirq + c.cpu_steal
      + c.cpu_softirq)
    % 2 ^ 64

-- `cpu_user - cpu_guest` and `cpu_nice - cpu_guest_nice`
unfoldable pub own_user : StatsCpu → ℕ
own_user c = minus_64 c.cpu_user c.cpu_guest

unfoldable pub own_nice : StatsCpu → ℕ
own_nice c = minus_64 c.cpu_nice c.cpu_guest_nice

-- What `ishift` takes up: a distance that a counter fell.
unfoldable pub fall : ℕ → ℕ → ℕ
fall before now = if ltb now before then minus_64 before now else 0

unfoldable pub get_interval : ℕ → ℕ → ℕ
get_interval prev_uptime curr_uptime =
    let itv = minus_64 curr_uptime prev_uptime in if itv == 0 then 1 else itv

unfoldable pub get_per_cpu_interval : StatsCpu → StatsCpu → ℕ
unfolding jiffies own_user own_nice fall
get_per_cpu_interval scc scp =
    (minus_64 (jiffies scc) (jiffies scp)
      + (fall (own_user scp) (own_user scc) + fall (own_nice scp) (own_nice scc)))
    % 2 ^ 64

module _ (d : Doubles) where
  -- `((double) (n - m)) / p * 100`
  unfoldable pub sp_value : ℕ → ℕ → ℕ → d.Double
  sp_value m n p = d.times (d.over (d.of_uint64 (minus_64 n m)) (d.of_uint64 p)) (d.of_uint64 100)

  unfoldable pub ll_sp_value : ℕ → ℕ → ℕ → d.Double
  unfolding sp_value
  ll_sp_value value1 value2 itv =
      if ltb value2 value1 then d.of_uint64 0 else sp_value value1 value2 itv

  -- A test of its own stands before the call for some of the values.
  unfoldable pub tested_value : ℕ → ℕ → ℕ → d.Double
  unfolding ll_sp_value
  tested_value before now itv = if ltb now before then d.of_uint64 0 else ll_sp_value before now itv

  -- The ten values of a row: usr, nice, sys, iowait, irq, soft, steal, guest, gnice, idle.
  unfoldable pub shares : StatsCpu → StatsCpu → ℕ → List d.Double
  unfolding tested_value ll_sp_value own_user own_nice
  shares scp scc itv =
      tested_value (own_user scp) (own_user scc) itv
      ∷ tested_value (own_nice scp) (own_nice scc) itv
      ∷ ll_sp_value scp.cpu_sys scc.cpu_sys itv
      ∷ ll_sp_value scp.cpu_iowait scc.cpu_iowait itv
      ∷ ll_sp_value scp.cpu_hardirq scc.cpu_hardirq itv
      ∷ ll_sp_value scp.cpu_softirq scc.cpu_softirq itv
      ∷ ll_sp_value scp.cpu_steal scc.cpu_steal itv
      ∷ ll_sp_value scp.cpu_guest scc.cpu_guest itv
      ∷ ll_sp_value scp.cpu_guest_nice scc.cpu_guest_nice itv
      ∷ tested_value scp.cpu_idle scc.cpu_idle itv
      ∷ []
