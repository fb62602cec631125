-- ===== src/Sysstat/Cpu/Interval.antt =====
-- The interval of a processor is the sum of what its ten counters gained.
use lepd.Base.{ℕ, ◌+◌, ◌-◌, ◌%◌, ◌^◌, ◌≤◌, ◌<◌, ◌≡◌, ap, List, [], ◌∷◌, arith, ◌∙◌}
use lepd.Base.Words.{minus_64}
use lepd.Sysstat.Cpu.{
  StatsCpu, jiffies, own_user, own_nice, fall, get_interval, get_per_cpu_interval,
}

-- What was added to each of the ten counters, the time of a guest taken out of user and nice.
abbrev pub increases : StatsCpu → StatsCpu → List ℕ
increases p c =
    ((c.cpu_user - c.cpu_guest) - (p.cpu_user - p.cpu_guest))
    ∷ ((c.cpu_nice - c.cpu_guest_nice) - (p.cpu_nice - p.cpu_guest_nice))
    ∷ (c.cpu_sys - p.cpu_sys)
    ∷ (c.cpu_iowait - p.cpu_iowait)
    ∷ (c.cpu_hardirq - p.cpu_hardirq)
    ∷ (c.cpu_softirq - p.cpu_softirq)
    ∷ (c.cpu_steal - p.cpu_steal)
    ∷ (c.cpu_guest - p.cpu_guest)
    ∷ (c.cpu_guest_nice - p.cpu_guest_nice)
    ∷ (c.cpu_idle - p.cpu_idle)
    ∷ []

abbrev pub sum : List ℕ → ℕ
sum [] = 0
sum (x ∷ xs) = x + sum xs

-- The sum of the modes, in numbers without a bound.
abbrev pub whole_time : StatsCpu → ℕ
whole_time c =
    c.cpu_user + c.cpu_nice + c.cpu_sys + c.cpu_idle + c.cpu_iowait + c.cpu_hardirq + c.cpu_steal
    + c.cpu_softirq

-- Counters as the kernel keeps them: a guest's time is also user or nice time, and the sum fits.
pub record IsCounted (c : StatsCpu) : Type 0 where
  pub user_guest : c.cpu_guest ≤ c.cpu_user
  pub nice_guest : c.cpu_guest_nice ≤ c.cpu_nice
  pub fits : whole_time c < 2 ^ 64

-- No counter fell.
pub record Later (p c : StatsCpu) : Type 0 where
  pub user : p.cpu_user ≤ c.cpu_user
  pub nice : p.cpu_nice ≤ c.cpu_nice
  pub sys : p.cpu_sys ≤ c.cpu_sys
  pub idle : p.cpu_idle ≤ c.cpu_idle
  pub iowait : p.cpu_iowait ≤ c.cpu_iowait
  pub steal : p.cpu_steal ≤ c.cpu_steal
  pub hardirq : p.cpu_hardirq ≤ c.cpu_hardirq
  pub softirq : p.cpu_softirq ≤ c.cpu_softirq
  pub guest : p.cpu_guest ≤ c.cpu_guest
  pub guest_nice : p.cpu_guest_nice ≤ c.cpu_guest_nice

pub minus_64_le : (a b : ℕ) → b ≤ a → a < 2 ^ 64 → minus_64 a b ≡ a - b
minus_64_le a b h k = omega arith

pub own_user_lem : (c : StatsCpu) → IsCounted c → own_user c ≡ c.cpu_user - c.cpu_guest
unfolding own_user
own_user_lem c v = minus_64_le _ _ v.user_guest (omega (arith, v.fits))

pub own_nice_lem : (c : StatsCpu) → IsCounted c → own_nice c ≡ c.cpu_nice - c.cpu_guest_nice
unfolding own_nice
own_nice_lem c v = minus_64_le _ _ v.nice_guest (omega (arith, v.fits))

fall_lem : (a b : ℕ) → a < 2 ^ 64 → fall a b ≡ a - b
unfolding fall
fall_lem a b h = ground arith

pub jiffies_lem : (c : StatsCpu) → IsCounted c → jiffies c ≡ whole_time c
unfolding jiffies
jiffies_lem c v = omega (arith, v.fits)

-- Where the guests gained more than the mode that includes them, the mode's own time fell.
own_part :
    (u g u' g' : ℕ)
    → g ≤ u
    → g' ≤ u'
    → u ≤ u'
    → g ≤ g'
    → ((u' - g') - (u - g)) + (g' - g) ≡ (u' - u) + ((u - g) - (u' - g'))
own_part u g u' g' h h' hu hg = omega arith

own_bound :
    (u g u' g' : ℕ) → g ≤ u → g' ≤ u' → u ≤ u' → g ≤ g' → (u' - u) + ((u - g) - (u' - g')) ≤ u'
own_bound u g u' g' h h' hu hg = omega arith

sub_add : (a a' b b' : ℕ) → a' ≤ a → b' ≤ b → (a + b) - (a' + b') ≡ (a - a') + (b - b')
sub_add a a' b b' h k = omega arith

small3 : (a b c : ℕ) → a + b + c < 2 ^ 64 → (a + (b + c)) % 2 ^ 64 ≡ a + b + c
small3 a b c h = omega arith

module _ (p c : StatsCpu) (vp : IsCounted p) (vc : IsCounted c) (l : Later p c) where
  abbrev pub user_fell : ℕ
  user_fell = (p.cpu_user - p.cpu_guest) - (c.cpu_user - c.cpu_guest)

  abbrev pub nice_fell : ℕ
  nice_fell = (p.cpu_nice - p.cpu_guest_nice) - (c.cpu_nice - c.cpu_guest_nice)

  whole_time_diff :
      whole_time c - whole_time p
      ≡ (c.cpu_user - p.cpu_user)
        + (c.cpu_nice - p.cpu_nice)
        + (c.cpu_sys - p.cpu_sys)
        + (c.cpu_idle - p.cpu_idle)
        + (c.cpu_iowait - p.cpu_iowait)
        + (c.cpu_hardirq - p.cpu_hardirq)
        + (c.cpu_steal - p.cpu_steal)
        + (c.cpu_softirq - p.cpu_softirq)
  whole_time_diff =
      let e2 = sub_add c.cpu_user p.cpu_user c.cpu_nice p.cpu_nice l.user l.nice in
      let e3 =
        sub_add (c.cpu_user + c.cpu_nice) (p.cpu_user + p.cpu_nice) c.cpu_sys p.cpu_sys
          (omega arith) l.sys
        ∙ ap (λ t. t + (c.cpu_sys - p.cpu_sys)) e2 in
      let e4 =
        sub_add (c.cpu_user + c.cpu_nice + c.cpu_sys) (p.cpu_user + p.cpu_nice + p.cpu_sys)
          c.cpu_idle p.cpu_idle (omega arith) l.idle
        ∙ ap (λ t. t + (c.cpu_idle - p.cpu_idle)) e3 in
      let e5 =
        sub_add (c.cpu_user + c.cpu_nice + c.cpu_sys + c.cpu_idle)
          (p.cpu_user + p.cpu_nice + p.cpu_sys + p.cpu_idle) c.cpu_iowait p.cpu_iowait (omega arith)
          l.iowait
        ∙ ap (λ t. t + (c.cpu_iowait - p.cpu_iowait)) e4 in
      let e6 =
        sub_add (c.cpu_user + c.cpu_nice + c.cpu_sys + c.cpu_idle + c.cpu_iowait)
          (p.cpu_user + p.cpu_nice + p.cpu_sys + p.cpu_idle + p.cpu_iowait) c.cpu_hardirq
          p.cpu_hardirq (omega arith) l.hardirq
        ∙ ap (λ t. t + (c.cpu_hardirq - p.cpu_hardirq)) e5 in
      let e7 =
        sub_add (c.cpu_user + c.cpu_nice + c.cpu_sys + c.cpu_idle + c.cpu_iowait + c.cpu_hardirq)
          (p.cpu_user + p.cpu_nice + p.cpu_sys + p.cpu_idle + p.cpu_iowait + p.cpu_hardirq)
          c.cpu_steal p.cpu_steal (omega arith) l.steal
        ∙ ap (λ t. t + (c.cpu_steal - p.cpu_steal)) e6 in
      let e8 =
        sub_add
          (c.cpu_user + c.cpu_nice + c.cpu_sys + c.cpu_idle + c.cpu_iowait + c.cpu_hardirq
            + c.cpu_steal)
          (p.cpu_user + p.cpu_nice + p.cpu_sys + p.cpu_idle + p.cpu_iowait + p.cpu_hardirq
            + p.cpu_steal)
          c.cpu_softirq p.cpu_softirq (omega arith) l.softirq
        ∙ ap (λ t. t + (c.cpu_softirq - p.cpu_softirq)) e7 in
      e8

  -- The ten increases are what the modes gained, and what the own times fell.
  pub sum-increases : sum (increases p c) ≡ (whole_time c - whole_time p) + user_fell + nice_fell
  sum-increases = omega (
    arith,
    whole_time_diff,
    own_part p.cpu_user p.cpu_guest c.cpu_user c.cpu_guest vp.user_guest vc.user_guest l.user
        l.guest,
    own_part p.cpu_nice p.cpu_guest_nice c.cpu_nice c.cpu_guest_nice vp.nice_guest vc.nice_guest
        l.nice l.guest_nice,
  )

  whole_bound : (whole_time c - whole_time p) + user_fell + nice_fell < 2 ^ 64
  whole_bound = omega (
    arith,
    vc.fits,
    whole_time_diff,
    own_bound p.cpu_user p.cpu_guest c.cpu_user c.cpu_guest vp.user_guest vc.user_guest l.user
        l.guest,
    own_bound p.cpu_nice p.cpu_guest_nice c.cpu_nice c.cpu_guest_nice vp.nice_guest vc.nice_guest
        l.nice l.guest_nice,
  )

  whole_le : whole_time p ≤ whole_time c
  whole_le = omega (arith, l)

  pub diff_lem : minus_64 (jiffies c) (jiffies p) ≡ whole_time c - whole_time p
  diff_lem =
      rw (jiffies_lem p vp, jiffies_lem c vc)
        (minus_64_le (whole_time c) (whole_time p) whole_le vc.fits)

  -- The interval of a processor is the sum of the ten increases.
  pub interval_sum : get_per_cpu_interval c p ≡ sum (increases p c)
  unfolding get_per_cpu_interval
  interval_sum =
      rw
        (
          own_user_lem p vp,
          own_user_lem c vc,
          own_nice_lem p vp,
          own_nice_lem c vc,
          fall_lem (p.cpu_user - p.cpu_guest) (c.cpu_user - c.cpu_guest) (omega (arith, vp.fits)),
          fall_lem (p.cpu_nice - p.cpu_guest_nice) (c.cpu_nice - c.cpu_guest_nice)
              (omega (arith, vp.fits)),
          diff_lem,
          sum-increases,
        )
        (small3 (whole_time c - whole_time p) user_fell nice_fell whole_bound)

  -- Where no own time fell, the interval of the whole machine is the sum of its ten increases.
  pub machine_sum :
      user_fell ≡ 0
      → nice_fell ≡ 0
      → whole_time p < whole_time c
      → get_interval (jiffies p) (jiffies c) ≡ sum (increases p c)
  unfolding get_interval
  machine_sum hu hn more = rw (diff_lem, sum-increases) (ground arith)
