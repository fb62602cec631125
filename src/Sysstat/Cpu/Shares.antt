-- ===== src/Sysstat/Cpu/Shares.antt =====
-- The values of a row of mpstat are the percentages of what the counters gained.
use lepd.Base.{
  ℕ, ◌-◌, ◌^◌, ◌<◌, ◌≡◌, ◌≢◌, refl, sym, ap, ltb, map, arith, inl, inr, Bool-cases, false,
}
use lepd.Base.Words.{minus_64}
use lepd.Base.Doubles.{Doubles}
use lepd.Sysstat.Cpu.{StatsCpu, sp_value, ll_sp_value, tested_value, shares}
use lepd.Sysstat.Cpu.Interval.{IsCounted, increases, own_user_lem, own_nice_lem}

module _ (d : Doubles) where
  abbrev pub percent : ℕ → ℕ → d.Double
  percent itv n = d.times (d.over (d.of_uint64 n) (d.of_uint64 itv)) (d.of_uint64 100)

  -- 0 divided and multiplied is 0.
  abbrev pub ZeroShare : Type 0
  ZeroShare = (itv : ℕ) → itv ≢ 0 → percent itv 0 ≡ d.of_uint64 0

  module _ (zero_share : ZeroShare) (itv : ℕ) (some_time : itv ≢ 0) where
    sp_share : (a b : ℕ) → ltb b a ≡ false → b < 2 ^ 64 → sp_value d a b itv ≡ percent itv (b - a)
    unfolding sp_value
    sp_share a b rose h = let same : minus_64 b a ≡ b - a = ground arith in ap (percent itv) same

    ll_share : (a b : ℕ) → b < 2 ^ 64 → ll_sp_value d a b itv ≡ percent itv (b - a)
    unfolding ll_sp_value
    ll_share a b h = elim (Bool-cases (ltb b a)) [
      | inl fell ↦
          let none_left : b - a ≡ 0 = ground arith in
          rw (fell, none_left) (sym (zero_share itv some_time))
      | inr rose ↦ rw rose (sp_share a b rose h)
    ]

    tested_share : (a b : ℕ) → b < 2 ^ 64 → tested_value d a b itv ≡ percent itv (b - a)
    unfolding tested_value
    tested_share a b h = elim (Bool-cases (ltb b a)) [
      | inl fell ↦
          let none_left : b - a ≡ 0 = ground arith in
          rw (fell, none_left) (sym (zero_share itv some_time))
      | inr rose ↦ rw rose (sp_share a b rose h)
    ]

    -- The ten values are the percentages of the ten increases.
    pub shares-increases :
        (p c : StatsCpu)
        → IsCounted p
        → IsCounted c
        → shares d p c itv ≡ map (percent itv) (increases p c)
    unfolding shares
    shares-increases p c vp vc =
        rw
          (
            own_user_lem p vp,
            own_user_lem c vc,
            own_nice_lem p vp,
            own_nice_lem c vc,
            tested_share (p.cpu_user - p.cpu_guest) (c.cpu_user - c.cpu_guest)
                (omega (arith, vc.fits)),
            tested_share (p.cpu_nice - p.cpu_guest_nice) (c.cpu_nice - c.cpu_guest_nice)
                (omega (arith, vc.fits)),
            ll_share p.cpu_sys c.cpu_sys (omega (arith, vc.fits)),
            ll_share p.cpu_iowait c.cpu_iowait (omega (arith, vc.fits)),
            ll_share p.cpu_hardirq c.cpu_hardirq (omega (arith, vc.fits)),
            ll_share p.cpu_softirq c.cpu_softirq (omega (arith, vc.fits)),
            ll_share p.cpu_steal c.cpu_steal (omega (arith, vc.fits)),
            ll_share p.cpu_guest c.cpu_guest (omega (arith, vc.fits, vc.user_guest)),
            ll_share p.cpu_guest_nice c.cpu_guest_nice (omega (arith, vc.fits, vc.nice_guest)),
            tested_share p.cpu_idle c.cpu_idle (omega (arith, vc.fits)),
          )
          refl
