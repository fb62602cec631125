-- ===== src/Sysstat/Mpstat/Rows.antt =====
-- The rows of the processors that `mpstat -P ALL` writes, from the counters of two samples.
use lepd.Base.{
  ℕ, zero, suc, ◌+◌, ◌-◌, ◌/◌, ◌%◌, ◌^◌, ◌≤◌, ◌<◌, ◌≡◌, ◌⊎◌, inl, inr, refl, ap, ◌∙◌, true, false,
  some, List, [], ◌∷◌, ◌==◌, if◌then◌else◌, length, replicate, get_elem?-replicate,
  get_elem?-replicate, map, arith, Bool-cases, ==_iff,
}
use lepd.Base.Doubles.{Doubles}
use lepd.Sysstat.Cpu.{StatsCpu, jiffies, get_per_cpu_interval, shares}
use lepd.Sysstat.Cpu.Interval.{
  increases, sum, whole_time, IsCounted, Later, jiffies_lem, interval_sum,
}
use lepd.Sysstat.Cpu.Shares.{percent, ZeroShare, shares-increases}
use lepd.Sysstat.Mpstat.{
  Label, Line, average, cpu_row, selected, zero_row, idle_row, cpu_line, cpu_lines, kept_online,
}

bit_255 : (r : ℕ) → r < 8 → (255 / 2 ^ r % 2 == 1) ≡ true
bit_255 zero h = refl
bit_255 (suc zero) h = refl
bit_255 (suc (suc zero)) h = refl
bit_255 (suc (suc (suc zero))) h = refl
bit_255 (suc (suc (suc (suc zero)))) h = refl
bit_255 (suc (suc (suc (suc (suc zero))))) h = refl
bit_255 (suc (suc (suc (suc (suc (suc zero)))))) h = refl
bit_255 (suc (suc (suc (suc (suc (suc (suc zero))))))) h = refl
bit_255 (suc (suc (suc (suc (suc (suc (suc (suc r)))))))) h = absurd (omega arith)

-- "ALL" selects each processor and the row of all.
pub selected_all :
    (cpu_nr cpu : ℕ)
    → cpu ≤ cpu_nr
    → selected (replicate (suc ((cpu_nr + 1) / 8)) 255) cpu ≡ some true
unfolding selected
selected_all cpu_nr cpu h =
    rw
      (
        get_elem?-replicate {A = ℕ} (suc ((cpu_nr + 1) / 8)) (cpu / 8) 255 (omega arith),
        bit_255 (cpu % 8) (omega arith),
      )
      refl

abbrev pub every : ℕ → List ℕ
every cpu_nr = replicate (suc ((cpu_nr + 1) / 8)) 255

-- Two samples of one processor: it counts, and is offline at the second or has not fallen.
abbrev pub Known : StatsCpu → StatsCpu → Type 0
Known p c = IsCounted p × IsCounted c × ((whole_time c ≡ 0) ⊎ Later p c)

abbrev pub AllKnown : List StatsCpu → List StatsCpu → Type 0
AllKnown [] [] = Unit {0}
AllKnown [] (c ∷ cs) = ⊥
AllKnown (p ∷ ps) [] = ⊥
AllKnown (p ∷ ps) (c ∷ cs) = Known p c × AllKnown ps cs

Later-refl : (p : StatsCpu) → Later p p
Later-refl p = omega arith

sub_self : (n : ℕ) → n - n ≡ 0
sub_self n = omega arith

none_gained : (p : StatsCpu) → sum (increases p p) ≡ 0
none_gained p = simp sub_self

module _ (d : Doubles) where
  -- The values of one processor: zeros if it is offline, idle if no time passed for it, and else
  -- the percentages of what each counter gained, of all that they gained.
  abbrev pub usage : StatsCpu → StatsCpu → List d.Double
  usage p c =
      if whole_time c == 0
      then zero_row d
      else (if sum (increases p c) == 0
          then idle_row d
          else map (percent d (sum (increases p c))) (increases p c))

  -- In the average a processor that went offline counts as idle.
  abbrev pub average_usage : StatsCpu → StatsCpu → List d.Double
  average_usage p c =
      if whole_time c == 0
      then (if whole_time p == 0 then zero_row d else idle_row d)
      else usage p c

  abbrev pub rows_of :
      Label
      → ℕ
      → (StatsCpu → StatsCpu → List d.Double)
      → List StatsCpu
      → List StatsCpu
      → List (Line d.Double)
  rows_of label n f [] cs = []
  rows_of label n f (p ∷ ps) [] = []
  rows_of label n f (p ∷ ps) (c ∷ cs) = cpu_row label n (f p c) ∷ rows_of label (suc n) f ps cs

  usage_self : (p : StatsCpu) → usage p p ≡ (if whole_time p == 0 then zero_row d else idle_row d)
  usage_self p = rw (none_gained p) refl

  module _ (zero_share : ZeroShare d) where
    risen_values :
        (p c : StatsCpu)
        → IsCounted p
        → IsCounted c
        → Later p c
        → (if get_per_cpu_interval c p == 0
            then idle_row d
            else shares d p c (get_per_cpu_interval c p))
          ≡ (if sum (increases p c) == 0
              then idle_row d
              else map (percent d (sum (increases p c))) (increases p c))
    risen_values p c vp vc l =
        let total : ℕ = sum (increases p c) in
        rw (interval_sum p c vp vc l) (elim (Bool-cases (sum (increases p c) == 0)) [
          | inl same ↦ rw same refl
          | inr more ↦
              rw more (shares-increases d zero_share (sum (increases p c)) (ground arith) p c vp vc)
        ])

    line_usage :
        (label : Label) (n : ℕ) (p c : StatsCpu)
        → Known p c
        → cpu_line d false label (suc n) c p ≡ cpu_row label n (usage p c) ∷ []
    unfolding cpu_line
    line_usage label n p c (vp, vc, inl off) =
        let number : suc n - 1 ≡ n = omega arith in
        rw (jiffies_lem c vc, number, (==_iff (whole_time c) 0).1 off) refl
    line_usage label n p c (vp, vc, inr l) =
        let number : suc n - 1 ≡ n = omega arith in
        rw (jiffies_lem c vc, number)
          (elim (Bool-cases (whole_time c == 0)) [
            | inl off ↦ rw off refl
            | inr on ↦
                rw on
                  (ap (λ (r : List d.Double). cpu_row label n r ∷ []) (risen_values p c vp vc l))
          ])

    line_average :
        (n : ℕ) (p c : StatsCpu)
        → Known p c
        → cpu_line d false average (suc n) (if jiffies c == 0 then p else c) p
          ≡ cpu_row average n (average_usage p c) ∷ []
    line_average n p c (vp, vc, how) = elim (Bool-cases (whole_time c == 0)) [
      | inl off ↦
          rw (jiffies_lem c vc, off)
            (line_usage average n p p (vp, vp, inr (Later-refl p))
              ∙ ap (λ (r : List d.Double). cpu_row average n r ∷ []) (usage_self p))
      | inr on ↦ rw (jiffies_lem c vc, on) (line_usage average n p c (vp, vc, how) ∙ rw on refl)
    ]

    module _ (cpu_nr : ℕ) where
      pub lines_usage :
          (label : Label) (n : ℕ) (ps cs : List StatsCpu)
          → AllKnown ps cs
          → n + length cs ≤ cpu_nr
          → cpu_lines d (every cpu_nr) false label (suc n) cs ps
            ≡ some (rows_of label n usage ps cs)
      unfolding cpu_lines
      lines_usage label n [] [] k h = refl
      lines_usage label n [] (c ∷ cs) k h = elim k [ ]
      lines_usage label n (p ∷ ps) [] k h = elim k [ ]
      lines_usage label n (p ∷ ps) (c ∷ cs) k h =
          rw
            (
              selected_all cpu_nr (suc n) (omega arith),
              lines_usage label (suc n) ps cs k.1 (omega arith),
              line_usage label n p c k.0,
            )
            refl

      pub lines_average :
          (n : ℕ) (ps cs : List StatsCpu)
          → AllKnown ps cs
          → n + length cs ≤ cpu_nr
          → cpu_lines d (every cpu_nr) false average (suc n) (kept_online cs ps) ps
            ≡ some (rows_of average n average_usage ps cs)
      unfolding cpu_lines kept_online
      lines_average n [] [] k h = refl
      lines_average n [] (c ∷ cs) k h = elim k [ ]
      lines_average n (p ∷ ps) [] k h = elim k [ ]
      lines_average n (p ∷ ps) (c ∷ cs) k h =
          rw
            (
              selected_all cpu_nr (suc n) (omega arith),
              lines_average (suc n) ps cs k.1 (omega arith),
              line_average n p c k.0,
            )
            refl
