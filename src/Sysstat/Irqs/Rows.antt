-- ===== src/Sysstat/Irqs/Rows.antt =====
-- The rows of interrupts: `write_plain_isumcpu_stats` and `write_plain_irqcpu_stats` of mpstat.c. The
-- place in `Line` is the column of a name; `hz` is the number of ticks per second.
use lepd.Base.{
  ℕ, suc, ◌+◌, ◌-◌, ◌*◌, ◌%◌, ◌^◌, Option, none, some, List, [], ◌∷◌, ◌++◌, Bool, false, not, ◌&&◌,
  ◌||◌, ◌==◌, if◌then◌else◌, ◌>>=◌, get_elem?, take,
}
use lepd.Base.Words.{minus_64}
use lepd.Base.CString.{same}
use lepd.Base.Doubles.{Doubles}
use lepd.Sysstat.Cpu.{StatsCpu, jiffies, get_per_cpu_interval}
use lepd.Sysstat.Mpstat.{Options, Label, selected}
use lepd.Sysstat.Irqs.{StatsIrqcpu}

pub data IrqLine (D : Type 0) : Type 0 where
  sum_header : Label → IrqLine D
  sum_all : Label → D → IrqLine D
  sum_row : Label → ℕ → D → IrqLine D
  irq_header : Label → List (List ℕ) → IrqLine D
  irq_row : Label → ℕ → List D → IrqLine D

-- The difference of two `unsigned int`.
abbrev pub minus_32 : ℕ → ℕ → ℕ
minus_32 a b = (a + 2 ^ 32 - b) % 2 ^ 32

-- `strcmp(p0->irq_name, name)` over the first cells of a sample: the place of the name.
unfoldable pub find_name : List ℕ → List StatsIrqcpu → Option ℕ
find_name name [] = none
find_name name (q ∷ qs) =
    let rest = find_name name qs >>= λ i. some (suc i) in
    if same name q.irq_name then some 0 else rest

-- The names up to the first empty one.
unfoldable pub names_of : List StatsIrqcpu → List (List ℕ)
names_of [] = []
names_of (p ∷ ps) = let rest = names_of ps in elim p.irq_name [ [] ↦ [] | c ∷ s ↦ (c ∷ s) ∷ rest ]

-- Whether a name changed its place.
unfoldable pub names_differ : List StatsIrqcpu → List StatsIrqcpu → Bool
names_differ [] qs = false
names_differ (p ∷ ps) [] = false
names_differ (p ∷ ps) (q ∷ qs) = not (same p.irq_name q.irq_name) || names_differ ps qs

module _ (d : Doubles) (hz : ℕ) where
  -- `((double) (n - m)) / p * HZ` of the difference.
  unfoldable pub rate : ℕ → ℕ → d.Double
  rate difference itv = d.times (d.over (d.of_uint64 difference) (d.of_uint64 itv)) (d.of_uint64 hz)

  module _ (interval ic_nr itv : ℕ) (prev curr : List StatsIrqcpu) where
    -- The rate of the counter in a cell, against the counter at a place of the reference.
    unfoldable pub rate_against : ℕ → ℕ → StatsIrqcpu → Option d.Double
    unfolding rate
    rate_against c offset p = get_elem? prev (c * ic_nr + offset) >>= λ q.
        some (rate (minus_32 p.interrupt q.interrupt) itv)

    -- Against the place of a name; a name that is new counts from 0.
    unfoldable pub rate_moved : ℕ → StatsIrqcpu → Option ℕ → Option d.Double
    unfolding rate_against rate
    rate_moved c p none = some (rate (minus_32 p.interrupt 0) itv)
    rate_moved c p (some offset) = rate_against c offset p

    unfoldable pub irq_value : ℕ → ℕ → List ℕ → Option d.Double
    unfolding rate_against rate_moved find_name
    irq_value c j name = get_elem? prev j >>= λ q0. get_elem? curr (c * ic_nr + j) >>= λ p.
        if (interval == 0) || same name q0.irq_name
        then rate_against c j p
        else rate_moved c p (find_name name (take ic_nr prev))

    -- The values of processor c, for the names from place j on.
    unfoldable pub irq_values : ℕ → ℕ → List (List ℕ) → Option (List d.Double)
    unfolding irq_value
    irq_values c j [] = some []
    irq_values c j (name ∷ names) = do
      v ← irq_value c j name
      vs ← irq_values c (suc j) names
      some (v ∷ vs)

    -- Every processor is shown that is selected, or if none was asked for.
    unfoldable pub irq_rows :
        Options → Bool → Label → ℕ → List StatsCpu → Option (List (IrqLine d.Double))
    unfolding irq_values names_of selected
    irq_rows o use_p label c [] = some []
    irq_rows o use_p label c (scc ∷ sccs) =
        let row =
          irq_values c 0 (names_of (take ic_nr curr)) >>= λ vs. some (irq_row label c vs ∷ []) in
        selected o.cpu_bitmap (suc c) >>= λ on.
        (if (not on && use_p) || ((jiffies scc == 0) && o.online_only) then some [] else row)
        >>= λ shown. irq_rows o use_p label (suc c) sccs >>= λ rest. some (shown ++ rest)

    unfoldable pub write_plain_irqcpu_stats :
        Options → Bool → Bool → Label → Label → List StatsCpu → Option (List (IrqLine d.Double))
    unfolding irq_rows names_differ names_of
    write_plain_irqcpu_stats o use_p dis prev_label curr_label sccs =
        irq_rows o use_p curr_label 0 sccs >>= λ rows. some (
          if dis || (not (interval == 0) && names_differ (take ic_nr curr) (take ic_nr prev))
          then irq_header prev_label (names_of (take ic_nr curr)) ∷ rows
          else rows)

  -- The total of one processor.
  unfoldable pub sum_line :
      Bool → Label → ℕ → ℕ → StatsCpu → StatsCpu → ℕ → ℕ → List (IrqLine d.Double)
  unfolding rate
  sum_line online_only label itv c scc scp sic sip =
      if jiffies scc == 0
      then (if online_only then [] else sum_row label c (d.of_uint64 0) ∷ [])
      else sum_row label c
          (if get_per_cpu_interval scc scp == 0 then d.of_uint64 0 else rate (minus_64 sic sip) itv)
        ∷ []

  unfoldable pub sum_lines :
      Options
      → Label
      → ℕ
      → ℕ
      → List StatsCpu
      → List StatsCpu
      → List ℕ
      → List ℕ
      → Option (List (IrqLine d.Double))
  unfolding selected sum_line
  sum_lines o label itv c (scc ∷ sccs) (scp ∷ scps) (sic ∷ sics) (sip ∷ sips) =
      selected o.cpu_bitmap (suc c) >>= λ on.
      sum_lines o label itv (suc c) sccs scps sics sips >>= λ rest.
      some (if on then sum_line o.online_only label itv c scc scp sic sip ++ rest else rest)
  sum_lines o label itv c [] scps sics sips = some []
  sum_lines o label itv c (scc ∷ sccs) [] sics sips = none
  sum_lines o label itv c (scc ∷ sccs) (scp ∷ scps) [] sips = none
  sum_lines o label itv c (scc ∷ sccs) (scp ∷ scps) (sic ∷ sics) [] = none

  unfoldable pub write_plain_isumcpu_stats :
      Options
      → Bool
      → ℕ
      → Label
      → Label
      → List StatsCpu
      → List StatsCpu
      → List ℕ
      → List ℕ
      → Option (List (IrqLine d.Double))
  unfolding selected sum_lines rate
  write_plain_isumcpu_stats o dis itv prev_label curr_label (p ∷ scps) (c ∷ sccs) (sip ∷ sips)
        (sic ∷ sics) =
      selected o.cpu_bitmap 0 >>= λ on. sum_lines o curr_label itv 0 sccs scps sics sips >>= λ rows.
      some (
        (if dis then sum_header prev_label ∷ [] else [])
        ++ ((if on then sum_all curr_label (rate (minus_64 sic sip) itv) ∷ [] else []) ++ rows))
  write_plain_isumcpu_stats o dis itv prev_label curr_label [] sccs sips sics = none
  write_plain_isumcpu_stats o dis itv prev_label curr_label (p ∷ scps) [] sips sics = none
  write_plain_isumcpu_stats o dis itv prev_label curr_label (p ∷ scps) (c ∷ sccs) [] sics = none
  write_plain_isumcpu_stats o dis itv prev_label curr_label (p ∷ scps) (c ∷ sccs) (sip ∷ sips) [] =
      none
