-- ===== src/Sysstat/Irqs.antt =====
-- The interrupts of each processor in mpstat.c: `read_interrupts_stat`, `write_plain_isumcpu_stats` and
-- `write_plain_irqcpu_stats`. `st_ic` is one array: the counters of processor c stand from c * ic_nr
-- on, and the names stand with those of the first processor. `strtoul` is an argument.
pub mod Rows
pub mod ByName
pub mod Forget
use lepd.Base.{
  ℕ, zero, suc, ◌+◌, ◌-◌, ◌*◌, ◌%◌, ◌^◌, Option, none, some, List, [], ◌∷◌, ◌++◌, Bool, true, false,
  not, ◌&&◌, ◌||◌, ◌==◌, ltb, if◌then◌else◌, ◌>>=◌, get_elem?, set, take, drop, replicate,
}
use lepd.Base.Words.{plus_64, minus_64}
use lepd.Base.CString.{past_spaces, bytes, same}
use lepd.Base.Doubles.{Doubles}
use lepd.Sysstat.Cpu.{StatsCpu, jiffies, get_per_cpu_interval}
use lepd.Sysstat.Cpuinfo.{strstr}
use lepd.Sysstat.Mpstat.{Options, Label, selected}

-- `interrupt` is an `unsigned int`; the name is its text.
pub record StatsIrqcpu : Type 0 where
  pub interrupt : ℕ
  pub irq_name : List ℕ

-- The number at the start of a text, and the text behind it.
abbrev pub Strtoul : Type 0
Strtoul = List ℕ → ℕ × List ℕ

-- The counters and names of one sample, and `st_irq`: the total of all, then of each processor.
pub record Counts : Type 0 where
  pub cells : List StatsIrqcpu
  pub totals : List ℕ

unfoldable pub behind_colon : List ℕ → Option (List ℕ)
behind_colon [] = none
behind_colon (c ∷ s) = let rest = behind_colon s in if c == b':' then some s else rest

unfoldable pub up_to_colon : List ℕ → List ℕ
up_to_colon [] = []
up_to_colon (c ∷ s) = if c == b':' then [] else c ∷ up_to_colon s

-- The name of the interrupt of a line: at most 15 bytes.
unfoldable pub line_name : List ℕ → List ℕ
unfolding up_to_colon past_spaces
line_name line = take 15 (up_to_colon (past_spaces line))

-- The processors of the header line, at most as many as are left.
unfoldable pub header_cpus : Strtoul → ℕ → List ℕ → List ℕ
header_cpus strtoul zero next = []
header_cpus strtoul (suc k) next = elim (strstr next (bytes "CPU")) [
  | none ↦ []
  | some cp ↦ (strtoul (drop 3 cp)).0 ∷ header_cpus strtoul k (strtoul (drop 3 cp)).1
]

-- The first line that names a processor, and the lines behind it.
unfoldable pub find_header : Strtoul → ℕ → List (List ℕ) → List ℕ × List (List ℕ)
unfolding header_cpus
find_header strtoul cpu_nr [] = ([], [])
find_header strtoul cpu_nr (line ∷ lines) =
    let rest = find_header strtoul cpu_nr lines in
    elim (header_cpus strtoul cpu_nr line) [ [] ↦ rest | c ∷ cs ↦ (c ∷ cs, lines) ]

-- One counter, at its place in the array, and added to the total of its processor. A place outside
-- an array is a fault.
unfoldable pub store_count : ℕ → ℕ → ℕ → ℕ → Counts → Option Counts
store_count ic_nr irq cpu value s = do
  p ← get_elem? s.cells (cpu * ic_nr + irq)
  total ← get_elem? s.totals (suc cpu)
  some (record {
    cells = set s.cells (cpu * ic_nr + irq) (record p { interrupt = value % 2 ^ 32 });
    totals = set s.totals (suc cpu) (plus_64 total (value % 2 ^ 32));
  })

unfoldable pub store_counts : Strtoul → ℕ → ℕ → List ℕ → List ℕ → Counts → Option Counts
unfolding store_count
store_counts strtoul ic_nr irq [] cp s = some s
store_counts strtoul ic_nr irq (cpu ∷ cpus) cp s =
    store_count ic_nr irq cpu (strtoul cp).0 s >>= λ s'.
    store_counts strtoul ic_nr irq cpus (strtoul cp).1 s'

unfoldable pub store_name : ℕ → List ℕ → Counts → Option Counts
store_name irq name s = get_elem? s.cells irq >>= λ p.
    some (record s { cells = set s.cells irq (record p { irq_name = name }) })

-- The loop over the lines, and how many interrupts it found.
unfoldable pub read_irqs : Strtoul → ℕ → List ℕ → List (List ℕ) → ℕ → Counts → Option (ℕ × Counts)
unfolding behind_colon line_name store_name store_counts
read_irqs strtoul ic_nr cpus [] irq s = some (irq, s)
read_irqs strtoul ic_nr cpus (line ∷ lines) irq s = elim (ltb irq ic_nr) [
  | false ↦ some (irq, s)
  | true ↦ elim (behind_colon line) [
    | none ↦ read_irqs strtoul ic_nr cpus lines irq s
    | some cp ↦ store_name irq (line_name line) s >>= λ s'.
        store_counts strtoul ic_nr irq cpus cp s' >>= λ s''.
        read_irqs strtoul ic_nr cpus lines (suc irq) s''
  ]
]

-- The names that are left are emptied; the first number is how many.
unfoldable pub clear_names : ℕ → ℕ → Counts → Option Counts
unfolding store_name
clear_names zero irq s = some s
clear_names (suc k) irq s = store_name irq [] s >>= λ s'. clear_names k (suc irq) s'

unfoldable pub reset_totals : ℕ → List ℕ → List ℕ
reset_totals cpu_nr [] = []
reset_totals cpu_nr (all ∷ totals) = all ∷ (replicate cpu_nr 0 ++ drop cpu_nr totals)

-- A file that does not open leaves no names.
unfoldable pub read_file : Strtoul → ℕ → ℕ → Option (List (List ℕ)) → Counts → Option (ℕ × Counts)
unfolding find_header read_irqs
read_file strtoul cpu_nr ic_nr none s = some (0, s)
read_file strtoul cpu_nr ic_nr (some lines) s =
    let (cpus, rest) = find_header strtoul cpu_nr lines in read_irqs strtoul ic_nr cpus rest 0 s

unfoldable pub read_interrupts_stat :
    Strtoul → ℕ → ℕ → Option (List (List ℕ)) → Counts → Option Counts
unfolding reset_totals read_file clear_names
read_interrupts_stat strtoul cpu_nr ic_nr file s =
    read_file strtoul cpu_nr ic_nr file (record s { totals = reset_totals cpu_nr s.totals })
    >>= λ (irq, s'). clear_names (ic_nr - irq) irq s'
