-- ===== src/Iotop/View.antt =====
-- The rows of `view_batch`.
use lepd.Base.{
  ℕ, suc, Bool, not, ◌&&◌, ◌||◌, Option, none, some, List, [], ◌∷◌, String, if◌then◌else◌, ◌>>=◌,
  leb, ltb,
}
use lepd.Base.Int.{ℤ}
use lepd.Base.Doubles.{Doubles}
use lepd.Iotop.Priority.{Policy, str_ioprio_ext}
use lepd.Iotop.{
  Config, XxxidStats, sort_by_io, sort_desc, create_diff, calc_total, humanize_val, sort_diff,
}

abbrev pub max_lines : ℕ
max_lines = 50

-- What the system answers while a view is printed: whether `fdopen` opens a stream, the scheduler of a
-- task, and its nice value and 20.
pub record Display : Type 0 where
  pub stream : Bool
  pub policy : ℤ → Policy
  pub nice_20 : ℤ → ℕ

module _ (d : Doubles) where
  -- What a row prints; the name of the user is looked up from its number.
  pub record Row : Type 0 where
    pub tid : ℤ
    pub prio : List ℕ
    pub euid : ℤ
    pub read : d.Double × String
    pub write : d.Double × String
    pub swapin_val : d.Double
    pub blkio_val : d.Double
    pub cmdline : String

  -- In kilobytes the unit is fixed.
  unfoldable pub unit_of : Config → d.Double → Option (d.Double × String)
  unit_of g value =
      if g.kilobytes
      then some (d.over value (d.of_uint64 1000), if g.accumulated then "K" else "K/s")
      else humanize_val d g value

  unfoldable pub row_of : Display → Config → XxxidStats d → Option Row
  unfolding unit_of str_ioprio_ext
  row_of x g s = do
    prio ← str_ioprio_ext s.io_prio (x.policy s.tid) (x.nice_20 s.tid)
    read ← unit_of g s.read_val
    write ← unit_of g s.write_val
    some (record {
      tid = s.tid;
      prio = prio;
      euid = s.euid;
      read = read;
      write = write;
      swapin_val = s.swapin_val;
      blkio_val = s.blkio_val;
      cmdline = s.cmdline;
    })

  -- With `only`, a task that did not both read and write is passed over; it counts as a line.
  abbrev skipped : Config → XxxidStats d → Bool
  skipped g s = g.only && (d.is_zero s.read_val || d.is_zero s.write_val)

  unfoldable pub rows : Display → Config → ℕ → List (XxxidStats d) → Option (List Row)
  unfolding row_of
  rows x g lines [] = some []
  rows x g lines (s ∷ ss) =
      let rest = rows x g (suc lines) ss in
      if leb max_lines (suc lines)
      then some []
      else (if skipped g s then rest else (row_of x g s >>= λ r. rest >>= λ rs. some (r ∷ rs)))

  -- The totals of the first line, and the rows; nothing is printed before the last iteration, or if
  -- `fdopen` fails.
  unfoldable pub view_batch :
      Display
      → Config
      → List (XxxidStats d)
      → List (XxxidStats d)
      → ℕ
      → Option (Option (((d.Double × String) × (d.Double × String)) × List Row))
  unfolding rows
  view_batch x g [] ps iter = some none
  view_batch x g (c ∷ cs) ps iter =
      let diff = create_diff d g (c ∷ cs) ps in
      let (total_read, total_write) = calc_total d g diff in
      if ltb 1 iter || not x.stream
      then some none
      else humanize_val d g total_read >>= λ read. humanize_val d g total_write >>= λ write.
          sort_diff d sort_by_io sort_desc diff >>= λ sorted.
          rows x g 0 sorted >>= λ printed. some (some ((read, write), printed))

  -- The tasks that are not passed over.
  abbrev pub kept : Config → List (XxxidStats d) → List (XxxidStats d)
  kept g [] = []
  kept g (s ∷ ss) = let rest = kept g ss in if skipped g s then rest else s ∷ rest

  -- A row for each task.
  abbrev pub print_all : Display → Config → List (XxxidStats d) → Option (List Row)
  print_all x g [] = some []
  print_all x g (s ∷ ss) = row_of x g s >>= λ r. print_all x g ss >>= λ rs. some (r ∷ rs)
