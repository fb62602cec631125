-- ===== src/Cgtop/Main.antt =====
-- `read_from_cpuacct`, `read_from_blkio`, `display` and `cgtop_main` of cgtop.c, over the `World` of
-- Cgtop.Usage. `fdopen` and the allocation of `G` succeed.
pub mod Listed
use lepd.Base.{
  ℕ, Option, none, some, List, [], ◌∷◌, Bool, true, false, ◌==◌, ◌>>=◌, if◌then◌else◌, reverse,
  take,
}
use lepd.Base.CString.{c_string, bytes}
use lepd.Base.Doubles.{Doubles}
use lepd.Cgtop.{Malloc}
use lepd.Cgtop.Lines.{line_end, strtoull, Service, sum_lines}
use lepd.Cgtop.Usage.{World, Cgroup, Globals}
use lepd.Cgtop.Walk.{refresh}

-- `none` inside is the answer -1; a file that does not open is a fault.
unfoldable pub read_from_cpuacct : Option (List ℕ) → Option (Option ℕ)
unfolding line_end strtoull
read_from_cpuacct none = none
read_from_cpuacct (some []) = some none
read_from_cpuacct (some (c ∷ s)) = some (some (strtoull (line_end (c_string (take 1023 (c ∷ s))))))

-- The sums are locals, and `m` and `n` are not written: what is left of the globals.
unfoldable pub read_from_blkio : Option (List (List ℕ)) → ℕ × ℕ → Option (ℕ × ℕ)
unfolding sum_lines
read_from_blkio none old = some old
read_from_blkio (some ts) old = sum_lines ts (record { rd = 0; wr = 0 }) >>= λ sums. some old

-- A column, `none` for "-".
abbrev pub column : ℕ → Option ℕ
column n = if n == 0 then none else some n

module _ (d : Doubles) where
  -- What goes to `out_fp` for a group; its path and tasks go to the standard output.
  pub record Row : Type 0 where
    pub cpu : Option d.Double
    pub memory : Option ℕ
    pub input : Option ℕ
    pub output : Option ℕ

  pub record Shown : Type 0 where
    pub on_stdout : List (List ℕ × ℕ)
    pub on_out_fp : List Row

  abbrev pub row_of : Cgroup d → Row
  row_of g = record {
    cpu = if d.is_zero g.cpu_fraction then none else some g.cpu_fraction;
    memory = column g.memory;
    input = column g.io_in_bps;
    output = column g.io_out_bps;
  }

  -- The loop from `G->prev` on, below the head line.
  unfoldable pub show_from : List (Cgroup d) → Shown
  show_from [] = record { on_stdout = []; on_out_fp = [] }
  show_from (g ∷ gs) =
      let rest = show_from gs in
      if g.tasks == 0 then rest else record {
        on_stdout = (g.path, g.tasks) ∷ rest.on_stdout;
        on_out_fp = row_of g ∷ rest.on_out_fp;
      }

  unfoldable pub display : List (Cgroup d) → Shown
  unfolding show_from
  display groups = show_from (reverse groups)

  abbrev kept_usage : Option ℕ → ℕ → ℕ
  kept_usage none last = last
  kept_usage (some n) last = n

  -- The globals of an earlier call stay: `old_usage` is the last one read, and `old_rd` and `old_wr` are
  -- still 0.
  unfoldable pub cgtop_main : Malloc → World → ℕ → ℕ → Option Shown
  unfolding read_from_cpuacct read_from_blkio refresh display
  cgtop_main malloc w now last_usage =
      read_from_cpuacct (w.content (bytes "/sys/fs/cgroup/cpuacct/cpuacct.usage")) >>= λ usage.
      read_from_blkio (w.lines (bytes "/sys/fs/cgroup/blkio/blkio.io_service_bytes")) (0, 0)
      >>= λ (rd, wr).
          refresh d malloc w (record {
            old_time = now;
            old_usage = kept_usage usage last_usage;
            old_rd = rd;
            old_wr = wr;
            groups = [];
          })
          >>= λ s. some (display s.groups)
