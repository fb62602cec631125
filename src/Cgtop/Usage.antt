-- ===== src/Cgtop/Usage.antt =====
-- What `process` of cgtop.c counts for a group, from the files of its controller. The files and
-- directories, the clock and the values that the code leaves undefined are a record `World`.
use lepd.Base.{ℕ, ◌/◌, Option, none, some, List, [], Bool, ◌==◌, ltb, ◌>>=◌, if◌then◌else◌}
use lepd.Base.CString.{c_string, bytes, same}
use lepd.Base.Words.{minus_64, times_64}
use lepd.Base.Doubles.{Doubles}
use lepd.Cgtop.{Malloc}
use lepd.Cgtop.Paths.{cg_get_path}
use lepd.Cgtop.Lines.{read_one_line_file, strtoull, Service, sum_lines}

pub record Entry : Type 0 where
  pub name : List ℕ
  pub is_dir : Bool

-- By the text of a path: the process numbers, the contents and the lines of a file, and the entries
-- of a directory, `none` where it does not open. By the controller and the path of a group: the time
-- when it is read, the interval that is computed from the uninitialised `ts`, and whether `process`
-- and `refresh_one`, which end without a return statement, seem to answer a negative number.
pub record World : Type 0 where
  pub procs : List ℕ → Option (List ℕ)
  pub content : List ℕ → Option (List ℕ)
  pub lines : List ℕ → Option (List (List ℕ))
  pub entries : List ℕ → Option (List Entry)
  pub now : List ℕ → List ℕ → ℕ
  pub interval : List ℕ → List ℕ → ℕ
  pub stray_process : List ℕ → List ℕ → Bool
  pub stray_refresh : List ℕ → List ℕ → Bool

module _ (d : Doubles) where
  pub record Cgroup : Type 0 where
    pub path : List ℕ
    pub tasks : ℕ
    pub cpu_fraction : d.Double
    pub memory : ℕ
    pub io_in_bps : ℕ
    pub io_out_bps : ℕ

  -- The globals; the groups from `G->next` on.
  pub record Globals : Type 0 where
    pub old_time : ℕ
    pub old_usage : ℕ
    pub old_rd : ℕ
    pub old_wr : ℕ
    pub groups : List Cgroup

  -- A fault, or whether the answer is negative, and the globals.
  abbrev pub Answer : Type 0
  Answer = Option (Bool × Globals)

  -- `g` without its path and tasks.
  abbrev pub unused : Cgroup
  unused = record {
    path = [];
    tasks = 0;
    cpu_fraction = d.of_uint64 0;
    memory = 0;
    io_in_bps = 0;
    io_out_bps = 0;
  }

  unfoldable pub cpu_usage : ℕ → List ℕ → Globals → Cgroup
  unfolding strtoull
  cpu_usage now v s =
      let x : ℕ = minus_64 now s.old_time in
      let y : ℕ = minus_64 (strtoull v) s.old_usage in
      if ltb 0 y
      then record unused {
        cpu_fraction = d.times (d.over (d.of_uint64 y) (d.of_uint64 x)) (d.of_uint64 100);
      }
      else unused

  unfoldable pub memory_usage : List ℕ → Cgroup
  unfolding strtoull
  memory_usage v = record unused { memory = strtoull v / 1024 / 1024 }

  -- The division by an interval of 0 is a fault.
  unfoldable pub io_usage : ℕ → Service → Globals → Option Cgroup
  io_usage i sums s =
      let jr : ℕ = minus_64 sums.rd s.old_rd in
      let jw : ℕ = minus_64 sums.wr s.old_wr in
      if i == 0
      then none
      else some (record unused {
        io_in_bps = times_64 jr 1000000000 / i;
        io_out_bps = times_64 jw 1000000000 / i;
      })

  -- What a file of the group adds: `none` inside is the answer -1.
  unfoldable pub counted : Option (List ℕ) → (List ℕ → Cgroup) → Option (Option Cgroup)
  unfolding read_one_line_file
  counted content usage = elim (read_one_line_file content) [
    | none ↦ some none
    | some v ↦ some (some (usage v))
  ]

  unfoldable pub summed : Option (List (List ℕ)) → ℕ → Globals → Option (Option Cgroup)
  unfolding sum_lines io_usage
  summed none i s = some none
  summed (some ts) i s =
      sum_lines ts (record { rd = 0; wr = 0 }) >>= λ sums. io_usage i sums s >>= λ u. some (some u)

  -- A file whose path is NULL is the answer -1.
  unfoldable pub at_path :
      Option (List ℕ) → (List ℕ → Option (Option Cgroup)) → Option (Option Cgroup)
  at_path none read = some none
  at_path (some fs) read = read (c_string fs)

  -- The branches on the controller.
  unfoldable pub measure : Malloc → World → List ℕ → List ℕ → Globals → Option (Option Cgroup)
  unfolding cg_get_path at_path counted summed cpu_usage memory_usage
  measure malloc w controller path s =
      if same (bytes "cpuacct") controller
      then (cg_get_path malloc controller path (bytes "cpuacct.usage") >>= λ p.
          at_path p
            (λ t. counted (w.content t) (λ v. cpu_usage (w.now controller (c_string path)) v s)))
      else (if same (bytes "memory") controller
          then (cg_get_path malloc controller path (bytes "memory.usage_in_bytes") >>= λ p.
              at_path p (λ t. counted (w.content t) memory_usage))
          else (if same (bytes "blkio") controller
              then (cg_get_path malloc controller path (bytes "blkio.io_service_bytes") >>= λ p.
                  at_path p (λ t. summed (w.lines t) (w.interval controller (c_string path)) s))
              else some (some unused)))
