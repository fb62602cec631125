-- ===== src/Cgtop/Walk.antt =====
-- `process`, `refresh_one`, `cg_read_subgroup` and `refresh` of cgtop.c, over the `World` of
-- Cgtop.Usage. The list around `G` is the list from `G->next`; each `struct Cgroup` is allocated.
pub mod Deep
use lepd.Base.{
  ℕ, zero, suc, ◌+◌, ◌-◌, ◌*◌, ◌/◌, ◌%◌, ◌^◌, Option, none, some, List, [], ◌∷◌, ◌++◌, Bool, true,
  false, not, ◌&&◌, ◌||◌, ◌==◌, ltb, ◌>>=◌, if◌then◌else◌, take, drop, length, map, reverse,
}
use lepd.Base.CString.{c_string, strlen, bytes, same}
use lepd.Base.Strcat.{strcat}
use lepd.Base.Words.{minus_64, times_64, size_minus}
use lepd.Base.Doubles.{Doubles}
use lepd.Cgtop.{Malloc}
use lepd.Cgtop.Paths.{clear_text, cg_get_path, child_path}
use lepd.Cgtop.Lines.{read_one_line_file, strtoull, Service, sum_lines}
use lepd.Cgtop.Usage.{
  Entry, World, Cgroup, Globals, Answer, unused, cpu_usage, memory_usage, io_usage, counted, summed,
  at_path, measure,
}

abbrev pub start : List ℕ
start = bytes "/sys/fs/cgroup/systemd/"

abbrev pub end : List ℕ
end = bytes "/cgroup.procs"

-- What `strncat` appends behind the first slash, from the text of the path of cgroup.procs.
unfoldable pub below_root : List ℕ → List ℕ → Option (List ℕ)
unfolding strcat
below_root t r =
    if same end (drop 22 t)
    then some r
    else strcat r (take (size_minus (size_minus (length t) 23) 13) (drop 23 t))

unfoldable pub named : List ℕ → List ℕ → Option (List ℕ)
unfolding strcat below_root
named t r =
    if same start (take 23 t)
    then (strcat r (b'/' ∷ []) >>= below_root t)
    else strcat r (take (size_minus (length t) 13) t)

-- `g->path`
unfoldable pub group_path : Malloc → List ℕ → Option (List ℕ)
unfolding clear_text named
group_path malloc fs = malloc (strlen fs) >>= clear_text >>= named (c_string fs)

-- `de->d_type != DT_DIR`, and the two names that are passed over.
unfoldable pub passed_over : Entry → Bool
passed_over e = not e.is_dir || (same (b'.' ∷ []) e.name || same (b'.' ∷ b'.' ∷ []) e.name)

module _ (d : Doubles) (malloc : Malloc) (w : World) where
  unfoldable pub insert :
      List ℕ → List ℕ → List ℕ → List ℕ → Globals d → Option (Cgroup d) → Answer d
  insert controller path name pids s none = some (true, s)
  insert controller path name pids s (some u) =
      let g : Cgroup d = record u { path = c_string name; tasks = length pids % 2 ^ 32 } in
      some (w.stray_process controller (c_string path), record s { groups = g ∷ s.groups })

  unfoldable pub entered : List ℕ → List ℕ → List ℕ → Globals d → Option (List ℕ) → Answer d
  unfolding group_path measure insert
  entered controller path fs s none = some (true, s)
  entered controller path fs s (some pids) = group_path malloc fs >>= λ name.
      measure d malloc w controller path s >>= insert controller path name pids s

  -- `fopen` of NULL is a fault.
  unfoldable pub process : List ℕ → List ℕ → Globals d → Answer d
  unfolding cg_get_path entered
  process controller path s = cg_get_path malloc controller path (bytes "cgroup.procs") >>= λ r.
      r >>= λ fs. entered controller path fs s (w.procs (c_string fs))

  -- `if (r < 0) return -1;`
  unfoldable pub go_on : (Globals d → Answer d) → Bool × Globals d → Answer d
  go_on rest (true, s) = some (true, s)
  go_on rest (false, s) = rest s

  -- The loop over the entries; `visit` is `refresh_one` one level deeper.
  unfoldable pub cg_read_subgroup :
      (List ℕ → Globals d → Answer d) → List ℕ → List Entry → Globals d → Answer d
  unfolding child_path passed_over go_on
  cg_read_subgroup visit path [] s = some (false, s)
  cg_read_subgroup visit path (e ∷ es) s =
      let rest = cg_read_subgroup visit path es in
      if passed_over e
      then rest s
      else (child_path malloc path e.name >>= λ fn. visit fn s >>= go_on rest)

  -- `opendir` of the path, `none` for the answer -1.
  unfoldable pub cg_enumerate_subgroups : List ℕ → List ℕ → Option (Option (List Entry))
  unfolding cg_get_path
  cg_enumerate_subgroups controller path = cg_get_path malloc controller path (b'/' ∷ []) >>= λ r.
      some (r >>= λ fs. w.entries (c_string fs))

  -- The end of `refresh_one`, without a return statement.
  unfoldable pub refreshed : List ℕ → List ℕ → Bool × Globals d → Answer d
  refreshed controller path (true, s) = some (true, s)
  refreshed controller path (false, s) = some (w.stray_refresh controller (c_string path), s)

  unfoldable pub descend :
      (List ℕ → Globals d → Answer d) → List ℕ → List ℕ → Globals d → Option (List Entry) → Answer d
  unfolding cg_read_subgroup refreshed
  descend visit controller path s none = some (true, s)
  descend visit controller path s (some es) =
      cg_read_subgroup visit path es s >>= refreshed controller path

  unfoldable pub refresh_below :
      (List ℕ → Globals d → Answer d) → List ℕ → List ℕ → Globals d → Answer d
  unfolding cg_enumerate_subgroups descend
  refresh_below visit controller path s =
      cg_enumerate_subgroups controller path >>= descend visit controller path s

  -- `refresh_one` at a depth of 4 less the number; at a depth of 4 it answers 0.
  unfoldable pub refresh_one : ℕ → List ℕ → List ℕ → Globals d → Answer d
  unfolding process refresh_below go_on
  refresh_one zero controller path s = some (false, s)
  refresh_one (suc n) controller path s =
      let visit = refresh_one n controller in
      process controller path s >>= go_on (refresh_below visit controller path)

  unfoldable pub refresh_each : List (List ℕ) → Globals d → Answer d
  unfolding refresh_one go_on
  refresh_each [] s = some (false, s)
  refresh_each (c ∷ cs) s =
      let rest = refresh_each cs in refresh_one 4 c (b'/' ∷ []) s >>= go_on rest

  -- `main` ignores the answer of `refresh`.
  unfoldable pub refresh : Globals d → Option (Globals d)
  unfolding refresh_each
  refresh s =
      refresh_each (bytes "systemd" ∷ bytes "cpuacct" ∷ bytes "memory" ∷ bytes "blkio" ∷ []) s
      >>= λ (negative, s'). some s'
