-- ===== src/Procrank.antt =====
-- `procrank_main` of src/modules/procrank/src/procrank.c. What
-- libpagemap reads of the processes, the allocator, `qsort` and the command lines are arguments.
pub mod Options
pub mod Ranking
pub mod Printed
pub mod MemInfo
mod Examples
use text.Mathlib.Text.{◌==◌ as str_eq}
use lepd.Base.{
  ℕ, zero, suc, ◌+◌, ◌/◌, ◌%◌, ◌^◌, Bool, true, false, not, ◌&&◌, ◌||◌, Option, none, some, List,
  [], ◌∷◌, String, if◌then◌else◌, ◌==◌, ltb, map,
}
use lepd.Procrank.Options.{
  SortField, sort_by_vss, sort_by_rss, sort_by_pss, sort_by_uss, sort_by_swap, Order, ascending,
  descending, WorkingSet, ws_off, ws_only, ws_reset, Settings, default_settings, Parsed, ready,
  exits, invalid, parse_args,
}
use lepd.Procrank.MemInfo.{MemReport, print_mem_info}
use lepd.Base.Int.{ℤ, pos, negsuc}
use lepd.Base.Words.{plus_64}

-- `pm_memusage_t`, in bytes.
pub record MemUsage : Type 0 where
  pub vss : ℕ
  pub rss : ℕ
  pub pss : ℕ
  pub uss : ℕ
  pub swap : ℕ

pub record ProcInfo : Type 0 where
  pub pid : ℕ
  pub usage : MemUsage

unfoldable pub numcmp : ℕ → ℕ → ℤ
numcmp a b = if ltb a b then negsuc 0 else (if ltb b a then pos 1 else pos 0)

abbrev pub field_of : SortField → MemUsage → ℕ
field_of sort_by_vss u = u.vss
field_of sort_by_rss u = u.rss
field_of sort_by_pss u = u.pss
field_of sort_by_uss u = u.uss
field_of sort_by_swap u = u.swap

-- `order * c` for -1, 0 and 1.
abbrev pub times_order : Order → ℤ → ℤ
times_order ascending c = c
times_order descending (pos zero) = pos zero
times_order descending (pos (suc n)) = negsuc n
times_order descending (negsuc n) = pos (suc n)

unfoldable pub compare_by : SortField → Order → ProcInfo → ProcInfo → ℤ
unfolding numcmp
compare_by f o a b = times_order o (numcmp (field_of f a.usage) (field_of f b.usage))

-- What the program meets: the processes, `none` if they cannot be with_pids; which allocations and process
-- interfaces succeed; the usage that libpagemap leaves; the command line; /proc/meminfo, and `atoll`.
pub record World : Type 0 where
  pub pids : Option (List ℕ)
  pub calloc : Bool
  pub malloc : ℕ → Bool
  pub create : ℕ → Bool
  pub usage_flags : ℕ → ℕ → ℕ → MemUsage
  pub workingset : ℕ → MemUsage
  pub cmdline : ℕ → String
  pub meminfo : Option (Option (List ℕ))
  pub atoll : List ℕ → ℕ

abbrev pub no_usage : MemUsage
no_usage = record { vss = 0; rss = 0; pss = 0; uss = 0; swap = 0 }

abbrev pub usage_of : World → Settings → ℕ → MemUsage
usage_of w s pid =
    if w.create pid
    then elim s.ws [
      | ws_off ↦ w.usage_flags s.flags_mask s.required_flags pid
      | ws_only ↦ w.workingset pid
      | ws_reset ↦ no_usage
    ]
    else no_usage

-- The loop over the processes; `none` if an allocation fails.
unfoldable pub measure : World → Settings → List ℕ → Option (List ProcInfo)
measure w s [] = some []
measure w s (p ∷ ps) =
    let rest = measure w s ps in
    if w.malloc p
    then elim rest [
      | none ↦ none
      | some procs ↦ some (record { pid = p; usage = usage_of w s p } ∷ procs)
    ]
    else none

unfoldable pub has_swap : List ProcInfo → Bool
has_swap [] = false
has_swap (p ∷ ps) = let rest = has_swap ps in not (p.usage.swap == 0) || rest

unfoldable pub with_memory : List ProcInfo → List ProcInfo
with_memory [] = []
with_memory (p ∷ ps) = let rest = with_memory ps in if p.usage.vss == 0 then rest else p ∷ rest

pub record Totals : Type 0 where
  pub total_pss : ℕ
  pub total_uss : ℕ
  pub total_swap : ℕ

-- The columns of a process, in kilobytes.
pub record Row : Type 0 where
  pub pid : ℕ
  pub columns : List ℕ
  pub swap : Option ℕ
  pub cmdline : String

abbrev pub max_lines : ℕ
max_lines = 50

abbrev columns_of : WorkingSet → MemUsage → List ℕ
columns_of ws_off u = u.vss / 1024 ∷ u.rss / 1024 ∷ u.pss / 1024 ∷ u.uss / 1024 ∷ []
columns_of _ u = u.rss / 1024 ∷ u.pss / 1024 ∷ u.uss / 1024 ∷ []

abbrev pub row_of : World → WorkingSet → Bool → ProcInfo → Row
row_of w ws swapped p = record {
  pid = p.pid;
  columns = columns_of ws p.usage;
  swap = if swapped then some (p.usage.swap / 1024) else none;
  cmdline = w.cmdline p.pid;
}

abbrev pub add_usage : MemUsage → Totals → Totals
add_usage u t = record {
  total_pss = plus_64 t.total_pss u.pss;
  total_uss = plus_64 t.total_uss u.uss;
  total_swap = plus_64 t.total_swap u.swap;
}

abbrev before : Row → List Row × Totals → List Row × Totals
before r (rs, t) = (r ∷ rs, t)

-- The loop that prints, at an index.
unfoldable pub show_procs :
    World → WorkingSet → Bool → ℕ → List ProcInfo → Totals → List Row × Totals
show_procs w ws swapped i [] t = ([], t)
show_procs w ws swapped i (p ∷ ps) t =
    let rest = show_procs w ws swapped (suc i) ps in
    if ltb max_lines i then rest t else before (row_of w ws swapped p) (rest (add_usage p.usage t))

-- The rows; the total line, pss, uss and swap as they are printed; and the last line.
pub record Report : Type 0 where
  pub rows : List Row
  pub total : ℕ × ℕ
  pub total_swap : Option ℕ
  pub mem_info : Option MemReport

-- `exit(0)`, an answer EXIT_FAILURE, or what is printed.
pub data Result : Type 0 where
  exit_failure : Result
  ends_daemon : Result
  printed : Report → Result

abbrev pub no_totals : Totals
no_totals = record { total_pss = 0; total_uss = 0; total_swap = 0 }

abbrev pub report : World → Bool → List Row × Totals → Report
report w swapped (rs, t) = record {
  rows = rs;
  total = (t.total_pss / 1024, t.total_uss / 1024);
  total_swap = if swapped then some t.total_swap else none;
  mem_info = print_mem_info w.atoll w.meminfo;
}

module _ (qsort : (ProcInfo → ProcInfo → ℤ) → List ProcInfo → List ProcInfo) (w : World) where
  unfoldable pub rank : Settings → List ProcInfo → Result
  unfolding has_swap with_memory compare_by show_procs
  rank s procs =
      let swapped = has_swap procs in
      let sorted = qsort (compare_by s.compfn s.order) (with_memory procs) in
      printed (report w swapped (show_procs w s.ws swapped 0 sorted no_totals))

  abbrev pub unless_reset : WorkingSet → Result → Result
  unless_reset ws_reset r = exit_failure
  unless_reset ws_off r = r
  unless_reset ws_only r = r

  unfoldable pub ranked : Settings → Option (List ProcInfo) → Result
  unfolding rank
  ranked s none = exit_failure
  ranked s (some procs) = unless_reset s.ws (rank s procs)

  unfoldable pub with_pids : Settings → Option (List ℕ) → Result
  unfolding measure ranked
  with_pids s none = exit_failure
  with_pids s (some pids) = if w.calloc then ranked s (measure w s pids) else exit_failure

  unfoldable pub run_parsed : Parsed → Result
  unfolding with_pids
  run_parsed (ready s) = with_pids s w.pids
  run_parsed exits = ends_daemon
  run_parsed invalid = exit_failure

  -- The arguments behind the name of the command.
  unfoldable pub procrank_main : List String → Result
  unfolding parse_args run_parsed
  procrank_main args = run_parsed (parse_args args default_settings)
