-- ===== src/Procrank/Printed.antt =====
-- Which rows procrank prints, and their totals.
use mathlib.Core.List.{Perm}
use lepd.Base.{
  ℕ, zero, suc, ◌+◌, ◌/◌, ◌%◌, ◌^◌, ◌<◌, ◌≡◌, ◌≢◌, refl, Bool, true, false, none, some, List, [],
  ◌∷◌, String, if◌then◌else◌, ltb, map, take, arith, ap, ◌∙◌,
}
use lepd.Base.Int.{ℤ}
use lepd.Procrank.Options.{
  SortField, sort_by_pss, sort_by_uss, sort_by_swap, WorkingSet, ws_off, ws_only, ws_reset,
  Settings, default_settings, ready, parse_args,
}
use lepd.Procrank.{
  ProcInfo, field_of, compare_by, World, measure, has_swap, with_memory, Totals, Row, row_of,
  add_usage, show_procs, Report, printed, no_totals, report, rank, ranked, with_pids, run_parsed,
  unless_reset, procrank_main, max_lines,
}
use lepd.Procrank.MemInfo.{print_mem_info}
use lepd.Procrank.Ranking.{Sorts, Ranked, compare_by-IsComparison, InOrder-Ranked}

-- The sum of a field.
abbrev pub sum_of : SortField → List ProcInfo → ℕ
sum_of f [] = 0
sum_of f (p ∷ ps) = field_of f p.usage + sum_of f ps

abbrev totals : ℕ → ℕ → ℕ → Totals
totals a b c = record { total_pss = a; total_uss = b; total_swap = c }

shown_eq :
    (rs : List Row) (a a' b b' c c' : ℕ)
    → a ≡ a'
    → b ≡ b'
    → c ≡ c'
    → ◌≡◌ {A = List Row × Totals} (rs, totals a b c) (rs, totals a' b' c')
shown_eq rs a a' b b' c c' p q r = rw (p, q, r) refl

module _ (w : World) (ws : WorkingSet) (swapped : Bool) where
  -- Behind the index 50 nothing is printed or added.
  show_procs_past :
      (i : ℕ) (ps : List ProcInfo) (t : Totals)
      → max_lines < i
      → show_procs w ws swapped i ps t ≡ ([], t)
  unfolding show_procs
  show_procs_past i [] t h = refl
  show_procs_past i (p ∷ ps) t h =
      let over : ltb max_lines i ≡ true = ground arith in
      rw over (show_procs_past (suc i) ps t (omega arith))

  Shows : ℕ → List ProcInfo → List ProcInfo → Totals → Type 0
  Shows i ps shown t = show_procs w ws swapped i ps t ≡ (
    map (row_of w ws swapped) shown,
    record {
      total_pss = (t.total_pss + sum_of sort_by_pss shown) % 2 ^ 64;
      total_uss = (t.total_uss + sum_of sort_by_uss shown) % 2 ^ 64;
      total_swap = (t.total_swap + sum_of sort_by_swap shown) % 2 ^ 64;
    },
  )

  show_procs-take :
      (n i : ℕ) (ps : List ProcInfo) (t : Totals)
      → n + i ≡ 51
      → t.total_pss < 2 ^ 64
      → t.total_uss < 2 ^ 64
      → t.total_swap < 2 ^ 64
      → Shows i ps (take n ps) t
  unfolding show_procs Shows
  show_procs-take zero i ps t e a b c =
      show_procs_past i ps t (omega arith)
      ∙ shown_eq [] _ _ _ _ _ _ (omega arith) (omega arith) (omega arith)
  show_procs-take (suc n) i [] t e a b c =
      shown_eq [] _ _ _ _ _ _ (omega arith) (omega arith) (omega arith)
  show_procs-take (suc n) i (p ∷ ps) t e a b c =
      let inside : ltb max_lines i ≡ false = ground arith in
      rw
        (
          inside,
          show_procs-take n (suc i) ps (add_usage p.usage t) (omega arith) (omega arith)
              (omega arith) (omega arith),
        )
        (shown_eq (row_of w ws swapped p ∷ map (row_of w ws swapped) (take n ps)) _ _ _ _ _ _
          (omega arith) (omega arith) (omega arith))

-- The report of some processes in their order: the first 51 are printed and added up.
abbrev pub report_of : World → WorkingSet → Bool → List ProcInfo → Report
report_of w ws swapped sorted =
    let shown : List ProcInfo = take 51 sorted in
    record {
      rows = map (row_of w ws swapped) shown;
      total = (sum_of sort_by_pss shown % 2 ^ 64 / 1024, sum_of sort_by_uss shown % 2 ^ 64 / 1024);
      total_swap = if swapped then some (sum_of sort_by_swap shown % 2 ^ 64) else none;
      mem_info = print_mem_info w.atoll w.meminfo;
    }

rank-printed :
    (qsort : (ProcInfo → ProcInfo → ℤ) → List ProcInfo → List ProcInfo) (w : World) (s : Settings)
    (procs : List ProcInfo)
    → rank qsort w s procs
      ≡ printed (
          report_of w s.ws
            (has_swap procs)
            (qsort (compare_by s.compfn s.order) (with_memory procs)))
unfolding rank Shows
rank-printed qsort w s procs =
    let swapped = has_swap procs in
    let sorted = qsort (compare_by s.compfn s.order) (with_memory procs) in
    let shown = take 51 sorted in
    ap (λ r. printed (report w swapped r))
      (show_procs-take w s.ws swapped 51 0 sorted no_totals refl (omega arith) (omega arith)
          (omega arith)
        ∙ shown_eq (map (row_of w s.ws swapped) shown) _ _ _ _ _ _ (omega arith) (omega arith)
            (omega arith))

with_pids-some :
    (qsort : (ProcInfo → ProcInfo → ℤ) → List ProcInfo → List ProcInfo) (w : World) (s : Settings)
    (pids : List ℕ)
    → w.calloc ≡ true
    → with_pids qsort w s (some pids) ≡ ranked qsort w s (measure w s pids)
unfolding with_pids
with_pids-some qsort w s pids memory = rw memory refl

ranked-kept :
    (qsort : (ProcInfo → ProcInfo → ℤ) → List ProcInfo → List ProcInfo) (w : World) (s : Settings)
    (procs : List ProcInfo)
    → s.ws ≢ ws_reset
    → ranked qsort w s (some procs) ≡ rank qsort w s procs
unfolding ranked
ranked-kept qsort w s procs kept = by_ws s.ws kept
  where
    by_ws :
        (ws : WorkingSet)
        → ws ≢ ws_reset
        → unless_reset qsort w ws (rank qsort w s procs) ≡ rank qsort w s procs
    by_ws ws_off h = refl
    by_ws ws_only h = refl
    by_ws ws_reset h = absurd (h refl)

-- With options that are read and no reset of the working sets, where the processes can be listed and
-- memory is given, procrank prints those that have memory, sorted by the field and in the direction
-- that the options say: a row for each of the first 51, the totals of these rows, pss and uss in
-- kilobytes and swap in bytes, and what `print_mem_info` finds. `qsort` sorts by every comparison that
-- is an order.
pub procrank_main-printed :
    (qsort : (ProcInfo → ProcInfo → ℤ) → List ProcInfo → List ProcInfo) (w : World)
    (args : List String) (s : Settings) (pids : List ℕ) (procs : List ProcInfo)
    → Sorts qsort
    → parse_args args default_settings ≡ ready s
    → s.ws ≢ ws_reset
    → w.pids ≡ some pids
    → w.calloc ≡ true
    → measure w s pids ≡ some procs
    → (sorted : List ProcInfo) × ((procrank_main qsort w args
          ≡ printed (report_of w s.ws (has_swap procs) sorted))
        × (Perm sorted (with_memory procs) × Ranked s.compfn s.order sorted))
unfolding procrank_main run_parsed
procrank_main-printed qsort w args s pids procs sorts parsed kept at_pids memory measured =
    let cmp = compare_by s.compfn s.order in
    let (perm, ordered) =
      sorts cmp (with_memory procs) (compare_by-IsComparison s.compfn s.order) in
    (
      qsort cmp (with_memory procs),
      (
        ap (run_parsed qsort w) parsed
            ∙ ap (with_pids qsort w s) at_pids
            ∙ with_pids-some qsort w s pids memory
            ∙ ap (ranked qsort w s) measured
            ∙ ranked-kept qsort w s procs kept
            ∙ rank-printed qsort w s procs,
        (perm, InOrder-Ranked s.compfn s.order (qsort cmp (with_memory procs)) ordered),
      ),
    )
