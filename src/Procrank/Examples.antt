-- ===== src/Procrank/Examples.antt =====
-- procrank with a sort in the place of `qsort`, over three processes.
use mathlib.Core.List.{Perm}
use lepd.Base.{
  ℕ, ◌≡◌, ◌≢◌, refl, none, Bool, true, false, some, List, [], ◌∷◌, arith, length, ◌∙◌, ap, zero,
  suc, if◌then◌else◌, ◌==◌, ◌*◌,
}
use lepd.Base.Int.{ℤ, pos, negsuc}
use lepd.Iotop.{exchange_sort}
use lepd.Iotop.Sorting.{IsOrder, Descending, exchange_sort-Perm, exchange_sort-Descending}
use lepd.Procrank.Options.{
  sort_by_rss, ascending, ws_off, ws_reset, Settings, default_settings, parse_args,
}
use lepd.Procrank.{
  MemUsage, ProcInfo, World, has_swap, with_memory, printed, procrank_main, measure, no_usage,
}
use lepd.Procrank.Ranking.{negated, positive, IsComparison, InOrder, Sorts, Ranked}
use lepd.Procrank.Printed.{report_of, procrank_main-printed}

unfoldable behind : (ProcInfo → ProcInfo → ℤ) → ProcInfo → ProcInfo → Bool
behind cmp q p = positive (cmp p q)

sort_by : (ProcInfo → ProcInfo → ℤ) → List ProcInfo → List ProcInfo
unfolding exchange_sort behind
sort_by cmp ps = exchange_sort (behind cmp) (length ps) ps

positive-negated : (c : ℤ) → positive c ≡ true → positive (negated c) ≡ false
positive-negated (pos zero) h = refl
positive-negated (pos (suc n)) h = refl
positive-negated (negsuc n) h = absurd cc

behind-IsOrder : (cmp : ProcInfo → ProcInfo → ℤ) → IsComparison cmp → IsOrder (behind cmp)
unfolding behind
behind-IsOrder cmp c = record {
  asym = λ p q h. ap positive (c.opposite p q) ∙ positive-negated (cmp p q) h;
  trans = λ p q r h k. c.trans r q p k h;
}

Descending-InOrder :
    (cmp : ProcInfo → ProcInfo → ℤ) (ps : List ProcInfo)
    → Descending (behind cmp) ps
    → InOrder cmp ps
unfolding behind
Descending-InOrder cmp [] h = tt
Descending-InOrder cmp (p ∷ ps) h = (h.0, Descending-InOrder cmp ps h.1)

sort_by-Sorts : Sorts sort_by
unfolding sort_by
sort_by-Sorts cmp ps c = (
  exchange_sort-Perm (behind cmp) (length ps) ps,
  Descending-InOrder cmp (exchange_sort (behind cmp) (length ps) ps)
      (exchange_sort-Descending (behind cmp) (behind-IsOrder cmp c) (length ps) ps (omega arith)),
)

abbrev used : ℕ → MemUsage
used n = record { vss = n; rss = n; pss = n; uss = n; swap = 0 }

abbrev world : World
world = record {
  pids = some (7 ∷ 8 ∷ 9 ∷ []);
  calloc = true;
  malloc = λ pid. true;
  create = λ pid. true;
  usage_flags = λ mask required pid. if pid == 8 then no_usage else used (pid * 2048);
  workingset = λ pid. no_usage;
  cmdline = λ pid. "init";
  meminfo = none;
  atoll = length;
}

abbrev procs : List ProcInfo
procs =
    record { pid = 7; usage = used 14336 }
    ∷ record { pid = 8; usage = no_usage }
    ∷ record { pid = 9; usage = used 18432 }
    ∷ []

abbrev settings : Settings
settings = record default_settings { compfn = sort_by_rss; order = ascending }

not_reset : ws_off ≢ ws_reset
not_reset e = cc

procrank_main-printed_example :
    (sorted : List ProcInfo) × ((procrank_main sort_by world ("-r" ∷ "-R" ∷ [])
        ≡ printed (report_of world ws_off false sorted))
      × (Perm sorted (with_memory procs) × Ranked sort_by_rss ascending sorted))
unfolding has_swap parse_args measure
procrank_main-printed_example =
    procrank_main-printed sort_by world ("-r" ∷ "-R" ∷ []) settings (7 ∷ 8 ∷ 9 ∷ []) procs
      sort_by-Sorts refl not_reset refl refl refl
