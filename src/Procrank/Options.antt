-- ===== src/Procrank/Options.antt =====
-- The options of procrank.
use text.Mathlib.Text.{◌==◌ as str_eq}
use lepd.Base.{ℕ, List, [], ◌∷◌, String, if◌then◌else◌}

pub data SortField : Type 0 where
  sort_by_vss sort_by_rss sort_by_pss sort_by_uss sort_by_swap : SortField

-- `order` is 1 or -1.
pub data Order : Type 0 where
  ascending descending : Order

pub data WorkingSet : Type 0 where
  ws_off ws_only ws_reset : WorkingSet

pub record Settings : Type 0 where
  pub compfn : SortField
  pub order : Order
  pub ws : WorkingSet
  pub required_flags : ℕ
  pub flags_mask : ℕ

abbrev pub default_settings : Settings
default_settings = record {
  compfn = sort_by_pss;
  order = descending;
  ws = ws_off;
  required_flags = 0;
  flags_mask = 0;
}

abbrev turned : Order → Order
turned ascending = descending
turned descending = ascending

abbrev pub pm_page_swapbacked : ℕ
pm_page_swapbacked = 16384

abbrev pub pm_page_ksm : ℕ
pm_page_ksm = 2097152

-- The settings after an argument; `exits` ends the whole daemon.
pub data Parsed : Type 0 where
  ready : Settings → Parsed
  exits : Parsed
  invalid : Parsed

unfoldable pub parse_arg : String → Settings → Parsed
parse_arg a s =
    if str_eq a "-v"
    then ready (record s { compfn = sort_by_vss })
    else (if str_eq a "-r"
        then ready (record s { compfn = sort_by_rss })
        else (if str_eq a "-p"
            then ready (record s { compfn = sort_by_pss })
            else (if str_eq a "-u"
                then ready (record s { compfn = sort_by_uss })
                else (if str_eq a "-s"
                    then ready (record s { compfn = sort_by_swap })
                    else (if str_eq a "-c"
                        then ready
                            (record s { required_flags = 0; flags_mask = pm_page_swapbacked })
                        else (if str_eq a "-C"
                            then ready (record s {
                              required_flags = pm_page_swapbacked;
                              flags_mask = pm_page_swapbacked;
                            })
                            else (if str_eq a "-k"
                                then ready (record s {
                                  required_flags = pm_page_ksm;
                                  flags_mask = pm_page_ksm;
                                })
                                else (if str_eq a "-w"
                                    then ready (record s { ws = ws_only })
                                    else (if str_eq a "-W"
                                        then ready (record s { ws = ws_reset })
                                        else (if str_eq a "-R"
                                            then ready (record s { order = turned s.order })
                                            else (if str_eq a "-h"
                                                then exits
                                                else invalid)))))))))))

abbrev and_then : Parsed → (Settings → Parsed) → Parsed
and_then (ready s) k = k s
and_then exits k = exits
and_then invalid k = invalid

-- The loop over `argv`, from the first argument.
unfoldable pub parse_args : List String → Settings → Parsed
unfolding parse_arg
parse_args [] s = ready s
parse_args (a ∷ args) s = let rest = parse_args args in and_then (parse_arg a s) rest
