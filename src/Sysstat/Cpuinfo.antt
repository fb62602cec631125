-- ===== src/Sysstat/Cpuinfo.antt =====
-- `figureout_cpu` and `cpuinfo_main` of src/modules/sysstat-lite/src/cpuinfo.c over the lines that
-- `fgets` reads from /proc/cpuinfo, each without its 0.
pub mod Named
use lepd.Base.{ℕ, Option, none, some, List, [], ◌∷◌, ◌++◌, Bool, true, if◌then◌else◌, ◌>>=◌, drop}
use lepd.Base.CString.{bytes, begins_with}
use lepd.Sysstat.Stat.{Sscanf}
use lepd.Sysstat.Count.{Entry, get_cpu_nr}

-- The text from the first place of a word on; NULL is `none`.
unfoldable pub strstr : List ℕ → List ℕ → Option (List ℕ)
unfolding begins_with
strstr [] word = if begins_with word [] then some [] else none
strstr (c ∷ s) word =
    let rest = strstr s word in if begins_with word (c ∷ s) then some (c ∷ s) else rest

abbrev pub or_else : Option (List ℕ) → Option (List ℕ) → Option (List ℕ)
or_else none o = o
or_else (some s) o = some s

-- The place of the name of a vendor.
unfoldable pub vendor : List ℕ → Option (List ℕ)
unfolding strstr
vendor s = or_else (strstr s (bytes "ARM")) (
    or_else (strstr s (bytes "AArch64"))
      (or_else (strstr s (bytes "Intel")) (strstr s (bytes "AMD"))))

-- The loop over the lines. A line without a colon gives `strstr` a NULL: a fault. `cpu_name` stands
-- two bytes behind the place of the colon.
unfoldable pub cpu_name : List (List ℕ) → Option (List ℕ)
unfolding vendor
cpu_name [] = some (bytes "unknown")
cpu_name (line ∷ lines) =
    let rest = cpu_name lines in
    strstr line (bytes ":") >>= λ s. elim (vendor s) [ none ↦ rest | some n ↦ some (drop 2 s) ]

-- What is written; nothing, if the file does not open.
unfoldable pub figureout_cpu : Option (List (List ℕ)) → Option (List ℕ)
unfolding cpu_name
figureout_cpu none = some []
figureout_cpu (some lines) = cpu_name lines >>= λ name. some (bytes "cpu_name: " ++ name)

-- The number behind "cpunr: ", and the text behind that line.
unfoldable pub cpuinfo_main :
    Sscanf
    → Option (List Entry)
    → Option (List (List ℕ))
    → Option (List (List ℕ))
    → Option (ℕ × List ℕ)
unfolding figureout_cpu
cpuinfo_main numbers dir stat_file cpuinfo_file = do
  cpu_nr ← get_cpu_nr numbers 4294967295 true dir stat_file
  text ← figureout_cpu cpuinfo_file
  some (cpu_nr, text)
