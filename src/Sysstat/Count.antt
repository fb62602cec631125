-- ===== src/Sysstat/Count.antt =====
-- The count of the processors: `get_sys_cpu_nr`, `get_proc_cpu_nr` and `get_cpu_nr` of
-- src/modules/sysstat-lite/src/count.c. A number `proc_nr` of the source, from -1 on, is kept as
-- `proc_nr + 1`. The directory, the pieces that `fgets` reads and `sscanf` are arguments.
pub mod Highest
use lepd.Base.{
  ℕ, suc, Option, none, some, List, [], ◌∷◌, Bool, true, false, not, ◌&&◌, ◌==◌, leb, ltb,
  if◌then◌else◌, ◌>>=◌, drop,
}
use lepd.Base.CString.{bytes, begins_with}
use lepd.Sysstat.Stat.{Sscanf}

-- An entry of the directory: its name, and whether it is a directory; `none` if `stat` fails.
pub record Entry : Type 0 where
  pub d_name : List ℕ
  pub is_dir : Option Bool

abbrev pub is_digit : ℕ → Bool
is_digit c = leb b'0' c && leb c b'9'

unfoldable pub digit_first : List ℕ → Bool
digit_first [] = false
digit_first (c ∷ s) = is_digit c

abbrev pub is_dir_of : Option Bool → Bool
is_dir_of none = false
is_dir_of (some b) = b

-- A directory cpu<number>.
unfoldable pub is_cpu : Entry → Bool
unfolding digit_first begins_with
is_cpu e =
    begins_with (bytes "cpu") e.d_name && (digit_first (drop 3 e.d_name) && is_dir_of e.is_dir)

-- `if (num_proc > proc_nr) proc_nr = num_proc;`, where a number that is not read is not set: a fault.
unfoldable pub raised : List ℕ → ℕ → Option ℕ
raised [] next = none
raised (num_proc ∷ ns) next = some (if ltb next (suc num_proc) then suc num_proc else next)

unfoldable pub count_entries : Sscanf → Bool → List Entry → ℕ → Option ℕ
unfolding is_cpu raised
count_entries numbers highest [] next = some next
count_entries numbers highest (e ∷ es) next =
    (if is_cpu e
      then (if highest then raised (numbers 1 (drop 3 e.d_name)) next else some (suc next))
      else some next)
    >>= λ next'. count_entries numbers highest es next'

unfoldable pub get_sys_cpu_nr : Sscanf → Bool → Option (List Entry) → Option ℕ
unfolding count_entries
get_sys_cpu_nr numbers highest none = some 0
get_sys_cpu_nr numbers highest (some entries) = count_entries numbers highest entries 0

unfoldable pub count_pieces : Sscanf → List (List ℕ) → ℕ → Option ℕ
unfolding begins_with raised
count_pieces numbers [] next = some next
count_pieces numbers (line ∷ lines) next =
    (if not (begins_with (bytes "cpu ") line) && begins_with (bytes "cpu") line
      then raised (numbers 1 (drop 3 line)) next
      else some next)
    >>= λ next'. count_pieces numbers lines next'

-- A file that does not open ends the process: `none`.
unfoldable pub get_proc_cpu_nr : Sscanf → Option (List (List ℕ)) → Option ℕ
unfolding count_pieces
get_proc_cpu_nr numbers file = file >>= λ lines. count_pieces numbers lines 0

unfoldable pub get_cpu_nr :
    Sscanf → ℕ → Bool → Option (List Entry) → Option (List (List ℕ)) → Option ℕ
unfolding get_sys_cpu_nr get_proc_cpu_nr
get_cpu_nr numbers max_nr_cpus highest dir file =
    (get_sys_cpu_nr numbers highest dir >>= λ n.
    if n == 0 then get_proc_cpu_nr numbers file else some n)
    >>= λ cpu_nr. if ltb max_nr_cpus cpu_nr then none else some cpu_nr
