-- ===== src/Cgtop/Examples.antt =====
-- The paths, lines and groups of cgtop.c at concrete inputs.
use lepd.Base.{
  ℕ, zero, suc, ◌-◌, ◌^◌, ◌≡◌, refl, none, some, List, [], ◌∷◌, true, false, replicate, length, All,
  arith, map,
}
use lepd.Base.CString.{c_string, bytes}
use lepd.Cgtop.{Malloc}
use lepd.Cgtop.Slashes.{path_kill_slashes}
use lepd.Cgtop.Slashes.Components.{components, slashed}
use lepd.Cgtop.Slashes.Canonical.{path_kill_slashes-absolute}
use lepd.Cgtop.Slashes.Lengths.{ends_in_slash}
use lepd.Cgtop.Paths.{total_length, cg_get_path, child_path}
use lepd.Cgtop.Paths.Groups.{Holds, cg_get_path-absolute, child_path-absolute}
use lepd.Base.Doubles.{whole}
use lepd.Cgtop.Usage.{Entry, World, Globals}
use lepd.Cgtop.Lines.{sum_lines, strtoull, is_space}
use lepd.Cgtop.Lines.Sums.{Line, IsLine, total, line_text, sum_lines-total}

-- A block of the bytes asked for, all 0, but one byte where none is asked for.
exact : Malloc
exact zero = some (0 ∷ [])
exact (suc n) = some (0 ∷ replicate n 0)

-- The path /sys//a/ in a block with a byte to spare.
abbrev doubled : List ℕ
doubled = bytes "/sys//a/"

path_kill_slashes-absolute_example :
    (f : List ℕ) × ((path_kill_slashes exact doubled ≡ some f)
      × ((c_string f ≡ bytes "/sys/a") × (length f ≡ 8)))
unfolding components c_string exact slashed ends_in_slash
path_kill_slashes-absolute_example =
    (path_kill_slashes-absolute exact doubled (bytes "sys//a/") (replicate 8 0) refl refl
        (omega arith)).0
      (omega arith)

cg_get_path-absolute_example :
    (fs : List ℕ) × ((cg_get_path exact (bytes "memory") (bytes "/a") (bytes "cgroup.procs")
        ≡ some (some fs))
      × Holds fs (bytes "/sys/fs/cgroup/memory/a/cgroup.procs"))
unfolding components c_string slashed exact total_length
cg_get_path-absolute_example =
    (cg_get_path-absolute exact (bytes "memory") (bytes "/a") (bytes "cgroup.procs") (bytes "a")
        (replicate 38 0) (replicate 37 0) refl refl refl (omega arith) (omega arith)).0
      (omega arith)

-- The child b of /a does not fit the block that is asked for.
child_path-absolute_example : child_path exact (bytes "/a") (bytes "b") ≡ none
unfolding components c_string slashed exact total_length
child_path-absolute_example =
    (child_path-absolute exact (bytes "/a") (bytes "b") (bytes "a") (replicate 5 0) (replicate 4 0)
        refl refl (omega arith) refl (omega arith)).1
      refl refl

abbrev lines : List Line
lines =
    record { device = bytes "8:0"; op = bytes "Read"; value = bytes "12" }
    ∷ record { device = bytes "8:0"; op = bytes "Write"; value = bytes "0x10" }
    ∷ record { device = bytes "8:0"; op = bytes "Total"; value = bytes "28" }
    ∷ []

lines-IsLine : All IsLine lines
unfolding is_space
lines-IsLine = ground arith

sum_lines-total_example :
    sum_lines (map line_text lines) (record { rd = 2 ^ 64 - 1; wr = 2 })
    ≡ some (record { rd = 11; wr = 18 })
unfolding total strtoull is_space
sum_lines-total_example =
    sum_lines-total lines (record { rd = 2 ^ 64 - 1; wr = 2 }) lines-IsLine (omega arith)
      (omega arith)

-- Every block has exactly the bytes asked for, all 0.
abbrev zeros : Malloc
zeros n = some (replicate n 0)

abbrev child_group : Entry
child_group = record { name = bytes "b"; is_dir = true }

abbrev parent : Entry
parent = record { name = bytes ".."; is_dir = true }

abbrev world : World
world = record {
  procs = λ t. some (1 ∷ 2 ∷ []);
  content = λ t. none;
  lines = λ t. none;
  entries = λ t. some (parent ∷ child_group ∷ []);
  now = λ c t. 0;
  interval = λ c t. 1;
  stray_process = λ c t. false;
  stray_refresh = λ c t. false;
}

abbrev globals : Globals whole
globals = record { old_time = 0; old_usage = 0; old_rd = 0; old_wr = 0; groups = [] }
