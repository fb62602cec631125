-- ===== src/Daemon.antt =====
-- The procedures of src/server.c: the table of built-in commands, `lookup_func`, and the handlers
-- `read_proc`, `run_builtin_cmd`, `run_cmd`, `run_perf_report_cmd`, `run_perf_script_cmd` and
-- `list_all`. Files, the shell and the applets are a record `World`, an argument of each handler.
pub mod EndMark
pub mod Answers
pub mod Overflow
pub mod Locking
pub mod Dispatch
pub mod Listing
pub mod Registered
pub mod Serving
mod Examples
use text.Mathlib.Text.{◌==◌ as str_eq}
use Prim.Native.Char.{Char, code}
use Prim.Native.String.{◌++◌ as text_append}
use lepd.Base.{
  ℕ, zero, suc, ◌+◌, ◌-◌, Bool, true, false, Option, none, some, List, [], ◌∷◌, ◌++◌, String,
  if◌then◌else◌, ◌>>=◌, ◌==◌, ltb, leb, not, ◌&&◌, take, replicate, length,
}
use lepd.Base.CString.{c_string, splice}
unfoldable use lepd.Base.Strcat.{strcat}

pub data CmdType : Type 0 where
  cmd_type_none cmd_type_sys cmd_type_proc cmd_type_builtin cmd_type_perf cmd_type_max : CmdType

pub data Lock : Type 0 where
  proc_lock perf_lock sys_lock ps_lock sysstat_lock busybox_lock procrank_lock iotop_lock : Lock

-- The functions named by `COMMAND`.
pub data Builtin : Type 0 where
  ps_main cpuinfo_main iostat_main mpstat_main free_main top_main procrank_main iotop_main : Builtin
  df_main dmesg_main cgtop_main irq_info_main : Builtin

pub record BuiltinFuncInfo : Type 0 where
  pub name : String
  pub cmd_type : CmdType
  pub lock : Lock
  pub func : Option Builtin

abbrev builtin : String → Builtin → Lock → BuiltinFuncInfo
builtin n f l = record { name = n; cmd_type = cmd_type_builtin; lock = l; func = some f }

-- The entries before the one of name NULL.
abbrev pub lookup_table : List BuiltinFuncInfo
lookup_table =
    record { name = "sys"; cmd_type = cmd_type_sys; lock = sys_lock; func = none }
    ∷ record { name = "proc"; cmd_type = cmd_type_proc; lock = proc_lock; func = none }
    ∷ record { name = "perf"; cmd_type = cmd_type_perf; lock = perf_lock; func = none }
    ∷ builtin "ps" ps_main ps_lock
    ∷ builtin "cpuinfo" cpuinfo_main sysstat_lock
    ∷ builtin "iostat" iostat_main sysstat_lock
    ∷ builtin "mpstat" mpstat_main sysstat_lock
    ∷ builtin "free" free_main busybox_lock
    ∷ builtin "top" top_main busybox_lock
    ∷ builtin "procrank" procrank_main procrank_lock
    ∷ builtin "iotop" iotop_main iotop_lock
    ∷ builtin "df" df_main busybox_lock
    ∷ builtin "dmesg" dmesg_main busybox_lock
    ∷ builtin "cgtop" cgtop_main sysstat_lock
    ∷ builtin "irq_info" irq_info_main sysstat_lock
    ∷ []

unfoldable pub find_info : List BuiltinFuncInfo → String → Option BuiltinFuncInfo
find_info [] name = none
find_info (p ∷ ps) name =
    let rest = find_info ps name in if str_eq name p.name then some p else rest

unfoldable pub lookup_func : String → Option BuiltinFuncInfo
unfolding find_info
lookup_func name = find_info lookup_table name

abbrev pub endstring : List ℕ
endstring =
    b'l' ∷ b'e' ∷ b'p' ∷ b'd' ∷ b'e' ∷ b'n' ∷ b'd' ∷ b's' ∷ b't' ∷ b'r' ∷ b'i' ∷ b'n' ∷ b'g' ∷ []

abbrev pub proc_buff_size : ℕ
proc_buff_size = 8192

abbrev pub cmd_buff_size : ℕ
cmd_buff_size = 16384

-- The end of each handler: the bytes lie in a zeroed buffer, the end mark is appended, and
-- `cJSON_CreateString` copies the text.
unfoldable pub answer : ℕ → List ℕ → Option (List ℕ)
unfolding strcat splice
answer size got =
    splice 0 got (replicate size 0) >>= λ b. strcat b endstring >>= λ b'. some (c_string b')

pub data LockEvent : Type 0 where
  acquires : Lock → LockEvent
  releases : Lock → LockEvent

-- A handler returns text or NULL, faults, or waits for ever.
pub data Outcome : Type 0 where
  returned : Option (List ℕ) → Outcome
  fault : Outcome
  blocked : Outcome

pub record Handled : Type 0 where
  pub outcome : Outcome
  pub trace : List LockEvent

-- The world outside: what a read of a file finds, `none` if it does not open; whether `pipe` makes a
-- pipe, and of what capacity; what an applet writes, and whether it closes the descriptor; what
-- `popen` of a command reads after the given commands were run, `none` if it fails.
pub record World : Type 0 where
  pub file : String → Option (List ℕ)
  pub pipe : Bool
  pub capacity : ℕ
  pub applet : Builtin → List String → List ℕ × Bool
  pub popen : List String → String → Option (List ℕ)

-- `snprintf` of at most `n` characters.
abbrev pub first_chars : ℕ → String → String
first_chars zero s = String.[]
first_chars (suc n) String.[] = String.[]
first_chars (suc n) (String.◌∷◌ c s) = String.◌∷◌ c (first_chars n s)

abbrev pub proc_path : String → String
proc_path d = first_chars 49 (text_append "/proc/" d)

-- The reply of a handler that holds the lock, from the bytes that it read.
unfoldable pub answer_locked : Lock → ℕ → List ℕ → Handled
unfolding answer
answer_locked l size got = elim (answer size got) [
  | none ↦ record { outcome = fault; trace = acquires l ∷ [] }
  | some t ↦ record { outcome = returned (some t); trace = acquires l ∷ releases l ∷ [] }
]

abbrev pub quiet : Outcome → Handled
quiet o = record { outcome = o; trace = [] }

unfoldable pub read_proc : World → Option String → Handled
unfolding lookup_func answer_locked
read_proc w none = quiet (returned none)
read_proc w (some d) = elim (lookup_func "proc") [
  | none ↦ quiet fault
  | some info ↦ elim (w.file (proc_path d)) [
    | none ↦ record {
      outcome = returned none;
      trace = acquires info.lock ∷ releases info.lock ∷ [];
    }
    | some contents ↦ answer_locked info.lock proc_buff_size (take proc_buff_size contents)
  ]
]

-- The tokens that `strtok` finds between spaces: the word before the first space, and the others.
abbrev push_word : String → List String → List String
push_word String.[] ws = ws
push_word (String.◌∷◌ c s) ws = String.◌∷◌ c s ∷ ws

abbrev split_words : String → String × List String
split_words String.[] = (String.[], [])
split_words (String.◌∷◌ c s) =
    let (w, ws) = split_words s in
    if code c == b' ' then (String.[], push_word w ws) else (String.◌∷◌ c w, ws)

unfoldable pub words : String → List String
words s = let (w, ws) = split_words s in push_word w ws

abbrev pub max_cmd_argv : ℕ
max_cmd_argv = 32

-- The room that the handlers leave for the end mark and its 0.
abbrev pub read_limit : ℕ
read_limit = cmd_buff_size - length endstring - 1

-- The applet writes into the pipe that nobody reads yet; then the handler reads once.
unfoldable pub run_applet : World → Lock → Builtin → List String → Handled
unfolding answer_locked
run_applet w l f argv =
    let (written, closed) = w.applet f argv in
    if ltb w.capacity (length written)
    then record { outcome = blocked; trace = acquires l ∷ [] }
    else (if (length written == 0) && not closed
        then record { outcome = blocked; trace = acquires l ∷ [] }
        else answer_locked l cmd_buff_size (take read_limit written))

unfoldable pub run_info : World → List String → BuiltinFuncInfo → Handled
unfolding run_applet
run_info w argv info = elim info.func [
  | none ↦ quiet (returned none)
  | some f ↦
      if w.pipe
      then run_applet w info.lock f argv
      else record { outcome = returned none; trace = acquires info.lock ∷ releases info.lock ∷ [] }
]

-- `lookup_func` of a NULL name, a NULL entry, and a word past the end of `argv` are faults.
unfoldable pub run_argv : World → List String → Handled
unfolding lookup_func run_info
run_argv w [] = quiet fault
run_argv w (r ∷ ws) =
    if leb max_cmd_argv (length (r ∷ ws))
    then quiet fault
    else elim (lookup_func r) [ none ↦ quiet fault | some info ↦ run_info w (r ∷ ws) info ]

unfoldable pub run_builtin_cmd : World → Option String → Handled
unfolding words run_argv
run_builtin_cmd w none = quiet (returned none)
run_builtin_cmd w (some d) = run_argv w (words d)

-- The lock is taken once the pipe to the command is open.
unfoldable pub run_cmd : World → Option String → Handled
unfolding lookup_func answer_locked
run_cmd w none = quiet (returned none)
run_cmd w (some d) = elim (lookup_func "sys") [
  | none ↦ quiet fault
  | some info ↦ elim (w.popen [] d) [
    | none ↦ quiet (returned none)
    | some out ↦ answer_locked info.lock cmd_buff_size (take read_limit out)
  ]
]

-- `run_perf_report_cmd` and `run_perf_script_cmd` differ in the second command.
unfoldable pub run_perf : String → World → Option String → Handled
unfolding lookup_func answer_locked
run_perf second w none = quiet (returned none)
run_perf second w (some d) = elim (lookup_func "perf") [
  | none ↦ quiet fault
  | some info ↦ elim (w.popen (d ∷ []) second) [
    | none ↦ record {
      outcome = returned none;
      trace = acquires info.lock ∷ releases info.lock ∷ [];
    }
    | some out ↦ answer_locked info.lock cmd_buff_size (take read_limit out)
  ]
]

abbrev pub run_perf_report_cmd : World → Option String → Handled
run_perf_report_cmd = run_perf "perf report"

abbrev pub run_perf_script_cmd : World → Option String → Handled
run_perf_script_cmd = run_perf "perf script"
