-- ===== src/Daemon/Registered.antt =====
-- The procedures that `main` of src/server.c registers, and how it registers them.
use lepd.Base.{
  ◌≤◌, ◌<◌, ◌≡◌, ◌≢◌, inl, refl, sym, ◌∙◌, ap, subst, true, Option, none, some, List, [], ◌∷◌, ◌++◌,
  String, length, take, ◌>>=◌, All, arith, append_assoc, append-nil,
}
use lepd.Rpc.Procedures.{Procedure, Table, Memory, no_procedures, jrpc_register_procedure}
use lepd.Rpc.Procedures.Search.{IsTable}
use lepd.Rpc.Procedures.Register.{register-IsTable, no_procedures-IsTable}
use lepd.Daemon.{
  Lock, Builtin, BuiltinFuncInfo, World, lookup_func, words, run_builtin_cmd, read_limit,
}
use lepd.Daemon.Answers.{replied, run_builtin_cmd-eq}
use lepd.Daemon.Listing.{
  Handler, say_hello, list_all, read_proc_handler, run_builtin_handler, perf_report_handler,
  perf_script_handler,
}

abbrev entry : Handler → String → Option String → Procedure Handler String
entry f n d = record { name = n; function = f; data_ptr = d }

abbrev proc : String → String → Procedure Handler String
proc n d = entry read_proc_handler n (some d)

abbrev cmd : String → String → Procedure Handler String
cmd n d = entry run_builtin_handler n (some d)

-- The calls of `jrpc_register_procedure` in `main`, in order.
abbrev pub registrations : List (Procedure Handler String)
registrations =
    entry say_hello "SayHello" none
    ∷ entry list_all "ListAllMethod" none
    ∷ proc "GetProcMeminfo" "meminfo"
    ∷ proc "GetProcLoadavg" "loadavg"
    ∷ proc "GetProcVmstat" "vmstat"
    ∷ proc "GetProcZoneinfo" "zoneinfo"
    ∷ proc "GetProcBuddyinfo" "buddyinfo"
    ∷ proc "GetProcCpuinfo" "cpuinfo"
    ∷ proc "GetProcSlabinfo" "slabinfo"
    ∷ proc "GetProcSwaps" "swaps"
    ∷ proc "GetProcInterrupts" "interrupts"
    ∷ proc "GetProcSoftirqs" "softirqs"
    ∷ proc "GetProcDiskstats" "diskstats"
    ∷ proc "GetProcVersion" "version"
    ∷ proc "GetProcStat" "stat"
    ∷ proc "GetProcModules" "modules"
    ∷ proc "GetProcVmallocinfo" "vmallocinfo"
    ∷ cmd "GetCmdIotop" "iotop"
    ∷ cmd "GetCmdFree" "free"
    ∷ cmd "GetCmdProcrank" "procrank"
    ∷ cmd "GetCmdIostat" "iostat -d -x -k"
    ∷ cmd "GetCmdTop" "ps -e -o pid,user,pri,ni,vsize,rss,s,%cpu,%mem,time,cmd --sort=-%cpu "
    ∷ cmd "GetCmdDmesg" "dmesg"
    ∷ cmd "GetCmdDf" "df -h"
    ∷ cmd "GetCpuInfo" "cpuinfo"
    ∷ cmd "GetCmdMpstat" "mpstat -P ALL 1 1"
    ∷ cmd "GetCmdMpstat-I" "mpstat -I ALL 1 1"
    ∷ cmd "GetCmdIrqInfo" "irq_info"
    ∷ cmd "GetCmdCgtop" "cgtop"
    ∷ entry perf_report_handler "GetCmdPerfFaults" (some "perf record -a -e faults sleep 1")
    ∷ entry perf_report_handler "GetCmdPerfCpuclock" (some "perf record -a -e cpu-clock sleep 1")
    ∷ entry perf_script_handler "GetCmdPerfFlame" (some "perf record -F 99 -a -g -- sleep 1")
    ∷ []

-- The calls one after the other; `main` does not look at what they return.
unfoldable pub register_all :
    Memory → List (Procedure Handler String) → Table Handler String → Option (Table Handler String)
register_all m [] t = some t
register_all m (p ∷ ps) t =
    jrpc_register_procedure m t p.function p.name p.data_ptr >>= λ (t', ok). register_all m ps t'

register_all-IsTable :
    (ps past : List (Procedure Handler String)) (t : Table Handler String)
    → IsTable t past
    → (t' : Table Handler String) × (register_all (record { array = true; string = true }) ps t
        ≡ some t')
      × IsTable t' (past ++ ps)
unfolding register_all
register_all-IsTable [] past t v = (t, refl, subst (IsTable t) (sym (append-nil past)) v)
register_all-IsTable (p ∷ ps) past t v =
    let (t1, e1, v1) = register-IsTable t past p.function p.name p.data_ptr v in
    let (t2, e2, v2) = register_all-IsTable ps (past ++ p ∷ []) t1 v1 in
    (t2, rw e1 e2, subst (IsTable t2) (append_assoc past (p ∷ []) ps) v2)

-- With memory, `main` leaves a well-formed table of its procedures.
pub main-IsTable :
    (t : Table Handler String) × (register_all
        (record { array = true; string = true })
        registrations
        no_procedures
      ≡ some t)
    × IsTable t registrations
main-IsTable = register_all-IsTable registrations [] no_procedures no_procedures-IsTable

-- The built-in commands that `main` registers.
abbrev pub commands : List (Procedure Handler String) → List String
commands [] = []
commands (p ∷ ps) =
    let rest = commands ps in
    elim p.function [
      | run_builtin_handler ↦ elim p.data_ptr [ none ↦ rest | some d ↦ d ∷ rest ]
      | _ ↦ rest
    ]

-- Where a command line goes: the lock, the applet, and its words.
abbrev target_of : List String → Option (Lock × Builtin × List String)
target_of [] = none
target_of (r ∷ ws) = lookup_func r >>= λ info. info.func >>= λ f. some (info.lock, f, r ∷ ws)

abbrev pub target : String → Option (Lock × Builtin × List String)
target d = target_of (words d)

-- The line goes to an applet, and the applet's reply is the handler's.
abbrev pub Answers : World → String → Type 0
Answers w d =
    (l : Lock) × (f : Builtin) × (argv : List String) × (target d ≡ some (l, f, argv))
    × (run_builtin_cmd w (some d) ≡ replied l (take read_limit (w.applet f argv).0))

module _ (w : World) (piped : w.pipe ≡ true)
    (writes : (f : Builtin) (argv : List String) → length (w.applet f argv).0 ≢ 0)
    (fits : (f : Builtin) (argv : List String) → length (w.applet f argv).0 ≤ w.capacity) where
  answers :
      (d r : String) (ws : List String) (info : BuiltinFuncInfo) (f : Builtin)
      → words d ≡ r ∷ ws
      → length ws < 31
      → lookup_func r ≡ some info
      → info.func ≡ some f
      → Answers w d
  answers d r ws info f line few found main = (
    info.lock,
    f,
    r ∷ ws,
    ap target_of line ∙ rw (found, main) refl,
    run_builtin_cmd-eq w d r ws info f line few found main piped (fits f (r ∷ ws))
        (inl (writes f (r ∷ ws))),
  )

  -- Every built-in command that `main` registers goes to an applet, and is answered with the text
  -- of the first 16370 bytes that the applet writes and the end mark, in each world with a pipe
  -- where every applet writes something, and no more than the pipe holds.
  pub commands-Answers : All (Answers w) (commands registrations)
  unfolding lookup_func words
  commands-Answers = (
    answers _ _ _ _ _ refl (omega arith) refl refl,
    (
      answers _ _ _ _ _ refl (omega arith) refl refl,
      (
        answers _ _ _ _ _ refl (omega arith) refl refl,
        (
          answers _ _ _ _ _ refl (omega arith) refl refl,
          (
            answers _ _ _ _ _ refl (omega arith) refl refl,
            (
              answers _ _ _ _ _ refl (omega arith) refl refl,
              (
                answers _ _ _ _ _ refl (omega arith) refl refl,
                (
                  answers _ _ _ _ _ refl (omega arith) refl refl,
                  (
                    answers _ _ _ _ _ refl (omega arith) refl refl,
                    (
                      answers _ _ _ _ _ refl (omega arith) refl refl,
                      (
                        answers _ _ _ _ _ refl (omega arith) refl refl,
                        (answers _ _ _ _ _ refl (omega arith) refl refl, tt),
                      ),
                    ),
                  ),
                ),
              ),
            ),
          ),
        ),
      ),
    ),
  )
