-- ===== src/Daemon/Locking.antt =====
-- The locks that the handlers take: one at a time, given back before every return.
use lepd.Base.{
  ℕ, ◌≡◌, refl, Option, none, some, List, [], ◌∷◌, String, length, take, leb, ltb, ◌==◌, not, ◌&&◌,
  Option-cases, Bool-cases, inl, inr, ◌⊎◌,
}
use lepd.Daemon.{
  Lock, Builtin, BuiltinFuncInfo, World, Handled, LockEvent, acquires, releases, returned, blocked,
  cmd_buff_size, proc_buff_size, read_limit, max_cmd_argv, proc_path, words, lookup_func, answer,
  answer_locked, read_proc, run_applet, run_info, run_argv, run_builtin_cmd, run_cmd, run_perf,
}

-- The handler takes no lock, or takes one and gives it back.
abbrev pub Balanced : List LockEvent → Type 0
Balanced trace = (trace ≡ []) ⊎ ((l : Lock) × (trace ≡ acquires l ∷ releases l ∷ []))

-- A handler that returns is balanced.
abbrev ReturnsBalanced : Handled → Type 0
ReturnsBalanced h = (t : Option (List ℕ)) → h.outcome ≡ returned t → Balanced h.trace

answer_locked-Balanced :
    (l : Lock) (size : ℕ) (got : List ℕ) → ReturnsBalanced (answer_locked l size got)
unfolding answer_locked
answer_locked-Balanced l size got t h = elim (Option-cases (answer size got)) [
  | inl e ↦ cc
  | inr (a, e) ↦ inr (l, rw (e, answer_locked) refl)
]

run_applet-Balanced :
    (w : World) (l : Lock) (f : Builtin) (argv : List String)
    → ReturnsBalanced (run_applet w l f argv)
unfolding run_applet
run_applet-Balanced w l f argv t h =
    let (written, closed) = w.applet f argv in
    elim (Bool-cases (ltb w.capacity (length written))) [
      | inl full ↦ absurd (blocked_returns (rw full at h))
      | inr fits ↦ elim (Bool-cases ((length written == 0) && not closed)) [
        | inl waits ↦ absurd (blocked_returns (rw (fits, waits) at h))
        | inr ready ↦
            rw (fits, ready)
              (answer_locked-Balanced l cmd_buff_size (take read_limit written) t
                (rw (fits, ready) at h))
      ]
    ]
  where
    blocked_returns : blocked ≡ returned t → ⊥
    blocked_returns e = cc

run_info-Balanced :
    (w : World) (argv : List String) (info : BuiltinFuncInfo)
    → ReturnsBalanced (run_info w argv info)
unfolding run_info
run_info-Balanced w argv info t h = elim (Option-cases info.func) [
  | inl e ↦ inl (rw e refl)
  | inr (f, e) ↦ elim (Bool-cases w.pipe) [
    | inl piped ↦ rw (e, piped) (run_applet-Balanced w info.lock f argv t (rw (e, piped) at h))
    | inr broken ↦ inr (info.lock, rw (e, broken) refl)
  ]
]

run_argv-Balanced : (w : World) (argv : List String) → ReturnsBalanced (run_argv w argv)
unfolding run_argv
run_argv-Balanced w [] t h = cc
run_argv-Balanced w (r ∷ ws) t h = elim (Bool-cases (leb max_cmd_argv (length (r ∷ ws)))) [
  | inl many ↦ inl (rw many refl)
  | inr few ↦ elim (Option-cases (lookup_func r)) [
    | inl e ↦ inl (rw (few, e) refl)
    | inr (info, e) ↦ rw (few, e) (run_info-Balanced w (r ∷ ws) info t (rw (few, e) at h))
  ]
]

run_builtin_cmd-Balanced : (w : World) (d : Option String) → ReturnsBalanced (run_builtin_cmd w d)
unfolding run_builtin_cmd
run_builtin_cmd-Balanced w none t h = inl refl
run_builtin_cmd-Balanced w (some d) t h = run_argv-Balanced w (words d) t h

read_proc-Balanced : (w : World) (d : Option String) → ReturnsBalanced (read_proc w d)
unfolding read_proc lookup_func
read_proc-Balanced w none t h = inl refl
read_proc-Balanced w (some d) t h = elim (Option-cases (w.file (proc_path d))) [
  | inl e ↦ inr (Lock.proc_lock, rw e refl)
  | inr (contents, e) ↦ rw e (
      answer_locked-Balanced Lock.proc_lock proc_buff_size (take proc_buff_size contents) t
        (rw e at h))
]

run_cmd-Balanced : (w : World) (d : Option String) → ReturnsBalanced (run_cmd w d)
unfolding run_cmd lookup_func
run_cmd-Balanced w none t h = inl refl
run_cmd-Balanced w (some d) t h = elim (Option-cases (w.popen [] d)) [
  | inl e ↦ inl (rw e refl)
  | inr (out, e) ↦
      rw e (answer_locked-Balanced Lock.sys_lock cmd_buff_size (take read_limit out) t (rw e at h))
]

run_perf-Balanced :
    (second : String) (w : World) (d : Option String) → ReturnsBalanced (run_perf second w d)
unfolding run_perf lookup_func
run_perf-Balanced second w none t h = inl refl
run_perf-Balanced second w (some d) t h = elim (Option-cases (w.popen (d ∷ []) second)) [
  | inl e ↦ inr (Lock.perf_lock, rw e refl)
  | inr (out, e) ↦
      rw e (answer_locked-Balanced Lock.perf_lock cmd_buff_size (take read_limit out) t (rw e at h))
]

-- The handlers that take locks.
pub data Locking : Type 0 where
  reads_proc runs_builtin runs_cmd : Locking
  runs_perf : String → Locking

abbrev pub run_handler : Locking → World → Option String → Handled
run_handler reads_proc = read_proc
run_handler runs_builtin = run_builtin_cmd
run_handler runs_cmd = run_cmd
run_handler (runs_perf second) = run_perf second

-- Whichever of `read_proc`, `run_builtin_cmd`, `run_cmd` and the perf handlers runs, and whatever
-- the world answers, a return, of text or of NULL, leaves no lock taken: the handler took no lock,
-- or took one and gave it back.
pub run_handler-Balanced :
    (k : Locking) (w : World) (d : Option String) (t : Option (List ℕ))
    → (run_handler k w d).outcome ≡ returned t
    → Balanced (run_handler k w d).trace
run_handler-Balanced reads_proc w d t h = read_proc-Balanced w d t h
run_handler-Balanced runs_builtin w d t h = run_builtin_cmd-Balanced w d t h
run_handler-Balanced runs_cmd w d t h = run_cmd-Balanced w d t h
run_handler-Balanced (runs_perf second) w d t h = run_perf-Balanced second w d t h
