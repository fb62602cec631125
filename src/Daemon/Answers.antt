-- ===== src/Daemon/Answers.antt =====
-- What the handlers answer when their files, commands and applets give them something to read.
use lepd.Base.{
  ℕ, ◌+◌, ◌≤◌, ◌<◌, ◌≡◌, ◌≢◌, ◌⊎◌, inl, inr, refl, Bool, true, false, some, List, [], ◌∷◌, ◌++◌,
  String, length, take, arith, length-take, leb, ltb, ◌==◌, not, ◌&&◌,
}
use lepd.Base.CString.{c_string, strlen, strlen-le}
use lepd.Daemon.{
  Lock, Builtin, BuiltinFuncInfo, World, Handled, acquires, releases, returned, lookup_func,
  endstring, proc_buff_size, cmd_buff_size, read_limit, max_cmd_argv, proc_path, words,
  answer_locked, read_proc, run_applet, run_info, run_argv, run_builtin_cmd, run_cmd, run_perf,
}
use lepd.Daemon.EndMark.{answer-eq}

-- The reply with the text of these bytes and the end mark, the lock taken and given back.
abbrev pub replied : Lock → List ℕ → Handled
replied l got = record {
  outcome = returned (some (c_string got ++ endstring));
  trace = acquires l ∷ releases l ∷ [];
}

answer_locked-eq :
    (l : Lock) (size : ℕ) (got : List ℕ)
    → length got ≤ size
    → strlen got + length endstring < size
    → answer_locked l size got ≡ replied l got
unfolding answer_locked
answer_locked-eq l size got inside room = rw (answer-eq size got inside room, answer_locked) refl

-- What a command handler reads leaves room for the end mark, whatever the command writes.
command_room :
    (l : Lock) (out : List ℕ)
    → answer_locked l cmd_buff_size (take read_limit out) ≡ replied l (take read_limit out)
command_room l out =
    let few : length (take read_limit out) ≤ 16370 = omega (arith, length-take read_limit out) in
    let text = strlen-le (take read_limit out) in
    answer_locked-eq l cmd_buff_size (take read_limit out) (omega arith) (omega arith)

-- `read_proc` answers the text of the first 8192 bytes of its file with the end mark behind it, if
-- that text is shorter than 8179 bytes.
pub read_proc-eq :
    (w : World) (d : String) (contents : List ℕ)
    → w.file (proc_path d) ≡ some contents
    → strlen (take proc_buff_size contents) < 8179
    → read_proc w (some d) ≡ replied Lock.proc_lock (take proc_buff_size contents)
unfolding read_proc lookup_func
read_proc-eq w d contents opens short = rw opens (
    answer_locked-eq Lock.proc_lock proc_buff_size (take proc_buff_size contents)
      (omega (arith, length-take proc_buff_size contents)) (omega arith))

-- Once its command runs, `run_cmd` answers the text of its first 16370 bytes, with the end mark,
-- under the lock "sys"; the handlers of perf do so under the lock "perf", with what the second
-- command writes after the first.
pub run_cmd-eq :
    (w : World) (d second : String) (out report : List ℕ)
    → w.popen [] d ≡ some out
    → w.popen (d ∷ []) second ≡ some report
    → (run_cmd w (some d) ≡ replied Lock.sys_lock (take read_limit out))
      × (run_perf second w (some d) ≡ replied Lock.perf_lock (take read_limit report))
unfolding run_cmd run_perf lookup_func
run_cmd-eq w d second out report first after =
    (rw first (command_room Lock.sys_lock out), rw after (command_room Lock.perf_lock report))

-- `run_builtin_cmd` of a line of at most 31 words whose first names an applet runs the applet on the
-- words under the applet's lock, and answers the text of the first 16370 bytes that it writes, with
-- the end mark, if there is a pipe, the pipe holds all that is written, and something is written or
-- the applet closes its end.
pub run_builtin_cmd-eq :
    (w : World) (d r : String) (ws : List String) (info : BuiltinFuncInfo) (f : Builtin)
    → words d ≡ r ∷ ws
    → length ws < 31
    → lookup_func r ≡ some info
    → info.func ≡ some f
    → w.pipe ≡ true
    → length (w.applet f (r ∷ ws)).0 ≤ w.capacity
    → (length (w.applet f (r ∷ ws)).0 ≢ 0) ⊎ ((w.applet f (r ∷ ws)).1 ≡ true)
    → run_builtin_cmd w (some d) ≡ replied info.lock (take read_limit (w.applet f (r ∷ ws)).0)
unfolding run_builtin_cmd run_argv run_info run_applet
run_builtin_cmd-eq w d r ws info f line few found main piped room wrote =
    let out : List ℕ = (w.applet f (r ∷ ws)).0 in
    let fits : ltb w.capacity (length out) ≡ false = ground arith in
    let ready : ((length out == 0) && not (w.applet f (r ∷ ws)).1) ≡ false =
      ready_lem (length out) (w.applet f (r ∷ ws)).1 wrote in
    let short : leb max_cmd_argv (length (r ∷ ws)) ≡ false = ground arith in
    rw (line, short, found, main, piped, fits, ready) (command_room info.lock out)
  where
    ready_lem :
        (n : ℕ) (closed : Bool) → (n ≢ 0) ⊎ (closed ≡ true) → ((n == 0) && not closed) ≡ false
    ready_lem n closed (inl some_bytes) = ground arith
    ready_lem n true (inr e) = ground arith
    ready_lem n false (inr e) = cc
