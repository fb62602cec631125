-- ===== src/Daemon/Examples.antt =====
-- The handlers at work in small worlds.
use text.Mathlib.Text.{◌==◌ as str_eq}
use lepd.Base.{
  if◌then◌else◌, ltb, ◌≢◌, false, ℕ, ◌≡◌, refl, ap, true, none, some, List, [], ◌∷◌, ◌++◌, String,
  take, replicate, arith, length-replicate,
}
use lepd.Base.CString.{c_string, strlen}
use lepd.Rpc.Procedures.{Procedure, Table}
use lepd.Rpc.Procedures.Search.{IsTable}
use lepd.Daemon.{
  Lock, World, acquires, fault, endstring, proc_buff_size, read_limit, read_proc, run_cmd, run_perf,
}
use lepd.Daemon.Answers.{replied, run_cmd-eq}
use lepd.Daemon.Overflow.{read_proc-bounds}
use lepd.Daemon.Locking.{runs_cmd, run_handler, Balanced, run_handler-Balanced}
use lepd.Daemon.Listing.{Handler, say_hello, listed, list_all_text, list_all_text-listed}
use lepd.Rpc.Procedures.{jrpc_server_destroy}
use lepd.Rpc.Procedures.Destroy.{destroy-IsTable}
use lepd.Daemon.Registered.{registrations, main-IsTable, registrations}

abbrev world : List ℕ → World
world contents = record {
  file = λ path. some contents;
  pipe = true;
  capacity = 65536;
  applet = λ f argv. (b'a' ∷ b'b' ∷ [], true);
  popen = λ before command. some (b'o' ∷ b'k' ∷ []);
}

abbrev small : World
small = world (b'1' ∷ b'2' ∷ [])

read_proc-bounds_example : read_proc small (some "loadavg") ≡ (
    if ltb (strlen (take proc_buff_size (b'1' ∷ b'2' ∷ []))) 8179
    then replied Lock.proc_lock (take proc_buff_size (b'1' ∷ b'2' ∷ []))
    else record { outcome = fault; trace = acquires Lock.proc_lock ∷ [] })
read_proc-bounds_example = read_proc-bounds small "loadavg" (b'1' ∷ b'2' ∷ []) refl

run_cmd-eq_example :
    (run_cmd small (some "ls") ≡ replied Lock.sys_lock (take read_limit (b'o' ∷ b'k' ∷ [])))
    × (run_perf "perf report" small (some "ls")
        ≡ replied Lock.perf_lock (take read_limit (b'o' ∷ b'k' ∷ [])))
run_cmd-eq_example =
    run_cmd-eq small "ls" "perf report" (b'o' ∷ b'k' ∷ []) (b'o' ∷ b'k' ∷ []) refl refl

run_handler-Balanced_example : Balanced (run_handler runs_cmd small (some "ls")).trace
run_handler-Balanced_example =
    run_handler-Balanced runs_cmd small (some "ls")
      (some (c_string (take read_limit (b'o' ∷ b'k' ∷ [])) ++ endstring))
      (ap (λ h. h.outcome) run_cmd-eq_example.0)

abbrev one : List (Procedure Handler String)
one = record { name = "Hi"; function = say_hello; data_ptr = none } ∷ []

abbrev one_table : Table Handler String
one_table = record {
  procedure_count = 1;
  procedures = some (some (record { name = "Hi"; function = say_hello; data_ptr = none }) ∷ []);
}

abbrev one_table-IsTable : IsTable one_table one
one_table-IsTable = record { counted = refl; written = refl }

list_all_text-listed_example :
    list_all_text one_table (replicate 8192 b'?') ≡ some (listed one ++ endstring)
list_all_text-listed_example =
    list_all_text-listed one_table one (replicate 8192 b'?') one_table-IsTable (omega arith)
      (omega (arith, length-replicate {A = ℕ} 8192 b'?')) (omega arith)

-- The data pointers that `main` registers are string literals.
some_registered : registrations ≢ []
some_registered e = cc

destroy-IsTable_example : jrpc_server_destroy str_eq (λ literal. false) main-IsTable.0 ≡ none
destroy-IsTable_example =
    (destroy-IsTable str_eq (λ literal. false) main-IsTable.0 registrations main-IsTable.2
        some_registered).1
      refl
