-- ===== src/Daemon/Serving.antt =====
-- The handlers of src/server.c behind the dispatch of src/jsonrpc-c.c: a registered handler is the
-- function that `invoke_procedure` calls, with its text copied by `cJSON_CreateString`.
pub mod Lookup
pub mod Requests
mod Examples
use lepd.Base.{ℕ, Bool, true, false, Option, none, some, List, [], ◌∷◌, ◌++◌, map, String}
use lepd.Base.CString.{bytes}
use lepd.Rpc.Json.{CJson}
use lepd.Rpc.Procedures.{Procedure, Table}
use lepd.Rpc.Request.{JrpcFunction}
use lepd.Daemon.{
  World, Handled, LockEvent, Outcome, returned, fault, blocked, quiet, read_proc, run_builtin_cmd,
  run_perf_report_cmd, run_perf_script_cmd,
}
use lepd.Daemon.Listing.{
  Handler, say_hello, list_all, read_proc_handler, run_builtin_handler, perf_report_handler,
  perf_script_handler, list_all_text,
}

-- What the handlers did: the locks in order, and whether one of them did not come back, by a fault
-- or a wait for ever. What follows such a call is never run.
pub record Journal : Type 0 where
  pub events : List LockEvent
  pub stopped : Bool

abbrev pub hello_text : List ℕ
hello_text = bytes "Hello!lepdendstring"

module _ (w : World) (my_server : Table Handler String) (stack : List ℕ) where
  -- `stack` is what `list_all` finds in the second half of its buffer.
  unfoldable pub run_registered : Handler → Option String → Handled
  unfolding list_all_text
  run_registered say_hello d = quiet (returned (some hello_text))
  run_registered list_all d =
      quiet (elim (list_all_text my_server stack) [ none ↦ fault | some t ↦ returned (some t) ])
  run_registered read_proc_handler d = read_proc w d
  run_registered run_builtin_handler d = run_builtin_cmd w d
  run_registered perf_report_handler d = run_perf_report_cmd w d
  run_registered perf_script_handler d = run_perf_script_cmd w d

  module _ (j : CJson) (create_text : List ℕ → j.Node) where
    abbrev pub text_node : Outcome → Option j.Node
    text_node (returned (some t)) = some (create_text t)
    text_node _ = none

    abbrev pub stops : Outcome → Bool
    stops (returned t) = false
    stops _ = true

    -- No handler sets an error or reads the parameters.
    unfoldable pub c_function : Handler → JrpcFunction j Journal
    unfolding run_registered
    c_function h ctx params id past =
        let r = run_registered h ctx.data_ptr in
        (
          text_node r.outcome,
          ctx,
          elim past.stopped [
            | true ↦ past
            | false ↦ record { events = past.events ++ r.trace; stopped = stops r.outcome }
          ],
        )

    unfoldable pub c_procedure :
        Procedure Handler String → Procedure (JrpcFunction j Journal) String
    unfolding c_function
    c_procedure p = record {
      name = p.name;
      function = c_function p.function;
      data_ptr = p.data_ptr;
    }

    abbrev pub c_cell :
        Option (Procedure Handler String) → Option (Procedure (JrpcFunction j Journal) String)
    c_cell none = none
    c_cell (some p) = some (c_procedure p)

    -- The table as `invoke_procedure` reads it, with the functions at their addresses.
    unfoldable pub c_table : Table Handler String → Table (JrpcFunction j Journal) String
    unfolding c_procedure
    c_table t = record {
      procedure_count = t.procedure_count;
      procedures = elim t.procedures [ none ↦ none | some ps ↦ some (map c_cell ps) ];
    }
