-- ===== src/Daemon/Dispatch.antt =====
-- The dispatch of src/jsonrpc-c.c on the table that `main` of src/server.c fills.
use lepd.Base.{◌≡◌, ap, ◌∙◌, true, some, List, String, All, All-map, arith}
use lepd.Rpc.Procedures.{Procedure, Table, no_procedures, find_procedure}
use lepd.Rpc.Procedures.Search.{cells, last_named, find_procedure-IsTable}
use lepd.Daemon.Listing.{Handler}
use lepd.Daemon.Registered.{registrations, register_all, main-IsTable}

abbrev Finds : List (Procedure Handler String) → Procedure Handler String → Type 0
Finds ps p = last_named ps p.name ≡ some p

each_named : All (Finds registrations) registrations
unfolding last_named
each_named = ground arith

-- After the registrations of `main`, with memory, the search of `invoke_procedure` finds for each
-- method that is registered its handler and its data.
pub main-find :
    (t : Table Handler String) × (register_all
        (record { array = true; string = true })
        registrations
        no_procedures
      ≡ some t)
    × All
        (λ (p : Procedure Handler String).
          find_procedure t.procedure_count (cells t) p.name ≡ some (some p))
        registrations
main-find =
    let (t, run, v) = main-IsTable in
    (
      t,
      run,
      All-map (Finds registrations)
          (λ p. find_procedure t.procedure_count (cells t) p.name ≡ some (some p)) registrations
          (λ p e. find_procedure-IsTable t registrations p.name v ∙ ap some e) each_named,
    )
