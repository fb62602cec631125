-- ===== src/Daemon/Serving/Lookup.antt =====
-- The table of src/server.c as `invoke_procedure` of src/jsonrpc-c.c searches it.
use text.Mathlib.Text.{◌==◌ as str_eq}
use lepd.Base.{
  ℕ, suc, ◌≡◌, refl, sym, ◌∙◌, ap, subst, inl, inr, Option, none, some, List, [], ◌∷◌, map, String,
  length, All, Option-cases, Bool-cases,
}
use lepd.Rpc.Json.{CJson}
use lepd.Rpc.Procedures.{Procedure, Table}
use lepd.Rpc.Procedures.Search.{cells, IsTable, last_named}
use lepd.Rpc.Request.{JrpcFunction}
use lepd.Daemon.{World}
use lepd.Daemon.Listing.{
  Handler, say_hello, list_all, read_proc_handler, run_builtin_handler, perf_report_handler,
  perf_script_handler,
}
use lepd.Daemon.Registered.{commands}
use lepd.Daemon.Serving.{Journal, c_procedure, c_cell, c_table}

module _ (w : World) (my_server : Table Handler String) (stack : List ℕ) (j : CJson)
    (create_text : List ℕ → j.Node) where
  abbrev pub c_of : Procedure Handler String → Procedure (JrpcFunction j Journal) String
  c_of = c_procedure w my_server stack j create_text

  abbrev cell_of :
      Option (Procedure Handler String) → Option (Procedure (JrpcFunction j Journal) String)
  cell_of = c_cell w my_server stack j create_text

  cells-c_table :
      (t : Table Handler String)
      → cells (c_table w my_server stack j create_text t) ≡ map cell_of (cells t)
  unfolding c_table
  cells-c_table t = elim (Option-cases t.procedures) [ inl e ↦ rw e refl | inr (ps, e) ↦ rw e refl ]

  map-written :
      (ps : List (Procedure Handler String)) → map cell_of (map some ps) ≡ map some (map c_of ps)
  map-written [] = refl
  map-written (p ∷ ps) = ap (◌∷◌ (some (c_of p))) (map-written ps)

  length-c_of : (ps : List (Procedure Handler String)) → length (map c_of ps) ≡ length ps
  length-c_of [] = refl
  length-c_of (p ∷ ps) = ap suc (length-c_of ps)

  pub c_table-IsTable :
      (t : Table Handler String) (ps : List (Procedure Handler String))
      → IsTable t ps
      → IsTable (c_table w my_server stack j create_text t) (map c_of ps)
  unfolding c_table
  c_table-IsTable t ps v = record {
    counted = v.counted ∙ sym (length-c_of ps);
    written = cells-c_table t ∙ (ap (map cell_of) v.written ∙ map-written ps);
  }

  abbrev pub c_option :
      Option (Procedure Handler String) → Option (Procedure (JrpcFunction j Journal) String)
  c_option none = none
  c_option (some p) = some (c_of p)

  pub last_named-map :
      (ps : List (Procedure Handler String)) (m : String)
      → last_named (map c_of ps) m ≡ c_option (last_named ps m)
  unfolding last_named c_procedure
  last_named-map [] m = refl
  last_named-map (q ∷ ps) m = elim (Option-cases (last_named ps m)) [
    | inl e ↦ elim (Bool-cases (str_eq q.name m)) [
      | inl same ↦ rw (last_named-map ps m, e, same) refl
      | inr other ↦ rw (last_named-map ps m, e, other) refl
    ]
    | inr (r, e) ↦ rw (last_named-map ps m, e) refl
  ]

-- The search finds a member.
pub last_named-All :
    (P : Procedure Handler String → Type 0) (ps : List (Procedure Handler String)) (m : String)
    (p : Procedure Handler String)
    → All P ps
    → last_named ps m ≡ some p
    → P p
unfolding last_named
last_named-All P [] m p all h = cc
last_named-All P (q ∷ ps) m p all h = elim (Option-cases (last_named ps m)) [
  | inl e ↦ elim (Bool-cases (str_eq q.name m)) [
    | inl same ↦ let q_is_p : q ≡ p = let h' = rw (e, same) at h in cc in subst P q_is_p all.0
    | inr other ↦ let h' = rw (e, other) at h in cc
  ]
  | inr (r, e) ↦ let h' = rw e at h in last_named-All P ps m p all.1 (e ∙ h')
]

abbrev pub CommandOf : (String → Type 0) → Procedure Handler String → Type 0
CommandOf P p = (d : String) → p.function ≡ run_builtin_handler → p.data_ptr ≡ some d → P d

-- What holds of the built-in commands holds of the procedures that run them.
pub commands-All :
    (P : String → Type 0) (ps : List (Procedure Handler String))
    → All P (commands ps)
    → All (CommandOf P) ps
commands-All P [] all = tt
commands-All P (p ∷ ps) all =
    let (this, others) = by_handler p.function p.data_ptr (commands ps) all in
    (this, commands-All P ps others)
  where
    by_handler :
        (f : Handler) (o : Option String) (rest : List String)
        → All P
            (elim f [ run_builtin_handler ↦ elim o [ none ↦ rest | some d ↦ d ∷ rest ] | _ ↦ rest ])
        → ((d : String) → f ≡ run_builtin_handler → o ≡ some d → P d) × All P rest
    by_handler run_builtin_handler none rest h = (λ d e e'. cc, h)
    by_handler run_builtin_handler (some d) rest h =
        (λ d' e e'. let same : d ≡ d' = cc in subst P same h.0, h.1)
    by_handler say_hello o rest h = (λ d e e'. cc, h)
    by_handler list_all o rest h = (λ d e e'. cc, h)
    by_handler read_proc_handler o rest h = (λ d e e'. cc, h)
    by_handler perf_report_handler o rest h = (λ d e e'. cc, h)
    by_handler perf_script_handler o rest h = (λ d e e'. cc, h)
