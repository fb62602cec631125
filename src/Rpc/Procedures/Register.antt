-- ===== src/Rpc/Procedures/Register.antt =====
-- What `jrpc_register_procedure` does to a table, with memory and without.
use text.Mathlib.Text.{◌==◌ as str_eq}
use lepd.Base.{
  suc, ◌≡◌, refl, ap, true, false, Option, none, some, List, [], ◌∷◌, ◌++◌, map, String,
  if◌then◌else◌, get_elem?, set, take, replicate, length, arith, length-append, Option-cases, inl,
  inr, ◌⊎◌,
}
use lepd.Rpc.Procedures.{
  Procedure, Table, Memory, no_procedures, jrpc_register_procedure, find_procedure,
}
use lepd.Rpc.Procedures.Search.{IsTable, cells, last_named-snoc, find_procedure-IsTable}

module _ {F D : Type 0} where
  pub no_procedures-IsTable : IsTable {F = F} {D = D} no_procedures []
  unfolding no_procedures
  no_procedures-IsTable = record { counted = refl; written = refl }

  set_last :
      (ps : List (Procedure F D)) (r : List (Option (Procedure F D))) (p : Procedure F D)
      → set (take (suc (length ps)) (map some ps ++ none ∷ r)) (length ps) (some p)
        ≡ map some (ps ++ p ∷ [])
  set_last [] r p = refl
  set_last (q ∷ ps) r p = ap (◌∷◌ (some q)) (set_last ps r p)

  map-nil : (ps : List (Procedure F D)) → map some ps ≡ [] → ps ≡ []
  map-nil [] e = refl
  map-nil (p ∷ ps) e = cc

  module _ (t : Table F D) (ps : List (Procedure F D)) (p : Procedure F D) (v : IsTable t ps) where
    appended : Table F D
    appended = record {
      procedure_count = suc t.procedure_count;
      procedures = some (map some (ps ++ p ∷ []));
    }

    appended-IsTable : IsTable appended (ps ++ p ∷ [])
    unfolding appended
    appended-IsTable = record {
      counted = omega (arith, length-append ps (p ∷ []), v.counted);
      written = refl;
    }

    register_appends :
        jrpc_register_procedure
          (record { array = true; string = true })
          t
          p.function
          p.name
          p.data_ptr
        ≡ some (appended, true)
    unfolding jrpc_register_procedure appended
    register_appends = elim (Option-cases t.procedures) [
      | inl e ↦
          let none_left = map-nil ps (ground (arith, v.written)) in
          rw (none_left, jrpc_register_procedure) (ground (arith, v.counted, ap length none_left))
      | inr (xs, e) ↦
          let same : xs ≡ map some ps = ground (arith, v.written) in
          rw (e, jrpc_register_procedure)
            (rw (same, v.counted) (ground (arith, set_last ps (replicate (length ps) none) p)))
    ]

  -- With memory, a procedure is appended to the table and 0 is returned.
  pub register-IsTable :
      (t : Table F D) (ps : List (Procedure F D)) (f : F) (name : String) (d : Option D)
      → IsTable t ps
      → (t' : Table F D) × (jrpc_register_procedure
            (record { array = true; string = true })
            t
            f
            name
            d
          ≡ some (t', true))
        × IsTable t' (ps ++ record { name = name; function = f; data_ptr = d } ∷ [])
  register-IsTable t ps f name d v = (
    appended t ps (record { name = name; function = f; data_ptr = d }) v,
    register_appends t ps (record { name = name; function = f; data_ptr = d }) v,
    appended-IsTable t ps (record { name = name; function = f; data_ptr = d }) v,
  )

  -- After a registration with memory, a search for its name finds it, and any other search finds
  -- what it found before.
  pub find-register :
      (t t' : Table F D) (ps : List (Procedure F D)) (f : F) (name other : String) (d : Option D)
      → IsTable t ps
      → jrpc_register_procedure (record { array = true; string = true }) t f name d
        ≡ some (t', true)
      → find_procedure t'.procedure_count (cells t') other ≡ (
          if str_eq name other
          then some (some (record { name = name; function = f; data_ptr = d }))
          else find_procedure t.procedure_count (cells t) other)
  find-register t t' ps f name other d v e =
      let (u, r, w) = register-IsTable t ps f name d v in
      let same : t' ≡ u = ground (arith, r) in
      rw
        (
          same,
          find_procedure-IsTable u (ps ++ record { name = name; function = f; data_ptr = d } ∷ [])
              other w,
          last_named-snoc ps (record { name = name; function = f; data_ptr = d }) other,
          find_procedure-IsTable t ps other v,
        )
        (ground arith)

  get_past : (ps : List (Procedure F D)) → get_elem? (map some ps) (length ps) ≡ none
  get_past [] = refl
  get_past (p ∷ ps) = get_past ps

  get_unwritten :
      (ps : List (Procedure F D)) (r : List (Option (Procedure F D)))
      → get_elem?
          (set (take (suc (length ps)) (map some ps ++ none ∷ r)) (length ps) none)
          (length ps)
        ≡ some none
  get_unwritten [] r = refl
  get_unwritten (p ∷ ps) r = get_unwritten ps r

  module _ (m : Memory) (t t' : Table F D) (ps : List (Procedure F D)) (f : F) (name : String)
      (d : Option D) (v : IsTable t ps)
      (failed : jrpc_register_procedure m t f name d ≡ some (t', false)) where
    failed_count : t'.procedure_count ≡ suc (length ps)
    unfolding jrpc_register_procedure
    failed_count = ground (arith, v.counted)

    failed_cell :
        (get_elem? (cells t') (length ps) ≡ none) ⊎ (get_elem? (cells t') (length ps) ≡ some none)
    unfolding jrpc_register_procedure
    failed_cell = elim (Option-cases t.procedures) [
      | inl e ↦
          let none_left = map-nil ps (ground (arith, v.written)) in
          ground (arith, v.counted, ap length none_left)
      | inr (xs, e) ↦
          let same : xs ≡ map some ps = ground (arith, v.written) in
          ground (arith, v.counted, get_past ps, get_unwritten ps (replicate (length ps) none))
    ]

  -- A registration that returned -1 has counted a cell that holds no name: whatever name is asked
  -- for, the next search faults at that cell.
  pub find-register_failed :
      (m : Memory) (t t' : Table F D) (ps : List (Procedure F D)) (f : F) (name other : String)
      (d : Option D)
      → IsTable t ps
      → jrpc_register_procedure m t f name d ≡ some (t', false)
      → find_procedure t'.procedure_count (cells t') other ≡ none
  unfolding find_procedure
  find-register_failed m t t' ps f name other d v e =
      let count = failed_count m t t' ps f name d v e in
      elim (failed_cell m t t' ps f name d v e) [
        | inl outside ↦ rw (count, find_procedure) (ground arith)
        | inr unnamed ↦ rw (count, find_procedure) (ground arith)
      ]
