-- ===== src/Rpc/Procedures/Examples.antt =====
-- A table of three procedures, two of them under one name, and the theorems at it.
use lepd.Base.{◌==◌, ◌>>=◌, ℕ, some, ◌≡◌, refl, true, List, [], ◌∷◌, String}
use lepd.Rpc.Procedures.{
  Live, Procedure, Table, jrpc_register_procedure, jrpc_deregister_procedure, find_procedure,
}
use lepd.Rpc.Procedures.Search.{IsTable, cells}
use lepd.Rpc.Procedures.Register.{find-register}
use lepd.Rpc.Procedures.Deregister.{freed, removed, deregister-IsTable}

abbrev procedure : String → ℕ → Procedure ℕ ℕ
procedure name f = record { name = name; function = f; data_ptr = some f }

abbrev three : List (Procedure ℕ ℕ)
three = procedure "a" 1 ∷ procedure "b" 2 ∷ procedure "a" 3 ∷ []

abbrev table : Table ℕ ℕ
table = record {
  procedure_count = 3;
  procedures = some (some (procedure "a" 1) ∷ some (procedure "b" 2) ∷ some (procedure "a" 3) ∷ []);
}

table-IsTable : IsTable table three
table-IsTable = record { counted = refl; written = refl }

abbrev grown : Table ℕ ℕ
grown = record {
  procedure_count = 4;
  procedures = some (
      some (procedure "a" 1)
      ∷ some (procedure "b" 2)
      ∷ some (procedure "a" 3)
      ∷ some (procedure "c" 4)
      ∷ []);
}

find-register_example :
    find_procedure grown.procedure_count (cells grown) "c" ≡ some (some (procedure "c" 4))
unfolding jrpc_register_procedure
find-register_example = find-register table grown three 4 "c" "c" (some 4) table-IsTable refl

abbrev live : Live ℕ
live d = true

deregister-IsTable_example :
    (t' : Table ℕ ℕ) × (jrpc_deregister_procedure ◌==◌ live true table "a"
      ≡ (freed ◌==◌ "a" three live >>= λ live'. some (t', true, live')))
    × IsTable t' (removed ◌==◌ "a" three)
deregister-IsTable_example = deregister-IsTable ◌==◌ live table _ three "a" refl table-IsTable
