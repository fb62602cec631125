-- ===== src/Rpc/Procedures.antt =====
-- The table of procedures of src/jsonrpc-c.c: `jrpc_register_procedure`, `jrpc_deregister_procedure`
-- and `jrpc_server_destroy`, with the results of the allocator as arguments, and the backward search
-- of `invoke_procedure`. A result `none` is a fault.
pub mod Search
pub mod Register
pub mod Deregister
pub mod Destroy
mod Examples
use text.Mathlib.Text.{◌==◌ as str_eq}
use lepd.Base.{
  ℕ, zero, suc, ◌+◌, ◌-◌, Bool, true, false, Option, none, some, List, [], ◌∷◌, ◌++◌, String,
  if◌then◌else◌, ◌>>=◌, ◌==◌, ◌&&◌, not, get_elem?, set, take, replicate, length,
}

-- `F` is the type of the functions, `D` that of the data pointers.
pub record Procedure (F D : Type 0) : Type 0 where
  pub name : String
  pub function : F
  pub data_ptr : Option D

-- A cell `none` has the name NULL, or was never written. The array pointer may be NULL; the count
-- is a field of its own, and the array may be shorter after a failed `realloc`.
pub record Table (F D : Type 0) : Type 0 where
  pub procedure_count : ℕ
  pub procedures : Option (List (Option (Procedure F D)))

-- What the allocator answers: `malloc` or `realloc`, and `strdup`.
pub record Memory : Type 0 where
  pub array : Bool
  pub string : Bool

-- Which data pointers `free` accepts: those that `malloc` gave and that are not freed yet. Two pointers
-- are told apart by an argument `same`.
abbrev pub Live : Type 0 → Type 0
Live D = D → Bool

-- `free` of a data pointer that is not NULL; of one that is not live it is a fault.
unfoldable pub free_data : {D : Type 0} → (D → D → Bool) → Live D → Option D → Option (Live D)
free_data same live none = some live
free_data same live (some d) = if live d then some (λ e. live e && not (same d e)) else none

module _ {F D : Type 0} where
  -- The table that `memset` of the server leaves.
  unfoldable pub no_procedures : Table F D
  no_procedures = record { procedure_count = 0; procedures = none }

  -- An array of `n` cells with the old contents; new cells are not written yet.
  unfoldable pub resize : ℕ → List (Option (Procedure F D)) → List (Option (Procedure F D))
  resize n ps = take n (ps ++ replicate n none)

  -- The write of a cell: the name, then the function and the data if the name was copied.
  unfoldable pub write_cell :
      Table F D → List (Option (Procedure F D)) → ℕ → Bool → Procedure F D → Table F D × Bool
  write_cell t ps i copied p =
      if copied
      then (record t { procedures = some (set ps i (some p)) }, true)
      else (record t { procedures = some (set ps i none) }, false)

  -- The result is `true` for 0 and `false` for -1.
  unfoldable pub jrpc_register_procedure :
      Memory → Table F D → F → String → Option D → Option (Table F D × Bool)
  unfolding resize write_cell
  jrpc_register_procedure m t f name d =
      let i = t.procedure_count in
      let t' : Table F D = record t { procedure_count = suc i } in
      let p : Procedure F D = record { name = name; function = f; data_ptr = d } in
      elim t.procedures [
        | none ↦ if m.array then some (write_cell t' (resize 1 []) i m.string p) else none
        | some ps ↦
            if m.array
            then some (write_cell t' (resize (suc i) ps) i m.string p)
            else some (t', false)
      ]

  -- `jrpc_procedure_destroy` of a cell: the name is a copy of its own. The data of a cell that was never
  -- written is a fault.
  unfoldable pub jrpc_procedure_destroy :
      (D → D → Bool) → Live D → Option (Procedure F D) → Option (Live D)
  unfolding free_data
  jrpc_procedure_destroy same live none = none
  jrpc_procedure_destroy same live (some p) = free_data same live p.data_ptr

  -- The loop of `jrpc_deregister_procedure`, with `n` rounds left at index `i`.
  unfoldable pub shift :
      (D → D → Bool)
      → ℕ
      → ℕ
      → Bool
      → String
      → List (Option (Procedure F D))
      → Live D
      → Option (List (Option (Procedure F D)) × Bool × Live D)
  unfolding jrpc_procedure_destroy
  shift same zero i found name ps live = some (ps, found, live)
  shift same (suc n) i true name ps live =
      get_elem? ps i >>= λ cell. shift same n (suc i) true name (set ps (i - 1) cell) live
  shift same (suc n) i false name ps live = elim (get_elem? ps i) [
    | some (some p) ↦
        if str_eq name p.name
        then (jrpc_procedure_destroy same live (some p) >>= λ live'.
            shift same n (suc i) true name (set ps i none) live')
        else shift same n (suc i) false name ps live
    | _ ↦ none
  ]

  -- The count falls before `realloc` is asked, and stays so if it fails.
  unfoldable pub truncate : Bool → ℕ → List (Option (Procedure F D)) → Table F D × Bool
  truncate answer zero ps = (record { procedure_count = 0; procedures = none }, true)
  truncate true (suc n) ps =
      (record { procedure_count = suc n; procedures = some (take (suc n) ps) }, true)
  truncate false (suc n) ps = (record { procedure_count = suc n; procedures = some ps }, false)

  unfoldable pub jrpc_deregister_procedure :
      (D → D → Bool) → Live D → Bool → Table F D → String → Option (Table F D × Bool × Live D)
  unfolding shift truncate
  jrpc_deregister_procedure same live answer t name = elim t.procedures [
    | none ↦ some (t, false, live)
    | some ps ↦ shift same t.procedure_count 0 false name ps live >>= λ (ps', found, live').
        if found
        then (let (t', ok) = truncate answer (t.procedure_count - 1) ps' in some (t', ok, live'))
        else some (record t { procedures = some ps' }, true, live')
  ]

  -- The loop of `invoke_procedure`, from the last cell down.
  unfoldable pub find_procedure :
      ℕ → List (Option (Procedure F D)) → String → Option (Option (Procedure F D))
  find_procedure zero ps name = some none
  find_procedure (suc i) ps name = elim (get_elem? ps i) [
    | some (some p) ↦ if str_eq p.name name then some (some p) else find_procedure i ps name
    | _ ↦ none
  ]

  unfoldable pub destroy_loop :
      (D → D → Bool) → ℕ → List (Option (Procedure F D)) → Live D → Option (Live D)
  unfolding jrpc_procedure_destroy
  destroy_loop same zero ps live = some live
  destroy_loop same (suc n) [] live = none
  destroy_loop same (suc n) (p ∷ ps) live =
      let rest = destroy_loop same n ps in jrpc_procedure_destroy same live p >>= rest

  -- The count stays, and of the array that the pointer is left with no cell can be read; neither can one
  -- where the pointer was NULL.
  unfoldable pub jrpc_server_destroy :
      (D → D → Bool) → Live D → Table F D → Option (Table F D × Live D)
  unfolding destroy_loop
  jrpc_server_destroy same live t =
      destroy_loop same t.procedure_count (elim t.procedures [ none ↦ [] | some ps ↦ ps ]) live
      >>= λ live'. some (record t { procedures = some [] }, live')
