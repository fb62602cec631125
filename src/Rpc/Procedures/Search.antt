-- ===== src/Rpc/Procedures/Search.antt =====
-- When a table holds a list of procedures, and which of them the search of `invoke_procedure` finds.
use text.Mathlib.Text.{◌==◌ as str_eq}
use lepd.Base.{
  ℕ, zero, suc, ◌≤◌, ◌≡◌, refl, ap, Option, none, some, List, [], ◌∷◌, ◌++◌, map, String,
  if◌then◌else◌, get_elem?, take, length, arith, take_all,
}
use lepd.Rpc.Procedures.{Procedure, Table, find_procedure}

module _ {F D : Type 0} where
  -- The array of a NULL pointer has no cells.
  abbrev pub cells : Table F D → List (Option (Procedure F D))
  cells t = elim t.procedures [ none ↦ [] | some ps ↦ ps ]

  -- The count is the length of the array, and every cell is written.
  pub record IsTable (t : Table F D) (ps : List (Procedure F D)) : Type 0 where
    pub counted : t.procedure_count ≡ length ps
    pub written : cells t ≡ map some ps

  -- The procedure of a name that was registered last.
  unfoldable pub last_named : List (Procedure F D) → String → Option (Procedure F D)
  last_named [] name = none
  last_named (p ∷ ps) name = elim (last_named ps name) [
    | some q ↦ some q
    | none ↦ if str_eq p.name name then some p else none
  ]

  pub last_named-snoc :
      (ps : List (Procedure F D)) (p : Procedure F D) (name : String)
      → last_named (ps ++ p ∷ []) name ≡ (if str_eq p.name name then some p else last_named ps name)
  unfolding last_named
  last_named-snoc [] p name = ground arith
  last_named-snoc (q ∷ ps) p name = ground (arith, last_named-snoc ps p name)

  split_last :
      (n : ℕ) (ps : List (Procedure F D))
      → suc n ≤ length ps
      → (p : Procedure F D) × (get_elem? (map some ps) n ≡ some (some p))
        × (take (suc n) ps ≡ take n ps ++ p ∷ [])
  split_last n [] h = absurd (omega arith)
  split_last zero (p ∷ ps) h = (p, refl, refl)
  split_last (suc n) (p ∷ ps) h =
      let (q, at_n, e) = split_last n ps (omega arith) in (q, at_n, ap (◌∷◌ p) e)

  find_procedure-take :
      (n : ℕ) (ps : List (Procedure F D)) (name : String)
      → n ≤ length ps
      → find_procedure n (map some ps) name ≡ some (last_named (take n ps) name)
  unfolding find_procedure
  find_procedure-take zero ps name h = unfold last_named in refl
  find_procedure-take (suc n) ps name h =
      let (p, at_n, e) = split_last n ps h in
      rw (e, last_named-snoc (take n ps) p name)
        (ground (arith, at_n, find_procedure-take n ps name (omega arith)))

  -- The search of a well-formed table meets no fault and finds the procedure registered last.
  pub find_procedure-IsTable :
      (t : Table F D) (ps : List (Procedure F D)) (name : String)
      → IsTable t ps
      → find_procedure t.procedure_count (cells t) name ≡ some (last_named ps name)
  find_procedure-IsTable t ps name v =
      rw (v.counted, v.written, find_procedure-take (length ps) ps name (omega arith))
        (ap (λ (qs : List (Procedure F D)). some (last_named qs name))
          (take_all _ ps (omega arith)))
