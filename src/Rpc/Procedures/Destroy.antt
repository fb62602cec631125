-- ===== src/Rpc/Procedures/Destroy.antt =====
-- What `jrpc_server_destroy` may free.
use lepd.Base.{
  Bool, true, false, not, Option, none, some, List, [], ◌∷◌, ◌≡◌, ◌≢◌, refl, map, length, ◌&&◌,
  Bool-cases, Option-cases, inl, inr, String, subst,
}
use lepd.Rpc.Procedures.{Procedure, Table, Live, find_procedure, destroy_loop, jrpc_server_destroy}
use lepd.Rpc.Procedures.Search.{cells, IsTable}

abbrev without : {D : Type 0} → (D → D → Bool) → Live D → D → Live D
without same live d e = live e && not (same d e)

and_swap :
    (live_e differs apart_e apart_d rest : Bool)
    → ((live_e && differs) && (apart_e && (apart_d && rest)))
      ≡ ((differs && apart_d) && (live_e && (apart_e && rest)))
and_swap true true true x y = refl
and_swap true true false true y = refl
and_swap true true false false y = refl
and_swap true false a x y = refl
and_swap false true a true y = refl
and_swap false true a false y = refl
and_swap false false a x y = refl

-- It frees exactly where the test holds, and faults else.
abbrev RunsIf : {D : Type 0} → Bool → Option (Live D) → Type 0
RunsIf {D} b r = (b ≡ true → (live' : Live D) × (r ≡ some live')) × (b ≡ false → r ≡ none)

module _ {F D : Type 0} (same : D → D → Bool) where
  -- No procedure has this data pointer.
  abbrev apart : D → List (Procedure F D) → Bool
  apart d [] = true
  apart d (p ∷ ps) =
      let rest = apart d ps in elim p.data_ptr [ none ↦ rest | some e ↦ not (same d e) && rest ]

  -- Every data pointer that is not NULL is live, and no two procedures have the same one.
  abbrev pub freeable : Live D → List (Procedure F D) → Bool
  freeable live [] = true
  freeable live (p ∷ ps) =
      let rest = freeable live ps in
      elim p.data_ptr [ none ↦ rest | some d ↦ live d && (apart d ps && rest) ]

  freeable-without :
      (live : Live D) (d : D) (ps : List (Procedure F D))
      → freeable (without same live d) ps ≡ (apart d ps && freeable live ps)
  freeable-without live d [] = refl
  freeable-without live d (p ∷ ps) = elim (Option-cases p.data_ptr) [
    | inl e ↦ rw e (freeable-without live d ps)
    | inr (d', e) ↦
        rw (e, freeable-without live d ps)
          (and_swap (live d') (not (same d d')) (apart d' ps) (apart d ps) (freeable live ps))
  ]

  destroy_loop-freeable :
      (ps : List (Procedure F D)) (live : Live D)
      → RunsIf (freeable live ps) (destroy_loop same (length ps) (map some ps) live)
  unfolding destroy_loop
  destroy_loop-freeable [] live = ((λ yes. (live, refl)), (λ no. cc))
  destroy_loop-freeable (p ∷ ps) live = elim (Option-cases p.data_ptr) [
    | inl e ↦ rw e (destroy_loop-freeable ps live)
    | inr (d, e) ↦
        let rest : RunsIf (apart d ps && freeable live ps)
            (destroy_loop same (length ps) (map some ps) (without same live d)) =
          subst (λ b. RunsIf b (destroy_loop same (length ps) (map some ps) (without same live d)))
            (freeable-without live d ps) (destroy_loop-freeable ps (without same live d)) in
        elim (Bool-cases (live d)) [
          | inl accepted ↦ rw (e, accepted) rest
          | inr refused ↦ rw (e, refused) ((λ yes. cc), (λ no. refl))
        ]
  ]

  -- A table with procedures is destroyed if every data pointer was given by `malloc`, none is freed yet
  -- and no two procedures share one, and then every search of it faults; else destroying it faults, as
  -- it does where a data pointer is a string literal, or is shared.
  pub destroy-IsTable :
      (live : Live D) (t : Table F D) (ps : List (Procedure F D))
      → IsTable t ps
      → ps ≢ []
      → (freeable live ps ≡ true
          → (t' : Table F D) × (live' : Live D) × (jrpc_server_destroy same live t
              ≡ some (t', live'))
            × ((name : String) → find_procedure t'.procedure_count (cells t') name ≡ none))
        × (freeable live ps ≡ false → jrpc_server_destroy same live t ≡ none)
  unfolding jrpc_server_destroy find_procedure
  destroy-IsTable live t [] v some_more = absurd (some_more refl)
  destroy-IsTable live t (p ∷ ps) v some_more =
      let (runs, faults) = destroy_loop-freeable (p ∷ ps) live in
      (
        λ yes.
            let (live', e) = runs yes in
            (
              record t { procedures = some [] },
              live',
              rw (v.counted, v.written, e) refl,
              λ name. rw v.counted refl,
            ),
        λ no. rw (v.counted, v.written, faults no) refl,
      )
