-- ===== src/Rpc/Procedures/Deregister.antt =====
-- What `jrpc_deregister_procedure` does to a table: its loop moves each later cell down by one.
use text.Mathlib.Text.{◌==◌ as str_eq}
use lepd.Base.{
  ℕ, suc, ◌-◌, ◌≡◌, refl, sym, ap, Bool, true, false, Option, none, some, List, [], ◌∷◌, ◌++◌, map,
  String, if◌then◌else◌, get_elem?, set, length, arith, length-append, Bool-cases, inl, inr, ◌∙◌,
  subst, ◌⊎◌, ◌>>=◌, Option-cases, append_assoc, take-append_left, take_all,
}
use lepd.Rpc.Procedures.{
  Procedure, Table, Live, free_data, jrpc_procedure_destroy, shift, truncate,
  jrpc_deregister_procedure,
}
use lepd.Rpc.Procedures.Search.{IsTable}

module _ {F D : Type 0} where
  -- The first procedure of that name, and the list without it.
  unfoldable pub take_first :
      String → List (Procedure F D) → Option (Procedure F D × List (Procedure F D))
  take_first name [] = none
  take_first name (p ∷ ps) =
      if str_eq name p.name
      then some (p, ps)
      else elim (take_first name ps) [ none ↦ none | some (q, rest) ↦ some (q, p ∷ rest) ]

-- Two chains whose rests agree.
bind_ap :
    {A B : Type 0}
    → (o : Option A) (f g : A → Option B) → ((a : A) → f a ≡ g a)
    → (o >>= f) ≡ (o >>= g)
bind_ap none f g h = refl
bind_ap (some a) f g h = h a

module _ {F D : Type 0} (same : D → D → Bool) where
  set_at :
      (xs ys : List (Option (Procedure F D))) (c v : Option (Procedure F D))
      → set (xs ++ c ∷ ys) (length xs) v ≡ xs ++ v ∷ ys
  set_at [] ys c v = refl
  set_at (x ∷ xs) ys c v = ap (◌∷◌ x) (set_at xs ys c v)

  get_behind :
      (xs ys : List (Option (Procedure F D))) (c v : Option (Procedure F D))
      → get_elem? (xs ++ c ∷ v ∷ ys) (suc (length xs)) ≡ some v
  get_behind [] ys c v = refl
  get_behind (x ∷ xs) ys c v = get_behind xs ys c v

  get_at :
      (xs ys : List (Option (Procedure F D))) (c : Option (Procedure F D))
      → get_elem? (xs ++ c ∷ ys) (length xs) ≡ some c
  get_at [] ys c = refl
  get_at (x ∷ xs) ys c = get_at xs ys c

  step_down :
      (xs ys : List (Option (Procedure F D))) (c y : Option (Procedure F D)) (name : String) (n : ℕ)
      (live : Live D)
      → shift same (suc n) (suc (length xs)) true name (xs ++ c ∷ y ∷ ys) live
        ≡ shift same n (suc (suc (length xs))) true name (xs ++ y ∷ y ∷ ys) live
  unfolding shift
  step_down xs ys c y name n live =
      let back : suc (length xs) - 1 ≡ length xs = omega arith in
      rw (get_behind xs ys c y) (rw (back, set_at xs (y ∷ ys) c y) refl)

  -- Behind the removed cell, the cells move down and the last stays where it was.
  shift_down :
      (xs ys : List (Option (Procedure F D))) (c : Option (Procedure F D)) (name : String)
      → (z : Option (Procedure F D)) × ((live : Live D)
          → shift same (length ys) (suc (length xs)) true name (xs ++ c ∷ ys) live
            ≡ some (xs ++ (ys ++ z ∷ []), true, live))
  shift_down xs [] c name = (c, λ live. unfold shift in refl)
  shift_down xs (y ∷ ys) c name =
      let (z, ih) = shift_down (xs ++ y ∷ []) ys y name in
      let next : length (xs ++ y ∷ []) ≡ suc (length xs) =
        omega (arith, length-append xs (y ∷ [])) in
      (
        z,
        λ live. cc (
          step_down xs ys c y name (length ys) live,
          next,
          ih live,
          append_assoc xs (y ∷ []) (y ∷ ys),
          append_assoc xs (y ∷ []) (ys ++ z ∷ []),
        ),
      )

  length-some : (ps : List (Procedure F D)) → length (map some ps) ≡ length ps
  length-some [] = refl
  length-some (p ∷ ps) = ap suc (length-some ps)

  module _ (live : Live D) where
    -- What the loop makes of the cells behind `xs`.
    abbrev Shifted :
        List (Option (Procedure F D))
        → List (Procedure F D)
        → String
        → Option (List (Option (Procedure F D)) × Bool × Live D)
        → Type 0
    Shifted xs qs name r =
        ((take_first name qs ≡ none) × (r ≡ some (xs ++ map some qs, false, live)))
        ⊎ ((q : Procedure F D) × (rest : List (Procedure F D)) × (z : Option (Procedure F D))
            × (take_first name qs ≡ some (q, rest))
            × (length qs ≡ suc (length rest))
            × (r ≡ (
                free_data same live q.data_ptr >>= λ live'.
                some (xs ++ (map some rest ++ z ∷ []), true, live'))))

    step_hit :
        (xs ys : List (Option (Procedure F D))) (q : Procedure F D) (name : String) (n : ℕ)
        → str_eq name q.name ≡ true
        → shift same (suc n) (length xs) false name (xs ++ some q ∷ ys) live ≡ (
            free_data same live q.data_ptr >>= λ live'.
            shift same n (suc (length xs)) true name (xs ++ none ∷ ys) live')
    unfolding shift jrpc_procedure_destroy
    step_hit xs ys q name n hit =
        rw (get_at xs ys (some q), shift) (rw hit (rw (set_at xs ys (some q) none) refl))

    step_miss :
        (xs ys : List (Option (Procedure F D))) (q : Procedure F D) (name : String) (n : ℕ)
        → str_eq name q.name ≡ false
        → shift same (suc n) (length xs) false name (xs ++ some q ∷ ys) live
          ≡ shift same n (suc (length xs)) false name (xs ++ some q ∷ ys) live
    unfolding shift
    step_miss xs ys q name n miss = rw (get_at xs ys (some q), shift) (rw miss refl)

    shift_hit :
        (xs : List (Option (Procedure F D))) (q : Procedure F D) (qs : List (Procedure F D))
        (name : String)
        → str_eq name q.name ≡ true
        → Shifted xs
            (q ∷ qs)
            name
            (shift same (suc (length qs)) (length xs) false name (xs ++ map some (q ∷ qs)) live)
    unfolding take_first
    shift_hit xs q qs name hit =
        let (z, down) = shift_down xs (map some qs) none name in
        inr (
          q,
          qs,
          z,
          rw hit refl,
          refl,
          step_hit xs (map some qs) q name (length qs) hit
              ∙ bind_ap (free_data same live q.data_ptr) _ _
                  (λ live'. cc (length-some qs, down live')),
        )

    shift_miss :
        (xs : List (Option (Procedure F D))) (q : Procedure F D) (qs : List (Procedure F D))
        (name : String) (r : Option (List (Option (Procedure F D)) × Bool × Live D))
        → str_eq name q.name ≡ false
        → Shifted (xs ++ some q ∷ []) qs name r
        → Shifted xs (q ∷ qs) name r
    unfolding take_first
    shift_miss xs q qs name r miss (inl (e, same_cells)) =
        inl (rw (miss, e) refl, cc (append_assoc xs (some q ∷ []) (map some qs)))
    shift_miss xs q qs name r miss (inr (p, rest, z, e, l, moved)) = inr (
      p,
      q ∷ rest,
      z,
      rw (miss, e) refl,
      omega arith,
      moved
          ∙ bind_ap (free_data same live p.data_ptr) _ _ (λ live'.
            ap (λ (cs : List (Option (Procedure F D))). some (cs, true, live'))
              (append_assoc xs (some q ∷ []) (map some rest ++ z ∷ []))),
    )

    -- The loop removes the first procedure of that name and keeps the others in their order.
    shift-Shifted :
        (xs : List (Option (Procedure F D))) (qs : List (Procedure F D)) (name : String)
        → Shifted xs qs name
            (shift same (length qs) (length xs) false name (xs ++ map some qs) live)
    shift-Shifted xs [] name = inl (unfold take_first in refl, unfold shift in refl)
    shift-Shifted xs (q ∷ qs) name = elim (Bool-cases (str_eq name q.name)) [
      | inl hit ↦ shift_hit xs q qs name hit
      | inr miss ↦
          let next : length (xs ++ some q ∷ []) ≡ suc (length xs) =
            omega (arith, length-append xs (some q ∷ [])) in
          let stepped : shift same (suc (length qs)) (length xs) false name
                (xs ++ map some (q ∷ qs)) live
              ≡ shift same (length qs) (length (xs ++ some q ∷ [])) false name
                  ((xs ++ some q ∷ []) ++ map some qs) live =
            cc (
              step_miss xs (map some qs) q name (length qs) miss,
              next,
              append_assoc xs (some q ∷ []) (map some qs),
            ) in
          subst (Shifted xs (q ∷ qs) name) (sym stepped)
            (shift_miss xs q qs name _ miss (shift-Shifted (xs ++ some q ∷ []) qs name))
    ]

  -- The list without its first procedure of that name: itself, if it has none.
  abbrev pub removed : String → List (Procedure F D) → List (Procedure F D)
  removed name ps = elim (take_first name ps) [ none ↦ ps | some (q, rest) ↦ rest ]

  -- What is live once the data of the first procedure of that name is freed, if there is one.
  abbrev pub freed : String → List (Procedure F D) → Live D → Option (Live D)
  freed name ps live = elim (take_first name ps) [
    | none ↦ some live
    | some (q, rest) ↦ free_data same live q.data_ptr
  ]

  truncate-IsTable :
      (ps : List (Procedure F D)) (z : Option (Procedure F D))
      → (t : Table F D) × (truncate true (length ps) (map some ps ++ z ∷ []) ≡ (t, true))
        × IsTable t ps
  unfolding truncate
  truncate-IsTable [] z = (_, refl, record { counted = refl; written = refl })
  truncate-IsTable (p ∷ ps) z = (
    _,
    refl,
    record {
      counted = refl;
      written =
          take-append_left (suc (length ps)) (map some (p ∷ ps)) (z ∷ [])
            (omega (arith, length-some ps))
          ∙ take_all (suc (length ps)) (map some (p ∷ ps)) (omega (arith, length-some ps));
    },
  )

  -- From a table with an array, and if `realloc` succeeds, `jrpc_deregister_procedure` removes the
  -- first procedure of that name, if there is one, keeps the others in their order, and returns 0,
  -- also if there is none. It frees the data of the procedure that it removes, and faults if that
  -- pointer is not NULL and not live, as a string literal is not.
  pub deregister-IsTable :
      (live : Live D) (t : Table F D) (cs : List (Option (Procedure F D)))
      (ps : List (Procedure F D)) (name : String)
      → t.procedures ≡ some cs
      → IsTable t ps
      → (t' : Table F D) × (jrpc_deregister_procedure same live true t name
          ≡ (freed name ps live >>= λ live'. some (t', true, live')))
        × IsTable t' (removed name ps)
  unfolding jrpc_deregister_procedure
  deregister-IsTable live t cs ps name e v =
      let same_cells : cs ≡ map some ps = ground (arith, v.written) in
      elim (shift-Shifted live [] ps name) [
        | inl (absent, kept) ↦ (
          record t { procedures = some (map some ps) },
          rw (e, jrpc_deregister_procedure)
              (rw (same_cells, v.counted, kept) (rw (absent, freed) refl)),
          rw (absent, removed) (record { counted = v.counted; written = refl }),
        )
        | inr (q, rest, z, present, shorter, moved) ↦
            let (t', cut, w) = truncate-IsTable rest z in
            let left : length ps - 1 ≡ length rest = omega arith in
            (
              t',
              rw (e, jrpc_deregister_procedure)
                  (rw (same_cells, v.counted, moved)
                    (rw (present, freed)
                      (elim (Option-cases (free_data same live q.data_ptr)) [
                        | inl refused ↦ rw refused refl
                        | inr (live', accepted) ↦ rw accepted (rw (left, cut) refl)
                      ]))),
              rw (present, removed) w,
            )
      ]
