-- ===== src/Cgtop/Slashes/Laid.antt =====
-- The loop of `path_kill_slashes` writes its bytes behind those that it has written.
use lepd.Base.{
  ℕ, suc, ◌+◌, ◌≡◌, refl, none, some, Option, List, [], ◌∷◌, ◌++◌, true, false, ◌==◌, length, ◌>>=◌,
  arith, ◌∙◌, ap, ap₂, sym, subst, ◌≤◌, ◌<◌, drop, ==_iff, append_assoc, length-append, Bool-cases,
  Option-cases, ◌⊎◌, inl, inr, get_elem?,
}
use lepd.Base.CString.{NonZero, splice, splice_over}
use lepd.Cgtop.Slashes.{
  Kept, keep_byte, following, last_slash, any_slash, no_slash, kill_step, kill_loop,
}
use lepd.Cgtop.Slashes.Emitted.{
  slash, emitted, skipped, skip_cases, emitted_last, emitted-skipped, emitted_kept, emitted_other,
}

-- The state with `p` and `l` written, and `rest` behind.
abbrev pub kept : List ℕ → ℕ → List ℕ → ℕ → Kept
kept p l rest x = record { f = p ++ (l ∷ rest); i = length p; x = x }

-- Writes bytes behind `p` and `l`.
unfoldable pub lay : List ℕ → List ℕ → ℕ → List ℕ → ℕ → Option Kept
lay [] p l rest x = some (kept p l rest x)
lay (c ∷ e) p l [] x = none
lay (c ∷ e) p l (r ∷ rest) x = lay e (p ++ l ∷ []) c rest x

pub get-kept :
    (p : List ℕ) (l : ℕ) (rest : List ℕ) → get_elem? (p ++ (l ∷ rest)) (length p) ≡ some l
get-kept [] l rest = refl
get-kept (a ∷ p) l rest = get-kept p l rest

keep_byte_room :
    (c : ℕ) (p : List ℕ) (l r : ℕ) (rest : List ℕ) (x : ℕ)
    → keep_byte c (kept p l (r ∷ rest) x) ≡ some (kept (p ++ l ∷ []) c rest x)
unfolding keep_byte
keep_byte_room c p l r rest x =
    let size : suc (length p) ≡ length (p ++ l ∷ []) = omega (arith, length-append p (l ∷ [])) in
    rw
      (ap (splice (suc (length p)) (c ∷ [])) (sym (append_assoc p (l ∷ []) (r ∷ rest)))
        ∙ splice_over (p ++ l ∷ []) (r ∷ []) rest (c ∷ []) (suc (length p)) size refl)
      (ap (λ (k : ℕ). some (record { f = (p ++ l ∷ []) ++ (c ∷ rest); i = k; x = x })) size)

keep_byte_full : (c : ℕ) (p : List ℕ) (l x : ℕ) → keep_byte c (kept p l [] x) ≡ none
unfolding keep_byte splice
keep_byte_full c p l x = ground (arith, length-append p (l ∷ []))

keep_byte-lay :
    (c : ℕ) (p : List ℕ) (l : ℕ) (rest : List ℕ) (x : ℕ)
    → keep_byte c (kept p l rest x) ≡ lay (c ∷ []) p l rest x
unfolding lay
keep_byte-lay c p l [] x = keep_byte_full c p l x
keep_byte-lay c p l (r ∷ rest) x = keep_byte_room c p l r rest x

step_other : (c next : ℕ) (s : Kept) → (c == slash) ≡ false → kill_step c next s ≡ keep_byte c s
unfolding kill_step last_slash any_slash no_slash
step_other c next s other = rw (other, other, other) refl

keeps_on : (o : Option Kept) → (o >>= no_slash slash) ≡ o
unfolding no_slash
keeps_on none = refl
keeps_on (some s) = refl

-- A slash that is skipped.
step_skipped :
    (next : ℕ) (p : List ℕ) (l : ℕ) (rest : List ℕ) (x : ℕ)
    → (next == 0) ≡ false
    → ((l == slash) ≡ true) ⊎ ((next == slash) ≡ true)
    → kill_step slash next (kept p l rest x) ≡ some (kept p l rest (suc x))
unfolding kill_step last_slash any_slash no_slash
step_skipped next p l rest x inside (inl after) = rw (inside, get-kept p l rest, after) refl
step_skipped next p l rest x inside (inr before) = elim (Bool-cases (l == slash)) [
  | inl after ↦ rw (inside, get-kept p l rest, after) refl
  | inr other ↦ rw (inside, get-kept p l rest, other, before) refl
]

step_kept :
    (next : ℕ) (p : List ℕ) (l : ℕ) (rest : List ℕ) (x : ℕ)
    → (next == 0) ≡ false
    → (l == slash) ≡ false
    → (next == slash) ≡ false
    → kill_step slash next (kept p l rest x) ≡ keep_byte slash (kept p l rest x)
unfolding kill_step last_slash any_slash
step_kept next p l rest x inside after before =
    rw (inside, get-kept p l rest, after, before) (keeps_on (keep_byte slash (kept p l rest x)))

step_last :
    (p : List ℕ) (l : ℕ) (rest : List ℕ) (x : ℕ)
    → kill_step slash 0 (kept p l rest x) ≡ lay (0 ∷ slash ∷ []) p l rest (suc x)
unfolding kill_step last_slash any_slash lay
step_last p l [] x = rw (keep_byte_full 0 p l x) refl
step_last p l (r ∷ rest) x =
    rw (keep_byte_room 0 p l r rest x, get-kept (p ++ l ∷ []) 0 rest)
      (keeps_on (keep_byte slash (kept (p ++ l ∷ []) 0 rest (suc x)))
        ∙ keep_byte-lay slash (p ++ l ∷ []) 0 rest (suc x))

-- The loop lays what it emits.
abbrev pub Lays : List ℕ → Type 0
Lays cs =
    (p : List ℕ) (l : ℕ) (rest : List ℕ) (x : ℕ)
    → kill_loop cs (kept p l rest x)
      ≡ lay (emitted (l == slash) cs) p l rest (skipped (l == slash) cs + x)

behind-lay :
    (c : ℕ) (cs : List ℕ)
    → Lays cs
    → (p : List ℕ) (l : ℕ) (rest : List ℕ) (x : ℕ)
    → (keep_byte c (kept p l rest x) >>= kill_loop cs)
      ≡ lay (c ∷ emitted (c == slash) cs) p l rest (skipped (c == slash) cs + x)
unfolding lay
behind-lay c cs ih p l [] x = rw (keep_byte_full c p l x) refl
behind-lay c cs ih p l (r ∷ rest) x = rw (keep_byte_room c p l r rest x) (ih (p ++ l ∷ []) c rest x)

ends-lay :
    (e p : List ℕ) (l : ℕ) (rest : List ℕ) (x : ℕ)
    → (lay e p l rest x >>= kill_loop []) ≡ lay e p l rest x
unfolding kill_loop
ends-lay e p l rest x = elim (Option-cases (lay e p l rest x)) [
  | inl e ↦ rw e refl
  | inr (a, e) ↦ rw e refl
]

slash-lay : (cs : List ℕ) → NonZero cs → Lays cs → Lays (slash ∷ cs)
unfolding kill_loop
slash-lay [] nz ih p l rest x =
    let (e, n) = emitted_last (l == slash) in
    ap (λ o. o >>= kill_loop []) (step_last p l rest x)
    ∙ ends-lay (0 ∷ slash ∷ []) p l rest (suc x)
    ∙ ap₂ (λ e' k. lay e' p l rest k) (sym e) (omega (arith, n))
slash-lay (d ∷ ds) nz ih p l rest x =
    let inside : (d == 0) ≡ false = ground (arith, nz) in
    let skips : ((l == slash) ≡ true) ⊎ ((d == slash) ≡ true)
        → kill_loop (slash ∷ d ∷ ds) (kept p l rest x)
          ≡ lay (emitted (l == slash) (slash ∷ d ∷ ds)) p l rest
              (skipped (l == slash) (slash ∷ d ∷ ds) + x) =
      λ h.
        let (e, n) = emitted-skipped (l == slash) d ds inside h in
        ap (λ o. o >>= kill_loop (d ∷ ds)) (step_skipped d p l rest x inside h)
        ∙ ih p l rest (suc x)
        ∙ ap₂ (λ e' k. lay e' p l rest k) (sym e) (omega (arith, n)) in
    elim (skip_cases (l == slash) d) [
      | inl h ↦ skips h
      | inr (other, alone) ↦
          let (e, n) = emitted_kept (l == slash) d ds inside other alone in
          rw (e, n)
            (ap (λ o. o >>= kill_loop (d ∷ ds)) (step_kept d p l rest x inside other alone)
              ∙ behind-lay slash (d ∷ ds) ih p l rest x)
    ]

other-lay : (c : ℕ) (cs : List ℕ) → (c == slash) ≡ false → Lays cs → Lays (c ∷ cs)
unfolding kill_loop
other-lay c cs other ih p l rest x =
    let (e, n) = emitted_other (l == slash) c cs other in
    ap (λ o. o >>= kill_loop cs) (step_other c (following cs) (kept p l rest x) other)
    ∙ behind-lay c cs ih p l rest x
    ∙ ap₂ (λ e' k. lay e' p l rest k) (sym e) (omega (arith, n))

nil-lay : Lays []
unfolding kill_loop emitted skipped lay
nil-lay p l rest x = ap (λ (k : ℕ). some (kept p l rest k)) (omega arith)

pub kill_loop-lay : (cs : List ℕ) → NonZero cs → Lays cs
kill_loop-lay [] nz = nil-lay
kill_loop-lay (c ∷ cs) nz = elim (Bool-cases (c == slash)) [
  | inl is ↦
      subst (λ b. Lays (b ∷ cs)) (sym ((==_iff c slash).0 is))
        (slash-lay cs nz.1 (kill_loop-lay cs nz.1))
  | inr other ↦ other-lay c cs other (kill_loop-lay cs nz.1)
]

-- With room for the bytes, they lie behind `l`; without it they do not fit.
pub lay_room :
    (e p : List ℕ) (l : ℕ) (rest : List ℕ) (x : ℕ)
    → length e ≤ length rest
    → (i : ℕ) × (lay e p l rest x
        ≡ some (record { f = p ++ (l ∷ (e ++ drop (length e) rest)); i = i; x = x }))
unfolding lay
lay_room [] p l rest x h = (length p, refl)
lay_room (c ∷ e) p l [] x h = absurd (omega arith)
lay_room (c ∷ e) p l (r ∷ rest) x h =
    let (i, eq) = lay_room e (p ++ l ∷ []) c rest x (omega arith) in
    (i, rw (sym (append_assoc p (l ∷ []) (c ∷ (e ++ drop (length e) rest)))) eq)

pub lay_full :
    (e p : List ℕ) (l : ℕ) (rest : List ℕ) (x : ℕ)
    → length rest < length e
    → lay e p l rest x ≡ none
unfolding lay
lay_full [] p l rest x h = absurd (omega arith)
lay_full (c ∷ e) p l [] x h = refl
lay_full (c ∷ e) p l (r ∷ rest) x h = lay_full e (p ++ l ∷ []) c rest x (omega arith)
