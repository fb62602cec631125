-- ===== src/Cgtop/Slashes/Emitted.antt =====
-- What the loop of `path_kill_slashes` writes for a path.
use lepd.Base.{
  ℕ, suc, ◌≡◌, refl, List, [], ◌∷◌, Bool, true, false, ◌==◌, if◌then◌else◌, Bool-cases, ◌⊎◌, inl,
  inr,
}
use lepd.Cgtop.Slashes.{following}

abbrev pub slash : ℕ
slash = b'/'

-- The bytes that the loop writes for a path, when the last byte written is a slash or is none.
unfoldable pub emitted : Bool → List ℕ → List ℕ
emitted q [] = []
emitted q (c ∷ cs) =
    let behind_slash = emitted true cs in
    let behind_other = emitted false cs in
    if c == slash
    then (if following cs == 0
        then 0 ∷ slash ∷ []
        else (if q
            then behind_slash
            else (if following cs == slash then behind_other else slash ∷ behind_slash)))
    else c ∷ behind_other

-- The count `x` of the loop.
unfoldable pub skipped : Bool → List ℕ → ℕ
skipped q [] = 0
skipped q (c ∷ cs) =
    let behind_slash = skipped true cs in
    let behind_other = skipped false cs in
    if c == slash
    then (if following cs == 0
        then 1
        else (if q
            then suc behind_slash
            else (if following cs == slash then suc behind_other else behind_slash)))
    else behind_other

-- Whether a slash is skipped.
pub skip_cases :
    (q : Bool) (d : ℕ)
    → ((q ≡ true) ⊎ ((d == slash) ≡ true)) ⊎ ((q ≡ false) × ((d == slash) ≡ false))
skip_cases true d = inl (inl refl)
skip_cases false d = elim (Bool-cases (d == slash)) [
  | inl before ↦ inl (inr before)
  | inr alone ↦ inr (refl, alone)
]

pub emitted_last :
    (q : Bool) → (emitted q (slash ∷ []) ≡ 0 ∷ slash ∷ []) × (skipped q (slash ∷ []) ≡ 1)
unfolding emitted skipped
emitted_last q = (refl, refl)

pub emitted-skipped :
    (q : Bool) (d : ℕ) (ds : List ℕ)
    → (d == 0) ≡ false
    → (q ≡ true) ⊎ ((d == slash) ≡ true)
    → (emitted q (slash ∷ d ∷ ds) ≡ emitted q (d ∷ ds))
      × (skipped q (slash ∷ d ∷ ds) ≡ suc (skipped q (d ∷ ds)))
unfolding emitted skipped
emitted-skipped true d ds inside h = (rw inside refl, rw inside refl)
emitted-skipped false d ds inside (inl h) = absurd cc
emitted-skipped false d ds inside (inr h) = (rw (inside, h) refl, rw (inside, h) refl)

pub emitted_kept :
    (q : Bool) (d : ℕ) (ds : List ℕ)
    → (d == 0) ≡ false
    → q ≡ false
    → (d == slash) ≡ false
    → (emitted q (slash ∷ d ∷ ds) ≡ slash ∷ emitted true (d ∷ ds))
      × (skipped q (slash ∷ d ∷ ds) ≡ skipped true (d ∷ ds))
unfolding emitted skipped
emitted_kept true d ds inside q h = absurd cc
emitted_kept false d ds inside q h = (rw (inside, h) refl, rw (inside, h) refl)

pub emitted_other :
    (q : Bool) (c : ℕ) (cs : List ℕ)
    → (c == slash) ≡ false
    → (emitted q (c ∷ cs) ≡ c ∷ emitted (c == slash) cs)
      × (skipped q (c ∷ cs) ≡ skipped (c == slash) cs)
unfolding emitted skipped
emitted_other q c cs h = (rw h refl, rw h refl)
