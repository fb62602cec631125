-- ===== src/Cgtop/Slashes/Lengths.antt =====
-- How much the loop of `path_kill_slashes` writes and skips, and the two bytes behind the text when
-- the path ends in a slash.
use lepd.Base.{
  ℕ, suc, ◌+◌, ◌≡◌, ◌≤◌, ◌<◌, ◌≢◌, refl, List, [], ◌∷◌, ◌++◌, Bool, true, false, ◌==◌, length,
  if◌then◌else◌, arith, ◌∙◌, ap, sym, subst, Bool-cases, inl, inr, ==_iff,
}
use lepd.Base.CString.{NonZero}
use lepd.Cgtop.Slashes.Emitted.{
  slash, emitted, skipped, emitted_last, emitted-skipped, emitted_kept, emitted_other, skip_cases,
}

unfoldable pub ends_in_slash : List ℕ → Bool
ends_in_slash [] = false
ends_in_slash (c ∷ []) = c == slash
ends_in_slash (c ∷ d ∷ cs) = ends_in_slash (d ∷ cs)

-- The bytes behind the text of a path that ends in a slash.
abbrev pub ending : Bool → List ℕ
ending b = if b then 0 ∷ slash ∷ [] else []

abbrev pub at_end : Bool → ℕ
at_end b = if b then 1 else 0

-- A path is written or skipped, but for the bytes behind the text.
abbrev pub Emits : Bool → List ℕ → Type 0
Emits q cs =
    (e : List ℕ) × (NonZero e
      × ((emitted q cs ≡ e ++ ending (ends_in_slash cs)) × (skipped q cs + length e ≡ length cs)))

ends-other :
    (c : ℕ) (cs : List ℕ) → (c == slash) ≡ false → ends_in_slash (c ∷ cs) ≡ ends_in_slash cs
unfolding ends_in_slash
ends-other c [] other = other
ends-other c (d ∷ ds) other = refl

Emits-other :
    (q : Bool) (c : ℕ) (cs : List ℕ)
    → c ≢ 0
    → (c == slash) ≡ false
    → Emits (c == slash) cs
    → Emits q (c ∷ cs)
Emits-other q c cs inside other (e, (nz, (same, count))) =
    let (text, n) = emitted_other q c cs other in
    (
      c ∷ e,
      (
        (inside, nz),
        (rw (ends-other c cs other) (text ∙ ap (◌∷◌ c) same), omega (arith, n, count)),
      ),
    )

Emits-slash :
    (q : Bool) (cs : List ℕ) → NonZero cs → ((q' : Bool) → Emits q' cs) → Emits q (slash ∷ cs)
unfolding ends_in_slash
Emits-slash q [] nz ih = let (text, n) = emitted_last q in ([], (tt, (text, omega (arith, n))))
Emits-slash q (d ∷ ds) nz ih =
    let inside : (d == 0) ≡ false = ground (arith, nz) in
    elim (skip_cases q d) [
      | inl h ↦
          let (text, n) = emitted-skipped q d ds inside h in
          let (e, (clean, (same, count))) = ih q in
          (e, (clean, (text ∙ same, omega (arith, n, count))))
      | inr (other, alone) ↦
          let (text, n) = emitted_kept q d ds inside other alone in
          let (e, (clean, (same, count))) = ih true in
          (slash ∷ e, ((omega arith, clean), (text ∙ ap (◌∷◌ slash) same, omega (arith, n, count))))
    ]

pub emitted-Emits : (cs : List ℕ) → NonZero cs → (q : Bool) → Emits q cs
unfolding emitted skipped ends_in_slash
emitted-Emits [] nz q = ([], (tt, (refl, omega arith)))
emitted-Emits (c ∷ cs) nz q = elim (Bool-cases (c == slash)) [
  | inl is ↦
      subst (λ b. Emits q (b ∷ cs)) (sym ((==_iff c slash).0 is))
        (Emits-slash q cs nz.1 (emitted-Emits cs nz.1))
  | inr other ↦ Emits-other q c cs nz.0 other (emitted-Emits cs nz.1 (c == slash))
]

-- The loop skips at least what it skips behind the first byte.
skipped_step :
    (q : Bool) (c : ℕ) (cs : List ℕ)
    → NonZero cs
    → (q' : Bool) × (skipped q' cs ≤ skipped q (c ∷ cs))
unfolding skipped
skipped_step q c cs nz = elim (Bool-cases (c == slash)) [
  | inl is ↦
      subst (λ b. (q' : Bool) × (skipped q' cs ≤ skipped q (b ∷ cs))) (sym ((==_iff c slash).0 is))
        (behind_slash cs nz)
  | inr other ↦ (c == slash, omega (arith, (emitted_other q c cs other).1))
]
  where
    behind_slash :
        (cs : List ℕ) → NonZero cs → (q' : Bool) × (skipped q' cs ≤ skipped q (slash ∷ cs))
    behind_slash [] nz = (true, omega arith)
    behind_slash (d ∷ ds) nz =
        let inside : (d == 0) ≡ false = ground (arith, nz) in
        elim (skip_cases q d) [
          | inl h ↦ (q, omega (arith, (emitted-skipped q d ds inside h).1))
          | inr (other, alone) ↦ (true, omega (arith, (emitted_kept q d ds inside other alone).1))
        ]

-- A trailing slash is counted.
skipped_trailing : (q : Bool) (cs : List ℕ) → NonZero cs → at_end (ends_in_slash cs) ≤ skipped q cs
unfolding ends_in_slash
skipped_trailing q [] nz = omega arith
skipped_trailing q (c ∷ []) nz = elim (Bool-cases (c == slash)) [
  | inl is ↦ rw ((==_iff c slash).0 is) (omega (arith, (emitted_last q).1))
  | inr other ↦ rw other (omega arith)
]
skipped_trailing q (c ∷ d ∷ ds) nz =
    let (q', h) = skipped_step q c (d ∷ ds) nz.1 in
    omega (arith, h, skipped_trailing q' (d ∷ ds) nz.1)

ends-append :
    (c : ℕ) (a b : List ℕ) (s : ℕ)
    → ends_in_slash (c ∷ (a ++ (s ∷ b))) ≡ ends_in_slash (a ++ (s ∷ b))
unfolding ends_in_slash
ends-append c [] b s = refl
ends-append c (d ∷ a) b s = refl

-- So is one of two slashes in a row.
pub skipped_doubled :
    (q : Bool) (a b : List ℕ)
    → NonZero (a ++ (slash ∷ slash ∷ b))
    → suc (at_end (ends_in_slash (a ++ (slash ∷ slash ∷ b)))) ≤ skipped q (a ++ (slash ∷ slash ∷ b))
unfolding ends_in_slash
skipped_doubled q [] b nz =
    omega
      (arith, (emitted-skipped q slash b refl (inr refl)).1, skipped_trailing q (slash ∷ b) nz.1)
skipped_doubled q (c ∷ a) b nz =
    let (q', h) = skipped_step q c (a ++ (slash ∷ slash ∷ b)) nz.1 in
    rw (ends-append c a (slash ∷ b) slash) (omega (arith, h, skipped_doubled q' a b nz.1))

-- Behind a first slash, two slashes in a row are two more bytes that are skipped.
pub skipped_from_root :
    (a b : List ℕ)
    → NonZero (a ++ (slash ∷ slash ∷ b))
    → suc (suc (at_end (ends_in_slash (slash ∷ (a ++ (slash ∷ slash ∷ b))))))
      ≤ skipped true (slash ∷ (a ++ (slash ∷ slash ∷ b)))
skipped_from_root a b nz =
    let h = skipped_doubled true a b nz in
    rw (ends-append slash a (slash ∷ b) slash, behind_first a b nz) (omega (arith, h))
  where
    behind_first :
        (a b : List ℕ)
        → NonZero (a ++ (slash ∷ slash ∷ b))
        → skipped true (slash ∷ (a ++ (slash ∷ slash ∷ b)))
          ≡ suc (skipped true (a ++ (slash ∷ slash ∷ b)))
    behind_first [] b nz = (emitted-skipped true slash (slash ∷ b) refl (inl refl)).1
    behind_first (d ∷ a) b nz =
        (emitted-skipped true d (a ++ (slash ∷ slash ∷ b)) (ground (arith, nz)) (inl refl)).1

-- The first slash is skipped, and so is a slash at the end.
pub skipped_root :
    (cs : List ℕ)
    → NonZero cs
    → 0 < length cs
    → suc (at_end (ends_in_slash (slash ∷ cs))) ≤ skipped true (slash ∷ cs)
unfolding ends_in_slash
skipped_root [] nz some_more = absurd (omega arith)
skipped_root (d ∷ ds) nz some_more = omega (
  arith,
  (emitted-skipped true d ds (ground (arith, nz)) (inl refl)).1,
  skipped_trailing true (d ∷ ds) nz,
)
