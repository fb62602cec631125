-- ===== src/Cgtop/Slashes/Components.antt =====
-- The components of a path, the path that they make, and that it is what the loop of
-- `path_kill_slashes` leaves as the text.
use lepd.Base.{
  ℕ, ◌≡◌, ◌≢◌, refl, List, [], ◌∷◌, ◌++◌, Bool, true, false, ◌==◌, if◌then◌else◌, arith, ◌∙◌, ap,
  sym, append_assoc, subst, Bool-cases, inl, inr, ==_iff,
}
use lepd.Base.CString.{c_string, NonZero}
use lepd.Cgtop.Slashes.Emitted.{
  slash, emitted, emitted_last, emitted-skipped, emitted_kept, emitted_other,
}

abbrev push : ℕ → List (List ℕ) → List (List ℕ)
push c [] = (c ∷ []) ∷ []
push c (p ∷ ps) = (c ∷ p) ∷ ps

-- The pieces between the slashes.
unfoldable pub pieces : List ℕ → List (List ℕ)
pieces [] = [] ∷ []
pieces (c ∷ cs) = let ps = pieces cs in if c == slash then [] ∷ ps else push c ps

unfoldable pub nonempty : List (List ℕ) → List (List ℕ)
nonempty [] = []
nonempty ([] ∷ ps) = nonempty ps
nonempty ((c ∷ p) ∷ ps) = (c ∷ p) ∷ nonempty ps

-- The pieces that are not empty.
unfoldable pub components : List ℕ → List (List ℕ)
unfolding pieces nonempty
components path = nonempty (pieces path)

-- A slash before each component.
unfoldable pub slashed : List (List ℕ) → List ℕ
slashed [] = []
slashed (p ∷ ps) = slash ∷ (p ++ slashed ps)

-- A slash between the components.
abbrev joined : List (List ℕ) → List ℕ
joined [] = []
joined (p ∷ ps) = p ++ slashed ps

-- The absolute path of some components.
abbrev pub absolute : List (List ℕ) → List ℕ
absolute ps = slash ∷ joined ps

-- The rest of a component and the components behind it.
abbrev behind : List (List ℕ) → List ℕ
behind [] = []
behind (p ∷ ps) = p ++ slashed (nonempty ps)

behind-push : (c : ℕ) (ps : List (List ℕ)) → behind (push c ps) ≡ c ∷ behind ps
unfolding nonempty slashed
behind-push c [] = refl
behind-push c (p ∷ ps) = refl

joined-push : (c : ℕ) (ps : List (List ℕ)) → joined (nonempty (push c ps)) ≡ c ∷ behind ps
unfolding nonempty slashed
joined-push c [] = refl
joined-push c (p ∷ ps) = refl

slashed-push : (c : ℕ) (ps : List (List ℕ)) → slashed (nonempty (push c ps)) ≡ slash ∷ c ∷ behind ps
unfolding nonempty slashed
slashed-push c [] = refl
slashed-push c (p ∷ ps) = refl

pieces_other : (c : ℕ) (cs : List ℕ) → (c == slash) ≡ false → pieces (c ∷ cs) ≡ push c (pieces cs)
unfolding pieces
pieces_other c cs other = rw other refl

c_string_other : (c : ℕ) (cs : List ℕ) → c ≢ 0 → c_string (c ∷ cs) ≡ c ∷ c_string cs
unfolding c_string
c_string_other c cs inside = ground arith

-- What the loop leaves, behind a slash and behind another byte.
abbrev pub Leaves : List ℕ → Type 0
Leaves cs =
    (c_string (emitted true cs) ≡ joined (components cs))
    × (c_string (emitted false cs) ≡ behind (pieces cs))

Leaves-other : (c : ℕ) (cs : List ℕ) → c ≢ 0 → (c == slash) ≡ false → Leaves cs → Leaves (c ∷ cs)
unfolding components
Leaves-other c cs inside other ih =
    let text : (q : Bool) → c_string (emitted q (c ∷ cs)) ≡ c ∷ behind (pieces cs) = λ q.
      ap c_string ((emitted_other q c cs other).0 ∙ ap (λ k. c ∷ emitted k cs) other)
      ∙ c_string_other c (emitted false cs) inside
      ∙ ap (◌∷◌ c) ih.1 in
    rw (pieces_other c cs other)
      (text true ∙ sym (joined-push c (pieces cs)), text false ∙ sym (behind-push c (pieces cs)))

Leaves-slash : (cs : List ℕ) → NonZero cs → Leaves cs → Leaves (slash ∷ cs)
unfolding components pieces nonempty c_string slashed
Leaves-slash [] nz ih = (ap c_string (emitted_last true).0, ap c_string (emitted_last false).0)
Leaves-slash (d ∷ ds) nz ih =
    let inside : (d == 0) ≡ false = ground (arith, nz) in
    (
      ap c_string (emitted-skipped true d ds inside (inl refl)).0 ∙ ih.0,
      elim (Bool-cases (d == slash)) [
        | inl before ↦
            ap c_string (emitted-skipped false d ds inside (inr before)).0 ∙ ih.1 ∙ rw before refl
        | inr alone ↦
            ap c_string (emitted_kept false d ds inside refl alone).0
            ∙ rw alone (
                ap (◌∷◌ slash) (ih.0 ∙ rw alone (joined-push d (pieces ds)))
                ∙ sym (slashed-push d (pieces ds)))
      ],
    )

pub emitted-Leaves : (cs : List ℕ) → NonZero cs → Leaves cs
unfolding emitted components pieces nonempty slashed c_string
emitted-Leaves [] nz = (refl, refl)
emitted-Leaves (c ∷ cs) nz = elim (Bool-cases (c == slash)) [
  | inl is ↦
      subst (λ b. Leaves (b ∷ cs)) (sym ((==_iff c slash).0 is))
        (Leaves-slash cs nz.1 (emitted-Leaves cs nz.1))
  | inr other ↦ Leaves-other c cs nz.0 other (emitted-Leaves cs nz.1)
]

pieces-cons : (cs : List ℕ) → (p : List ℕ) × ((ps : List (List ℕ)) × (pieces cs ≡ p ∷ ps))
unfolding pieces
pieces-cons [] = ([], ([], refl))
pieces-cons (c ∷ cs) =
    let (p, (ps, e)) = pieces-cons cs in
    elim (Bool-cases (c == slash)) [
      | inl is ↦ ([], (pieces cs, rw is refl))
      | inr other ↦ (c ∷ p, (ps, rw (other, e) refl))
    ]

pieces-append : (a b : List ℕ) → pieces (a ++ (slash ∷ b)) ≡ pieces a ++ pieces b
unfolding pieces
pieces-append [] b = refl
pieces-append (c ∷ a) b =
    let (p, (ps, e)) = pieces-cons a in
    elim (Bool-cases (c == slash)) [
      | inl is ↦ rw is (ap (◌∷◌ []) (pieces-append a b))
      | inr other ↦ rw other (ap (push c) (pieces-append a b) ∙ rw e refl)
    ]

nonempty-append : (ps qs : List (List ℕ)) → nonempty (ps ++ qs) ≡ nonempty ps ++ nonempty qs
unfolding nonempty
nonempty-append [] qs = refl
nonempty-append ([] ∷ ps) qs = nonempty-append ps qs
nonempty-append ((c ∷ p) ∷ ps) qs = ap (◌∷◌ (c ∷ p)) (nonempty-append ps qs)

-- The components on both sides of a slash.
pub components-append :
    (a b : List ℕ) → components (a ++ (slash ∷ b)) ≡ components a ++ components b
unfolding components
components-append a b = ap nonempty (pieces-append a b) ∙ nonempty-append (pieces a) (pieces b)

pub slashed-append : (ps qs : List (List ℕ)) → slashed (ps ++ qs) ≡ slashed ps ++ slashed qs
unfolding slashed
slashed-append [] qs = refl
slashed-append (p ∷ ps) qs =
    ap (◌∷◌ slash)
      (ap (λ t. p ++ t) (slashed-append ps qs) ∙ sym (append_assoc p (slashed ps) (slashed qs)))

pub absolute-slash : (ps : List (List ℕ)) → (rest : List ℕ) × (absolute ps ≡ slash ∷ rest)
absolute-slash ps = (joined ps, refl)
