-- ===== src/Sysstat/Cpuinfo/Named.antt =====
-- Which name `figureout_cpu` finds in /proc/cpuinfo, and when it meets a NULL.
use lepd.Base.{
  ℕ, ◌≡◌, ◌≢◌, ◌⊎◌, inl, inr, refl, sym, ap, ap₂, Bool, true, false, Option, none, some, List, [],
  ◌∷◌, ◌++◌, ◌==◌, ◌&&◌, drop, All, arith, ==_iff, Bool-cases, Option-cases, append-nil,
}
use lepd.Base.CString.{bytes, begins_with}
use lepd.Sysstat.Cpuinfo.{strstr, or_else, vendor, cpu_name, figureout_cpu}

-- The word stands somewhere in the text.
abbrev pub Mentions : List ℕ → List ℕ → Type 0
Mentions word s = (x : List ℕ) × ((y : List ℕ) × (s ≡ x ++ (word ++ y)))

and_parts : (a b : Bool) → (a && b) ≡ true → (a ≡ true) × (b ≡ true)
and_parts true b h = (refl, h)
and_parts false b h = absurd cc

begins→append : (word s : List ℕ) → begins_with word s ≡ true → (y : List ℕ) × (s ≡ word ++ y)
unfolding begins_with
begins→append [] s h = (s, refl)
begins→append (w ∷ word) [] h = absurd cc
begins→append (w ∷ word) (c ∷ s) h =
    let (same, more) = and_parts (c == w) (begins_with word s) h in
    let (y, e) = begins→append word s more in
    (y, ap₂ (λ (x : ℕ) (xs : List ℕ). x ∷ xs) ((==_iff c w).0 same) e)

append→begins : (word y : List ℕ) → begins_with word (word ++ y) ≡ true
unfolding begins_with
append→begins [] y = refl
append→begins (w ∷ word) y = ground (arith, append→begins word y)

-- `strstr` finds a word exactly in a text that mentions it.
strstr→Mentions : (s word r : List ℕ) → strstr s word ≡ some r → Mentions word s
unfolding strstr
strstr→Mentions [] word r h = elim (Bool-cases (begins_with word [])) [
  | inl yes_it ↦ ([], begins→append word [] yes_it)
  | inr not_it ↦ absurd (cc (rw not_it at h))
]
strstr→Mentions (c ∷ s) word r h = elim (Bool-cases (begins_with word (c ∷ s))) [
  | inl here ↦ ([], begins→append word (c ∷ s) here)
  | inr later ↦
      let (x, (y, e)) = strstr→Mentions s word r (rw later at h) in (c ∷ x, (y, ap (◌∷◌ c) e))
]

strstr_found : (x word y : List ℕ) → (r : List ℕ) × (strstr (x ++ (word ++ y)) word ≡ some r)
unfolding strstr
strstr_found [] [] [] = ([], refl)
strstr_found [] [] (c ∷ y) = (c ∷ y, refl)
strstr_found [] (w ∷ word) y = (w ∷ (word ++ y), rw (append→begins (w ∷ word) y) refl)
strstr_found (c ∷ x) word y = elim (Bool-cases (begins_with word (c ∷ (x ++ (word ++ y))))) [
  | inl here ↦ (c ∷ (x ++ (word ++ y)), rw here refl)
  | inr later ↦ let (r, e) = strstr_found x word y in (r, rw later e)
]

-- No byte is a colon.
abbrev pub NoColon : List ℕ → Type 0
NoColon = All (λ c. c ≢ b':')

strstr_colon :
    (a rest : List ℕ) → NoColon a → strstr (a ++ b':' ∷ rest) (bytes ":") ≡ some (b':' ∷ rest)
unfolding strstr begins_with
strstr_colon [] rest h = refl
strstr_colon (c ∷ a) rest (n, h) = ground (arith, strstr_colon a rest h)

strstr-NoColon : (a : List ℕ) → NoColon a → strstr a (bytes ":") ≡ none
unfolding strstr begins_with
strstr-NoColon [] h = refl
strstr-NoColon (c ∷ a) (n, h) = ground (arith, strstr-NoColon a h)

-- The text mentions one of the four vendors.
abbrev pub Vendored : List ℕ → Type 0
Vendored s =
    Mentions (bytes "ARM") s
    ⊎ (Mentions (bytes "AArch64") s ⊎ (Mentions (bytes "Intel") s ⊎ Mentions (bytes "AMD") s))

strstr-none : (s word : List ℕ) → ¬ Mentions word s → strstr s word ≡ none
strstr-none s word h = elim (Option-cases (strstr s word)) [
  | inl e ↦ e
  | inr (r, e) ↦ absurd (h (strstr→Mentions s word r e))
]

vendor-none : (s : List ℕ) → ¬ Vendored s → vendor s ≡ none
unfolding vendor
vendor-none s h =
    rw
      (
        strstr-none s (bytes "ARM") (λ m. h (inl m)),
        strstr-none s (bytes "AArch64") (λ m. h (inr (inl m))),
        strstr-none s (bytes "Intel") (λ m. h (inr (inr (inl m)))),
        strstr-none s (bytes "AMD") (λ m. h (inr (inr (inr m)))),
      )
      refl

abbrev IsFound : Option (List ℕ) → Type 0
IsFound o = (r : List ℕ) × (o ≡ some r)

Mentions-IsFound : (s word : List ℕ) → Mentions word s → IsFound (strstr s word)
Mentions-IsFound s word (x, (y, e)) = let (r, found) = strstr_found x word y in (r, rw e found)

or_else-IsFound : (o p : Option (List ℕ)) → IsFound o ⊎ IsFound p → IsFound (or_else o p)
or_else-IsFound (some r) p h = (r, refl)
or_else-IsFound none p (inl (r, e)) = absurd cc
or_else-IsFound none p (inr h) = h

-- Either the word is mentioned, or the search behind it finds something.
word_or {κ} :
    {X : Type κ} (s word : List ℕ) (p : Option (List ℕ))
    → (X → IsFound p)
    → Mentions word s ⊎ X
    → IsFound (or_else (strstr s word) p)
word_or s word p k (inl m) = or_else-IsFound (strstr s word) p (inl (Mentions-IsFound s word m))
word_or s word p k (inr x) = or_else-IsFound (strstr s word) p (inr (k x))

vendor-IsFound : (s : List ℕ) → Vendored s → IsFound (vendor s)
unfolding vendor
vendor-IsFound s =
    let amd = strstr s (bytes "AMD") in
    let intel = or_else (strstr s (bytes "Intel")) amd in
    word_or s (bytes "ARM") (or_else (strstr s (bytes "AArch64")) intel) (
      word_or s (bytes "AArch64") intel
        (word_or s (bytes "Intel") amd (Mentions-IsFound s (bytes "AMD"))))

pub not_Vendored : (s : List ℕ) → vendor s ≡ none → ¬ Vendored s
not_Vendored s e named = let (r, found) = vendor-IsFound s named in cc

-- A line with a colon, and no vendor from the first colon on.
abbrev pub Plain : List ℕ → Type 0
Plain line =
    (a : List ℕ) × ((rest : List ℕ) × (line ≡ a ++ b':' ∷ rest)
      × NoColon a
      × (¬ Vendored (b':' ∷ rest)))

cpu_name-Plain :
    (before lines : List (List ℕ)) → All Plain before → cpu_name (before ++ lines) ≡ cpu_name lines
unfolding cpu_name
cpu_name-Plain [] lines h = refl
cpu_name-Plain (line ∷ before) lines ((a, (rest, e, free, none_named)), h) =
    rw (e, strstr_colon a rest free)
      (rw (vendor-none (b':' ∷ rest) none_named) (cpu_name-Plain before lines h))

-- Behind lines that have a colon and no vendor from it on: a line that mentions one of ARM, AArch64,
-- Intel and AMD from its first colon on gives the name, the text two bytes behind that colon; if the
-- file ends, the name is "unknown"; and a line without a colon, as an empty one, makes
-- `figureout_cpu` search a NULL, a fault.
pub figureout_cpu-named :
    (before : List (List ℕ))
    → All Plain before
    → ((a rest : List ℕ) (after : List (List ℕ))
        → NoColon a
        → Vendored (b':' ∷ rest)
        → figureout_cpu (some (before ++ (a ++ b':' ∷ rest) ∷ after))
          ≡ some (bytes "cpu_name: " ++ drop 1 rest))
      × (figureout_cpu (some before) ≡ some (bytes "cpu_name: unknown"))
      × ((line : List ℕ) (after : List (List ℕ))
          → NoColon line
          → figureout_cpu (some (before ++ line ∷ after)) ≡ none)
unfolding figureout_cpu cpu_name
figureout_cpu-named before h = (
  λ a rest after free named.
      let (n, found) = vendor-IsFound (b':' ∷ rest) named in
      rw (cpu_name-Plain before ((a ++ b':' ∷ rest) ∷ after) h)
        (rw (strstr_colon a rest free) (rw found refl)),
  rw (sym (append-nil before)) (rw (cpu_name-Plain before [] h) refl),
  λ line after free.
      rw (cpu_name-Plain before (line ∷ after) h) (rw (strstr-NoColon line free) refl),
)
