-- ===== src/Cgtop/Lines/Fields.antt =====
-- The fields of a line: `strstrip`, `first_word`, and the sums of the lines of
-- blkio.io_service_bytes.
use lepd.Base.{
  ℕ, zero, suc, ◌+◌, ◌<◌, ◌≤◌, ◌≡◌, refl, Option, none, some, List, [], ◌∷◌, ◌++◌, Bool, true,
  false, ◌&&◌, ◌==◌, if◌then◌else◌, ◌>>=◌, take, drop, length, get_elem?, All, arith, ap, sym, ◌∙◌,
  append_assoc, length-append, take_self, Bool-cases, inl, inr, ==_iff, dec_lt,
}
use lepd.Base.CString.{same}
use lepd.Cgtop.Lines.{
  is_space, skip_spaces, skip_word, strip_end, strstrip, starts_with, behind_word, first_word,
}

-- Texts of spaces, and of other bytes.
abbrev pub Spaces : List ℕ → Type 0
Spaces = All (λ c. is_space c ≡ true)

abbrev pub Word : List ℕ → Type 0
Word = All (λ c. is_space c ≡ false)

skip_spaces_first : (c : ℕ) (s : List ℕ) → is_space c ≡ false → skip_spaces (c ∷ s) ≡ c ∷ s
unfolding skip_spaces
skip_spaces_first c s h = rw h refl

skip_spaces-append : (a s : List ℕ) → Spaces a → skip_spaces (a ++ s) ≡ skip_spaces s
unfolding skip_spaces
skip_spaces-append [] s h = refl
skip_spaces-append (c ∷ a) s h = rw h.0 (skip_spaces-append a s h.1)

skip_word-append : (a s : List ℕ) → Word a → skip_word (a ++ s) ≡ skip_word s
unfolding skip_word
skip_word-append [] s h = refl
skip_word-append (c ∷ a) s h = rw h.0 (skip_word-append a s h.1)

get-behind : (a s : List ℕ) (n k : ℕ) → k ≡ length a + n → get_elem? (a ++ s) k ≡ get_elem? s n
get-behind [] s n k e = ap (get_elem? s) (omega arith)
get-behind (c ∷ a) s n zero e = absurd (omega arith)
get-behind (c ∷ a) s n (suc k) e = get-behind a s n k (omega arith)

get-All :
    (tail : List ℕ) (n : ℕ)
    → Spaces tail
    → n < length tail
    → (c : ℕ) × ((get_elem? tail n ≡ some c) × (is_space c ≡ true))
get-All [] n h in_range = absurd (omega arith)
get-All (c ∷ tail) zero h in_range = (c, (refl, h.0))
get-All (c ∷ tail) (suc n) h in_range = get-All tail n h.1 (omega arith)

-- The loop of `strstrip` passes the spaces behind the last other byte.
module _ (b tail : List ℕ) (c : ℕ) (last : is_space c ≡ false) (spaces : Spaces tail) where
  strip_end-passes :
      (n k : ℕ)
      → n ≤ length tail
      → k ≡ length b + n
      → strip_end (suc k) (b ++ (c ∷ tail)) ≡ some (suc (length b))
  unfolding strip_end
  strip_end-passes zero k h e =
      rw (get-behind b (c ∷ tail) 0 k e, last) (ap (λ i. some (suc i)) (omega arith))
  strip_end-passes (suc n) zero h e = absurd (omega arith)
  strip_end-passes (suc n) (suc k) h e =
      let (d, (at, is)) = get-All tail n spaces (omega arith) in
      rw (get-behind b (c ∷ tail) (suc n) (suc k) e, at, is)
        (strip_end-passes n k (omega arith) (omega arith))

-- `strstrip` takes the spaces away before the first and behind the last other byte.
pub strstrip-trimmed :
    (lead b tail : List ℕ) (c : ℕ)
    → Spaces lead
    → Spaces tail
    → is_space c ≡ false
    → skip_spaces (b ++ (c ∷ tail)) ≡ b ++ (c ∷ tail)
    → strstrip (lead ++ (b ++ (c ∷ tail))) ≡ some (b ++ (c ∷ []))
unfolding strstrip
strstrip-trimmed lead b tail c before behind last first =
    let text : List ℕ = b ++ (c ∷ tail) in
    let size : length text ≡ suc (length b + length tail) =
      omega (arith, length-append b (c ∷ tail)) in
    let counted : suc (length b) ≡ length (b ++ (c ∷ [])) =
      omega (arith, length-append b (c ∷ [])) in
    rw (skip_spaces-append lead text before, first)
      (ap (λ n. strip_end n text >>= λ e. some (take e text)) size
        ∙ rw
            (strip_end-passes b tail c last behind (length tail) (length b + length tail)
              (omega arith) refl)
            (ap some (
              ap (λ n. take n text) counted
              ∙ ap (take (length (b ++ (c ∷ [])))) (sym (append_assoc b (c ∷ []) tail))
              ∙ take_self (b ++ (c ∷ [])) tail)))

starts_with_short : (word s : List ℕ) → length s < length word → starts_with word s ≡ false
unfolding starts_with
starts_with_short [] s h = absurd (omega arith)
starts_with_short (w ∷ word) [] h = refl
starts_with_short (w ∷ word) (c ∷ s) h =
    rw (starts_with_short word s (omega arith)) (never (c == w))
  where
    never : (b : Bool) → (b && false) ≡ false
    never true = refl
    never false = refl

-- `first_word` before its tests of the lengths are resolved.
plain_word : List ℕ → List ℕ → Option (List ℕ)
plain_word s word = if starts_with word s then behind_word (drop (length word) s) else none

first_word-plain : (s word : List ℕ) → 0 < length word → first_word s word ≡ plain_word s word
unfolding first_word plain_word
first_word-plain s word some_more = elim (dec_lt (length s) (length word)) [
  | yes short ↦ rw (starts_with_short word s short) (ground arith)
  | no long ↦ ground arith
]

-- The first word of a line is the word asked for, or it is not.
plain_word-same :
    (op word v : List ℕ)
    → Word op
    → Word word
    → plain_word (op ++ (32 ∷ v)) word
      ≡ (if same word op then some (skip_spaces (32 ∷ v)) else none)
unfolding plain_word starts_with behind_word same is_space
plain_word-same [] [] v h k = refl
plain_word-same (c ∷ op) [] v h k = rw h.0 refl
plain_word-same [] (w ∷ word) v h k = elim (Bool-cases (32 == w)) [
  | inl e ↦ (let clash : true ≡ false = ap is_space ((==_iff 32 w).0 e) ∙ k.0 in absurd cc)
  | inr e ↦ rw e refl
]
plain_word-same (c ∷ op) (w ∷ word) v h k = elim (Bool-cases (c == w)) [
  | inl e ↦ rw e (plain_word-same op word v h.1 k.1)
  | inr e ↦ rw e refl
]

-- `first_word` finds a word exactly where the first field is that word.
pub first_word-same :
    (op word v : List ℕ)
    → Word op
    → Word word
    → 0 < length word
    → first_word (op ++ (32 ∷ v)) word
      ≡ (if same word op then some (skip_spaces (32 ∷ v)) else none)
first_word-same op word v h k some_more =
    first_word-plain (op ++ (32 ∷ v)) word some_more ∙ plain_word-same op word v h k

pub skip_spaces-Word : (a s : List ℕ) → Word a → 0 < length a → skip_spaces (a ++ s) ≡ a ++ s
skip_spaces-Word [] s h some_more = absurd (omega arith)
skip_spaces-Word (c ∷ a) s h some_more = skip_spaces_first c (a ++ s) h.0

pub skip_word-Word : (a s : List ℕ) → Word a → skip_word (a ++ (32 ∷ s)) ≡ 32 ∷ s
unfolding skip_word is_space
skip_word-Word a s h = skip_word-append a (32 ∷ s) h
