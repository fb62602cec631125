-- ===== src/Cgtop/Paths/Joined.antt =====
-- `strjoin` gives the texts of its arguments, one behind the other.
use lepd.Base.{
  ℕ, suc, zero, ◌+◌, ◌≤◌, ◌<◌, ◌≡◌, refl, none, some, List, [], ◌∷◌, ◌++◌, length, replicate, drop,
  arith, ap, sym, ◌∙◌, append_assoc, append-nil, length-append, length-replicate, length-drop,
}
use lepd.Base.CString.{c_string, strlen, splice, c_string-NonZero}
use lepd.Base.Strcat.{strcat_lem}
use lepd.Cgtop.{Malloc}
use lepd.Cgtop.Paths.{strjoin, join_into, fill, strcat_all, total_length, clear_text}

-- The texts of some buffers, one behind the other.
unfoldable pub concat_texts : List (List ℕ) → List ℕ
concat_texts [] = []
concat_texts (x ∷ xs) = c_string x ++ concat_texts xs

pub length-concat_texts : (xs : List (List ℕ)) → length (concat_texts xs) ≡ total_length xs
unfolding concat_texts total_length
length-concat_texts [] = refl
length-concat_texts (x ∷ xs) =
    omega (arith, length-append (c_string x) (concat_texts xs), length-concat_texts xs)

strcat_all-texts :
    (xs : List (List ℕ)) (r : List ℕ)
    → strlen r + total_length xs < length r
    → (r' : List ℕ) × ((strcat_all xs r ≡ some r')
        × ((c_string r' ≡ c_string r ++ concat_texts xs) × (length r' ≡ length r)))
unfolding strcat_all total_length concat_texts
strcat_all-texts [] r room = (r, (refl, (sym (append-nil (c_string r)), refl)))
strcat_all-texts (x ∷ xs) r room =
    let (r1, e1, text1, size1) = strcat_lem r (c_string x) (c_string-NonZero x) (omega arith) in
    let (r2, (e2, (text2, size2))) =
      strcat_all-texts xs r1
        (omega (arith, ap length text1, length-append (c_string r) (c_string x))) in
    (
      r2,
      (
        rw e1 e2,
        (
          text2
              ∙ ap (λ t. t ++ concat_texts xs) text1
              ∙ append_assoc (c_string r) (c_string x) (concat_texts xs),
          size2 ∙ size1,
        ),
      ),
    )

length-zero : (xs : List ℕ) → length xs ≡ 0 → xs ≡ []
length-zero [] h = refl
length-zero (x ∷ xs) h = absurd (omega arith)

zeros_first : (n : ℕ) (r : List ℕ) → n ≡ strlen r → c_string (replicate n 0 ++ drop n r) ≡ []
unfolding c_string
zeros_first zero r h = length-zero (c_string r) (omega arith)
zeros_first (suc n) r h = refl

pub clear_text_lem :
    (r : List ℕ)
    → strlen r < length r
    → (r' : List ℕ) × ((clear_text r ≡ some r') × ((c_string r' ≡ []) × (length r' ≡ length r)))
unfolding clear_text splice
clear_text_lem r has =
    let zeros = length-replicate {A = ℕ} (strlen r) 0 in
    (
      replicate (strlen r) 0 ++ drop (strlen r) r,
      (
        ground (arith, zeros),
        (
          zeros_first (strlen r) r refl,
          omega (
            arith,
            zeros,
            length-append (replicate (strlen r) 0) (drop (strlen r) r),
            length-drop (strlen r) r,
          ),
        ),
      ),
    )

-- A block of at least the bytes asked for, with a 0 in it: `strlen` of it stays inside.
abbrev pub Usable : ℕ → List ℕ → Type 0
Usable n block = (n ≤ length block) × (strlen block < length block)

-- The text of `strjoin` is the texts of its arguments in order.
pub strjoin-texts :
    (malloc : Malloc) (x : List ℕ) (xs : List (List ℕ)) (block : List ℕ)
    → malloc (total_length (x ∷ xs) + 1) ≡ some block
    → Usable (total_length (x ∷ xs) + 1) block
    → (t : List ℕ) × ((strjoin malloc (x ∷ xs) ≡ some (some t))
        × ((c_string t ≡ concat_texts (x ∷ xs)) × (length t ≡ length block)))
unfolding strjoin join_into fill
strjoin-texts malloc x xs block allocated (large, has) =
    let (r, (e, (none_yet, size))) = clear_text_lem block has in
    let (t, (filled, (text, size'))) =
      strcat_all-texts (x ∷ xs) r (omega (arith, ap length none_yet)) in
    (
      t,
      (
        rw (allocated, e, filled) refl,
        (text ∙ ap (λ s. s ++ concat_texts (x ∷ xs)) none_yet, size' ∙ size),
      ),
    )

-- A block without a 0 is read past its end.
pub strjoin_past :
    (malloc : Malloc) (xs : List (List ℕ)) (block : List ℕ)
    → malloc (total_length xs + 1) ≡ some block
    → length block ≤ strlen block
    → strjoin malloc xs ≡ none
unfolding strjoin join_into clear_text
strjoin_past malloc xs block allocated full = rw allocated (ground arith)
