-- ===== src/Base/CString.antt =====
-- C strings and byte buffers: a buffer is a list of bytes, and its text ends before the first 0.
-- An access outside the buffer is a fault, `none`.
use Prim.Native.Nat.{ℕ, zero, suc, ◌+◌, ◌≤◌, ◌<◌}
use Prim.Native.Char.{code}
use Prim.Native.String.{String}
use mathlib.Core.Path.{◌≡◌, refl, ap, ap₂, ◌∙◌}
use mathlib.Core.Logic.{◌≢◌}
use mathlib.Core.List.{List, [], ◌∷◌, ◌++◌}
use mathlib.Core.Bool.{Bool, true, false, ◌&&◌}
use mathlib.Core.Option.{Option, none, some}
use native.Mathlib.Omega.{arith}
use lepd.Base.Tests.{leb, ◌==◌, ==_iff, if◌then◌else◌}
use lepd.Base.Lists.{
  length, take, drop, replicate, All, length-append, take_self, drop_past, drop-append_self,
}

-- The bytes of a string.
abbrev pub bytes : String → List ℕ
bytes String.[] = []
bytes (String.◌∷◌ c s) = code c ∷ bytes s

-- The bytes before the first 0.
unfoldable pub c_string : List ℕ → List ℕ
c_string [] = []
c_string (b ∷ bs) = if b == 0 then [] else b ∷ c_string bs

abbrev pub strlen : List ℕ → ℕ
strlen bs = length (c_string bs)

-- Puts the bytes at an offset.
unfoldable pub splice : ℕ → List ℕ → List ℕ → Option (List ℕ)
splice off bs buf =
    if leb (off + length bs) (length buf)
    then some (take off buf ++ (bs ++ drop (off + length bs) buf))
    else none

-- `memmove(buf, buf + src, n)`
unfoldable pub move_down : ℕ → ℕ → List ℕ → Option (List ℕ)
move_down src n buf =
    if leb (src + n) (length buf) then splice 0 (take n (drop src buf)) buf else none

abbrev pub NonZero : List ℕ → Type 0
NonZero = All (λ b. b ≢ 0)

pub c_string-NonZero : (bs : List ℕ) → NonZero (c_string bs)
unfolding c_string
c_string-NonZero [] = tt
c_string-NonZero (b ∷ bs) = ground (arith, c_string-NonZero bs)

pub c_string-append_zeros : (bs : List ℕ) (n : ℕ) → NonZero bs → c_string (bs ++ replicate n 0) ≡ bs
unfolding c_string
c_string-append_zeros [] zero h = refl
c_string-append_zeros [] (suc n) h = refl
c_string-append_zeros (b ∷ bs) n h = ground (arith, c_string-append_zeros bs n h.1)

pub strlen-le : (bs : List ℕ) → strlen bs ≤ length bs
unfolding c_string
strlen-le [] = omega arith
strlen-le (b ∷ bs) = ground (arith, strlen-le bs)

-- The text of a buffer stands at its start.
pub take-strlen : (bs : List ℕ) → take (strlen bs) bs ≡ c_string bs
unfolding c_string
take-strlen [] = refl
take-strlen (b ∷ bs) = ground (arith, take-strlen bs)

pub c_string_before : (xs ys : List ℕ) → NonZero xs → c_string (xs ++ 0 ∷ ys) ≡ xs
unfolding c_string
c_string_before [] ys h = refl
c_string_before (x ∷ xs) ys h = ground (arith, c_string_before xs ys h.1)

pub c_string_zeros : (bs : List ℕ) (n : ℕ) → c_string (bs ++ replicate n 0) ≡ c_string bs
unfolding c_string
c_string_zeros [] zero = refl
c_string_zeros [] (suc n) = refl
c_string_zeros (b ∷ bs) n = ground (arith, c_string_zeros bs n)

-- A write over `ys`, of as many bytes.
pub splice_over :
    (xs ys zs bytes : List ℕ) (off : ℕ)
    → off ≡ length xs
    → length bytes ≡ length ys
    → splice off bytes (xs ++ (ys ++ zs)) ≡ some (xs ++ (bytes ++ zs))
unfolding splice
splice_over xs ys zs bytes off e same =
    let fits : off + length bytes ≤ length (xs ++ (ys ++ zs)) =
      omega (arith, length-append xs (ys ++ zs), length-append ys zs) in
    ground (
      arith,
      ap (λ k. take k (xs ++ (ys ++ zs))) e ∙ take_self xs (ys ++ zs),
      drop_past xs (ys ++ zs) (off + length bytes) (length ys) (omega arith),
      drop-append_self (length ys) ys zs refl,
    )

-- Buffers whose last byte is 0.
abbrev pub EndsZero : List ℕ → Type 0
EndsZero ys = (q : List ℕ) × (ys ≡ q ++ 0 ∷ [])

EndsZero-cons : (x : ℕ) (ys : List ℕ) → EndsZero ys → EndsZero (x ∷ ys)
EndsZero-cons x ys (q, e) = (x ∷ q, ap (◌∷◌ x) e)

pub EndsZero-zeros : (n : ℕ) → EndsZero (replicate (suc n) 0)
EndsZero-zeros zero = ([], refl)
EndsZero-zeros (suc n) = EndsZero-cons 0 (replicate (suc n) 0) (EndsZero-zeros n)

pub EndsZero-append : (xs ys : List ℕ) → EndsZero ys → EndsZero (xs ++ ys)
EndsZero-append [] ys z = z
EndsZero-append (x ∷ xs) ys z = EndsZero-cons x (xs ++ ys) (EndsZero-append xs ys z)

pub EndsZero-drop : (d : ℕ) (ys : List ℕ) → EndsZero ys → d < length ys → EndsZero (drop d ys)
EndsZero-drop zero ys z h = z
EndsZero-drop (suc d) [] z h = absurd (omega arith)
EndsZero-drop (suc d) (y ∷ ys) ([], e) h = absurd (omega (arith, ap length e))
EndsZero-drop (suc d) (y ∷ ys) (x ∷ q, e) h = EndsZero-drop d ys (q, ground arith) (omega arith)

-- Equality of texts.
unfoldable pub same : List ℕ → List ℕ → Bool
same [] [] = true
same [] (c ∷ s) = false
same (w ∷ word) [] = false
same (w ∷ word) (c ∷ s) = (c == w) && same word s

both : (a b : Bool) → (a && b) ≡ true → (a ≡ true) × (b ≡ true)
both true b h = (refl, h)
both false b h = absurd cc

pub same→eq : (word s : List ℕ) → same word s ≡ true → s ≡ word
unfolding same
same→eq [] [] h = refl
same→eq [] (c ∷ s) h = absurd cc
same→eq (w ∷ word) [] h = absurd cc
same→eq (w ∷ word) (c ∷ s) h =
    let (is, more) = both (c == w) (same word s) h in
    ap₂ (λ x xs. x ∷ xs) ((==_iff c w).0 is) (same→eq word s more)

-- `strncmp(s, word, strlen(word)) == 0`
unfoldable pub begins_with : List ℕ → List ℕ → Bool
begins_with [] s = true
begins_with (w ∷ word) [] = false
begins_with (w ∷ word) (c ∷ s) = (c == w) && begins_with word s

-- `while (*p == ' ') p++;`
unfoldable pub past_spaces : List ℕ → List ℕ
past_spaces [] = []
past_spaces (c ∷ s) = let rest = past_spaces s in if c == b' ' then rest else c ∷ s
