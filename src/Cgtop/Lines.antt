-- ===== src/Cgtop/Lines.antt =====
-- The reading of lines in cgtop.c: `strstrip`, `first_word`, `read_one_line_file`, and the lines of
-- blkio.io_service_bytes in `read_from_blkio` and `process`. A line is its text, without the 0.
pub mod Fields
pub mod Sums
use lepd.Base.{
  ℕ, zero, suc, ◌+◌, ◌-◌, ◌*◌, ◌%◌, ◌^◌, Option, none, some, List, [], ◌∷◌, ◌++◌, Bool, true, false,
  not, ◌&&◌, ◌||◌, ◌==◌, leb, ltb, ◌>>=◌, if◌then◌else◌, take, drop, length, get_elem?,
}
use lepd.Base.Words.{plus_64}
use lepd.Base.CString.{c_string, bytes}

-- `strchr(" \t\n\r", c)` for a byte that is not 0.
unfoldable pub is_space : ℕ → Bool
is_space c = (c == 32) || ((c == 9) || ((c == 10) || (c == 13)))

-- `s + strspn(s, " \t\n\r")` and `s + strcspn(s, " \t\n\r")`
unfoldable pub skip_spaces : List ℕ → List ℕ
unfolding is_space
skip_spaces [] = []
skip_spaces (c ∷ s) = let rest = skip_spaces s in if is_space c then rest else c ∷ s

unfoldable pub skip_word : List ℕ → List ℕ
unfolding is_space
skip_word [] = []
skip_word (c ∷ s) = let rest = skip_word s in if is_space c then c ∷ s else rest

-- The loop of `strstrip` from the end `e` down to the first byte that is no space.
unfoldable pub strip_end : ℕ → List ℕ → Option ℕ
unfolding is_space
strip_end zero s = some 0
strip_end (suc e) s =
    let rest = strip_end e s in get_elem? s e >>= λ c. if is_space c then rest else some (suc e)

unfoldable pub strstrip : List ℕ → Option (List ℕ)
unfolding skip_spaces strip_end
strstrip s = let s' : List ℕ = skip_spaces s in strip_end (length s') s' >>= λ e. some (take e s')

-- `memcmp` of as many bytes as the word has, and the byte behind them.
unfoldable pub starts_with : List ℕ → List ℕ → Bool
starts_with [] s = true
starts_with (w ∷ word) [] = false
starts_with (w ∷ word) (c ∷ s) = (c == w) && starts_with word s

unfoldable pub behind_word : List ℕ → Option (List ℕ)
unfolding skip_spaces is_space
behind_word [] = some []
behind_word (c ∷ p) = if is_space c then some (skip_spaces (c ∷ p)) else none

-- NULL is `none`.
unfoldable pub first_word : List ℕ → List ℕ → Option (List ℕ)
unfolding starts_with behind_word
first_word s word =
    if ltb (length s) (length word)
    then none
    else (if length word == 0
        then some s
        else (if starts_with word s then behind_word (drop (length word) s) else none))

-- `strtoull(s, &x, 0)`: the digits of a base.
unfoldable pub digit_value : ℕ → ℕ
digit_value c =
    if leb b'0' c && leb c b'9'
    then c - b'0'
    else (if leb b'a' c && leb c b'f'
        then c - b'a' + 10
        else (if leb b'A' c && leb c b'F' then c - b'A' + 10 else 16))

unfoldable pub digits : ℕ → ℕ → List ℕ → ℕ
unfolding digit_value
digits base n [] = n
digits base n (c ∷ s) =
    let rest = digits base (n * base + digit_value c) s in
    if ltb (digit_value c) base then rest else n

unfoldable pub skip_blanks : List ℕ → List ℕ
skip_blanks [] = []
skip_blanks (c ∷ s) =
    let rest = skip_blanks s in if (c == 32) || (leb 9 c && leb c 13) then rest else c ∷ s

unfoldable pub magnitude : List ℕ → ℕ
unfolding digits
magnitude [] = 0
magnitude (c ∷ []) = digits 10 0 (c ∷ [])
magnitude (c ∷ x ∷ []) = digits (if c == b'0' then 8 else 10) 0 (c ∷ x ∷ [])
magnitude (c ∷ x ∷ d ∷ s) =
    if c == b'0'
    then (if ((x == b'x') || (x == b'X')) && ltb (digit_value d) 16
        then digits 16 0 (d ∷ s)
        else digits 8 0 (c ∷ x ∷ d ∷ s))
    else digits 10 0 (c ∷ x ∷ d ∷ s)

-- ULLONG_MAX for a value that does not fit.
abbrev clamp : ℕ → ℕ
clamp n = if ltb n (2 ^ 64) then n else 2 ^ 64 - 1

abbrev negated : ℕ → ℕ
negated n = if ltb n (2 ^ 64) then (2 ^ 64 - n) % 2 ^ 64 else 2 ^ 64 - 1

unfoldable pub signed_value : List ℕ → ℕ
unfolding magnitude
signed_value [] = 0
signed_value (c ∷ s) =
    if c == b'-'
    then negated (magnitude s)
    else (if c == b'+' then clamp (magnitude s) else clamp (magnitude (c ∷ s)))

unfoldable pub strtoull : List ℕ → ℕ
unfolding skip_blanks signed_value
strtoull s = signed_value (skip_blanks s)

-- `fgets` of 20 bytes from a file, and the text up to the end of the line; `none` is the answer -1.
unfoldable pub line_end : List ℕ → List ℕ
line_end [] = []
line_end (c ∷ s) = let rest = line_end s in if (c == 10) || (c == 13) then [] else c ∷ rest

unfoldable pub read_one_line_file : Option (List ℕ) → Option (List ℕ)
unfolding line_end
read_one_line_file none = none
read_one_line_file (some []) = none
read_one_line_file (some (c ∷ s)) = some (line_end (c_string (take 19 (c ∷ s))))

-- The sums of the bytes read and written.
pub record Service : Type 0 where
  pub rd : ℕ
  pub wr : ℕ

-- A field that follows the word, after the tests of `first_word` for Read and for Write.
unfoldable pub field_added : Option (List ℕ) → Option (List ℕ) → List ℕ → Service → Service
unfolding skip_spaces strtoull
field_added (some read) write l s = record s {
  rd = plus_64 s.rd (strtoull (skip_spaces (drop 4 l)));
}
field_added none (some write) l s = record s {
  wr = plus_64 s.wr (strtoull (skip_spaces (drop 5 l)));
}
field_added none none l s = s

unfoldable pub add_field : List ℕ → Service → Service
unfolding first_word field_added
add_field l s = field_added (first_word l (bytes "Read")) (first_word l (bytes "Write")) l s

-- The loop over the lines that `fgets` reads.
unfoldable pub sum_lines : List (List ℕ) → Service → Option Service
unfolding strstrip skip_word skip_spaces add_field
sum_lines [] s = some s
sum_lines (t ∷ ts) s = strstrip t >>= λ l. sum_lines ts (add_field (skip_spaces (skip_word l)) s)
