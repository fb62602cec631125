-- ===== src/Procrank/MemInfo/Fields.antt =====
-- What `print_mem_info` reads in one line of /proc/meminfo.
use lepd.Base.{
  ℕ, zero, suc, ◌≤◌, ◌<◌, ◌≡◌, ◌≢◌, refl, sym, ap, ◌∙◌, true, none, some, List, [], ◌∷◌, ◌++◌, leb,
  ◌&&◌, replicate, arith, All,
}
use lepd.Base.CString.{past_spaces, begins_with}
use lepd.Procrank.MemInfo.{tags, find_tag, split_digits, over_one, next_line, tag_field, read_field}

-- A line with the tag at an index, spaces, the digits and ` kB`, or a line that begins with no tag.
pub data Line : Type 0 where
  tagged : ℕ → ℕ → ℕ → List ℕ → Line
  other : List ℕ → Line

abbrev pub tag_at : ℕ → List (List ℕ) → List ℕ
tag_at i [] = []
tag_at zero (t ∷ ts) = t
tag_at (suc i) (t ∷ ts) = tag_at i ts

abbrev pub unit_text : List ℕ → List ℕ
unit_text rest = b' ' ∷ b'k' ∷ b'B' ∷ b'\n' ∷ rest

-- The lines, with a text behind them.
abbrev pub lines_text : List Line → List ℕ → List ℕ
lines_text [] rest = rest
lines_text (tagged i spaces d ds ∷ ls) rest =
    tag_at i tags ++ (replicate spaces b' ' ++ (d ∷ (ds ++ unit_text (lines_text ls rest))))
lines_text (other text ∷ ls) rest = text ++ b'\n' ∷ lines_text ls rest

abbrev pub IsDigit : ℕ → Type 0
IsDigit c = (b'0' ≤ c) × (c ≤ b'9')

abbrev pub InLine : ℕ → Type 0
InLine c = c ≢ b'\n'

abbrev pub IsLine : Line → Type 0
IsLine (tagged i spaces d ds) = (i < 6) × IsDigit d × All IsDigit ds
IsLine (other text) =
    All InLine text × ((rest : List ℕ) → find_tag 0 tags (text ++ b'\n' ∷ rest) ≡ none)

abbrev pub AreLines : List Line → Type 0
AreLines = All IsLine

-- How many lines have a tag.
abbrev pub tagged_count : List Line → ℕ
tagged_count [] = 0
tagged_count (tagged i spaces d ds ∷ ls) = suc (tagged_count ls)
tagged_count (other text ∷ ls) = tagged_count ls

find_tag-tag_at : (i : ℕ) (x : List ℕ) → i < 6 → find_tag 0 tags (tag_at i tags ++ x) ≡ some (i, x)
unfolding find_tag begins_with
find_tag-tag_at zero x h = refl
find_tag-tag_at (suc zero) x h = refl
find_tag-tag_at (suc (suc zero)) x h = refl
find_tag-tag_at (suc (suc (suc zero))) x h = refl
find_tag-tag_at (suc (suc (suc (suc zero)))) x h = refl
find_tag-tag_at (suc (suc (suc (suc (suc zero))))) x h = refl
find_tag-tag_at (suc (suc (suc (suc (suc (suc i)))))) x h = absurd (omega arith)

past_spaces_lem :
    (n d : ℕ) (x : List ℕ) → IsDigit d → past_spaces (replicate n b' ' ++ d ∷ x) ≡ d ∷ x
unfolding past_spaces
past_spaces_lem zero d x h = ground arith
past_spaces_lem (suc n) d x h = ground (arith, past_spaces_lem n d x h)

split_digits_lem : (ds x : List ℕ) → All IsDigit ds → split_digits (ds ++ b' ' ∷ x) ≡ (ds, b' ' ∷ x)
unfolding split_digits
split_digits_lem [] x h = refl
split_digits_lem (d ∷ ds) x h =
    let digit : (leb b'0' d && leb d b'9') ≡ true = ground arith in
    rw (split_digits_lem ds x h.1, digit) refl

next_line_lem : (text rest : List ℕ) → All InLine text → next_line (text ++ b'\n' ∷ rest) ≡ rest
unfolding next_line
next_line_lem [] rest h = refl
next_line_lem (c ∷ text) rest h = ground (arith, next_line_lem text rest h.1)

pub read_field_tagged :
    (i spaces d : ℕ) (ds rest : List ℕ)
    → IsLine (tagged i spaces d ds)
    → read_field (lines_text (tagged i spaces d ds ∷ []) rest) ≡ (some (i, d ∷ ds), rest)
unfolding read_field tag_field over_one next_line
read_field_tagged i spaces d ds rest (few, h, hs) =
    let behind = replicate spaces b' ' ++ (d ∷ (ds ++ unit_text rest)) in
    ap (tag_field (tag_at i tags ++ behind)) (find_tag-tag_at i behind few)
    ∙ rw
        (
          past_spaces_lem spaces d (ds ++ unit_text rest) h,
          split_digits_lem (d ∷ ds) (b'k' ∷ b'B' ∷ b'\n' ∷ rest) (h, hs),
        )
        refl

pub read_field_other :
    (text rest : List ℕ) → IsLine (other text) → read_field (text ++ b'\n' ∷ rest) ≡ (none, rest)
unfolding read_field tag_field
read_field_other text rest (inside, no_tag) =
    ap (tag_field (text ++ b'\n' ∷ rest)) (no_tag rest)
    ∙ ap (λ (p : List ℕ). (none, p)) (next_line_lem text rest inside)

pub tag_at_full : (i : ℕ) (x : List ℕ) → i < 6 → tag_at i tags ++ x ≢ []
tag_at_full i x few e =
    let found = sym (find_tag-tag_at i x few) ∙ ap (find_tag 0 tags) e in
    unfold find_tag in unfold begins_with in cc

pub line_full : (text rest : List ℕ) → text ++ b'\n' ∷ rest ≢ []
line_full [] rest e = cc
line_full (c ∷ text) rest e = cc
