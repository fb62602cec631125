-- ===== src/Procrank/MemInfo/Examples.antt =====
-- A small file, cut in the line behind the sixth tag.
use lepd.Base.{ℕ, ◌≡◌, refl, some, List, [], ◌∷◌, length, map, arith}
use lepd.Base.CString.{bytes, c_string, begins_with}
use lepd.Procrank.MemInfo.{find_tag, ram, print_mem_info}
use lepd.Procrank.MemInfo.Fields.{Line, tagged, other, lines_text, AreLines}
use lepd.Procrank.MemInfo.Lines.{number_of_tag, print_mem_info-numbers}

abbrev lines : List Line
lines =
    tagged 0 8 b'9' (b'0' ∷ [])
    ∷ tagged 1 9 b'7' []
    ∷ other (bytes "MemAvailable:   80 kB")
    ∷ tagged 2 9 b'1' []
    ∷ tagged 3 10 b'2' []
    ∷ other (bytes "SwapCached:      0 kB")
    ∷ tagged 4 11 b'3' []
    ∷ tagged 5 12 b'4' []
    ∷ []

abbrev contents : List ℕ
contents = lines_text lines (bytes "SReclaim")

lines-AreLines : AreLines lines
unfolding find_tag begins_with
lines-AreLines = (
  omega arith,
  (
    omega arith,
    (
      (omega arith, λ rest. refl),
      (omega arith, (omega arith, ((omega arith, λ rest. refl), (omega arith, (omega arith, tt))))),
    ),
  ),
)

-- The count of digits in the place of `atoll`.
print_mem_info-numbers_example :
    print_mem_info length (some (some contents))
    ≡ some (ram (map (λ (k : ℕ). number_of_tag length k lines 0) (0 ∷ 1 ∷ 2 ∷ 3 ∷ 4 ∷ 5 ∷ [])))
unfolding c_string
print_mem_info-numbers_example =
    print_mem_info-numbers length contents (bytes "SReclaim") lines refl lines-AreLines refl
