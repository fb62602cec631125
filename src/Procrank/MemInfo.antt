-- ===== src/Procrank/MemInfo.antt =====
-- `print_mem_info` of src/modules/procrank/src/procrank.c. `atoll` is an argument. A position in the
-- buffer is the text behind it; the 0 that is written behind a number lies before it.
pub mod Fields
pub mod Lines
pub mod Ends
mod Examples
use lepd.Base.{
  ℕ, zero, suc, Bool, true, false, Option, none, some, List, [], ◌∷◌, ◌++◌, String, if◌then◌else◌,
  ◌==◌, ltb, leb, ◌&&◌, ◌>>=◌, take, drop, set, length, replicate,
}
use lepd.Base.CString.{past_spaces, bytes, c_string, begins_with}

abbrev pub tags : List (List ℕ)
tags =
    bytes "MemTotal:"
    ∷ bytes "MemFree:"
    ∷ bytes "Buffers:"
    ∷ bytes "Cached:"
    ∷ bytes "Shmem:"
    ∷ bytes "Slab:"
    ∷ []

-- The first tag that the text begins with, its index counted from `i`, and the text behind it.
unfoldable pub find_tag : ℕ → List (List ℕ) → List ℕ → Option (ℕ × List ℕ)
unfolding begins_with
find_tag i [] p = none
find_tag i (tag ∷ rest) p =
    let later = find_tag (suc i) rest p in
    if begins_with tag p then some (i, drop (length tag) p) else later

-- The digits at the position, and the text behind them.
unfoldable pub split_digits : List ℕ → List ℕ × List ℕ
split_digits [] = ([], [])
split_digits (c ∷ p) =
    let (ds, rest) = split_digits p in
    if leb b'0' c && leb c b'9' then (c ∷ ds, rest) else ([], c ∷ p)

-- Over the byte behind the number, where the 0 is written.
unfoldable pub over_one : List ℕ → List ℕ
over_one [] = []
over_one (c ∷ p) = p

-- Behind the end of the line.
unfoldable pub next_line : List ℕ → List ℕ
next_line [] = []
next_line (c ∷ p) = let rest = next_line p in if c == b'\n' then p else rest

-- Of a line, the index of its tag with the digits of its number, and the next line.
unfoldable pub tag_field : List ℕ → Option (ℕ × List ℕ) → Option (ℕ × List ℕ) × List ℕ
tag_field p none = (none, next_line p)
tag_field p (some (i, q)) =
    let (num, rest) = split_digits (past_spaces q) in (some (i, num), next_line (over_one rest))

unfoldable pub read_field : List ℕ → Option (ℕ × List ℕ) × List ℕ
read_field p = tag_field p (find_tag 0 tags p)

-- What is printed: an error of `open`, an error of `read`, or the six numbers.
pub data MemReport : Type 0 where
  unable : MemReport
  empty : MemReport
  ram : List ℕ → MemReport

module _ (atoll : List ℕ → ℕ) where
  -- The rest of the loop behind a line.
  unfoldable pub store_field :
      (ℕ → List ℕ → List ℕ → Option (List ℕ))
      → ℕ
      → List ℕ
      → Option (ℕ × List ℕ) × List ℕ
      → Option (List ℕ)
  store_field go num_found mem (none, next) = go num_found next mem
  store_field go num_found mem (some (i, num), next) =
      go (suc num_found) next (set mem i (atoll num))

  -- `none` if the fuel runs out.
  unfoldable pub mem_loop : ℕ → ℕ → List ℕ → List ℕ → Option (List ℕ)
  unfolding store_field
  mem_loop zero num_found p mem = none
  mem_loop (suc fuel) num_found [] mem = some mem
  mem_loop (suc fuel) num_found (c ∷ p) mem =
      let go = mem_loop fuel in
      if ltb num_found 6 then store_field go num_found mem (read_field (c ∷ p)) else some mem

  -- The file, `none` if it does not open; what a read of it finds, `none` if that fails.
  unfoldable pub print_mem_info : Option (Option (List ℕ)) → Option MemReport
  unfolding mem_loop
  print_mem_info none = some unable
  print_mem_info (some none) = some empty
  print_mem_info (some (some contents)) =
      let text = c_string (take 1023 contents) in
      mem_loop (suc (length text)) 0 text (replicate 6 0) >>= λ mem. some (ram mem)
