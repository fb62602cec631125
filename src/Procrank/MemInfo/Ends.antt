-- ===== src/Procrank/MemInfo/Ends.antt =====
-- The loop of `print_mem_info` ends, whatever the file holds.
use lepd.Base.{
  ℕ, zero, suc, ◌-◌, ◌≤◌, ◌<◌, ◌≡◌, refl, ap, Option, none, some, List, [], ◌∷◌, ltb, take, drop,
  set, length, replicate, arith, All, Option-cases, Bool-cases, inl, inr, length-drop,
}
use lepd.Base.CString.{past_spaces, c_string, begins_with}
use lepd.Procrank.MemInfo.{
  tags, find_tag, split_digits, over_one, next_line, tag_field, read_field, store_field, mem_loop,
  MemReport, ram, print_mem_info,
}

abbrev Fits : List ℕ → Type 0
Fits tag = 0 < length tag

find_tag-shorter :
    (i : ℕ) (ts : List (List ℕ)) (c : ℕ) (p : List ℕ) (k : ℕ) (q : List ℕ)
    → All Fits ts
    → find_tag i ts (c ∷ p) ≡ some (k, q)
    → length q ≤ length p
unfolding find_tag
find_tag-shorter i [] c p k q h e = cc
find_tag-shorter i (t ∷ ts) c p k q h e = elim (Bool-cases (begins_with t (c ∷ p))) [
  | inl begins ↦
      let found = rw begins at e in
      let same : drop (length t) (c ∷ p) ≡ q = cc in
      omega (arith, h.0, ap length same, length-drop (length t) (c ∷ p))
  | inr differs ↦ find_tag-shorter (suc i) ts c p k q h.1 (rw differs at e)
]

length-past_spaces : (p : List ℕ) → length (past_spaces p) ≤ length p
unfolding past_spaces
length-past_spaces [] = omega arith
length-past_spaces (c ∷ p) = ground (arith, length-past_spaces p)

length-split_digits : (p : List ℕ) → length (split_digits p).1 ≤ length p
unfolding split_digits
length-split_digits [] = omega arith
length-split_digits (c ∷ p) = ground (arith, length-split_digits p)

length-over_one : (p : List ℕ) → length (over_one p) ≤ length p
unfolding over_one
length-over_one [] = omega arith
length-over_one (c ∷ p) = omega arith

length-next_line : (p : List ℕ) → length (next_line p) ≤ length p - 1
unfolding next_line
length-next_line [] = omega arith
length-next_line (c ∷ p) = ground (arith, length-next_line p)

tags_fit : All Fits tags
tags_fit = ground arith

-- A round of the loop leaves less text.
read_field-shorter : (c : ℕ) (p : List ℕ) → length (read_field (c ∷ p)).1 ≤ length p
unfolding read_field tag_field
read_field-shorter c p = elim (Option-cases (find_tag 0 tags (c ∷ p))) [
  | inl e ↦ omega (arith, length-next_line (c ∷ p), ap (λ f. length (tag_field (c ∷ p) f).1) e)
  | inr ((k, q), e) ↦ omega (
    arith,
    find_tag-shorter 0 tags c p k q tags_fit e,
    length-past_spaces q,
    length-split_digits (past_spaces q),
    length-over_one (split_digits (past_spaces q)).1,
    length-next_line (over_one (split_digits (past_spaces q)).1),
    ap (λ f. length (tag_field (c ∷ p) f).1) e,
  )
]

module _ (atoll : List ℕ → ℕ) where
  -- The function returns for every shorter text.
  abbrev Returns : ℕ → (ℕ → List ℕ → List ℕ → Option (List ℕ)) → Type 0
  Returns fuel go =
      (found : ℕ) (p mem : List ℕ)
      → length p < fuel
      → (mem' : List ℕ) × (go found p mem ≡ some mem')

  store_field-Returns :
      (fuel found : ℕ) (go : ℕ → List ℕ → List ℕ → Option (List ℕ)) (mem : List ℕ)
      (f : Option (ℕ × List ℕ) × List ℕ)
      → Returns fuel go
      → length f.1 < fuel
      → (mem' : List ℕ) × (store_field atoll go found mem f ≡ some mem')
  unfolding store_field
  store_field-Returns fuel found go mem (none, next) returns less = returns found next mem less
  store_field-Returns fuel found go mem (some (i, num), next) returns less =
      returns (suc found) next (set mem i (atoll num)) less

  mem_loop-Returns : (fuel : ℕ) → Returns fuel (mem_loop atoll fuel)
  unfolding mem_loop
  mem_loop-Returns zero found p mem h = absurd (omega arith)
  mem_loop-Returns (suc fuel) found [] mem h = (mem, refl)
  mem_loop-Returns (suc fuel) found (c ∷ p) mem h = elim (Bool-cases (ltb found 6)) [
    | inr full ↦ (mem, rw full refl)
    | inl few ↦
        let (mem', e) =
          store_field-Returns fuel found (mem_loop atoll fuel) mem (read_field (c ∷ p))
            (mem_loop-Returns fuel) (omega (arith, read_field-shorter c p)) in
        (mem', rw few e)
  ]

  -- Whatever a read of /proc/meminfo finds, and if it fails, `print_mem_info` returns.
  pub print_mem_info-ends :
      (file : Option (Option (List ℕ)))
      → (printed : MemReport) × (print_mem_info atoll file ≡ some printed)
  unfolding print_mem_info
  print_mem_info-ends none = (MemReport.unable, refl)
  print_mem_info-ends (some none) = (MemReport.empty, refl)
  print_mem_info-ends (some (some contents)) =
      let text = c_string (take 1023 contents) in
      let (mem, e) = mem_loop-Returns (suc (length text)) 0 text (replicate 6 0) (omega arith) in
      (ram mem, rw e refl)
