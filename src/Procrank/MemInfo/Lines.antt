-- ===== src/Procrank/MemInfo/Lines.antt =====
-- What `print_mem_info` finds in the lines of /proc/meminfo.
use lepd.Base.{
  ℕ, zero, suc, ◌+◌, ◌≤◌, ◌<◌, ◌≡◌, ◌≢◌, refl, ap, ◌∙◌, true, Option, some, List, [], ◌∷◌, ◌++◌,
  if◌then◌else◌, ◌==◌, ltb, take, set, length, replicate, map, arith, length-append, Bool-cases,
  inl, inr,
}
use lepd.Base.CString.{c_string}
use lepd.Procrank.MemInfo.{tags, read_field, store_field, mem_loop, ram, print_mem_info}
use lepd.Procrank.MemInfo.Fields.{
  Line, tagged, other, lines_text, AreLines, tagged_count, tag_at, unit_text, read_field_tagged,
  read_field_other, tag_at_full, line_full,
}

module _ (atoll : List ℕ → ℕ) where
  mem_loop_full : (fuel : ℕ) (p mem : List ℕ) → mem_loop atoll (suc fuel) 6 p mem ≡ some mem
  unfolding mem_loop
  mem_loop_full fuel [] mem = refl
  mem_loop_full fuel (c ∷ p) mem = refl

  stored : List Line → List ℕ → List ℕ
  stored [] mem = mem
  stored (tagged i spaces d ds ∷ ls) mem = stored ls (set mem i (atoll (d ∷ ds)))
  stored (other text ∷ ls) mem = stored ls mem

  stored_none : (ls : List Line) (mem : List ℕ) → tagged_count ls ≡ 0 → stored ls mem ≡ mem
  unfolding stored
  stored_none [] mem h = refl
  stored_none (tagged i spaces d ds ∷ ls) mem h = absurd (omega arith)
  stored_none (other text ∷ ls) mem h = stored_none ls mem h

  mem_loop-read_field :
      (fuel found : ℕ) (p next mem : List ℕ) (field : Option (ℕ × List ℕ))
      → found < 6
      → p ≢ []
      → read_field p ≡ (field, next)
      → mem_loop atoll (suc fuel) found p mem
        ≡ store_field atoll (mem_loop atoll fuel) found mem (field, next)
  unfolding mem_loop
  mem_loop-read_field fuel found [] next mem field few full e = absurd (full refl)
  mem_loop-read_field fuel found (c ∷ p) next mem field few full e =
      let inside : ltb found 6 ≡ true = ground arith in
      rw inside (ap (store_field atoll (mem_loop atoll fuel) found mem) e)

  -- The loop stops at the sixth tag, whatever stands behind the lines.
  mem_loop-stored :
      (ls : List Line) (rest mem : List ℕ) (fuel found : ℕ)
      → AreLines ls
      → found + tagged_count ls ≡ 6
      → length ls < fuel
      → mem_loop atoll fuel found (lines_text ls rest) mem ≡ some (stored ls mem)
  unfolding stored store_field
  mem_loop-stored ls rest mem zero found h e more = absurd (omega arith)
  mem_loop-stored [] rest mem (suc fuel) found h e more =
      let all : found ≡ 6 = omega arith in rw all (mem_loop_full fuel rest mem)
  mem_loop-stored (tagged i spaces d ds ∷ ls) rest mem (suc fuel) found h e more =
      mem_loop-read_field fuel found _ _ mem _ (omega arith) (tag_at_full i _ h.0.0)
        (read_field_tagged i spaces d ds (lines_text ls rest) h.0)
      ∙ mem_loop-stored ls rest (set mem i (atoll (d ∷ ds))) fuel (suc found) h.1 (omega arith)
          (omega arith)
  mem_loop-stored (other text ∷ ls) rest mem (suc fuel) found h e more =
      elim (Bool-cases (ltb found 6)) [
        | inl few ↦
            mem_loop-read_field fuel found _ _ mem _ (ground arith) (line_full text _)
              (read_field_other text (lines_text ls rest) h.0)
            ∙ mem_loop-stored ls rest mem fuel found h.1 e (omega arith)
        | inr many ↦
            let all : found ≡ 6 = ground arith in
            rw (all, stored_none ls mem (omega arith)) (mem_loop_full fuel _ mem)
      ]

  -- The number of the last line with the tag at an index; the given one if no line has it.
  abbrev pub number_of_tag : ℕ → List Line → ℕ → ℕ
  number_of_tag k [] v = v
  number_of_tag k (tagged i spaces d ds ∷ ls) v =
      number_of_tag k ls (if i == k then atoll (d ∷ ds) else v)
  number_of_tag k (other text ∷ ls) v = number_of_tag k ls v

  stored-number_of_tag :
      (ls : List Line) (n0 n1 n2 n3 n4 n5 : ℕ)
      → AreLines ls
      → stored ls (n0 ∷ n1 ∷ n2 ∷ n3 ∷ n4 ∷ n5 ∷ [])
        ≡ number_of_tag 0 ls n0
          ∷ number_of_tag 1 ls n1
          ∷ number_of_tag 2 ls n2
          ∷ number_of_tag 3 ls n3
          ∷ number_of_tag 4 ls n4
          ∷ number_of_tag 5 ls n5
          ∷ []
  unfolding stored
  stored-number_of_tag [] n0 n1 n2 n3 n4 n5 h = refl
  stored-number_of_tag (other text ∷ ls) n0 n1 n2 n3 n4 n5 h =
      stored-number_of_tag ls n0 n1 n2 n3 n4 n5 h.1
  stored-number_of_tag (tagged zero spaces d ds ∷ ls) n0 n1 n2 n3 n4 n5 h =
      stored-number_of_tag ls (atoll (d ∷ ds)) n1 n2 n3 n4 n5 h.1
  stored-number_of_tag (tagged (suc zero) spaces d ds ∷ ls) n0 n1 n2 n3 n4 n5 h =
      stored-number_of_tag ls n0 (atoll (d ∷ ds)) n2 n3 n4 n5 h.1
  stored-number_of_tag (tagged (suc (suc zero)) spaces d ds ∷ ls) n0 n1 n2 n3 n4 n5 h =
      stored-number_of_tag ls n0 n1 (atoll (d ∷ ds)) n3 n4 n5 h.1
  stored-number_of_tag (tagged (suc (suc (suc zero))) spaces d ds ∷ ls) n0 n1 n2 n3 n4 n5 h =
      stored-number_of_tag ls n0 n1 n2 (atoll (d ∷ ds)) n4 n5 h.1
  stored-number_of_tag (tagged (suc (suc (suc (suc zero)))) spaces d ds ∷ ls) n0 n1 n2 n3 n4 n5 h =
      stored-number_of_tag ls n0 n1 n2 n3 (atoll (d ∷ ds)) n5 h.1
  stored-number_of_tag (tagged (suc (suc (suc (suc (suc zero))))) spaces d ds ∷ ls) n0 n1 n2 n3 n4
        n5 h =
      stored-number_of_tag ls n0 n1 n2 n3 n4 (atoll (d ∷ ds)) h.1
  stored-number_of_tag (tagged (suc (suc (suc (suc (suc (suc i)))))) spaces d ds ∷ ls) n0 n1 n2 n3
        n4 n5 h =
      absurd (omega (arith, h.0.0))

  length-lines_text : (ls : List Line) (rest : List ℕ) → length ls ≤ length (lines_text ls rest)
  length-lines_text [] rest = omega arith
  length-lines_text (tagged i spaces d ds ∷ ls) rest =
      let x = lines_text ls rest in
      omega (
        arith,
        length-lines_text ls rest,
        length-append (tag_at i tags) (replicate spaces b' ' ++ (d ∷ (ds ++ unit_text x))),
        length-append (replicate spaces b' ') (d ∷ (ds ++ unit_text x)),
        length-append ds (unit_text x),
      )
  length-lines_text (other text ∷ ls) rest =
      omega (arith, length-lines_text ls rest, length-append text (b'\n' ∷ lines_text ls rest))

  -- If the first 1023 bytes of /proc/meminfo begin with lines of which six have a tag, each with
  -- spaces, digits and ` kB`, and the others begin with no tag, `print_mem_info` prints for each of
  -- the six tags the number of the last of these lines that has it, or 0, whatever stands behind
  -- the lines. `atoll` reads the digits.
  pub print_mem_info-numbers :
      (contents rest : List ℕ) (ls : List Line)
      → c_string (take 1023 contents) ≡ lines_text ls rest
      → AreLines ls
      → tagged_count ls ≡ 6
      → print_mem_info atoll (some (some contents))
        ≡ some (ram (map (λ (k : ℕ). number_of_tag k ls 0) (0 ∷ 1 ∷ 2 ∷ 3 ∷ 4 ∷ 5 ∷ [])))
  unfolding print_mem_info
  print_mem_info-numbers contents rest ls text lines six =
      rw
        (
          text,
          mem_loop-stored ls rest (replicate 6 0) (suc (length (lines_text ls rest))) 0 lines
              (omega (arith, six)) (omega (arith, length-lines_text ls rest)),
        )
        (ap (λ (mem : List ℕ). some (ram mem)) (stored-number_of_tag ls 0 0 0 0 0 0 lines))
