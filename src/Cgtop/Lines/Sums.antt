-- ===== src/Cgtop/Lines/Sums.antt =====
-- The sums of the lines of blkio.io_service_bytes.
use lepd.Base.{
  ℕ, ◌+◌, ◌%◌, ◌^◌, ◌<◌, ◌≡◌, refl, some, List, [], ◌∷◌, ◌++◌, false, if◌then◌else◌, drop, length,
  All, map, arith, ap, ap₂, sym, subst, ◌∙◌, append_assoc, append-nil, drop-append_self, Bool-cases,
  inl, inr, All-append_right,
}
use lepd.Base.CString.{bytes, same, same→eq}
use lepd.Cgtop.Lines.{
  is_space, skip_spaces, strstrip, strtoull, Service, add_field, field_added, sum_lines,
}
use lepd.Cgtop.Lines.Fields.{
  Word, first_word-same, skip_spaces-Word, skip_word-Word, strstrip-trimmed,
}

-- A line: the device, the operation and the number.
pub record Line : Type 0 where
  pub device : List ℕ
  pub op : List ℕ
  pub value : List ℕ

-- Fields of bytes that are no spaces.
abbrev pub IsLine : Line → Type 0
IsLine l =
    (Word l.device × (0 < length l.device))
    × ((Word l.op × (0 < length l.op)) × (Word l.value × (0 < length l.value)))

abbrev pub line_text : Line → List ℕ
line_text l = l.device ++ (32 ∷ (l.op ++ (32 ∷ (l.value ++ (10 ∷ [])))))

-- The sum of the numbers of an operation.
unfoldable pub total : List ℕ → List Line → ℕ
unfolding same
total op [] = 0
total op (l ∷ ls) = let rest = total op ls in if same op l.op then strtoull l.value + rest else rest

last-cases : (xs : List ℕ) → 0 < length xs → (b : List ℕ) × ((c : ℕ) × (xs ≡ b ++ (c ∷ [])))
last-cases [] h = absurd (omega arith)
last-cases (x ∷ []) h = ([], (x, refl))
last-cases (x ∷ y ∷ ys) h =
    let (b, (c, e)) = last-cases (y ∷ ys) (omega arith) in (x ∷ b, (c, ap (◌∷◌ x) e))

strstrip-line :
    (l : Line)
    → IsLine l
    → strstrip (line_text l) ≡ some (l.device ++ (32 ∷ (l.op ++ (32 ∷ l.value))))
unfolding is_space
strstrip-line l ((dw, dn), ((ow, on), (vw, vn))) =
    let (b, (c, e)) = last-cases l.value vn in
    let front : List ℕ = l.device ++ (32 ∷ (l.op ++ (32 ∷ b))) in
    let fields : List ℕ → List ℕ = λ v. l.device ++ (32 ∷ (l.op ++ (32 ∷ v))) in
    let spread : (t : List ℕ) → front ++ (c ∷ t) ≡ fields (b ++ (c ∷ t)) = λ t.
      append_assoc l.device (32 ∷ (l.op ++ (32 ∷ b))) (c ∷ t)
      ∙ ap (λ z. l.device ++ (32 ∷ z)) (append_assoc l.op (32 ∷ b) (c ∷ t)) in
    let last = All-append_right (λ c. is_space c ≡ false) b (c ∷ []) (subst Word e vw) in
    let first =
      ap skip_spaces (spread (10 ∷ []))
      ∙ skip_spaces-Word l.device (32 ∷ (l.op ++ (32 ∷ (b ++ (c ∷ 10 ∷ []))))) dw dn
      ∙ sym (spread (10 ∷ [])) in
    ap (λ v. strstrip (fields (v ++ (10 ∷ [])))) e
    ∙ ap (λ z. strstrip (fields z)) (append_assoc b (c ∷ []) (10 ∷ []))
    ∙ ap strstrip (sym (spread (10 ∷ [])))
    ∙ strstrip-trimmed [] front (10 ∷ []) c tt (refl, tt) last.0 first
    ∙ ap some (spread [] ∙ ap fields (sym e))

-- What stands behind the operation.
number :
    (n : ℕ) (op value : List ℕ)
    → n ≡ length op
    → Word value
    → 0 < length value
    → skip_spaces (drop n (op ++ (32 ∷ value))) ≡ value
unfolding skip_spaces is_space
number n op value e vw vn =
    ap skip_spaces (drop-append_self n op (32 ∷ value) e)
    ∙ ap skip_spaces (sym (append-nil value))
    ∙ skip_spaces-Word value [] vw vn
    ∙ append-nil value

-- What a line adds.
unfoldable count_line : Line → Service → Service
unfolding same
count_line l s =
    if same (bytes "Read") l.op
    then record s { rd = (s.rd + strtoull l.value) % 2 ^ 64 }
    else (if same (bytes "Write") l.op
        then record s { wr = (s.wr + strtoull l.value) % 2 ^ 64 }
        else s)

add_field-line :
    (l : Line) (s : Service) → IsLine l → add_field (l.op ++ (32 ∷ l.value)) s ≡ count_line l s
unfolding add_field count_line field_added is_space
add_field-line l s ((dw, dn), ((ow, on), (vw, vn))) =
    let read = bytes "Read" in
    let write = bytes "Write" in
    let text : List ℕ = l.op ++ (32 ∷ l.value) in
    ap₂ (λ r w. field_added r w text s)
      (first_word-same l.op read l.value ow (refl, (refl, (refl, (refl, tt)))) (omega arith))
      (first_word-same l.op write l.value ow (refl, (refl, (refl, (refl, (refl, tt)))))
        (omega arith))
    ∙ elim (Bool-cases (same read l.op)) [
      | inl is ↦ rw (is, number 4 l.op l.value (sym (ap length (same→eq read l.op is))) vw vn) refl
      | inr other ↦ rw other (elim (Bool-cases (same write l.op)) [
        | inl is ↦
            rw (is, number 5 l.op l.value (sym (ap length (same→eq write l.op is))) vw vn) refl
        | inr neither ↦ rw neither refl
      ])
    ]

sum_lines-step :
    (l : Line) (ts : List (List ℕ)) (s : Service)
    → IsLine l
    → sum_lines (line_text l ∷ ts) s ≡ sum_lines ts (count_line l s)
unfolding sum_lines is_space
sum_lines-step l ts s is =
    let ((dw, _), ((ow, on), _)) = is in
    rw
      (
        strstrip-line l is,
        skip_word-Word l.device (l.op ++ (32 ∷ l.value)) dw,
        skip_spaces-Word l.op (32 ∷ l.value) ow on,
        add_field-line l s is,
      )
      refl

-- What a line adds to the sum of an operation.
added : List ℕ → Line → ℕ
added op l = if same op l.op then strtoull l.value else 0

total-added :
    (op : List ℕ) (l : Line) (ls : List Line) → total op (l ∷ ls) ≡ added op l + total op ls
unfolding total added
total-added op l ls = elim (Bool-cases (same op l.op)) [
  | inl is ↦ rw is refl
  | inr other ↦ rw other (omega arith)
]

count_line-added :
    (l : Line) (s : Service)
    → s.rd < 2 ^ 64
    → s.wr < 2 ^ 64
    → ((count_line l s).rd ≡ (s.rd + added (bytes "Read") l) % 2 ^ 64)
      × ((count_line l s).wr ≡ (s.wr + added (bytes "Write") l) % 2 ^ 64)
unfolding count_line added same
count_line-added l s r w = elim (Bool-cases (same (bytes "Read") l.op)) [
  | inl is ↦
      let other : same (bytes "Write") l.op ≡ false = rw (same→eq (bytes "Read") l.op is) refl in
      rw (is, other) (refl, omega arith)
  | inr other ↦ elim (Bool-cases (same (bytes "Write") l.op)) [
    | inl is ↦ rw (other, is) (omega arith, refl)
    | inr neither ↦ rw (other, neither) (omega arith, omega arith)
  ]
]

-- Over lines of three fields the loop adds the numbers of Read to one sum and those of Write to the
-- other, modulo 2^64, and nothing else. The sums before are of 64 bits.
pub sum_lines-total :
    (ls : List Line) (s : Service)
    → All IsLine ls
    → s.rd < 2 ^ 64
    → s.wr < 2 ^ 64
    → sum_lines (map line_text ls) s
      ≡ some (record {
        rd = (s.rd + total (bytes "Read") ls) % 2 ^ 64;
        wr = (s.wr + total (bytes "Write") ls) % 2 ^ 64;
      })
unfolding total sum_lines
sum_lines-total [] s are r w =
    ap₂ (λ (a b : ℕ). some (record { rd = a; wr = b })) (omega arith) (omega arith)
sum_lines-total (l ∷ ls) s are r w =
    let (rd, wr) = count_line-added l s r w in
    sum_lines-step l (map line_text ls) s are.0
    ∙ sum_lines-total ls (count_line l s) are.1 (omega (arith, rd)) (omega (arith, wr))
    ∙ ap₂ (λ (a b : ℕ). some (record { rd = a; wr = b }))
        (omega (arith, rd, total-added (bytes "Read") l ls))
        (omega (arith, wr, total-added (bytes "Write") l ls))
