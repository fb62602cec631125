-- ===== src/Cgtop/Slashes/Canonical.antt =====
-- `path_kill_slashes` gives the absolute path of the components, in as much room as it writes.
use lepd.Base.{
  ℕ, suc, ◌+◌, ◌-◌, ◌≡◌, ◌≤◌, ◌<◌, refl, List, [], ◌∷◌, ◌++◌, Bool, true, false, ◌==◌, length,
  Option, none, some, get_elem?, drop, replicate, arith, ◌∙◌, ap, sym, subst, ==_iff, append-nil,
  dec_lt, ◌⊎◌, drop_all, Bool-cases, inl, inr, length-append, append_assoc, length-drop,
  length-replicate, ◌>>=◌,
}
use lepd.Base.CString.{
  c_string, strlen, splice, splice_over, NonZero, c_string-NonZero, c_string_before,
  c_string-append_zeros,
}
use lepd.Cgtop.{Malloc, put}
use lepd.Cgtop.Slashes.{end_text, path_kill_slashes}
use lepd.Cgtop.Slashes.Emitted.{slash, emitted, skipped}
use lepd.Cgtop.Slashes.Laid.{lay, lay_room, lay_full, kill_loop-lay, get-kept}
use lepd.Cgtop.Slashes.Components.{components, absolute, emitted-Leaves}
use lepd.Cgtop.Slashes.Lengths.{
  ends_in_slash, ending, at_end, emitted-Emits, skipped_from_root, skipped_root,
}

-- The byte behind the text becomes 0.
end_text_cleared :
    (w rest : List ℕ) (r : ℕ) → end_text (length w) (w ++ (r ∷ rest)) ≡ some (w ++ (0 ∷ rest))
unfolding end_text
end_text_cleared w rest r = rw (get-kept w r rest) (elim (Bool-cases (r == 0)) [
  | inl is ↦ rw ((==_iff r 0).0 is) refl
  | inr other ↦ rw other (splice_over w (r ∷ []) rest (0 ∷ []) (length w) refl refl)
])

get-outside : (w : List ℕ) → get_elem? w (length w) ≡ none
get-outside [] = refl
get-outside (b ∷ w) = get-outside w

end_text_outside : (w : List ℕ) → end_text (length w) w ≡ none
unfolding end_text
end_text_outside w = rw (get-outside w) refl

cons-cases : (xs : List ℕ) → (xs ≡ []) ⊎ ((r : ℕ) × ((rs : List ℕ) × (xs ≡ r ∷ rs)))
cons-cases [] = inl refl
cons-cases (r ∷ rs) = inr (r, (rs, refl))

-- The end of the function, after the loop wrote `es` behind the first slash.
abbrev finish : List ℕ → List ℕ → ℕ → ℕ → Option (List ℕ)
finish es rest x j = lay es [] slash rest x >>= λ s. end_text (j + 1 - s.x) s.f

module _ (e rest : List ℕ) (x j : ℕ) (clean : NonZero e) (count : x + length e ≡ j) where
  finish_laid :
      (es : List ℕ)
      → length es ≤ length rest
      → finish es rest x j ≡ end_text (length (slash ∷ e)) (slash ∷ (es ++ drop (length es) rest))
  finish_laid es room =
      let (i, laid) = lay_room es [] slash rest x room in
      rw laid (ap (λ y. end_text y (slash ∷ (es ++ drop (length es) rest))) (omega (arith, count)))

  -- The block that is returned.
  abbrev Ended : Bool → Type 0
  Ended b =
      (f : List ℕ) × ((finish (e ++ ending b) rest x j ≡ some f)
        × ((c_string f ≡ slash ∷ e) × (length f ≡ suc (length rest))))

  finish_room : (b : Bool) → length e + 1 + at_end b ≤ length rest → Ended b
  finish_room false room = elim (cons-cases (drop (length e) rest)) [
    | inl none_left ↦ absurd (omega (arith, ap length none_left, length-drop (length e) rest))
    | inr (r, (rs, left)) ↦ (
      slash ∷ (e ++ (0 ∷ rs)),
      (
        rw (append-nil e)
            (finish_laid e (omega arith) ∙ rw left (end_text_cleared (slash ∷ e) rs r)),
        (
          c_string_before (slash ∷ e) rs (omega arith, clean),
          omega (arith, ap length left, length-drop (length e) rest, length-append e (0 ∷ rs)),
        ),
      ),
    )
  ]
  finish_room true room =
      let es : List ℕ = e ++ (0 ∷ slash ∷ []) in
      let rs : List ℕ = slash ∷ drop (length es) rest in
      let size = length-append e (0 ∷ slash ∷ []) in
      (
        slash ∷ (e ++ (0 ∷ rs)),
        (
          finish_laid es (omega (arith, size))
              ∙ rw (append_assoc e (0 ∷ slash ∷ []) (drop (length es) rest))
                  (end_text_cleared (slash ∷ e) rs 0),
          (
            c_string_before (slash ∷ e) rs (omega arith, clean),
            omega (arith, size, length-drop (length es) rest, length-append e (0 ∷ rs)),
          ),
        ),
      )

  finish_full :
      (b : Bool) → length rest < length e + 1 + at_end b → finish (e ++ ending b) rest x j ≡ none
  finish_full true full =
      rw
        (lay_full (e ++ (0 ∷ slash ∷ [])) [] slash rest x
          (omega (arith, length-append e (0 ∷ slash ∷ []))))
        refl
  finish_full false full = rw (append-nil e) (elim (dec_lt (length rest) (length e)) [
    | yes past ↦ rw (lay_full e [] slash rest x past) refl
    | no fits ↦
        finish_laid e (omega arith)
        ∙ rw (drop_all (length e) rest (omega arith), append-nil e) (end_text_outside (slash ∷ e))
  ])

-- The bytes of the block that the function writes or reads: the text, a 0, and the slash behind it if
-- the path ends in a slash.
abbrev pub needed : List ℕ → ℕ
needed path = length (absolute (components path)) + 1 + at_end (ends_in_slash path)

text-ending : (e : List ℕ) (b : Bool) → NonZero e → c_string (e ++ ending b) ≡ e
text-ending e true clean = c_string_before e (slash ∷ []) clean
text-ending e false clean = c_string-append_zeros e 0 clean

-- The text of a path behind its first slash, and what the loop writes and skips for it.
path_text :
    (path : List ℕ)
    → NonZero path
    → (e : List ℕ) × (NonZero e
        × ((emitted true path ≡ e ++ ending (ends_in_slash path))
            × ((skipped true path + length e ≡ length path)
                × (absolute (components path) ≡ slash ∷ e))))
path_text path nz =
    let (e, (clean, (same, count))) = emitted-Emits path nz true in
    let text = text-ending e (ends_in_slash path) clean in
    let left = sym (emitted-Leaves path nz).0 in
    (e, (clean, (same, (count, ap (◌∷◌ slash) (left ∙ ap c_string same ∙ text)))))

-- `memset(f, 0, j)` and `*f = *path`
cleared :
    (block : List ℕ) (n : ℕ)
    → suc n ≤ length block
    → splice 0 (replicate (suc n) 0) block ≡ some (0 ∷ (replicate n 0 ++ drop (suc n) block))
unfolding splice
cleared block n large = ground (arith, length-replicate {A = ℕ} n 0)

put_first : (b c : ℕ) (rest : List ℕ) → put 0 c (b ∷ rest) ≡ some (c ∷ rest)
unfolding splice
put_first b c rest = ground arith

module _ (malloc : Malloc) (path cs block : List ℕ) (from_root : c_string path ≡ slash ∷ cs)
    (allocated : malloc (strlen path) ≡ some block) (large : strlen path ≤ length block) where
  whole : List ℕ
  whole = slash ∷ cs

  rest : List ℕ
  rest = replicate (length cs) 0 ++ drop (suc (length cs)) block

  length-rest : length block ≡ suc (length rest)
  unfolding rest
  length-rest = omega (
    arith,
    large,
    ap length from_root,
    length-append (replicate (length cs) 0) (drop (suc (length cs)) block),
    length-replicate {A = ℕ} (length cs) 0,
    length-drop (suc (length cs)) block,
  )

  whole-NonZero : NonZero whole
  unfolding whole
  whole-NonZero = subst NonZero from_root (c_string-NonZero path)

  path_kill_slashes-finish :
      path_kill_slashes malloc path
      ≡ finish (emitted true whole) rest (skipped true whole) (suc (length cs))
  unfolding path_kill_slashes rest whole
  path_kill_slashes-finish =
      rw
        (
          allocated,
          from_root,
          cleared block (length cs) (omega (arith, large, ap length from_root)),
          put_first 0 slash rest,
          kill_loop-lay whole whole-NonZero [] slash rest 0,
        )
        (ap (λ x. finish (emitted true whole) rest x (suc (length cs))) (omega arith))

  -- In a block large enough the text that is returned is a slash before each component of the path,
  -- or one slash if there is none, in a block of the same size. In a smaller block the function reads
  -- or writes outside it. The path starts with a slash, and `malloc` gives a block of at least the
  -- bytes asked for.
  pub path_kill_slashes-absolute :
      (needed (c_string path) ≤ length block
        → (f : List ℕ) × ((path_kill_slashes malloc path ≡ some f)
            × ((c_string f ≡ absolute (components (c_string path))) × (length f ≡ length block))))
      × (length block < needed (c_string path) → path_kill_slashes malloc path ≡ none)
  unfolding whole
  path_kill_slashes-absolute =
      let at_slash : Bool = ends_in_slash whole in
      let (e, (clean, (same, (count, text)))) = path_text whole whole-NonZero in
      let run : path_kill_slashes malloc path
          ≡ finish (e ++ ending at_slash) rest (skipped true whole) (suc (length cs)) =
        path_kill_slashes-finish
        ∙ ap (λ es. finish es rest (skipped true whole) (suc (length cs))) same in
      rw from_root (
        λ room.
            let (f, (ended, (is, size))) =
              finish_room e rest (skipped true whole) (suc (length cs)) clean count at_slash
                (omega (arith, room, ap length text, length-rest)) in
            (f, (run ∙ ended, (is ∙ sym text, size ∙ sym length-rest))),
        λ full.
            run
            ∙ finish_full e rest (skipped true whole) (suc (length cs)) clean count at_slash
                (omega (arith, full, ap length text, length-rest)),
      )

-- Of a path with two slashes in a row behind its first byte the block that `malloc` is asked for is
-- large enough.
pub needed_doubled :
    (a b : List ℕ)
    → NonZero (slash ∷ (a ++ (slash ∷ slash ∷ b)))
    → needed (slash ∷ (a ++ (slash ∷ slash ∷ b))) ≤ length (slash ∷ (a ++ (slash ∷ slash ∷ b)))
needed_doubled a b nz =
    let path : List ℕ = slash ∷ (a ++ (slash ∷ slash ∷ b)) in
    let (e, (clean, (same, (count, text)))) = path_text path nz in
    omega (arith, ap length text, count, skipped_from_root a b nz.1)

-- One byte more than `malloc` is asked for is always enough.
pub needed_most :
    (cs : List ℕ)
    → NonZero (slash ∷ cs)
    → 0 < length cs
    → needed (slash ∷ cs) ≤ suc (length (slash ∷ cs))
needed_most cs nz some_more =
    let (e, (clean, (same, (count, text)))) = path_text (slash ∷ cs) nz in
    omega (arith, ap length text, count, skipped_root cs nz.1 some_more)
