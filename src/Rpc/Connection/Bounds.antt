-- ===== src/Rpc/Connection/Bounds.antt =====
-- The buffer of a connection holds the unparsed text and zeros behind it: what growing, reading and
-- discarding do to it, and when they stay inside it.
use lepd.Base.{
  ℕ, suc, ◌+◌, ◌-◌, ◌*◌, ◌%◌, ◌^◌, ◌≤◌, ◌<◌, ◌≡◌, refl, sym, ap, ◌∙◌, ◌≢◌, true, none, some, List,
  [], ◌∷◌, ◌++◌, arith, take, drop, replicate, length, length-append, length-replicate, length-take,
  dec_lt, drop_all, le→leb, lt→leb, take-append-drop, replicate-append, take_past, Bool-cases, inl,
  inr, append_assoc, replicate_split, append-nil, if◌then◌else◌, ◌==◌, drop-append_left,
  length-drop, All-drop,
}
use lepd.Base.CString.{
  EndsZero, EndsZero-zeros, EndsZero-append, EndsZero-drop, c_string, strlen, splice, move_down,
  NonZero, c_string-append_zeros, splice_over,
}
use lepd.Rpc.Connection.{Connection, grow, discard, stale}

-- The buffer holds the text and zeros up to its end, one of them at least.
pub record Holds (c : Connection) (text : List ℕ) : Type 0 where
  pub buffer_is : c.buffer ≡ text ++ replicate (c.buffer_size - length text) 0
  pub pos_is : c.pos ≡ length text
  pub room : length text < c.buffer_size

-- The size that the buffer has for the next read, if there is memory.
unfoldable pub capacity : Connection → ℕ
capacity c = if c.pos == c.buffer_size - 1 then c.buffer_size * 2 else c.buffer_size

-- A write behind the text, over the zeros.
splice_behind :
    (text bytes : List ℕ) (off n : ℕ)
    → off ≡ length text
    → length bytes ≤ n
    → splice off bytes (text ++ replicate n 0)
      ≡ some (text ++ (bytes ++ replicate (n - length bytes) 0))
splice_behind text bytes off n e h = rw (replicate_split {A = ℕ} (length bytes) n 0 h) (
    splice_over text (replicate (length bytes) 0) (replicate (n - length bytes) 0) bytes off e
      (sym (length-replicate (length bytes) 0)))

module _ (c : Connection) (text : List ℕ) (v : Holds c text) where
  -- The bytes of a read that fits go behind the text, and the last byte of the buffer stays 0.
  pub filled-Holds :
      (bytes : List ℕ)
      → length text + length bytes < c.buffer_size
      → (buffer : List ℕ) × (splice c.pos bytes c.buffer ≡ some buffer)
        × Holds (record c { pos = c.pos + length bytes; buffer = buffer }) (text ++ bytes)
  filled-Holds bytes h = (
    text ++ (bytes ++ replicate (c.buffer_size - length text - length bytes) 0),
    rw v.buffer_is
        (splice_behind text bytes c.pos (c.buffer_size - length text) v.pos_is (omega arith)),
    record {
      buffer_is = rw (append_assoc text bytes) (ap (λ k. text ++ (bytes ++ replicate k 0)) left);
      pos_is = omega (arith, length-append text bytes, v.pos_is);
      room = omega (arith, length-append text bytes);
    },
  )
    where
      left : c.buffer_size - length text - length bytes ≡ c.buffer_size - length (text ++ bytes)
      left = omega (arith, length-append text bytes)

  -- The text of a buffer without zero bytes is what it holds.
  pub c_string-Holds : NonZero text → c_string c.buffer ≡ text
  c_string-Holds nz = rw v.buffer_is (c_string-append_zeros text (c.buffer_size - length text) nz)

  zeros : List ℕ
  zeros = replicate (c.buffer_size - length text) 0

  -- The reallocated buffer is cleared from the text on, whatever `realloc` added.
  cleared_lem :
      (size : ℕ)
      → c.buffer_size ≤ size
      → splice c.pos (replicate (size - c.pos) 0) (take size (c.buffer ++ replicate size stale))
        ≡ some (text ++ replicate (size - length text) 0)
  unfolding zeros
  cleared_lem size h =
      rw (kept, v.pos_is)
        (splice_over text added [] (replicate (size - length text) 0) (length text) refl same
          ∙ ap (λ (bs : List ℕ). some (text ++ bs)) (append-nil _))
    where
      added : List ℕ
      added = take (size - length text) (zeros ++ replicate size stale)

      kept : take size (c.buffer ++ replicate size stale) ≡ text ++ (added ++ [])
      kept =
          rw (v.buffer_is, append_assoc text zeros (replicate size stale), append-nil added)
            (take_past text (zeros ++ replicate size stale) size (size - length text)
              (omega (arith, v.room)))

      same : length {A = ℕ} (replicate (size - length text) 0) ≡ length added
      same = omega (
        arith,
        length-replicate {A = ℕ} (size - length text) 0,
        length-take (size - length text) (zeros ++ replicate size stale),
        length-append zeros (replicate size stale),
        length-replicate {A = ℕ} size stale,
      )

  -- A buffer that is full is doubled; then at least one byte more can be read.
  pub grow-Holds :
      c.buffer_size < 2 ^ 31
      → (c' : Connection) × (grow true c ≡ some (some c'))
        × Holds c' text
        × (length text + 1 < c'.buffer_size)
        × (c'.buffer_size ≡ capacity c)
  unfolding grow capacity
  grow-Holds small = elim (Bool-cases (c.pos == c.buffer_size - 1)) [
    | inr spare ↦
        (c, rw (spare, grow) refl, v, ground (arith, v.pos_is, v.room), rw (spare, capacity) refl)
    | inl full ↦
        let doubled : c.buffer_size * 2 % 2 ^ 32 ≡ c.buffer_size * 2 = omega arith in
        (
          record c {
            buffer_size = c.buffer_size * 2;
            buffer = text ++ replicate (c.buffer_size * 2 - length text) 0;
          },
          rw (full, grow) (rw doubled (rw (cleared_lem (c.buffer_size * 2) (omega arith)) refl)),
          record { buffer_is = refl; pos_is = v.pos_is; room = omega (arith, v.room) },
          omega (arith, v.room),
          rw (full, capacity) refl,
        )
  ]

  module _ (nz : NonZero text) (k : ℕ) (inside : k ≤ length text) where
    left : List ℕ
    left = drop k text

    length-left : length left ≡ length text - k
    unfolding left
    length-left = length-drop k text

    dropped : drop k c.buffer ≡ left ++ zeros
    unfolding left zeros
    dropped =
        rw v.buffer_is (drop-append_left k text (replicate (c.buffer_size - length text) 0) inside)

    rest_is : strlen (drop k c.buffer) ≡ length left
    unfolding left zeros
    rest_is = rw dropped (
        ap length (
          c_string-append_zeros (drop k text) (c.buffer_size - length text)
            (All-drop (λ b. b ≢ 0) k text nz)))

    buffer-length : length c.buffer ≡ c.buffer_size
    buffer-length = omega (
      arith,
      ap length v.buffer_is,
      length-append text (replicate (c.buffer_size - length text) 0),
      length-replicate {A = ℕ} (c.buffer_size - length text) 0,
      v.room,
    )

    -- Without it the move reads one byte behind the buffer.
    pub discard_full : length text + 1 ≡ c.buffer_size → discard k c ≡ none
    unfolding discard move_down
    discard_full full =
        let beyond : length c.buffer < k + (length left + 2) =
          omega (arith, length-left, buffer-length) in
        rw (rest_is, discard) (rw (lt→leb _ _ beyond) refl)

    -- With one byte to spare behind the text and its 0, discarding leaves the rest of the text.
    module _ (spare : length text + 2 ≤ c.buffer_size) where
      moved : List ℕ
      moved = (left ++ replicate 2 0) ++ drop (length left + 2) c.buffer

      two : zeros ≡ replicate 2 0 ++ replicate (c.buffer_size - length text - 2) 0
      unfolding zeros
      two = replicate_split 2 (c.buffer_size - length text) 0 (omega arith)

      taken : take (length left + 2) (drop k c.buffer) ≡ left ++ replicate 2 0
      taken =
          rw (dropped, two)
            (take_past left (replicate 2 0 ++ replicate (c.buffer_size - length text - 2) 0)
              (length left + 2) 2 refl)

      move_lem : move_down k (length left + 2) c.buffer ≡ some moved
      unfolding move_down moved
      move_lem =
          let fits : k + (length left + 2) ≤ length c.buffer =
            omega (arith, length-left, buffer-length) in
          let start : length left + 2 ≤ length c.buffer = omega arith in
          rw (le→leb _ _ fits, taken, move_down)
            (ap (splice 0 (left ++ replicate 2 0))
                (sym (take-append-drop (length left + 2) c.buffer))
              ∙ splice_over [] (take (length left + 2) c.buffer) (drop (length left + 2) c.buffer)
                  (left ++ replicate 2 0) 0 refl
                  (omega (
                    arith,
                    length-append left (replicate 2 0),
                    length-take (length left + 2) c.buffer,
                  )))

      moved-EndsZero : EndsZero (replicate 2 0 ++ drop (length left + 2) c.buffer)
      moved-EndsZero = elim (dec_lt (length left + 2) (length c.buffer)) [
        | yes within ↦
            EndsZero-append (replicate 2 0) (drop (length left + 2) c.buffer)
              (EndsZero-drop (length left + 2) c.buffer buffer-EndsZero within)
        | no past ↦ rw (drop_all (length left + 2) c.buffer (omega arith)) (EndsZero-zeros 1)
      ]
        where
          last : c.buffer_size - length text ≡ suc (c.buffer_size - length text - 1)
          last = omega arith

          buffer-EndsZero : EndsZero c.buffer
          buffer-EndsZero =
              rw (v.buffer_is, last)
                (EndsZero-append text (replicate (suc (c.buffer_size - length text - 1)) 0)
                  (EndsZero-zeros (c.buffer_size - length text - 1)))

      clear_lem :
          splice (length left) (replicate (c.buffer_size - length left - 1) 0) moved
          ≡ some (left ++ replicate (c.buffer_size - length left) 0)
      unfolding moved
      clear_lem =
          let (q, ends) = moved-EndsZero in
          let shape : moved ≡ left ++ (q ++ 0 ∷ []) =
            append_assoc left (replicate 2 0) (drop (length left + 2) c.buffer)
            ∙ ap (◌++◌ left) ends in
          let fits : length (replicate {A = ℕ} (c.buffer_size - length left - 1) 0) ≡ length q =
            omega (
              arith,
              ap length ends,
              length-append q (0 ∷ []),
              buffer-length,
              length-left,
              length-append (replicate {A = ℕ} 2 0) (drop (length left + 2) c.buffer),
              length-drop (length left + 2) c.buffer,
              length-replicate {A = ℕ} (c.buffer_size - length left - 1) 0,
            ) in
          let whole : c.buffer_size - length left - 1 + 1 ≡ c.buffer_size - length left =
            omega (arith, length-left) in
          rw shape (
            splice_over left q (0 ∷ []) (replicate (c.buffer_size - length left - 1) 0)
              (length left) refl fits
            ∙ ap (λ (bs : List ℕ). some (left ++ bs))
                (replicate-append {A = ℕ} (c.buffer_size - length left - 1) 1 0
                  ∙ ap (λ n. replicate n 0) whole))

      pub discard-Holds :
          (c' : Connection) × (discard k c ≡ some c')
          × Holds c' (drop k text)
          × (c'.buffer_size ≡ c.buffer_size)
      unfolding discard left
      discard-Holds = (
        record c {
          pos = length (drop k text);
          buffer = drop k text ++ replicate (c.buffer_size - length (drop k text)) 0;
        },
        rw (rest_is, discard) (rw move_lem (rw clear_lem refl)),
        record { buffer_is = refl; pos_is = refl; room = omega (arith, length-drop k text) },
        refl,
      )
