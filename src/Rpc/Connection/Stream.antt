-- ===== src/Rpc/Connection/Stream.antt =====
-- The connection without its buffer: a text of unparsed bytes. The code refines it while a byte is
-- to spare, so a request is answered however its bytes are split over reads.
use lepd.Base.{
  ℕ, ◌+◌, ◌-◌, ◌^◌, ◌≤◌, ◌<◌, ◌≡◌, refl, ◌≢◌, true, Option, none, some, List, [], ◌∷◌, ◌++◌, String,
  arith, drop, length, length-append, if◌then◌else◌, ◌==◌, ◌>>=◌, drop_all, take_all, Option-cases,
  Bool-cases, inl, inr,
}
use lepd.Base.CString.{c_string, NonZero}
use lepd.Rpc.Json.{CJson, EndsInside}
use lepd.Rpc.Procedures.{Table}
use lepd.Rpc.Reply.{jrpc_parse_error, send_error}
use lepd.Rpc.Request.{JrpcFunction}
use lepd.Rpc.Connection.{
  Connection, ready, Step, evaluate, after_parse, parse_buffer, receive, connection_cb,
}
use lepd.Rpc.Connection.Bounds.{
  Holds, capacity, filled-Holds, c_string-Holds, grow-Holds, discard-Holds,
}

module _ (j : CJson) (W : Type 0) (t : Table (JrpcFunction j W) String) where
  -- What a connection does with its text once it is parsed: the text that is left, or `none` if it is
  -- closed; what is written; and the world.
  abbrev pub handled : List ℕ → W → Option j.Node × ℕ → Option (Option (List ℕ) × List (List ℕ) × W)
  handled text w (some node, end) =
      evaluate j W t node w >>= λ (out, w'). some (some (drop end text), out, w')
  handled text w (none, end) =
      if end == length text
      then some (some text, [], w)
      else some (
        none,
        send_error j jrpc_parse_error "Parse error. Invalid JSON was received by the server." none,
        w,
      )

  abbrev pub handle : List ℕ → W → Option (Option (List ℕ) × List (List ℕ) × W)
  handle text w = handled text w (j.parse_stream text)

  -- A step of the code that left no byte unread, beside one of the text.
  abbrev pub Refines : Option (Option (List ℕ) × List (List ℕ) × W) → Option (Step j W) → ℕ → Type 0
  Refines none r size = r ≡ none
  Refines (some (none, out, w)) r size =
      r ≡ some (record { next = none; writes = out; unread = []; world = w })
  Refines (some (some text, out, w)) r size =
      (c : Connection) × (r ≡ some (record { next = some c; writes = out; unread = []; world = w }))
      × Holds c text
      × (c.buffer_size ≡ size)

  module _ (inside : EndsInside j) (c : Connection) (text : List ℕ) (v : Holds c text)
      (nz : NonZero text) (spare : length text + 2 ≤ c.buffer_size) (w : W) where
    same_text : c_string c.buffer ≡ text
    same_text = c_string-Holds c text v nz

    after_parse-handled :
        (p : Option j.Node × ℕ)
        → p.1 ≤ length text
        → Refines (handled text w p) (after_parse j W t c [] w p) c.buffer_size
    unfolding after_parse
    after_parse-handled (none, end) within = elim (Bool-cases (end == length text)) [
      | inl all ↦ rw all (c, rw v.pos_is (rw all refl), v, refl)
      | inr error ↦ rw error (rw v.pos_is (rw error refl))
    ]
    after_parse-handled (some node, end) within = elim (Option-cases (evaluate j W t node w)) [
      | inl fault ↦ rw fault refl
      | inr ((out, w'), served) ↦
          let (c', moved, v', size) = discard-Holds c text v nz end within spare in
          rw served (c', rw moved refl, v', size)
    ]

    -- Once the bytes are in the buffer, the code does with it what `handle` does with the text.
    parse_buffer-handle : Refines (handle text w) (parse_buffer j W t c [] w) c.buffer_size
    unfolding parse_buffer
    parse_buffer-handle =
        rw (same_text, parse_buffer) (after_parse-handled (j.parse_stream text) (inside text))

  receive-handle :
      (inside : EndsInside j) (c : Connection) (text bytes : List ℕ) (w : W)
      → Holds c text
      → NonZero (text ++ bytes)
      → bytes ≢ []
      → length text + length bytes + 2 ≤ c.buffer_size
      → Refines (handle (text ++ bytes) w) (receive j W t c (ready bytes) w) c.buffer_size
  unfolding receive
  receive-handle inside c text [] w v nz some_bytes spare = absurd (some_bytes refl)
  receive-handle inside c text (b ∷ bs) w v nz some_bytes spare =
      let fits : length (b ∷ bs) ≤ c.buffer_size - c.pos - 1 = omega (arith, v.pos_is) in
      let (buffer, filled, v') = filled-Holds c text v (b ∷ bs) (omega arith) in
      let left : length (text ++ b ∷ bs) + 2 ≤ c.buffer_size =
        omega (arith, length-append text (b ∷ bs)) in
      rw (take_all (c.buffer_size - c.pos - 1) (b ∷ bs) fits, receive)
        (rw (filled, drop_all (c.buffer_size - c.pos - 1) (b ∷ bs) fits)
          (parse_buffer-handle inside (record c { pos = c.pos + length (b ∷ bs); buffer = buffer })
            (text ++ b ∷ bs) v' nz left w))

  -- With memory, and a buffer below 2^31 bytes that holds the text, a read of bytes without 0 that
  -- leaves a byte to spare, in the buffer or in the doubled one, does what the abstract connection
  -- does with the text and the bytes, and leaves a buffer that holds the rest of the text.
  pub connection_cb-handle :
      (inside : EndsInside j) (c : Connection) (text bytes : List ℕ) (w : W)
      → Holds c text
      → NonZero (text ++ bytes)
      → bytes ≢ []
      → c.buffer_size < 2 ^ 31
      → length text + length bytes + 2 ≤ capacity c
      → Refines (handle (text ++ bytes) w) (connection_cb j W t true c (ready bytes) w) (capacity c)
  unfolding connection_cb
  connection_cb-handle inside c text bytes w v nz some_bytes small spare =
      let (c', grown, v', _, size) = grow-Holds c text v small in
      rw (grown, connection_cb)
        (rw (← size) (receive-handle inside c' text bytes w v' nz some_bytes (omega (arith, size))))
