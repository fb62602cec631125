-- ===== src/Rpc/Connection/Overread.antt =====
-- A read that fills the buffer to its last byte but one, at the end of a request.
use lepd.Base.{
  ℕ, ◌+◌, ◌-◌, ◌≤◌, ◌≡◌, refl, ◌≢◌, none, some, List, [], ◌∷◌, ◌++◌, String, arith, length,
  length-append, take_all, drop_all, inl, inr, Option-cases,
}
use lepd.Base.CString.{NonZero}
use lepd.Rpc.Json.{CJson, EndsInside}
use lepd.Rpc.Procedures.{Table}
use lepd.Rpc.Request.{JrpcFunction}
use lepd.Rpc.Connection.{Connection, ready, evaluate, after_parse, parse_buffer, receive}
use lepd.Rpc.Connection.Bounds.{Holds, filled-Holds, c_string-Holds, discard_full}

module _ (j : CJson) (W : Type 0) (t : Table (JrpcFunction j W) String) where
  after_parse_full :
      (c : Connection) (text : List ℕ) (node : j.Node) (end : ℕ) (w : W)
      → Holds c text
      → NonZero text
      → end ≤ length text
      → length text + 1 ≡ c.buffer_size
      → after_parse j W t c [] w (some node, end) ≡ none
  unfolding after_parse
  after_parse_full c text node end w v nz inside full =
      elim (Option-cases (evaluate j W t node w)) [
        | inl fault ↦ rw fault refl
        | inr (served, e) ↦ rw e (rw (discard_full c text v nz end inside full) refl)
      ]

  -- If a read fills the buffer up to the byte that is kept for the 0, and the text then starts with
  -- a value, discarding that value moves one byte from behind the buffer: the access is out of
  -- bounds, whatever the value is.
  pub receive_full :
      (inside : EndsInside j) (c : Connection) (text bytes : List ℕ) (node : j.Node) (w : W)
      → Holds c text
      → NonZero (text ++ bytes)
      → bytes ≢ []
      → length text + length bytes + 1 ≡ c.buffer_size
      → (j.parse_stream (text ++ bytes)).0 ≡ some node
      → receive j W t c (ready bytes) w ≡ none
  unfolding receive parse_buffer
  receive_full inside c text [] node w v nz some_bytes full parsed = absurd (some_bytes refl)
  receive_full inside c text (b ∷ bs) node w v nz some_bytes full parsed =
      let fits : length (b ∷ bs) ≤ c.buffer_size - c.pos - 1 = omega (arith, v.pos_is) in
      let (buffer, filled, v') = filled-Holds c text v (b ∷ bs) (omega arith) in
      let end = (j.parse_stream (text ++ b ∷ bs)).1 in
      rw (take_all (c.buffer_size - c.pos - 1) (b ∷ bs) fits, receive)
        (rw (filled, drop_all (c.buffer_size - c.pos - 1) (b ∷ bs) fits)
          (rw (c_string-Holds _ (text ++ b ∷ bs) v' nz, parse_buffer)
            (rw parsed (
              after_parse_full (record c { pos = c.pos + length (b ∷ bs); buffer = buffer })
                (text ++ b ∷ bs) node end w v' nz (inside (text ++ b ∷ bs))
                (omega (arith, length-append text (b ∷ bs)))))))
