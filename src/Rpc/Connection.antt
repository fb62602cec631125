-- ===== src/Rpc/Connection.antt =====
-- A client's connection in src/jsonrpc-c.c: `jrpc_connection`, `connection_cb` and the buffer that it
-- parses from. The socket is the list of the bytes that are ready; an empty list is the end of the
-- stream. A result `none` is an access outside the buffer or a fault of a procedure.
pub mod Bounds
pub mod Stream
pub mod Pipelining
pub mod Overread
mod Examples
use lepd.Base.{
  ℕ, ◌+◌, ◌-◌, ◌*◌, ◌%◌, ◌^◌, Bool, true, false, Option, none, some, List, [], ◌∷◌, ◌++◌, String,
  if◌then◌else◌, ◌==◌, ◌>>=◌, take, drop, replicate, length,
}
use lepd.Base.Int.{ℤ}
use lepd.Base.CString.{c_string, strlen, splice, move_down}
use lepd.Rpc.Json.{CJson, Kind, json_object}
use lepd.Rpc.Procedures.{Table}
use lepd.Rpc.Reply.{jrpc_parse_error, send_error}
use lepd.Rpc.Request.{JrpcFunction, Served, eval_request}

pub record Connection : Type 0 where
  pub fd : ℤ
  pub pos : ℕ
  pub buffer_size : ℕ
  pub buffer : List ℕ
  pub debug_level : ℕ

-- `malloc(1500)` and `memset`, as `async_cb` makes a connection.
unfoldable pub new_connection : ℤ → ℕ → Connection
new_connection fd debug_level = record {
  fd = fd;
  pos = 0;
  buffer_size = 1500;
  buffer = replicate 1500 0;
  debug_level = debug_level;
}

-- What `read` does: an error, or as many bytes as fit of those that are ready.
pub data Socket : Type 0 where
  broken : Socket
  ready : List ℕ → Socket

-- The bytes that `realloc` adds hold anything.
abbrev pub stale : ℕ
stale = 0xaa

-- A full buffer is doubled, and cleared from `pos`. `buffer_size` has 32 bits.
unfoldable pub grow : Bool → Connection → Option (Option Connection)
grow memory c =
    let size = (c.buffer_size * 2) % 2 ^ 32 in
    if c.pos == c.buffer_size - 1
    then (if memory
        then (splice c.pos (replicate (size - c.pos) 0)
              (take size (c.buffer ++ replicate size stale))
            >>= λ cleared. some (some (record c { buffer_size = size; buffer = cleared })))
        else some none)
    else some (some c)

-- The text at offset `k` of the buffer moves to its start, with its 0 and one byte more; what lies
-- behind `pos` is cleared, but for the last byte.
unfoldable pub discard : ℕ → Connection → Option Connection
discard k c =
    let rest = strlen (drop k c.buffer) in
    move_down k (rest + 2) c.buffer >>= λ moved.
    splice rest (replicate (c.buffer_size - rest - 1) 0) moved >>= λ cleared.
    some (record c { pos = rest; buffer = cleared })

module _ (j : CJson) (W : Type 0) where
  -- A step of the connection: it goes on, or it is closed; with what was written, the bytes that are
  -- still unread, and the world.
  pub record Step : Type 0 where
    pub next : Option Connection
    pub writes : List (List ℕ)
    pub unread : List ℕ
    pub world : W

  abbrev closed : List (List ℕ) → List ℕ → W → Step
  closed out rest w = record { next = none; writes = out; unread = rest; world = w }

  -- Only an object is evaluated; any other value is read and dropped.
  unfoldable pub evaluate :
      Table (JrpcFunction j W) String → j.Node → W → Option (List (List ℕ) × W)
  evaluate t root w = elim (j.kind root) [
    | json_object ↦ eval_request j W t root w >>= λ r. some (r.writes, r.world)
    | _ ↦ some ([], w)
  ]

  -- What follows `cJSON_Parse_Stream`: a value at the start of the text is evaluated and discarded.
  -- Without one, an error before the end of the bytes closes the connection, and else more bytes are
  -- awaited.
  unfoldable pub after_parse :
      Table (JrpcFunction j W) String → Connection → List ℕ → W → Option j.Node × ℕ → Option Step
  unfolding evaluate discard send_error
  after_parse t c rest w (some node, end) = evaluate t node w >>= λ (out, w').
      discard end c >>= λ c'.
      some (record { next = some c'; writes = out; unread = rest; world = w' })
  after_parse t c rest w (none, end) =
      if end == c.pos
      then some (record { next = some c; writes = []; unread = rest; world = w })
      else some (
          closed
            (send_error j jrpc_parse_error "Parse error. Invalid JSON was received by the server."
              none)
            rest w)

  unfoldable pub parse_buffer :
      Table (JrpcFunction j W) String → Connection → List ℕ → W → Option Step
  unfolding after_parse
  parse_buffer t c rest w = after_parse t c rest w (j.parse_stream (c_string c.buffer))

  -- The read into the free part of the buffer, which keeps the last byte for the 0.
  unfoldable pub receive : Table (JrpcFunction j W) String → Connection → Socket → W → Option Step
  unfolding parse_buffer
  receive t c broken w = some (closed [] [] w)
  receive t c (ready []) w = some (closed [] [] w)
  receive t c (ready (b ∷ bs)) w =
      let max_read_size = c.buffer_size - c.pos - 1 in
      let bytes = take max_read_size (b ∷ bs) in
      splice c.pos bytes c.buffer >>= λ filled.
      parse_buffer t (record c { pos = c.pos + length bytes; buffer = filled })
        (drop max_read_size (b ∷ bs)) w

  unfoldable pub connection_cb :
      Table (JrpcFunction j W) String → Bool → Connection → Socket → W → Option Step
  unfolding grow receive
  connection_cb t memory c s w =
      grow memory c >>= λ r. elim r [ none ↦ some (closed [] [] w) | some c' ↦ receive t c' s w ]
