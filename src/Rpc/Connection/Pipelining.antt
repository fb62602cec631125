-- ===== src/Rpc/Connection/Pipelining.antt =====
-- Conversations: one callback for each read. A request is answered when its last byte arrives, but
-- of two requests that arrive in one read only the first is.
use lepd.Base.{
  ℕ, ◌+◌, ◌^◌, ◌≤◌, ◌<◌, ◌≡◌, refl, sym, ap, ◌∙◌, ◌≢◌, true, Option, none, some, List, [], ◌∷◌,
  ◌++◌, String, arith, length, length-append, ◌>>=◌, drop_all, append_assoc, append-nil,
  drop-append_self, All, All-append_left, subst,
}
use lepd.Base.CString.{NonZero}
use lepd.Rpc.Json.{CJson, EndsInside}
use lepd.Rpc.Procedures.{Table}
use lepd.Rpc.Request.{JrpcFunction}
use lepd.Rpc.Connection.{Connection, ready, evaluate, receive, connection_cb}
use lepd.Rpc.Connection.Bounds.{Holds, capacity, grow-Holds}
use lepd.Rpc.Connection.Stream.{handle, Refines, connection_cb-handle}

abbrev pub joined : List (List ℕ) → List ℕ
joined [] = []
joined (r ∷ rs) = r ++ joined rs

-- With a byte to spare the buffer is not doubled.
capacity_spare :
    (c : Connection) (text : List ℕ)
    → Holds c text
    → length text + 2 ≤ c.buffer_size
    → capacity c ≡ c.buffer_size
unfolding capacity
capacity_spare c text v h = ground (arith, v.pos_is)

append_ne : (xs ys : List ℕ) → xs ≢ [] → xs ++ ys ≢ []
append_ne [] ys h = absurd (h refl)
append_ne (x ∷ xs) ys h = λ e. cc

module _ (j : CJson) where
  -- The parser reads the message as one value, and asks for more at each proper prefix of it.
  pub record IsMessage (msg : List ℕ) (node : j.Node) : Type 0 where
    pub whole : j.parse_stream msg ≡ (some node, length msg)
    pub partial_ : (a b : List ℕ) → msg ≡ a ++ b → b ≢ [] → j.parse_stream a ≡ (none, length a)

module _ (j : CJson) (W : Type 0) (t : Table (JrpcFunction j W) String) where
  -- The callbacks of a connection, one for each read; what was written is collected in order. The
  -- connection is `none` once it is closed.
  unfoldable pub serve :
      List (List ℕ) → Connection → W → Option (List (List ℕ) × Option Connection × W)
  serve [] c w = some ([], some c, w)
  serve (r ∷ rs) c w = connection_cb j W t true c (ready r) w >>= λ s. elim s.next [
    | none ↦ some (s.writes, none, s.world)
    | some c' ↦ serve rs c' s.world >>= λ (out, c'', w'). some (s.writes ++ out, c'', w')
  ]

  -- One callback, where the abstract connection is known to go on.
  callback :
      (inside : EndsInside j) (c : Connection) (text r : List ℕ) (w : W)
      → Holds c text
      → NonZero (text ++ r)
      → r ≢ []
      → c.buffer_size < 2 ^ 31
      → length text + length r + 2 ≤ c.buffer_size
      → (rest : List ℕ) (out : List (List ℕ)) (w' : W)
      → handle j W t (text ++ r) w ≡ some (some rest, out, w')
      → (c' : Connection) × (connection_cb j W t true c (ready r) w
          ≡ some (record { next = some c'; writes = out; unread = []; world = w' }))
        × Holds c' rest
        × (c'.buffer_size ≡ c.buffer_size)
  callback inside c text r w v nz some_bytes small spare rest out w' e =
      let same = capacity_spare c text v (omega arith) in
      subst (λ h. Refines j W t h (connection_cb j W t true c (ready r) w) c.buffer_size) e
        (rw same at
          (connection_cb-handle j W t inside c text r w v nz some_bytes small (rw same spare)))

  module _ (inside : EndsInside j) (msg : List ℕ) (node : j.Node) (m : IsMessage j msg node)
      (nz : NonZero msg) (w w' : W) (out : List (List ℕ))
      (served : evaluate j W t node w ≡ some (out, w')) where
    handle_whole : handle j W t msg w ≡ some (some [], out, w')
    handle_whole = rw (m.whole, served) (rw (drop_all (length msg) msg (omega arith)) refl)

    handle_part : (a b : List ℕ) → msg ≡ a ++ b → b ≢ [] → handle j W t a w ≡ some (some a, [], w)
    handle_part a b e more = rw (m.partial_ a b e more) (ground arith)

    serve_rest :
        (reads : List (List ℕ)) (r text : List ℕ) (c : Connection)
        → Holds c text
        → All (λ x. x ≢ []) (r ∷ reads)
        → msg ≡ text ++ (r ++ joined reads)
        → c.buffer_size < 2 ^ 31
        → length msg + 2 ≤ c.buffer_size
        → (c' : Connection) × (serve (r ∷ reads) c w ≡ some (out, some c', w')) × Holds c' []
    unfolding serve
    serve_rest [] r text c v (full, _) e small spare =
        let whole : msg ≡ text ++ r = e ∙ ap (◌++◌ text) (append-nil r) in
        let (c', stepped, v', _) =
          callback inside c text r w v (subst NonZero whole nz) full small
            (omega (arith, ap length whole, length-append text r)) [] out w'
            (subst (λ x. handle j W t x w ≡ some (some [], out, w')) whole handle_whole) in
        (
          c',
          rw (stepped, serve) (ap (λ (o : List (List ℕ)). some (o, some c', w')) (append-nil out)),
          v',
        )
    serve_rest (r' ∷ reads) r text c v (full, more) e small spare =
        let part : msg ≡ (text ++ r) ++ joined (r' ∷ reads) =
          e ∙ sym (append_assoc text r (joined (r' ∷ reads))) in
        let (c', stepped, v', size) =
          callback inside c text r w v
            (All-append_left (λ b. b ≢ 0) (text ++ r) (joined (r' ∷ reads)) (subst NonZero part nz))
            full small
            (omega (
              arith,
              ap length part,
              length-append text r,
              length-append (text ++ r) (joined (r' ∷ reads)),
            ))
            (text ++ r) [] w
            (handle_part (text ++ r) (joined (r' ∷ reads)) part
              (append_ne r' (joined reads) more.0)) in
        let (c'', rest, v'') =
          serve_rest reads r' (text ++ r) c' v' more part (omega arith) (omega arith) in
        (c'', rw (stepped, serve) (rw rest refl), v'')

  -- A request without 0 bytes that fits in the buffer with two bytes to spare is evaluated once, when
  -- its last byte arrives, however its bytes are split over reads; what is written is what that
  -- evaluation writes, and the connection is left open and empty. The parser takes the request as
  -- one value and asks for more at its proper prefixes.
  pub serve_split_request :
      (inside : EndsInside j) (msg : List ℕ) (node : j.Node) (w w' : W) (out : List (List ℕ))
      (r : List ℕ) (reads : List (List ℕ)) (c : Connection)
      → IsMessage j msg node
      → NonZero msg
      → evaluate j W t node w ≡ some (out, w')
      → Holds c []
      → All (λ x. x ≢ []) (r ∷ reads)
      → joined (r ∷ reads) ≡ msg
      → c.buffer_size < 2 ^ 31
      → length msg + 2 ≤ c.buffer_size
      → (c' : Connection) × (serve (r ∷ reads) c w ≡ some (out, some c', w')) × Holds c' []
  serve_split_request inside msg node w w' out r reads c m nz served v full e small spare =
      serve_rest inside msg node m nz w w' out served reads r [] c v full (sym e) small spare

  -- The end of the stream closes the connection without a word.
  connection_cb_eof :
      (c : Connection) (text : List ℕ) (w : W)
      → Holds c text
      → c.buffer_size < 2 ^ 31
      → connection_cb j W t true c (ready []) w
        ≡ some (record { next = none; writes = []; unread = []; world = w })
  unfolding connection_cb receive
  connection_cb_eof c text w v small =
      let (c', grown, _, _, _) = grow-Holds c text v small in rw (grown, connection_cb) refl

  -- Of two requests that arrive in one read, only the first is evaluated: the connection holds the
  -- second, and if the client then closes its side, the connection is closed with nothing more
  -- evaluated or written.
  pub serve_pipelined :
      (inside : EndsInside j) (msg more : List ℕ) (node : j.Node) (w w' : W) (out : List (List ℕ))
      (c : Connection)
      → j.parse_stream (msg ++ more) ≡ (some node, length msg)
      → NonZero (msg ++ more)
      → msg ≢ []
      → evaluate j W t node w ≡ some (out, w')
      → Holds c []
      → c.buffer_size < 2 ^ 31
      → length (msg ++ more) + 2 ≤ c.buffer_size
      → ((c' : Connection) × (serve ((msg ++ more) ∷ []) c w ≡ some (out, some c', w'))
          × Holds c' more)
        × (serve ((msg ++ more) ∷ [] ∷ []) c w ≡ some (out, none, w'))
  unfolding serve
  serve_pipelined inside msg more node w w' out c parsed nz some_bytes served v small spare =
      let first : handle j W t (msg ++ more) w ≡ some (some more, out, w') =
        rw (parsed, served) (rw (drop-append_self (length msg) msg more refl) refl) in
      let (c', stepped, v', size) =
        callback inside c [] (msg ++ more) w v nz (append_ne msg more some_bytes) small
          (omega arith) more out w' first in
      (
        (
          c',
          rw (stepped, serve) (ap (λ (o : List (List ℕ)). some (o, some c', w')) (append-nil out)),
          v',
        ),
        rw (stepped, serve)
            (rw (connection_cb_eof c' more w' v' (omega arith))
              (ap (λ (o : List (List ℕ)). some (o, none, w')) (append-nil out))),
      )
