-- ===== src/Rpc/Connection/Examples.antt =====
-- The theorems on connections at a new connection, over the small JSON library.
use lepd.Base.{
  ℕ, none, some, ◌≡◌, refl, List, [], ◌∷◌, ◌++◌, String, arith, ◌≢◌, length, replicate, ap,
  length-append, true,
}
use lepd.Base.Int.{pos}
use lepd.Rpc.Sample.{request, sample_json, sample-EndsInside}
use lepd.Rpc.Procedures.{Table}
use lepd.Rpc.Reply.{send_error}
use lepd.Rpc.Request.{JrpcFunction, eval_request}
use lepd.Rpc.Connection.{Connection, ready, evaluate, connection_cb}
use lepd.Rpc.Connection.Bounds.{Holds, capacity}
use lepd.Rpc.Connection.Stream.{handle, Refines, connection_cb-handle}
use lepd.Rpc.Connection.Pipelining.{IsMessage, serve, serve_split_request, serve_pipelined}

abbrev table : Table (JrpcFunction sample_json ℕ) String
table = record { procedure_count = 0; procedures = none }

abbrev message : List ℕ
message = b'{' ∷ b'm' ∷ b'}' ∷ []

abbrev fresh : Connection
fresh = record { fd = pos 7; pos = 0; buffer_size = 8; buffer = replicate 8 0; debug_level = 0 }

abbrev small : Connection
small = record { fd = pos 7; pos = 0; buffer_size = 4; buffer = replicate 4 0; debug_level = 0 }

fresh-Holds : Holds fresh []
fresh-Holds = record { buffer_is = refl; pos_is = refl; room = omega arith }

small-Holds : Holds small []
small-Holds = record { buffer_is = refl; pos_is = refl; room = omega arith }

-- What evaluating the message writes.
abbrev replied : List (List ℕ)
replied = (b'{' ∷ b'}' ∷ []) ∷ (b'\n' ∷ []) ∷ []

evaluated : evaluate sample_json ℕ table (request "m") 0 ≡ some (replied, 0)
unfolding evaluate eval_request send_error
evaluated = refl

message_partial :
    (a b : List ℕ) → message ≡ a ++ b → b ≢ [] → sample_json.parse_stream a ≡ (none, length a)
message_partial [] b e more = refl
message_partial (x ∷ []) b e more = refl
message_partial (x ∷ y ∷ []) b e more = refl
message_partial (x ∷ y ∷ z ∷ a) [] e more = absurd (more refl)
message_partial (x ∷ y ∷ z ∷ a) (c ∷ b) e more =
    absurd (omega (arith, ap length e, length-append a (c ∷ b)))

message-IsMessage : IsMessage sample_json message (request "m")
message-IsMessage = record { whole = refl; partial_ = message_partial }

connection_cb-handle_example :
    Refines sample_json ℕ table
      (handle sample_json ℕ table message 0)
      (connection_cb sample_json ℕ table true fresh (ready message) 0)
      (capacity fresh)
unfolding capacity
connection_cb-handle_example =
    connection_cb-handle sample_json ℕ table sample-EndsInside fresh [] message 0 fresh-Holds
      (omega arith) (λ e. cc) (omega arith) (omega arith)

serve_split_request_example :
    (c' : Connection) × (serve sample_json ℕ table ((b'{' ∷ []) ∷ (b'm' ∷ b'}' ∷ []) ∷ []) fresh 0
      ≡ some (replied, some c', 0))
    × Holds c' []
serve_split_request_example =
    serve_split_request sample_json ℕ table sample-EndsInside message (request "m") 0 0 replied
      (b'{' ∷ []) ((b'm' ∷ b'}' ∷ []) ∷ []) fresh message-IsMessage (omega arith) evaluated
      fresh-Holds ((λ e. cc), ((λ e. cc), tt)) refl (omega arith) (omega arith)

serve_pipelined_example :
    ((c' : Connection) × (serve sample_json ℕ table ((message ++ message) ∷ []) fresh 0
        ≡ some (replied, some c', 0))
      × Holds c' message)
    × (serve sample_json ℕ table ((message ++ message) ∷ [] ∷ []) fresh 0 ≡ some (replied, none, 0))
serve_pipelined_example =
    serve_pipelined sample_json ℕ table sample-EndsInside message message (request "m") 0 0 replied
      fresh refl (omega arith) (λ e. cc) evaluated fresh-Holds (omega arith) (omega arith)
