-- ===== src/Rpc/Request.antt =====
-- Evaluation of a request in src/jsonrpc-c.c: `invoke_procedure` and `eval_request`. `W` is the state
-- of the outside world that a procedure may read and change. A result `none` is a fault.
pub mod Replies
pub mod Dispatch
mod Examples
use lepd.Base.{
  ℕ, Bool, true, false, Option, none, some, List, [], ◌∷◌, String, if◌then◌else◌, ◌==◌, ◌>>=◌, ◌&&◌,
}
use lepd.Base.Int.{ℤ, pos, negsuc}
use lepd.Rpc.Json.{CJson}
use lepd.Rpc.Procedures.{Procedure, Table, find_procedure}
use lepd.Rpc.Procedures.Search.{cells}
use lepd.Rpc.Reply.{
  jrpc_invalid_request, jrpc_method_not_found, send_error, send_result, params_allowed, id_allowed,
  copy_id, method_of,
}

-- `jrpc_context`; a message that was not set is NULL.
pub record Context : Type 0 where
  pub data_ptr : Option String
  pub error_code : ℤ
  pub error_message : Option String

-- `if (ctx.error_code)`
abbrev pub is_zero : ℤ → Bool
is_zero (pos n) = n == 0
is_zero (negsuc n) = false

module _ (j : CJson) (W : Type 0) where
  -- `jrpc_function`: the context and the world are passed back with the returned item.
  abbrev pub JrpcFunction : Type 0
  JrpcFunction = Context → Option j.Node → Option j.Node → W → Option j.Node × Context × W

  -- What a request leaves: its return code, the writes to the socket, and the world.
  pub record Served : Type 0 where
    pub code : ℤ
    pub writes : List (List ℕ)
    pub world : W

  unfoldable pub invalid_request : W → Served
  unfolding send_error
  invalid_request w = record {
    code = negsuc 0;
    writes = send_error j jrpc_invalid_request "The JSON sent is not a valid Request object." none;
    world = w;
  }

  -- The end of `invoke_procedure`: an error without a message makes cJSON copy a NULL string.
  unfoldable pub reply_of : Option j.Node → Option j.Node → Context → W → Option Served
  unfolding send_error send_result
  reply_of id returned ctx w =
      if is_zero ctx.error_code
      then some (record { code = pos 0; writes = send_result j returned id; world = w })
      else elim ctx.error_message [
        | none ↦ none
        | some message ↦
            some
              (record { code = pos 0; writes = send_error j ctx.error_code message id; world = w })
      ]

  unfoldable pub call_procedure :
      Option (Procedure JrpcFunction String) → Option j.Node → Option j.Node → W → Option Served
  unfolding send_error reply_of
  call_procedure none params id w = some (record {
    code = pos 0;
    writes = send_error j jrpc_method_not_found "Method not found." id;
    world = w;
  })
  call_procedure (some p) params id w =
      let (returned, ctx, w') =
        p.function (record { data_ptr = p.data_ptr; error_code = pos 0; error_message = none })
          params id w in
      reply_of id returned ctx w'

  unfoldable pub invoke_procedure :
      Table JrpcFunction String → String → Option j.Node → Option j.Node → W → Option Served
  unfolding call_procedure find_procedure
  invoke_procedure t name params id w =
      find_procedure t.procedure_count (cells t) name >>= λ found. call_procedure found params id w

  unfoldable pub eval_request : Table JrpcFunction String → j.Node → W → Option Served
  unfolding invoke_procedure params_allowed id_allowed copy_id method_of invalid_request
  eval_request t root w = elim (method_of j root) [
    | none ↦ some (invalid_request w)
    | some method ↦
        let params = j.get_object_item root "params" in
        let id = j.get_object_item root "id" in
        if params_allowed j params && id_allowed j id
        then invoke_procedure t method params (copy_id j id) w
        else some (invalid_request w)
  ]
