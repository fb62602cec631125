-- ===== src/Rpc/Request/Examples.antt =====
-- The theorems on requests at a table of two procedures, over the small JSON library.
use lepd.Base.{ℕ, suc, none, some, ◌≡◌, refl, List, [], ◌∷◌, String}
use lepd.Base.Int.{pos, negsuc}
use lepd.Rpc.Sample.{Doc, request, sample_json, sample_laws}
use lepd.Rpc.Procedures.{Procedure, Table}
use lepd.Rpc.Procedures.Search.{IsTable, last_named}
use lepd.Rpc.Reply.{
  jrpc_invalid_request, jrpc_method_not_found, method_of, params_allowed, id_allowed,
}
use lepd.Rpc.Request.{JrpcFunction, eval_request}
use lepd.Rpc.Request.Replies.{IsErrorReply, IsResultReply}
use lepd.Rpc.Request.Dispatch.{
  IsRequest, reply_id, one_reply, eval_request_result, eval_request_error, eval_request-not_found,
  eval_request_invalid,
}

abbrev Function : Type 0
Function = JrpcFunction sample_json ℕ

-- Answers a string and counts its calls.
abbrev hello : Function
hello ctx params id w = (some (Doc.str "hi"), ctx, suc w)

abbrev fail : Function
fail ctx params id w =
    (none, record ctx { error_code = negsuc 6; error_message = some "busy" }, suc w)

abbrev named : String → Function → Procedure Function String
named name f = record { name = name; function = f; data_ptr = none }

abbrev pub both : List (Procedure Function String)
both = named "m" hello ∷ named "e" fail ∷ []

abbrev pub table : Table Function String
table = record {
  procedure_count = 2;
  procedures = some (some (named "m" hello) ∷ some (named "e" fail) ∷ []);
}

pub table-IsTable : IsTable table both
table-IsTable = record { counted = refl; written = refl }

is_request : (m : String) → IsRequest sample_json ℕ (request m) m
unfolding method_of params_allowed id_allowed
is_request m = record { method = refl; params = refl; id = refl }

eval_request_result_example :
    (n : Doc) × (eval_request sample_json ℕ table (request "m") 0
      ≡ some (one_reply sample_json ℕ (pos 0) n 1))
    × IsResultReply sample_json n (some (Doc.str "hi")) (reply_id sample_json ℕ (request "m"))
unfolding last_named
eval_request_result_example =
    eval_request_result sample_json ℕ table both table-IsTable (request "m") 0 sample_laws "m"
      (named "m" hello) (is_request "m") refl refl

eval_request_error_example :
    (n : Doc) × (eval_request sample_json ℕ table (request "e") 0
      ≡ some (one_reply sample_json ℕ (pos 0) n 1))
    × IsErrorReply sample_json n (negsuc 6) "busy" (reply_id sample_json ℕ (request "e"))
unfolding last_named
eval_request_error_example =
    eval_request_error sample_json ℕ table both table-IsTable (request "e") 0 sample_laws "e" "busy"
      (named "e" fail) (is_request "e") refl refl refl

eval_request-not_found_example :
    (n : Doc) × (eval_request sample_json ℕ table (request "x") 0
      ≡ some (one_reply sample_json ℕ (pos 0) n 0))
    × IsErrorReply sample_json n jrpc_method_not_found "Method not found."
        (reply_id sample_json ℕ (request "x"))
unfolding last_named
eval_request-not_found_example =
    eval_request-not_found sample_json ℕ table both table-IsTable (request "x") 0 sample_laws "x"
      (is_request "x") refl

no_method : (m : String) → ¬ IsRequest sample_json ℕ (Doc.str "x") m
unfolding method_of
no_method m q = cc (q.method)

eval_request_invalid_example :
    (n : Doc) × (eval_request sample_json ℕ table (Doc.str "x") 0
      ≡ some (one_reply sample_json ℕ (negsuc 0) n 0))
    × IsErrorReply sample_json n jrpc_invalid_request "The JSON sent is not a valid Request object."
        none
eval_request_invalid_example =
    eval_request_invalid sample_json ℕ table both table-IsTable (Doc.str "x") 0 sample_laws
      no_method
