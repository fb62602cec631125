-- ===== src/Rpc/Reply.antt =====
-- The replies of src/jsonrpc-c.c: the error codes of include/jsonrpc-c.h, `send_response`,
-- `send_error`, `send_result`, and the checks of a request's members. cJSON is a parameter; the
-- writes to the socket are collected in order.
use lepd.Base.{ℕ, Bool, true, false, Option, none, some, List, [], ◌∷◌, String}
use lepd.Base.Int.{ℤ, negsuc}
use lepd.Rpc.Json.{CJson, json_string, json_number, json_array, json_object}

abbrev pub jrpc_parse_error : ℤ
jrpc_parse_error = negsuc 32699

abbrev pub jrpc_invalid_request : ℤ
jrpc_invalid_request = negsuc 32599

abbrev pub jrpc_method_not_found : ℤ
jrpc_method_not_found = negsuc 32600

abbrev pub jrpc_invalid_params : ℤ
jrpc_invalid_params = negsuc 32602

abbrev pub jrpc_internal_error : ℤ
jrpc_internal_error = negsuc 32692

abbrev pub newline : List ℕ
newline = b'\n' ∷ []

module _ (j : CJson) where
  unfoldable pub send_response : List ℕ → List (List ℕ)
  send_response response = response ∷ newline ∷ []

  -- `{"error": {"code": …, "message": …}, "id": …}`
  unfoldable pub error_reply : ℤ → String → Option j.Node → j.Node
  error_reply code message id =
      let error_root =
        j.add_item_to_object
          (j.add_item_to_object j.create_object "code" (some (j.create_number code))) "message"
          (some (j.create_string message)) in
      j.add_item_to_object (j.add_item_to_object j.create_object "error" (some error_root)) "id" id

  -- `{"result": …, "id": …}`; a NULL result is left out.
  unfoldable pub result_reply : Option j.Node → Option j.Node → j.Node
  result_reply result id =
      let result_root : j.Node = elim result [
        | none ↦ j.create_object
        | some r ↦ j.add_item_to_object j.create_object "result" (some r)
      ] in
      j.add_item_to_object result_root "id" id

  unfoldable pub send_error : ℤ → String → Option j.Node → List (List ℕ)
  unfolding send_response error_reply
  send_error code message id = send_response (j.print (error_reply code message id))

  unfoldable pub send_result : Option j.Node → Option j.Node → List (List ℕ)
  unfolding send_response result_reply
  send_result result id = send_response (j.print (result_reply result id))

  -- A missing `params` is allowed, and so is a missing `id`.
  unfoldable pub params_allowed : Option j.Node → Bool
  params_allowed none = true
  params_allowed (some n) = elim (j.kind n) [ json_array ↦ true | json_object ↦ true | _ ↦ false ]

  unfoldable pub id_allowed : Option j.Node → Bool
  id_allowed none = true
  id_allowed (some n) = elim (j.kind n) [ json_string ↦ true | json_number ↦ true | _ ↦ false ]

  -- The copy of the id that the reply owns.
  unfoldable pub copy_id : Option j.Node → Option j.Node
  copy_id none = none
  copy_id (some n) = some (elim (j.kind n) [
    | json_string ↦ j.create_string (j.value_string n)
    | _ ↦ j.create_number (j.value_int n)
  ])

  -- The name in `method`, if it is a string.
  unfoldable pub method_of : j.Node → Option String
  method_of root = elim (j.get_object_item root "method") [
    | none ↦ none
    | some m ↦ elim (j.kind m) [ json_string ↦ some (j.value_string m) | _ ↦ none ]
  ]
