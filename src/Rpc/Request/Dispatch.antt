-- ===== src/Rpc/Request/Dispatch.antt =====
-- Which procedure a request runs, and what is written back on every branch.
use lepd.Base.{
  true, false, Option, none, some, List, [], ◌∷◌, ◌≡◌, refl, ap, inl, inr, Option-cases, Bool-cases,
  String,
}
use lepd.Base.Int.{ℤ, pos, negsuc}
use lepd.Rpc.Json.{
  CJson, Kind, ObjectLaws, json_false, json_true, json_null, json_number, json_string, json_array,
  json_object,
}
use lepd.Rpc.Procedures.{Procedure, Table}
use lepd.Rpc.Procedures.Search.{IsTable, last_named, find_procedure-IsTable}
use lepd.Rpc.Reply.{
  jrpc_invalid_request, jrpc_method_not_found, newline, error_reply, result_reply, send_error,
  send_result, params_allowed, id_allowed, copy_id, method_of,
}
use lepd.Rpc.Request.{
  Context, is_zero, JrpcFunction, Served, reply_of, call_procedure, invoke_procedure,
  invalid_request, eval_request,
}
use lepd.Rpc.Request.Replies.{
  IsErrorReply, IsResultReply, error_reply-IsErrorReply, result_reply-IsResultReply,
}

module _ (j : CJson) (W : Type 0) where
  -- The members of a request object that is valid, with `m` for the name of its method.
  pub record IsRequest (root : j.Node) (m : String) : Type 0 where
    pub method : method_of j root ≡ some m
    pub params : params_allowed j (j.get_object_item root "params") ≡ true
    pub id : id_allowed j (j.get_object_item root "id") ≡ true

  -- The id that a reply to a valid request has: a number for a number, else a string.
  abbrev pub same_id_item : Option j.Node → Option j.Node
  same_id_item none = none
  same_id_item (some n) = some (elim (j.kind n) [
    | json_number ↦ j.create_number (j.value_int n)
    | _ ↦ j.create_string (j.value_string n)
  ])

  abbrev pub reply_id : j.Node → Option j.Node
  reply_id root = same_id_item (j.get_object_item root "id")

  copy_id-same_id_item :
      (id : Option j.Node) → id_allowed j id ≡ true → copy_id j id ≡ same_id_item id
  unfolding copy_id id_allowed
  copy_id-same_id_item none h = refl
  copy_id-same_id_item (some n) h = by_kind (j.kind n) h
    where
      by_kind :
          (k : Kind)
          → elim k [ json_string ↦ true | json_number ↦ true | _ ↦ false ] ≡ true
          → some (elim k [
            | json_string ↦ j.create_string (j.value_string n)
            | _ ↦ j.create_number (j.value_int n)
          ])
            ≡ some (elim k [
              | json_number ↦ j.create_number (j.value_int n)
              | _ ↦ j.create_string (j.value_string n)
            ])
      by_kind json_string e = refl
      by_kind json_number e = refl
      by_kind json_false e = cc
      by_kind json_true e = cc
      by_kind json_null e = cc
      by_kind json_array e = cc
      by_kind json_object e = cc

  -- One reply and the newline behind it.
  abbrev pub one_reply : ℤ → j.Node → W → Served j W
  one_reply code n w = record { code = code; writes = j.print n ∷ newline ∷ []; world = w }

  -- What a procedure is called with.
  abbrev pub called : Procedure (JrpcFunction j W) String → j.Node → W → Option j.Node × Context × W
  called p root w =
      p.function (record { data_ptr = p.data_ptr; error_code = pos 0; error_message = none })
        (j.get_object_item root "params") (reply_id root) w

  module _ (t : Table (JrpcFunction j W) String) (ps : List (Procedure (JrpcFunction j W) String))
      (v : IsTable t ps) (root : j.Node) (w : W) where
    -- A valid request is a call of the procedure that was registered last under its method.
    eval_request-IsRequest :
        (m : String)
        → IsRequest root m
        → eval_request j W t root w
          ≡ call_procedure j W (last_named ps m) (j.get_object_item root "params") (reply_id root) w
    unfolding eval_request invoke_procedure
    eval_request-IsRequest m q =
        rw (q.method, eval_request)
          (rw (q.params, q.id)
            (rw (find_procedure-IsTable t ps m v) (
              ap (λ id. call_procedure j W (last_named ps m) (j.get_object_item root "params") id w)
                (copy_id-same_id_item (j.get_object_item root "id") q.id))))

    module _ (laws : ObjectLaws j) where
      -- A valid request for a registered procedure that sets no error is answered by one reply: its result
      -- under the request's id.
      pub eval_request_result :
          (m : String) (p : Procedure (JrpcFunction j W) String)
          → IsRequest root m
          → last_named ps m ≡ some p
          → is_zero (called p root w).1.error_code ≡ true
          → (n : j.Node) × (eval_request j W t root w
              ≡ some (one_reply (pos 0) n (called p root w).2))
            × IsResultReply j n (called p root w).0 (reply_id root)
      unfolding call_procedure reply_of send_result send_error
      eval_request_result m p q found fine = (
        result_reply j (called p root w).0 (reply_id root),
        rw (eval_request-IsRequest m q, found) (rw (fine, reply_of) refl),
        result_reply-IsResultReply j laws (called p root w).0 (reply_id root),
      )

      -- A valid request for a registered procedure that sets an error with a message is answered by one
      -- reply: that error under the request's id.
      pub eval_request_error :
          (m message : String) (p : Procedure (JrpcFunction j W) String)
          → IsRequest root m
          → last_named ps m ≡ some p
          → is_zero (called p root w).1.error_code ≡ false
          → (called p root w).1.error_message ≡ some message
          → (n : j.Node) × (eval_request j W t root w
              ≡ some (one_reply (pos 0) n (called p root w).2))
            × IsErrorReply j n (called p root w).1.error_code message (reply_id root)
      unfolding call_procedure reply_of send_error
      eval_request_error m message p q found failed said = (
        error_reply j (called p root w).1.error_code message (reply_id root),
        rw (eval_request-IsRequest m q, found) (rw (failed, reply_of) (rw said refl)),
        error_reply-IsErrorReply j laws (called p root w).1.error_code message (reply_id root),
      )

      -- A valid request for a method that nobody registered is answered by one reply, the error "Method not
      -- found." under the request's id, and runs nothing.
      pub eval_request-not_found :
          (m : String)
          → IsRequest root m
          → last_named ps m ≡ none
          → (n : j.Node) × (eval_request j W t root w ≡ some (one_reply (pos 0) n w))
            × IsErrorReply j n jrpc_method_not_found "Method not found." (reply_id root)
      unfolding call_procedure send_error
      eval_request-not_found m q absent = (
        error_reply j jrpc_method_not_found "Method not found." (reply_id root),
        rw (eval_request-IsRequest m q, absent) refl,
        error_reply-IsErrorReply j laws jrpc_method_not_found "Method not found." (reply_id root),
      )

      -- An item that is a request for no method is answered by one reply, the error "invalid request" with
      -- no id, and runs nothing.
      pub eval_request_invalid :
          ((m : String) → ¬ IsRequest root m)
          → (n : j.Node) × (eval_request j W t root w ≡ some (one_reply (negsuc 0) n w))
            × IsErrorReply j n jrpc_invalid_request "The JSON sent is not a valid Request object."
                none
      unfolding eval_request invalid_request send_error
      eval_request_invalid bad = (
        error_reply j jrpc_invalid_request "The JSON sent is not a valid Request object." none,
        elim (Option-cases (method_of j root)) [
          | inl e ↦ rw (e, eval_request) refl
          | inr (m, e) ↦ elim (Bool-cases (params_allowed j (j.get_object_item root "params"))) [
            | inr no_params ↦ rw (e, eval_request) (rw no_params refl)
            | inl params ↦ elim (Bool-cases (id_allowed j (j.get_object_item root "id"))) [
              | inr no_id ↦ rw (e, eval_request) (rw (params, no_id) refl)
              | inl id ↦ absurd (bad m (record { method = e; params = params; id = id }))
            ]
          ]
        ],
        error_reply-IsErrorReply j laws jrpc_invalid_request
            "The JSON sent is not a valid Request object." none,
      )
