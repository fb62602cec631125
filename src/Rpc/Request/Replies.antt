-- ===== src/Rpc/Request/Replies.antt =====
-- What a client reads in the two kinds of reply, given how cJSON objects behave.
use lepd.Base.{Option, none, some, ◌≡◌, ◌∙◌, String}
use lepd.Base.Int.{ℤ}
use lepd.Rpc.Json.{CJson, ObjectLaws}
use lepd.Rpc.Reply.{error_reply, result_reply}

module _ (j : CJson) where
  -- An error with its code and message, the id, and no result.
  pub record IsErrorReply (n : j.Node) (code : ℤ) (message : String) (id : Option j.Node)
      : Type 0 where
    pub error_root : j.Node
    pub error : j.get_object_item n "error" ≡ some error_root
    pub error_code : j.get_object_item error_root "code" ≡ some (j.create_number code)
    pub error_message : j.get_object_item error_root "message" ≡ some (j.create_string message)
    pub no_result : j.get_object_item n "result" ≡ none
    pub same_id : j.get_object_item n "id" ≡ id

  -- The returned item, if there is one, the id, and no error.
  pub record IsResultReply (n : j.Node) (result id : Option j.Node) : Type 0 where
    pub same_result : j.get_object_item n "result" ≡ result
    pub no_error : j.get_object_item n "error" ≡ none
    pub same_id : j.get_object_item n "id" ≡ id

  module _ (laws : ObjectLaws j) where
    open laws use {get_empty, get_added, get_other, add_null}

    -- After `cJSON_AddItemToObject` the name holds the item, NULL or not.
    get_added_item :
        (o : j.Node) (v : Option j.Node) (k : String)
        → j.get_object_item o k ≡ none
        → j.get_object_item (j.add_item_to_object o k v) k ≡ v
    get_added_item o none k h = rw (add_null o k) h
    get_added_item o (some v) k h = get_added o v k h

    pub error_reply-IsErrorReply :
        (code : ℤ) (message : String) (id : Option j.Node)
        → IsErrorReply (error_reply j code message id) code message id
    unfolding error_reply
    error_reply-IsErrorReply code message id = record {
      error_root = root;
      error =
          get_other _ id "id" "error" laws.id_is_not_error
          ∙ get_added j.create_object root "error" (get_empty "error");
      error_code =
          get_other _ _ "message" "code" laws.message_is_not_code
          ∙ get_added _ (j.create_number code) "code" (get_empty "code");
      error_message =
          get_added _ _ "message"
            (get_other _ _ "code" "message" laws.code_is_not_message ∙ get_empty "message");
      no_result =
          get_other _ id "id" "result" laws.id_is_not_result
          ∙ (get_other _ _ "error" "result" laws.error_is_not_result ∙ get_empty "result");
      same_id =
          get_added_item _ id "id"
            (get_other _ _ "error" "id" laws.error_is_not_id ∙ get_empty "id");
    }
      where
        root : j.Node
        root =
            j.add_item_to_object
              (j.add_item_to_object j.create_object "code" (some (j.create_number code))) "message"
              (some (j.create_string message))

    pub result_reply-IsResultReply :
        (result id : Option j.Node) → IsResultReply (result_reply j result id) result id
    unfolding result_reply
    result_reply-IsResultReply none id = record {
      same_result = get_other _ id "id" "result" laws.id_is_not_result ∙ get_empty "result";
      no_error = get_other _ id "id" "error" laws.id_is_not_error ∙ get_empty "error";
      same_id = get_added_item _ id "id" (get_empty "id");
    }
    result_reply-IsResultReply (some r) id = record {
      same_result =
          get_other _ id "id" "result" laws.id_is_not_result
          ∙ get_added _ r "result" (get_empty "result");
      no_error =
          get_other _ id "id" "error" laws.id_is_not_error
          ∙ (get_other _ _ "result" "error" laws.result_is_not_error ∙ get_empty "error");
      same_id =
          get_added_item _ id "id"
            (get_other _ _ "result" "id" laws.result_is_not_id ∙ get_empty "id");
    }
