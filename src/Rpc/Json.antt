-- ===== src/Rpc/Json.antt =====
-- What the JSON-RPC layer uses of cJSON (include/cJSON.h), a library that it only calls.
use lepd.Base.{ℕ, ◌≤◌, ◌≡◌, Bool, false, Option, none, some, List, String, length}
use lepd.Base.Int.{ℤ}

-- The type constants of cJSON.h.
pub data Kind : Type 0 where
  json_false json_true json_null json_number json_string json_array json_object : Kind

-- An item that may be NULL is an `Option`. `parse_stream` is given the text at the pointer and
-- returns the item, and how many bytes lie before `end_ptr`.
pub record CJson : Type 1 where
  pub Node : Type 0
  pub kind : Node → Kind
  pub value_string : Node → String
  pub value_int : Node → ℤ
  pub get_object_item : Node → String → Option Node
  pub create_object : Node
  pub create_string : String → Node
  pub create_number : ℤ → Node
  pub add_item_to_object : Node → String → Option Node → Node
  pub print : Node → List ℕ
  pub parse_stream : List ℕ → Option Node × ℕ

-- `end_ptr` points into the text that was given.
abbrev pub EndsInside : CJson → Type 0
EndsInside j = (s : List ℕ) → (j.parse_stream s).1 ≤ length s

-- An object answers with the item that was added under a name, if it had none of that name. Names
-- are compared without case: `same_name` tells apart those that the replies use.
pub record ObjectLaws (j : CJson) : Type 0 where
  pub same_name : String → String → Bool
  pub result_is_not_id : same_name "result" "id" ≡ false
  pub result_is_not_error : same_name "result" "error" ≡ false
  pub error_is_not_id : same_name "error" "id" ≡ false
  pub error_is_not_result : same_name "error" "result" ≡ false
  pub code_is_not_message : same_name "code" "message" ≡ false
  pub message_is_not_code : same_name "message" "code" ≡ false
  pub id_is_not_result : same_name "id" "result" ≡ false
  pub id_is_not_error : same_name "id" "error" ≡ false
  pub get_empty : (k : String) → j.get_object_item j.create_object k ≡ none
  pub get_added :
      (o v : j.Node) (k : String)
      → j.get_object_item o k ≡ none
      → j.get_object_item (j.add_item_to_object o k (some v)) k ≡ some v
  pub get_other :
      (o : j.Node) (v : Option j.Node) (k k' : String)
      → same_name k k' ≡ false
      → j.get_object_item (j.add_item_to_object o k v) k' ≡ j.get_object_item o k'
  pub add_null : (o : j.Node) (k : String) → j.add_item_to_object o k none ≡ o
