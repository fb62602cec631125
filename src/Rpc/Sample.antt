-- ===== src/Rpc/Sample.antt =====
-- A small concrete JSON library for the tests, which meets the assumptions about cJSON. Its parser
-- reads `{c}` as the object whose method is named "m" if `c` is the byte m, and "n" otherwise.
use text.Mathlib.Text.{◌==◌ as str_eq}
use text.Mathlib.TextPositions.{eq_refl}
use lepd.Base.{
  ℕ, ◌≡◌, refl, false, Option, none, some, List, [], ◌∷◌, String, arith, if◌then◌else◌, ◌==◌,
  length,
}
use lepd.Base.Int.{ℤ}
use lepd.Rpc.Json.{CJson, Kind, json_string, json_number, json_object, ObjectLaws, EndsInside}

mutual
  pub data Doc : Type 0 where
    object : Members → Doc
    str : String → Doc
    number : ℤ → Doc

  pub data Members : Type 0 where
    end : Members
    member : String → Doc → Members → Members

abbrev lookup : String → Members → Option Doc
lookup k end = none
lookup k (member i d ms) = if str_eq i k then some d else lookup k ms

abbrev append : String → Doc → Members → Members
append k v end = member k v end
append k v (member i d ms) = member i d (append k v ms)

abbrev get : Doc → String → Option Doc
get (object ms) k = lookup k ms
get _ k = none

abbrev add : Doc → String → Option Doc → Doc
add d k none = d
add (object ms) k (some v) = object (append k v ms)
add _ k (some v) = object (member k v end)

abbrev kind_of : Doc → Kind
kind_of (object _) = json_object
kind_of (str _) = json_string
kind_of (number _) = json_number

abbrev text_of : Doc → String
text_of (str s) = s
text_of _ = ""

abbrev number_of : Doc → ℤ
number_of (number n) = n
number_of _ = ℤ.pos 0

abbrev print_of : Doc → List ℕ
print_of (object _) = b'{' ∷ b'}' ∷ []
print_of _ = b'0' ∷ []

abbrev pub request : String → Doc
request m = object (member "method" (str m) end)

abbrev parse : List ℕ → Option Doc × ℕ
parse (a ∷ c ∷ b ∷ rest) =
    if a == b'{'
    then (if b == b'}' then (some (request (if c == b'm' then "m" else "n")), 3) else (none, 2))
    else (none, 0)
parse s = (none, length s)

abbrev pub sample_json : CJson
sample_json = record {
  Node = Doc;
  kind = kind_of;
  value_string = text_of;
  value_int = number_of;
  get_object_item = get;
  create_object = object end;
  create_string = str;
  create_number = number;
  add_item_to_object = add;
  print = print_of;
  parse_stream = parse;
}

pub sample-EndsInside : EndsInside sample_json
sample-EndsInside [] = omega arith
sample-EndsInside (a ∷ []) = omega arith
sample-EndsInside (a ∷ c ∷ []) = omega arith
sample-EndsInside (a ∷ c ∷ b ∷ rest) = ground arith

lookup-append_self :
    (k : String) (v : Doc) (ms : Members) → lookup k ms ≡ none → lookup k (append k v ms) ≡ some v
lookup-append_self k v end h = rw (eq_refl k) refl
lookup-append_self k v (member i d ms) h = ground (arith, lookup-append_self k v ms)

lookup-append_other :
    (k k' : String) (v : Doc) (ms : Members)
    → str_eq k k' ≡ false
    → lookup k' (append k v ms) ≡ lookup k' ms
lookup-append_other k k' v end h = rw h refl
lookup-append_other k k' v (member i d ms) h = ground (arith, lookup-append_other k k' v ms h)

get-add_self : (o v : Doc) (k : String) → get o k ≡ none → get (add o k (some v)) k ≡ some v
get-add_self (object ms) v k h = lookup-append_self k v ms h
get-add_self (str s) v k h = rw (eq_refl k) refl
get-add_self (number n) v k h = rw (eq_refl k) refl

get-add_other :
    (o : Doc) (v : Option Doc) (k k' : String) → str_eq k k' ≡ false → get (add o k v) k' ≡ get o k'
get-add_other o none k k' h = refl
get-add_other (object ms) (some v) k k' h = lookup-append_other k k' v ms h
get-add_other (str s) (some v) k k' h = rw h refl
get-add_other (number n) (some v) k k' h = rw h refl

pub sample_laws : ObjectLaws sample_json
sample_laws = record {
  same_name = str_eq;
  result_is_not_id = refl;
  result_is_not_error = refl;
  error_is_not_id = refl;
  error_is_not_result = refl;
  code_is_not_message = refl;
  message_is_not_code = refl;
  id_is_not_result = refl;
  id_is_not_error = refl;
  get_empty = λ k. refl;
  get_added = get-add_self;
  get_other = get-add_other;
  add_null = λ o k. refl;
}
