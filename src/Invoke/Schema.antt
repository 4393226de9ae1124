-- ===== src/Invoke/Schema.antt =====
-- `validate_request` and `require_request_turn` of src/desktop_invoke.rs. The methods are those of
-- connector.json, which the program embeds; the order of doubles is a parameter.
use baijimu_codex_connector.Http.{Http, HttpError, coded, new}
use baijimu_codex_connector.Json.{
  Number, Object, Value, array, as_array, as_object, as_str, bool, float, get, index, is_str, items,
  lookup, null, number, obj, object, string, unwrap_or,
}
use baijimu_codex_connector.Prelude.{
  Bool, List, String, [], any, ensure, err, false, find, max, min, none, ok, ok_or, some,
  str_append, true, ◌&&◌, ◌==◌, ◌>>=◌, ◌>>◌, ◌∷◌,
}

abbrev pub unsupported_parameter : String → HttpError
unsupported_parameter key =
    coded 400 (str_append "Connector 不支持参数 " key) "UNSUPPORTED_PARAMETER"
      (obj (("parameter", string key) ∷ []))

unfoldable pub matches_type : Value → String → Bool
matches_type (string s) kind = kind == "string"
matches_type (bool b) kind = kind == "boolean"
matches_type (number (float b)) kind = false
matches_type (number _) kind = kind == "integer"
matches_type null kind = kind == "null"
matches_type (object fs) kind = kind == "object"
matches_type (array vs) kind = kind == "array"

unfoldable pub valid_type : Value → Value → Bool
unfolding matches_type
valid_type (string kind) v = matches_type v kind
valid_type (array kinds) v =
    any (λ k. elim k [ string kind ↦ matches_type v kind | _ ↦ false ]) (items kinds)
valid_type null v = true
valid_type _ v = false

-- Equality of the values that an `enum` of the manifest lists: texts; other values are not compared.
module _ (eq : Value → Value → Bool) (le : Number → Number → Bool) where
  unfoldable pub valid_enum : Value → Value → Bool
  valid_enum (array choices) v = any (eq v) (items choices)
  valid_enum _ v = true

  unfoldable pub in_range : Value → Value → Value → Bool
  in_range (number min) (number max) (number n) = le min n && le n max
  in_range (number min) _ (number n) = le min n
  in_range _ (number max) (number n) = le n max
  in_range _ _ _ = true

  unfoldable pub check_field : Value → String → Value → Http (Unit {0})
  unfolding new coded get index
  check_field schema key v = elim (get key (index "properties" schema)) [
    | none ↦ err (unsupported_parameter key)
    | some f ↦
        ensure
          (valid_type (index "type" f) v
            && valid_enum (index "enum" f) v
            && in_range (index "minimum" f) (index "maximum" f) v)
          (new 400 (str_append "invalid " key))
  ]

  unfoldable pub check_fields : Value → Object → Http (Unit {0})
  check_fields schema [] = ok tt
  check_fields schema ((key, v) ∷ fs) = check_field schema key v >> check_fields schema fs

  unfoldable pub check_required : List Value → Object → Http (Unit {0})
  unfolding new lookup
  check_required [] fs = ok tt
  check_required (k ∷ ks) fs =
      let key = unwrap_or (as_str k) "" in
      elim (lookup key fs) [
        | none ↦ err (new 400 (str_append key " is required"))
        | some v ↦ check_required ks fs
      ]

  unfoldable pub check_schema : Value → Object → Http (Unit {0})
  unfolding get index
  check_schema schema fs = elim (get "oneOf" schema) [
    | some v ↦ ok tt
    | none ↦
        check_required (unwrap_or (as_array (index "required" schema)) []) fs
        >> check_fields schema fs
  ]

  unfoldable pub validate_request : List Value → String → Value → Http (Unit {0})
  unfolding new index is_str
  validate_request methods path body = elim (find (λ m. is_str (index "path" m) path) methods) [
    | none ↦ ok tt
    | some m ↦ do
      fs ← ok_or (as_object body) (new 400 "request must be an object")
      check_schema (index "input_schema" m) fs
  ]

unfoldable pub require_request_turn : Value → String → Http (Unit {0})
unfolding coded index is_str
require_request_turn request turn =
    ensure (is_str (index "turnId" (index "params" request)) turn)
      (coded 409 "待处理请求不属于指定轮次" "PENDING_REQUEST_TURN_MISMATCH" (obj []))
