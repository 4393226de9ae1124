-- ===== src/Invoke/Input.antt =====
-- `required` and `input` of src/desktop_invoke.rs.
pub mod Normal
use baijimu_codex_connector.History.Cursor.{digit}
use baijimu_codex_connector.Http.{Http, HttpError, new}
use baijimu_codex_connector.Json.{
  Object, Value, array, cons, fields, get, insert, is_str, items, list, lookup, null, obj, object,
  string, unwrap_or,
}
use baijimu_codex_connector.Prelude.{
  List, String, [], err, if◌then◌else◌, ltb, none, ok, some, str_append, suc, zero, ℕ, ◌%◌, ◌/◌,
  ◌>>=◌, ◌∷◌,
}

unfoldable pub required : Value → String → Http String
unfolding get new
required v key = elim (get key v) [
  | some (string (String.◌∷◌ c s)) ↦ ok (String.◌∷◌ c s)
  | _ ↦ err (new 400 (str_append key " is required"))
]

-- A number as `format!` writes it.
abbrev pub digits : ℕ → ℕ → String → String
digits zero n acc = acc
digits (suc fuel) n acc =
    let rest = digits fuel (n / 10) (String.◌∷◌ (digit (n % 10)) acc) in
    if ltb n 10 then String.◌∷◌ (digit n) acc else rest

abbrev pub decimal : ℕ → String
decimal n = digits (suc n) n ""

abbrev pub at_index : ℕ → String → HttpError
at_index n message = new 400 (str_append "input[" (str_append (decimal n) message))

-- A text item, with `text_elements` where it had none.
unfoldable pub text_item : ℕ → Object → Http Object
unfolding new lookup insert
text_item n item = elim (lookup "text" item) [
  | some (string s) ↦ elim (lookup "text_elements" item) [
    | none ↦ ok (insert "text_elements" (list []) item)
    | some (array vs) ↦ ok item
    | some _ ↦ err (at_index n "].text_elements must be an array")
  ]
  | _ ↦ err (at_index n "].text must be a string")
]

unfoldable pub input_item : ℕ → Value → Http Value
unfolding new lookup is_str
input_item n (object fs) =
    if is_str (unwrap_or (lookup "type" (fields fs)) null) "text"
    then (text_item n (fields fs) >>= λ item. ok (obj item))
    else ok (object fs)
input_item n _ = err (at_index n "] must be an object")

unfoldable pub input_items : ℕ → List Value → Http (List Value)
input_items n [] = ok []
input_items n (v ∷ vs) = do item ← input_item n v; rest ← input_items (suc n) vs; ok (item ∷ rest)

unfoldable pub input : Value → Http Value
unfolding get new
input v = elim (get "input" v) [
  | some (string (String.◌∷◌ c s)) ↦ ok (
      list (
        obj (
          ("type", string "text")
          ∷ ("text", string (String.◌∷◌ c s))
          ∷ ("text_elements", list [])
          ∷ [])
        ∷ []))
  | some (array (cons item rest)) ↦ input_items 0 (item ∷ items rest) >>= λ vs. ok (list vs)
  | _ ↦ err (new 400 "input is required")
]
