-- ===== src/Examples/Requests.antt =====
-- The answers to pending requests of src/desktop_invoke.rs at a concrete input.
use baijimu_codex_connector.Invoke.Input.{input_item, text_item, input, input_items, required}
use baijimu_codex_connector.Invoke.Input.Normal.{NormalContent, input-Normal}
use baijimu_codex_connector.Json.{get, lookup, insert, is_str, Value, index, list, obj, string}
use baijimu_codex_connector.Invoke.Schema.{require_request_turn}
use baijimu_codex_connector.Prelude.{Bool, String, [], false, refl, ◌∷◌, ok, ◌≡◌}
use baijimu_codex_connector.Invoke.Desktop.{answer, answer_method, answer_value}
use baijimu_codex_connector.Invoke.Desktop.Answer.{CalledFor, answer-CalledFor}

-- Equality of the identifiers that the example uses.
abbrev same_text : Value → Value → Bool
same_text (string a) v = is_str v a
same_text _ v = false

abbrev pending_read : Value
pending_read = obj (
    (
      "thread",
      obj (
          (
            "requests",
            list (
                obj (
                  ("id", string "r1")
                  ∷ ("method", string "item/fileChange/requestApproval")
                  ∷ ("params", obj (("turnId", string "turn-a") ∷ []))
                  ∷ [])
                ∷ []),
          )
          ∷ []),
    )
    ∷ ("ownerClientId", string "owner-a")
    ∷ [])

abbrev approval : Value
approval =
    obj (("turnId", string "turn-a") ∷ ("result", obj (("decision", string "accept") ∷ [])) ∷ [])

abbrev decided : String × Value × String
decided = (
  "thread-follower-file-approval-decision",
  obj (("requestId", string "r1") ∷ ("decision", string "accept") ∷ []),
  "owner-a",
)

answer-CalledFor_example : CalledFor same_text approval (string "r1") pending_read decided
unfolding answer answer_value answer_method required require_request_turn index get is_str lookup
answer-CalledFor_example =
    answer-CalledFor same_text approval (string "r1") pending_read decided refl

abbrev greeting : Value
greeting =
    obj (("input", list (obj (("type", string "text") ∷ ("text", string "hi") ∷ []) ∷ [])) ∷ [])

abbrev greeting_content : Value
greeting_content =
    list
      (obj (("type", string "text") ∷ ("text", string "hi") ∷ ("text_elements", list []) ∷ []) ∷ [])

greeting_lem : input greeting ≡ ok greeting_content
unfolding input get lookup input_items insert is_str input_item text_item
greeting_lem = refl

input-Normal_example :
    NormalContent greeting_content
    × (input (obj (("input", greeting_content) ∷ [])) ≡ ok greeting_content)
input-Normal_example = input-Normal greeting greeting_content greeting_lem
