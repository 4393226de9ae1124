-- ===== src/Invoke/Desktop.antt =====
-- What the requests of src/desktop_invoke.rs call, as an interface: the desktop client, the two read-only
-- indexes, the preparation of a project and the random identifier of a message. With it the values that
-- the requests send: the answer to a pending request and the start of a turn.
pub mod Answer
use baijimu_codex_connector.Invoke.Schema.{require_request_turn}
use baijimu_codex_connector.Invoke.Input.{required}
use baijimu_codex_connector.Http.{Http, new}
use baijimu_codex_connector.Json.{
  Value, as_array, as_str, get, index, number, obj, string, unwrap_or, Object, bool,
}
use baijimu_codex_connector.Prelude.{
  Bool, Option, String, [], err, find, if◌then◌else◌, none, ok, ok_or, some, ℕ, ◌==◌, ◌>>=◌, ◌∷◌,
  true, ◌++◌,
}

pub record Desktop (S : Type 0) : Type 0 where
  pub status : S → Value × S
  pub ensure_connected : S → Http (Unit {0}) × S
  pub read_metadata : String → S → Http Value × S
  pub read : String → S → Http Value × S
  pub follower : String → String → ℕ → Value → S → Http Value × S
  pub follower_for_owner : String → String → ℕ → Value → String → S → Http Value × S
  pub recent_events : Value → S → Value
  pub threads : Value → S → Http Value × S
  pub projects : Value → S → Http Value × S
  pub history : String → Value → S → Http Value × S
  pub prepare : ℕ → Value → S → Http Value × S
  pub random_event_id : S → String × S

-- `?` between two calls that may change the state.
abbrev pub and_then : {S A B : Type 0} → (S → Http A × S) → (A → S → Http B × S) → S → Http B × S
and_then m f s = let (r, s') = m s in elim r [ ok a ↦ f a s' | err e ↦ (err e, s') ]

abbrev pub lift : {S A : Type 0} → Http A → S → Http A × S
lift r s = (r, s)

abbrev pub wrap : Value → Http Value
wrap v = ok (obj (("result", v) ∷ []))

-- The method and the key of the answer to a kind of pending request.
unfoldable pub answer_method : String → Option (String × String)
answer_method kind =
    if kind == "item/commandExecution/requestApproval"
    then some ("thread-follower-command-approval-decision", "decision")
    else if kind == "item/fileChange/requestApproval"
    then some ("thread-follower-file-approval-decision", "decision")
    else if kind == "item/tool/requestUserInput"
    then some ("thread-follower-submit-user-input", "response")
    else if kind == "item/permissions/requestApproval"
    then some ("thread-follower-permissions-request-approval-response", "response")
    else if kind == "mcpServer/elicitation/request"
    then some ("thread-follower-submit-mcp-server-elicitation-response", "response")
    else none

abbrev pub request_id_of : Value → Option Value
request_id_of body = elim (get "requestId" body) [
  | some (string s) ↦ some (string s)
  | some (number n) ↦ some (number n)
  | _ ↦ none
]

unfoldable pub answer_value : String → Value → Http Value
unfolding get new
answer_value key result =
    if key == "decision"
    then ok_or (get "decision" result) (new 400 "decision required")
    else ok result

-- What is sent for an answer: the method, its parameters and the owner it is for.
unfoldable pub answer :
    (Value → Value → Bool) → Value → Value → Value → Http (String × Value × String)
unfolding new index get
answer eq body request_id read = do
  requests ←
      ok_or (as_array (index "requests" (index "thread" read))) (new 409 "no pending request")
  request ←
      ok_or (find (λ r. eq (index "id" r) request_id) requests)
        (new 409 "request no longer pending")
  turn ← required body "turnId"
  ensure_turn ← require_request_turn request turn
  result ← ok_or (get "result" body) (new 400 "result required")
  target ←
      ok_or (answer_method (unwrap_or (as_str (index "method" request)) ""))
        (new 409 "unsupported desktop pending request type")
  value ← answer_value target.1 result
  owner ← required read "ownerClientId"
  ok (target.0, obj (("requestId", request_id) ∷ (target.1, value) ∷ []), owner)

abbrev pub optional : String → Value → Object
optional k body = elim (get k body) [ none ↦ [] | some v ↦ (k, v) ∷ [] ]

-- The request of `startTurn`; the connector's own keys, in their order.
unfoldable pub start_request : String → Value → Value → Value
start_request id content body = obj (
    (
      "turnStart",
      obj (
          (
            "request",
            obj (
                ("threadId", string id) ∷ ("input", content) ∷ optional "model" body
                ++ optional "cwd" body),
          )
          ∷ ("context", obj (("inheritThreadSettings", bool true) ∷ []))
          ∷ []),
    )
    ∷ [])
