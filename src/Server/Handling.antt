-- ===== src/Server/Handling.antt =====
-- `handle_connection` of src/main.rs over an interface of what it calls: the requests to the desktop,
-- the client's status, and the checkout of a project under its lock.
pub mod Guard
use baijimu_codex_connector.Text.{Chars, chars_eq, split_once, strip_prefix}
use baijimu_codex_connector.Server.Reading.{HttpRequest, Reads, read_http_request}
use baijimu_codex_connector.Server.Authorization.{management_authorized}
use baijimu_codex_connector.Http.{Http, HttpError, coded, new}
use baijimu_codex_connector.Json.{Value, bool, null, obj, string, unwrap_or}
use baijimu_codex_connector.Prelude.{
  Bool, Option, Result, String, [], codes, err, false, if◌then◌else◌, none, ok, some, true, ℕ, ◌&&◌,
  ◌||◌, ◌∷◌,
}

pub record App (S : Type 0) : Type 0 where
  pub token : Chars
  pub status : S → Value × S
  pub invoke : Chars → Chars → ℕ → S → Http Value × S
  pub checkout : Value → S → Http Value × S

-- A status and the payload.
abbrev pub Answer : Type 0
Answer = ℕ × Value

abbrev pub failed : ℕ → Value → Value → Value → Answer
failed status c message payload = (
  status,
  obj (
      ("ok", bool false)
      ∷ ("error", obj (("code", c) ∷ ("message", message) ∷ ("data", payload) ∷ []))
      ∷ []),
)

abbrev pub refused : ℕ → String → String → Answer
refused status c message = (
  status,
  obj (
      ("ok", bool false)
      ∷ ("error", obj (("code", string c) ∷ ("message", string message) ∷ []))
      ∷ []),
)

abbrev pub unauthorized : Answer
unauthorized = refused 401 "UNAUTHORIZED" "local app authorization required"

-- The `match response`.
unfoldable pub answer_of : Http Value → Answer
answer_of (ok v) = (200, obj (("ok", bool true) ∷ ("data", v) ∷ []))
answer_of (err e) =
    failed e.status (unwrap_or e.error_code null) (string e.message) (unwrap_or e.error_data null)

-- The path before its query.
unfoldable pub path_of : HttpRequest → Chars
unfolding split_once
path_of r = elim (split_once b'?' r.path) [ none ↦ r.path | some (before, after) ↦ before ]

unfoldable pub is_public : HttpRequest → Bool
unfolding chars_eq path_of
is_public r =
    chars_eq r.method (codes "GET")
    && (chars_eq (path_of r) (codes "/healthz") || chars_eq (path_of r) (codes "/readyz"))

abbrev pub is_some {ℓ} : {A : Type ℓ} → Option A → Bool
is_some none = false
is_some (some _) = true

unfoldable pub is_invoke : HttpRequest → Bool
unfolding chars_eq strip_prefix path_of
is_invoke r =
    chars_eq r.method (codes "POST") && is_some (strip_prefix (codes "/invoke/") (path_of r))

abbrev pub no_workspace : HttpError
no_workspace = coded 400 "本地应用调用缺少可信工作区上下文" "WORKSPACE_CONTEXT_REQUIRED" (obj [])

abbrev pub is_route : HttpRequest → String → String → Bool
is_route r method path = chars_eq r.method (codes method) && chars_eq (path_of r) (codes path)

module _ {S : Type 0} (app : App S) (parse : Chars → Result String Value) (show : Chars → String)
    (health : Value) where
  unfoldable pub management_body : Chars → Http Value
  unfolding new
  management_body [] = ok (obj [])
  management_body (b ∷ bs) = elim (parse (b ∷ bs)) [ ok v ↦ ok v | err e ↦ err (new 400 e) ]

  unfoldable pub manage : HttpRequest → Value → S → Http Value × S
  unfolding coded chars_eq path_of
  manage r body s =
      if is_route r "GET" "/management/v1/setup/state"
        || is_route r "POST" "/management/v1/setup/ensure-ready"
      then (let (v, s') = app.status s in (ok v, s'))
      else if is_route r "POST" "/management/v1/projects/checkout"
      then app.checkout body s
      else (
        err (
            coded 404 "接口不受此 Connector 支持" "METHOD_NOT_SUPPORTED"
              (obj (("path", string (show (path_of r))) ∷ []))),
        s,
      )

  -- The closure that makes the response of an authorised request.
  unfoldable pub route : HttpRequest → S → Http Value × S
  unfolding is_invoke management_body manage
  route r s =
      if is_invoke r
      then elim r.workspace_id [
        | none ↦ (err no_workspace, s)
        | some workspace ↦ app.invoke (path_of r) r.body workspace s
      ]
      else elim (management_body r.body) [ err e ↦ (err e, s) | ok body ↦ manage r body s ]

  unfoldable pub handle_request : HttpRequest → S → Answer × S
  unfolding is_public management_authorized answer_of route
  handle_request r s =
      if is_public r
      then ((200, obj (("ok", bool true) ∷ ("status", health) ∷ [])), s)
      else if management_authorized r.authorization app.token
      then (answer_of (route r s).0, (route r s).1)
      else (unauthorized, s)

  unfoldable pub handle_connection : Reads → S → Answer × S
  unfolding handle_request
  handle_connection reads s = elim (read_http_request reads) [
    | err e ↦ (refused 400 "INVALID_HTTP_REQUEST" e, s)
    | ok r ↦ handle_request r s
  ]
