-- ===== src/Process.antt =====
-- What src/process_runtime.rs reads of a running connector: the health response, the process id in it,
-- and the wait for one. The sockets, the clock and the parsing of JSON are parameters.
pub mod Waiting
pub mod Host
pub mod Token
pub mod Connect
pub mod Daemon
use baijimu_codex_connector.Text.Utf8.{as_bytes, from_utf8_lossy}
use baijimu_codex_connector.Text.{starts_with, Chars, chars_eq, trim}
use baijimu_codex_connector.Json.{Value, as_u64, get, index, is_str, is_true}
use baijimu_codex_connector.Prelude.{
  [], ◌∷◌, ◌>>=◌, ◌>>◌, Bool, List, Option, Result, String, codes, drop, ensure, err, false,
  if◌then◌else◌, leb, length, ltb, nat_eq, none, ok, ok_or, some, take, true, ℕ, ◌&&◌, ◌*◌, ◌++◌,
  ◌+◌, ◌^◌, ◌||◌,
}

abbrev pub max_response : ℕ
max_response = 64 * 1024

abbrev pub health_name : String
health_name = "@baijimu/connector-codex"

-- `pointer("/status/connector/key")`: keys that are no array index.
unfoldable pub connector_field : String → Value → Option Value
unfolding get
connector_field key health = elim (get "status" health) [
  | none ↦ none
  | some status ↦ elim (get "connector" status) [ none ↦ none | some c ↦ get key c ]
]

abbrev pub u64_of : Option Value → Option ℕ
u64_of none = none
u64_of (some v) = as_u64 v

abbrev pub says : Option Value → String → Bool
says none t = false
says (some v) t = is_str v t

unfoldable pub verified_connector_pid : Value → Result String ℕ
unfolding connector_field is_str
verified_connector_pid health = do
  ensure (says (connector_field "name" health) health_name)
      "health endpoint does not belong to the Codex connector"
  pid ←
      ok_or (u64_of (connector_field "pid" health))
        "connector health response does not contain a valid pid"
  ensure (ltb pid (2 ^ 32)) "connector health response does not contain a valid pid"
  ok pid

-- The request, with the token of the file where it is long enough.
abbrev pub long_token : Chars → Bool
long_token token = leb 32 (length (as_bytes token))

unfoldable pub authorization : Option Chars → Chars
unfolding trim as_bytes
authorization none = []
authorization (some file) =
    if long_token (trim file)
    then codes "Authorization: Bearer " ++ (trim file ++ (b'\r' ∷ b'\n' ∷ []))
    else []

-- `text.split("\r\n\r\n").nth(1)`: what stands between the first blank line and the next.
unfoldable pub before_blank : Chars → Chars
before_blank [] = []
before_blank (c ∷ cs) =
    let rest = before_blank cs in
    if chars_eq (take 4 (c ∷ cs)) (b'\r' ∷ b'\n' ∷ b'\r' ∷ b'\n' ∷ []) then [] else c ∷ rest

unfoldable pub after_blank : Chars → Option Chars
after_blank [] = none
after_blank (c ∷ cs) =
    let rest = after_blank cs in
    if chars_eq (take 4 (c ∷ cs)) (b'\r' ∷ b'\n' ∷ b'\r' ∷ b'\n' ∷ [])
    then some (drop 3 cs)
    else rest

unfoldable pub body_of : Chars → Chars
unfolding before_blank after_blank chars_eq
body_of text = elim (after_blank text) [ none ↦ [] | some rest ↦ before_blank rest ]

module _ (parse : Chars → Result String Value) (show : Chars → String) where
  -- The part of `connector_health` after the response has been read.
  unfoldable pub read_health : List ℕ → Result String Value
  unfolding starts_with from_utf8_lossy body_of
  read_health response =
      let text = from_utf8_lossy response in
      if ltb max_response (length response)
      then err "connector health response exceeds 65536 bytes"
      else if starts_with (codes "HTTP/1.1 200") text || starts_with (codes "HTTP/1.0 200") text
      then parse (body_of text)
      else err (show text)

-- One round of the wait: the clock at its start and what `connector_health` gives.
pub record Round : Type 0 where
  pub now : ℕ
  pub health : Result String Value

abbrev pub pid_matches : Option ℕ → Value → Bool
pid_matches none body = true
pid_matches (some pid) body = elim (u64_of (connector_field "pid" body)) [
  | none ↦ false
  | some found ↦ nat_eq found pid
]

unfoldable pub is_ready : Option ℕ → Value → Bool
unfolding index connector_field
is_ready expected body = is_true (index "ok" body) && pid_matches expected body

-- The loop of `wait_for_connector_health`; the rounds end with the first past the deadline.
unfoldable pub wait_rounds : ℕ → Option ℕ → String → List Round → Result String Value
unfolding is_ready
wait_rounds deadline expected latest [] = err latest
wait_rounds deadline expected latest (r ∷ rs) =
    let again = wait_rounds deadline expected latest rs in
    if ltb r.now deadline
    then elim r.health [
      | ok body ↦ if is_ready expected body then ok body else again
      | err e ↦ wait_rounds deadline expected e rs
    ]
    else err latest

unfoldable pub wait_for_connector_health : ℕ → Option ℕ → List Round → Result String Value
unfolding wait_rounds
wait_for_connector_health started expected rounds =
    wait_rounds (started + 5000) expected "not started" rounds
