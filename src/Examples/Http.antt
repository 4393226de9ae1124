-- ===== src/Examples/Http.antt =====
-- The server of src/main.rs at concrete inputs.
use baijimu_codex_connector.Json.{Value, null, num}
use baijimu_codex_connector.Prelude.{
  List, Option, Result, String, [], arith, codes, drop, err, false, length, none, ok, refl, some,
  suc, take, true, ℕ, ◌*◌, ◌++◌, ◌+◌, ◌↔◌, ◌∷◌, ◌≡◌, ◌≤◌, ◌⊎◌,
}
use baijimu_codex_connector.Server.Authorization.{bearer, management_authorized}
use baijimu_codex_connector.Server.Authorization.Exact.{management_authorized_iff}
use baijimu_codex_connector.Server.Reading.{
  HttpRequest, parse_content_length, parse_request, read_http_request, find_headers_end,
}
use baijimu_codex_connector.Server.Reading.Fragments.{
  concat, pieces, read_http_request-pieces, read_http_request_bounded,
}
use baijimu_codex_connector.Server.Handling.{App, answer_of, handle_connection, is_public, route}
use baijimu_codex_connector.Server.Handling.Guard.{handle_connection_guard}
use baijimu_codex_connector.Text.{Chars, strip_prefix}

abbrev token : Chars
token = codes "secret"

management_authorized_iff_example :
    (management_authorized (some (codes "Bearer secret")) token ≡ true)
    ↔ (◌≡◌ {A = Option Chars} (some (codes "Bearer secret")) (some (bearer ++ token)))
unfolding strip_prefix
management_authorized_iff_example =
    management_authorized_iff (some (codes "Bearer secret")) token (omega arith) (omega arith)
      (omega arith)

-- Two line ends, written out: a text literal has none.
abbrev line : Chars → Chars
line s = s ++ (b'\r' ∷ b'\n' ∷ [])

abbrev sent_head : Chars
sent_head =
    line (codes "POST /invoke/status HTTP/1.1")
    ++ (line (codes "content-length: 2") ++ codes "X-Baijimu-Workspace-Id: 7")

abbrev sent_pieces : List Chars
sent_pieces = (sent_head ++ (b'\r' ∷ [])) ∷ (b'\n' ∷ b'\r' ∷ b'\n' ∷ codes "{") ∷ codes "}" ∷ []

abbrev received : HttpRequest
received = record {
  method = codes "POST";
  path = codes "/invoke/status";
  authorization = none;
  workspace_id = some 7;
  body = codes "{}";
}

received_lem : read_http_request (pieces sent_pieces) ≡ ok received
unfolding read_http_request
received_lem = refl

read_http_request-pieces_example :
    read_http_request (pieces sent_pieces)
    ≡ parse_request
        (take (length sent_head) (concat sent_pieces))
        (drop (length sent_head + 4) (concat sent_pieces))
unfolding parse_content_length find_headers_end
read_http_request-pieces_example =
    read_http_request-pieces (length sent_head) sent_pieces (omega arith) refl (omega arith) refl

read_http_request_bounded_example : length received.body ≤ 8 * 1024 * 1024
read_http_request_bounded_example =
    read_http_request_bounded (pieces sent_pieces) received received_lem

-- A state that counts the calls.
abbrev counting : App ℕ
counting = record {
  token = token;
  status = λ n. (num n, suc n);
  invoke = λ path body workspace n. (ok null, suc n);
  checkout = λ body n. (ok null, suc n);
}

abbrev nothing_parsed : Chars → Result String Value
nothing_parsed s = err "not JSON"

handle_connection_guard_example :
    ((handle_connection counting nothing_parsed (λ s. "") null (pieces sent_pieces) 5).1 ≡ 5)
    ⊎ ((r : HttpRequest) × (read_http_request (pieces sent_pieces) ≡ ok r)
        × (is_public r ≡ false)
        × (management_authorized r.authorization token ≡ true)
        × (handle_connection counting nothing_parsed (λ s. "") null (pieces sent_pieces) 5 ≡ (
          answer_of (route counting nothing_parsed (λ s. "") null r 5).0,
          (route counting nothing_parsed (λ s. "") null r 5).1,
        )))
handle_connection_guard_example =
    handle_connection_guard counting nothing_parsed (λ s. "") null (pieces sent_pieces) 5
