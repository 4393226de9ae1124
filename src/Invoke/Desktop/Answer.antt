-- ===== src/Invoke/Desktop/Answer.antt =====
-- When an answer to a pending request leaves the connector.
use baijimu_codex_connector.Http.{new}
use baijimu_codex_connector.Invoke.Schema.{require_request_turn}
use baijimu_codex_connector.Invoke.Input.{required}
use baijimu_codex_connector.Json.{Value, as_array, as_str, index, is_str, unwrap_or, get}
use baijimu_codex_connector.Prelude.{
  >>=-eq-ok, Bool, List, String, find, ok, some, true, ◌≡◌, ensure-eq-ok, ok_or, ok_or-eq-ok, ap,
  ok-inj, refl, ◌∙◌,
}
use baijimu_codex_connector.Invoke.Desktop.{answer, answer_method, answer_value}

-- The answer is one that the desktop's own state calls for: the request is among those that the
-- desktop holds for the thread, it is of the turn that the client named, and it goes to the owner
-- that the state was read from.
pub record CalledFor (eq : Value → Value → Bool) (body request_id read : Value)
    (sent : String × Value × String) : Type 0 where
  pub requests : List Value
  pub request : Value
  pub turn : String
  pub held : as_array (index "requests" (index "thread" read)) ≡ some requests
  pub found : find (λ r. eq (index "id" r) request_id) requests ≡ some request
  pub named : required body "turnId" ≡ ok turn
  pub of_turn : is_str (index "turnId" (index "params" request)) turn ≡ true
  pub owner : required read "ownerClientId" ≡ ok sent.2
  pub key : String
  pub method : answer_method (unwrap_or (as_str (index "method" request)) "") ≡ some (sent.0, key)

-- An answer to a pending request is sent only where the state just read from the desktop holds the
-- request, the request is of the turn that the client named, its kind is one that the desktop takes
-- answers to, and it is sent by that kind's method to the owner that the state was read from.
pub answer-CalledFor :
    (eq : Value → Value → Bool) (body request_id read : Value) (sent : String × Value × String)
    → answer eq body request_id read ≡ ok sent
    → CalledFor eq body request_id read sent
unfolding answer require_request_turn
answer-CalledFor eq body request_id read sent h =
    let held_by = as_array (index "requests" (index "thread" read)) in
    let (requests, held, h1) = >>=-eq-ok (ok_or held_by (new 409 "no pending request")) _ h in
    let asked = find (λ r. eq (index "id" r) request_id) requests in
    let (request, found, h2) = >>=-eq-ok (ok_or asked (new 409 "request no longer pending")) _ h1 in
    let (turn, named, h3) = >>=-eq-ok (required body "turnId") _ h2 in
    let (_, of_turn, h4) = >>=-eq-ok (require_request_turn request turn) _ h3 in
    let (result, _, h5) = >>=-eq-ok (ok_or (get "result" body) (new 400 "result required")) _ h4 in
    let kind = answer_method (unwrap_or (as_str (index "method" request)) "") in
    let (target, known, h6) =
      >>=-eq-ok (ok_or kind (new 409 "unsupported desktop pending request type")) _ h5 in
    let (value, _, h7) = >>=-eq-ok (answer_value target.1 result) _ h6 in
    let (owner, whose, h8) = >>=-eq-ok (required read "ownerClientId") _ h7 in
    let known' = ok_or-eq-ok kind _ known in
    let same = ok-inj _ refl h8 in
    record {
      requests = requests;
      request = request;
      turn = turn;
      held = ok_or-eq-ok held_by _ held;
      found = ok_or-eq-ok asked _ found;
      named = named;
      of_turn = ensure-eq-ok _ _ of_turn;
      owner = whose ∙ ap (λ s. ok s.2) same;
      key = target.1;
      method = known' ∙ ap (λ s. some (s.0, target.1)) same;
    }
