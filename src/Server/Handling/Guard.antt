-- ===== src/Server/Handling/Guard.antt =====
-- Who may reach the desktop through a connection.
use baijimu_codex_connector.Text.{Chars}
use baijimu_codex_connector.Server.Reading.{HttpRequest, Reads, read_http_request}
use baijimu_codex_connector.Server.Authorization.{management_authorized}
use baijimu_codex_connector.Json.{Value}
use baijimu_codex_connector.Prelude.{
  Bool-cases, Result, Result-cases, String, false, inl, inr, ok, true, ◌≡◌, ◌⊎◌, ap, err, ◌∙◌,
}
use baijimu_codex_connector.Server.Handling.{
  App, handle_connection, handle_request, is_public, route, answer_of,
}

module _ {S : Type 0} (app : App S) (parse : Chars → Result String Value) (show : Chars → String)
    (health : Value) (r : HttpRequest) (s : S) where
  open_request : is_public r ≡ true → (handle_request app parse show health r s).1 ≡ s
  unfolding handle_request
  open_request h = rw h

  refused_request :
      is_public r ≡ false
      → management_authorized r.authorization app.token ≡ false
      → (handle_request app parse show health r s).1 ≡ s
  unfolding handle_request
  refused_request h k = rw h (rw k)

  routed_request :
      is_public r ≡ false
      → management_authorized r.authorization app.token ≡ true
      → handle_request app parse show health r s
        ≡ (answer_of (route app parse show health r s).0, (route app parse show health r s).1)
  unfolding handle_request
  routed_request h k = rw h (rw k)

  arrived_request :
      (reads : Reads)
      → read_http_request reads ≡ ok r
      → handle_connection app parse show health reads s ≡ handle_request app parse show health r s
  unfolding handle_connection
  arrived_request reads h = rw (h, handle_connection)

broken_request :
    {S : Type 0} (app : App S) (parse : Chars → Result String Value) (show : Chars → String)
    (health : Value) (reads : Reads) (s : S) (e : String)
    → read_http_request reads ≡ err e
    → (handle_connection app parse show health reads s).1 ≡ s
unfolding handle_connection
broken_request app parse show health reads s e h = rw (h, handle_connection)

-- A connection that does anything to the state is an authorised request which is not one of the
-- public ones, and what it does is what its route does; the answer is then the route's.
pub handle_connection_guard :
    {S : Type 0} (app : App S) (parse : Chars → Result String Value) (show : Chars → String)
    (health : Value) (reads : Reads) (s : S)
    → ((handle_connection app parse show health reads s).1 ≡ s)
      ⊎ ((r : HttpRequest) × (read_http_request reads ≡ ok r)
          × (is_public r ≡ false)
          × (management_authorized r.authorization app.token ≡ true)
          × (handle_connection app parse show health reads s ≡ (
            answer_of (route app parse show health r s).0,
            (route app parse show health r s).1,
          )))
handle_connection_guard app parse show health reads s =
    elim (Result-cases (read_http_request reads)) [
      | inr (e, gone) ↦ inl (broken_request app parse show health reads s e gone)
      | inl (r, arrived) ↦
          let there = arrived_request app parse show health r s reads arrived in
          elim (Bool-cases (is_public r)) [
            | inl public ↦ inl (ap (λ p. p.1) there ∙ open_request app parse show health r s public)
            | inr private ↦ elim (Bool-cases (management_authorized r.authorization app.token)) [
              | inl good ↦ inr (
                r,
                arrived,
                private,
                good,
                there ∙ routed_request app parse show health r s private good,
              )
              | inr bad ↦
                  inl (ap (λ p. p.1) there ∙ refused_request app parse show health r s private bad)
            ]
          ]
    ]
