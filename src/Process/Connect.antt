-- ===== src/Process/Connect.antt =====
-- `connector_health` of src/process_runtime.rs over an interface of sockets, and the wait for a healthy
-- connector, which asks for it again and again.
pub mod Ends
pub mod Ready
use baijimu_codex_connector.Act.{Act, lift, ◌>>=◌, ◌>>◌}
use baijimu_codex_connector.Cli.Options.{ServerOptions}
use baijimu_codex_connector.Json.{Value}
use baijimu_codex_connector.Process.{authorization, is_ready, max_response, read_health}
use baijimu_codex_connector.Text.{Chars}
use baijimu_codex_connector.Prelude.{
  ℕ, zero, suc, ◌+◌, List, Option, none, some, Result, ok, err, String, codes, [], ◌∷◌, ◌++◌, ltb,
  if◌then◌else◌,
}

-- `A` is a socket address and `C` a connection. `read_up_to` reads to the end of the stream, but no more
-- bytes than it is told.
pub record Network (S A C : Type 0) : Type 0 where
  pub resolve : Chars → ℕ → Act S String (List A)
  pub connect : A → Act S String C
  pub set_timeouts : C → Act S String (Unit {0})
  pub write_all : C → Chars → Act S String (Unit {0})
  pub read_up_to : ℕ → C → Act S String (List ℕ)
  pub token_file : S → Option Chars
  pub now : S → ℕ
  pub sleep : ℕ → S → S
  pub parse : Chars → Result String Value
  pub show : Chars → String

abbrev pub line_end : Chars
line_end = b'\r' ∷ b'\n' ∷ []

unfoldable pub health_request : Option Chars → Chars
unfolding authorization
health_request file =
    codes "GET /healthz HTTP/1.1"
    ++ (line_end
        ++ (codes "Host: 127.0.0.1"
            ++ (line_end
                ++ (authorization file ++ (codes "Connection: close" ++ (line_end ++ line_end))))))

abbrev pub no_address : String
no_address = "connector health address resolved to no socket addresses"

module _ {S A C : Type 0} (net : Network S A C) where
  -- The first address that takes the connection; if none does, the error of the last.
  unfoldable pub connect_first : String → List A → Act S String C
  connect_first latest [] s = (err latest, s)
  connect_first latest (a ∷ more) s =
      let (taken, s') = net.connect a s in
      elim taken [ ok c ↦ (ok c, s') | err e ↦ connect_first e more s' ]

  unfoldable pub connector_health : ServerOptions → Act S String Value
  unfolding connect_first health_request read_health
  connector_health options = do
    addresses ← net.resolve options.host options.port
    stream ← connect_first no_address addresses
    net.set_timeouts stream
    file ← λ s. (ok (net.token_file s), s)
    net.write_all stream (health_request file)
    response ← net.read_up_to (max_response + 1) stream
    lift (read_health net.parse net.show response)

  -- What a round of the wait makes of an answer: the body that is waited for, or the last error.
  abbrev pub judged : Option ℕ → String → Result String Value → Result String Value
  judged expected latest (ok body) = if is_ready expected body then ok body else err latest
  judged expected latest (err e) = err e

  -- The loop of `wait_for_connector_health`, by rounds; `none` stands for rounds that run out.
  unfoldable pub wait_loop :
      ℕ → ServerOptions → ℕ → Option ℕ → String → S → Option (Result String Value) × S
  unfolding is_ready
  wait_loop zero options deadline expected latest s = (none, s)
  wait_loop (suc rounds) options deadline expected latest s =
      if ltb (net.now s) deadline
      then (let (answer, s') = connector_health options s in
          elim (judged expected latest answer) [
            | ok body ↦ (some (ok body), s')
            | err e ↦ wait_loop rounds options deadline expected e (net.sleep 100 s')
          ])
      else (some (err latest), s)

  -- At most 51 rounds are asked for, of 100 milliseconds each.
  unfoldable pub wait_for_health : ServerOptions → Option ℕ → S → Option (Result String Value) × S
  unfolding wait_loop
  wait_for_health options expected s =
      wait_loop 51 options (net.now s + 5000) expected "not started" s
