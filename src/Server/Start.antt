-- ===== src/Server/Start.antt =====
-- `start_server` and `configured_port` of src/main.rs over interfaces of the machine and of the sockets.
use baijimu_codex_connector.Prelude.{
  ◌^◌, Bool, List, Option, [], codes, ensure, false, none, ok, some, ℕ, ◌%◌, ◌∷◌, Result, String,
}
pub mod Serving
use baijimu_codex_connector.Text.{Chars}
use baijimu_codex_connector.Json.{Value, as_u64, index}
use baijimu_codex_connector.Act.{Act, lift, ◌>>=◌, ◌>>◌}
use baijimu_codex_connector.Cli.Options.{ServerOptions}
use baijimu_codex_connector.Process.Host.{Host, pid_path}
use baijimu_codex_connector.Process.Token.{load_or_create_management_token}
use baijimu_codex_connector.Process.Daemon.{pid_line}
use baijimu_codex_connector.Server.Reading.{Reads}
use baijimu_codex_connector.Server.Handling.{App, handle_connection}

-- `I` is an IP address and `L` a listener. `incoming` is what comes in while the server runs: for each
-- connection that is taken what its reads give, and `none` for one that fails. Each is served in a
-- thread of its own; here they are served one after the other.
pub record Sockets (S I L : Type 0) : Type 0 where
  pub parse_ip : Chars → Option I
  pub is_loopback : I → Bool
  pub bind : Chars → ℕ → Act S Chars L
  pub incoming : L → S → List (Option Reads)

abbrev pub not_loopback : Chars
not_loopback = codes "Connector HTTP 必须绑定本机 loopback 地址"

-- `configured_port`: the default of the manifest's port, cut to 16 bits; `none` where the code panics.
unfoldable pub configured_port : Value → Option ℕ
unfolding index
configured_port manifest =
    elim (as_u64
      (index "default" (index "port" (index "properties" (index "configSchema" manifest))))) [
        | none ↦ none
        | some port ↦ some (port % 2 ^ 16)
      ]

module _ {S : Type 0} (app : App S) (parse : Chars → Result String Value) (show : Chars → String)
    (health : Value) where
  unfoldable pub serve : List (Option Reads) → S → S
  unfolding handle_connection
  serve [] s = s
  serve (none ∷ more) s = serve more s
  serve (some reads ∷ more) s = serve more (handle_connection app parse show health reads s).1

module _ {S I L : Type 0} (sockets : Sockets S I L) where
  abbrev pub loopback : Chars → Bool
  loopback address = elim (sockets.parse_ip address) [
    | none ↦ false
    | some ip ↦ sockets.is_loopback ip
  ]

-- `AppState`: the client for the options, and the token.
abbrev pub app_state : {S : Type 0} → (ServerOptions → App S) → ServerOptions → Chars → App S
app_state client options token = record (client options) { token = token }

module _ {S I L : Type 0} (host : Host S) (sockets : Sockets S I L) (client : ServerOptions → App S)
    (parse : Chars → Result String Value) (show : Chars → String) (health : Value) where
  unfoldable pub start_server : ServerOptions → Act S Chars (Unit {0})
  unfolding load_or_create_management_token pid_path serve
  start_server options = do
    lift (ensure (loopback sockets options.host) not_loopback)
    listener ← sockets.bind options.host options.port
    management_token ← load_or_create_management_token host
    host.write (pid_path host) (pid_line host.process_id)
    λ s. (
      ok tt,
      serve (app_state client options management_token) parse show health
          (sockets.incoming listener s) s,
    )
