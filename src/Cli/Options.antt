-- ===== src/Cli/Options.antt =====
-- `server_options` of src/cli.rs over the environment, and the arguments that `daemonize` of
-- src/process_runtime.rs gives to the process it starts.
use baijimu_codex_connector.Text.Numbers.{parse_u16, parse_u64, parse_unsigned}
use baijimu_codex_connector.Text.{Chars, chars_eq}
use baijimu_codex_connector.Json.{unwrap_or}
use baijimu_codex_connector.Prelude.{
  [], ◌∷◌, ◌>>=◌, ◌>>◌, Bool, List, Option, Result, String, codes, ensure, err, false,
  if◌then◌else◌, ltb, none, not, ok, some, true, ℕ, ◌||◌,
}
use baijimu_codex_connector.Invoke.Input.{decimal}
use baijimu_codex_connector.Cli.{named, ParsedArgs, is_set}

pub record ServerOptions : Type 0 where
  pub host : Chars
  pub port : ℕ
  pub listen : Chars
  pub extra_args : List Chars
  pub request_timeout_ms : ℕ
  pub daemon : Bool

abbrev pub default_listen : Chars
default_listen = codes "stdio://"

abbrev pub default_request_timeout_ms : ℕ
default_request_timeout_ms = 60000

abbrev pub or_else {ℓ} : {A : Type ℓ} → Option A → Option A → Option A
or_else none b = b
or_else (some a) b = some a

abbrev pub parsed_u64 : Option Chars → Option ℕ
parsed_u64 none = none
parsed_u64 (some s) = parse_u64 s

abbrev pub other_than_default : Option Chars → Bool
other_than_default none = false
other_than_default (some v) = not (chars_eq v default_listen)

abbrev pub is_empty {ℓ} : {A : Type ℓ} → List A → Bool
is_empty [] = true
is_empty (x ∷ xs) = false

-- The port that is given, or the configured one.
unfoldable pub port_or : ℕ → Option Chars → Result Chars ℕ
unfolding parse_unsigned
port_or configured none = ok configured
port_or configured (some v) = elim (parse_u16 v) [
  | none ↦ err (codes "port must be an integer in 1..65535")
  | some p ↦ if ltb 0 p then ok p else err (codes "port must be an integer in 1..65535")
]

-- The arguments of the process that `daemonize` starts.
unfoldable pub daemon_args : (List Chars → Chars) → ServerOptions → List Chars
daemon_args print options =
    codes "start"
    ∷ codes "--host"
    ∷ options.host
    ∷ codes "--port"
    ∷ codes (decimal options.port)
    ∷ codes "--listen"
    ∷ options.listen
    ∷ (if is_empty options.extra_args
        then []
        else codes "--codex-args" ∷ print options.extra_args ∷ [])

module _ (var : String → Option Chars) (parse_list : Chars → Result Chars (List Chars))
    (configured_port : ℕ) where
  unfoldable pub extra_args_of : ParsedArgs → Result Chars (List Chars)
  unfolding named
  extra_args_of parsed =
      elim (or_else (named (codes "codexArgs") parsed.values) (var "CODEX_CONNECTOR_CODEX_ARGS")) [
        | none ↦ ok []
        | some raw ↦ parse_list raw
      ]

  -- Neither another transport nor arguments for Codex are accepted.
  unfoldable pub acceptable : ParsedArgs → List Chars → Bool
  unfolding named chars_eq
  acceptable parsed extra_args = not (
      other_than_default (named (codes "listen") parsed.values)
      || other_than_default (var "CODEX_CONNECTOR_LISTEN")
      || not (is_empty extra_args))

  abbrev pub given_port : ParsedArgs → Option Chars
  given_port parsed = or_else (named (codes "port") parsed.values) (var "CODEX_CONNECTOR_PORT")

  unfoldable pub options_of : ParsedArgs → List Chars → ℕ → ServerOptions
  unfolding named parse_unsigned
  options_of parsed extra_args port = record {
    host =
        unwrap_or (or_else (named (codes "host") parsed.values) (var "CODEX_CONNECTOR_HOST"))
          (codes "127.0.0.1");
    port = port;
    listen =
        unwrap_or (or_else (named (codes "listen") parsed.values) (var "CODEX_CONNECTOR_LISTEN"))
          default_listen;
    extra_args = extra_args;
    request_timeout_ms =
        unwrap_or
          (or_else (parsed_u64 (named (codes "requestTimeoutMs") parsed.values))
            (parsed_u64 (var "CODEX_CONNECTOR_REQUEST_TIMEOUT_MS")))
          default_request_timeout_ms;
    daemon = is_set "daemon" parsed;
  }

  unfoldable pub server_options : ParsedArgs → Result Chars ServerOptions
  unfolding extra_args_of acceptable port_or options_of
  server_options parsed = do
    extra_args ← extra_args_of parsed
    ensure (acceptable parsed extra_args) (codes "不支持切换 transport 或自定义 Codex 启动参数")
    port ← port_or configured_port (given_port parsed)
    ok (options_of parsed extra_args port)
