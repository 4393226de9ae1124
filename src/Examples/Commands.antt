-- ===== src/Examples/Commands.antt =====
-- The command line at concrete inputs.

use baijimu_codex_connector.Text.{Chars}
use baijimu_codex_connector.Cli.Valid.{Valid, server_options-Valid}
use baijimu_codex_connector.Cli.Options.{
  ServerOptions, daemon_args, default_listen, default_request_timeout_ms, parsed_u64,
  server_options,
}
use baijimu_codex_connector.Cli.Daemon.{server_options-daemon_args}
use baijimu_codex_connector.Json.{unwrap_or}
use baijimu_codex_connector.Prelude.{
  [], ◌∷◌, ◌>>=◌, List, Option, Result, String, arith, codes, err, false, if◌then◌else◌, leb, none,
  ok, refl, true, ℕ, ◌&&◌, ◌-◌, ◌≡◌, ◌≤◌,
}
use baijimu_codex_connector.Cli.{ParsedArgs, parse_args, required_u64_arg}

-- The upper case of the lower-case ASCII letters.
abbrev upper : ℕ → Chars
upper c = if leb b'a' c && leb c b'z' then (c - 32) ∷ [] else c ∷ []

upper_lem : (c : ℕ) → 97 ≤ c → c ≤ 122 → upper c ≡ (c - 32) ∷ []
upper_lem c low high = ground arith

abbrev unset : String → Option Chars
unset name = none

abbrev no_lists : Chars → Result Chars (List Chars)
no_lists s = err []

abbrev start_line : List Chars
start_line =
    codes "start" ∷ codes "--daemon" ∷ codes "--port=18200" ∷ codes "--host" ∷ codes "::1" ∷ []

abbrev start_parsed : ParsedArgs
start_parsed = record {
  command = codes "start";
  values = (codes "port", codes "18200") ∷ (codes "host", codes "::1") ∷ [];
  flags = (codes "daemon", true) ∷ [];
}

start_test : parse_args upper start_line ≡ ok start_parsed
unfolding parse_args
start_test = refl

abbrev start_options : ServerOptions
start_options = record {
  host = codes "::1";
  port = 18200;
  listen = default_listen;
  extra_args = [];
  request_timeout_ms = 60000;
  daemon = true;
}

start_options_lem : server_options unset no_lists 18111 start_parsed ≡ ok start_options
unfolding server_options
start_options_lem = refl

start_Valid : Valid unset no_lists 18111 start_options
start_Valid =
    server_options-Valid unset no_lists 18111 start_parsed start_options (omega arith) (omega arith)
      start_options_lem

server_options-daemon_args_example :
    (parse_args upper (daemon_args (λ args. []) start_options)
      >>= server_options unset no_lists 18111)
    ≡ ok (record start_options {
      request_timeout_ms =
          unwrap_or
            (parsed_u64 (unset "CODEX_CONNECTOR_REQUEST_TIMEOUT_MS"))
            default_request_timeout_ms;
      daemon = false;
    })
server_options-daemon_args_example =
    server_options-daemon_args upper (λ args. []) unset no_lists 18111 start_options start_Valid
      refl refl

abbrev numbered : ParsedArgs
numbered = record {
  command = codes "checkout-project";
  values = (codes "projectId", codes " 3 ") ∷ [];
  flags = [];
}

numbered_lem : required_u64_arg numbered "projectId" ≡ ok 3
unfolding required_u64_arg
numbered_lem = refl
