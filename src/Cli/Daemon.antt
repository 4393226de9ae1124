-- ===== src/Cli/Daemon.antt =====
-- The options of the process that runs in the background.
use baijimu_codex_connector.Json.{unwrap_or}
use baijimu_codex_connector.Text.{Chars, chars_eq}
use baijimu_codex_connector.Cli.Options.{
  ServerOptions, daemon_args, extra_args_of, port_or, server_options, acceptable, given_port,
  options_of, default_request_timeout_ms, parsed_u64,
}
use baijimu_codex_connector.Text.Decimal.{parse_unsigned-decimal}
use baijimu_codex_connector.Cli.Valid.{Valid}
use baijimu_codex_connector.Prelude.{
  ◌>>=◌, [], ◌∷◌, List, Option, Result, String, codes, none, ok, refl, some, ℕ, ◌<◌, ◌^◌, ◌≡◌, true,
  false, ap, lt→ltb,
}
use baijimu_codex_connector.Cli.{ParsedArgs, parse_args, named}
use baijimu_codex_connector.Invoke.Input.{decimal}

-- What the process that `daemonize` starts reads of its arguments.
abbrev pub daemon_parsed : ServerOptions → ParsedArgs
daemon_parsed options = record {
  command = codes "start";
  values =
      (codes "host", options.host)
      ∷ (codes "port", codes (decimal options.port))
      ∷ (codes "listen", options.listen)
      ∷ [];
  flags = [];
}

parse_args-daemon_args :
    (to_uppercase : ℕ → Chars) (print : List Chars → Chars) (options : ServerOptions)
    → options.extra_args ≡ []
    → parse_args to_uppercase (daemon_args print options) ≡ ok (daemon_parsed options)
unfolding parse_args daemon_args
parse_args-daemon_args to_uppercase print options plain = rw plain refl

printed_port :
    (configured n : ℕ) → 0 < n → n < 2 ^ 16 → port_or configured (some (codes (decimal n))) ≡ ok n
unfolding port_or
printed_port configured n low high =
    rw (parse_unsigned-decimal (2 ^ 16) n high, port_or) (rw (lt→ltb 0 n low))

module _ (var : String → Option Chars) (parse_list : Chars → Result Chars (List Chars))
    (configured : ℕ) (options : ServerOptions) (valid : Valid var parse_list configured options)
    (unset : var "CODEX_CONNECTOR_LISTEN" ≡ none)
    (unset' : var "CODEX_CONNECTOR_CODEX_ARGS" ≡ none) where
  nothing_passed : extra_args_of var parse_list configured (daemon_parsed options) ≡ ok []
  unfolding extra_args_of named chars_eq
  nothing_passed = rw unset' refl

  accepted : acceptable var parse_list configured (daemon_parsed options) [] ≡ true
  unfolding acceptable named chars_eq
  accepted = rw (valid.listens, unset) refl

  port_passed :
      given_port var parse_list configured (daemon_parsed options)
      ≡ some (codes (decimal options.port))
  unfolding named chars_eq
  port_passed = refl

  abbrev pub inherited : ServerOptions
  inherited = record options {
    request_timeout_ms =
        unwrap_or (parsed_u64 (var "CODEX_CONNECTOR_REQUEST_TIMEOUT_MS"))
          default_request_timeout_ms;
    daemon = false;
  }

  same_options :
      options_of var parse_list configured (daemon_parsed options) [] options.port ≡ inherited
  unfolding options_of named chars_eq
  same_options = rw valid.no_arguments refl

  daemon_options : server_options var parse_list configured (daemon_parsed options) ≡ ok inherited
  unfolding server_options
  daemon_options =
      rw (nothing_passed, server_options)
        (rw accepted (
          rw port_passed (
            rw (printed_port configured options.port valid.port_positive valid.port_small)
              (ap ok same_options))))

-- The process in the background, started from options that a server accepts, reads the host, the port
-- and the transport of the one that starts it, and nothing to pass on, where the environment sets
-- neither a transport nor arguments. Its timeout is the environment's, or else the default one.
pub server_options-daemon_args :
    (to_uppercase : ℕ → Chars) (print : List Chars → Chars) (var : String → Option Chars)
    (parse_list : Chars → Result Chars (List Chars)) (configured : ℕ) (options : ServerOptions)
    → Valid var parse_list configured options
    → var "CODEX_CONNECTOR_LISTEN" ≡ none
    → var "CODEX_CONNECTOR_CODEX_ARGS" ≡ none
    → (parse_args to_uppercase (daemon_args print options)
        >>= server_options var parse_list configured)
      ≡ ok (record options {
        request_timeout_ms =
            unwrap_or
              (parsed_u64 (var "CODEX_CONNECTOR_REQUEST_TIMEOUT_MS"))
              default_request_timeout_ms;
        daemon = false;
      })
server_options-daemon_args to_uppercase print var parse_list configured options valid unset unset' =
    rw (parse_args-daemon_args to_uppercase print options valid.no_arguments)
      (daemon_options var parse_list configured options valid unset unset')
