-- ===== src/Cli/Run.antt =====
-- `run` of src/cli.rs over an interface of what it calls and prints.
use baijimu_codex_connector.Cli.{ParsedArgs, one_of, parse_args, required_u64_arg, string_arg}
use baijimu_codex_connector.Text.{Chars, chars_eq}
use baijimu_codex_connector.Cli.Options.{ServerOptions}
use baijimu_codex_connector.Json.{Value, bool, num, obj, string}
use baijimu_codex_connector.Prelude.{
  Option, none, some, [], ◌∷◌, Result, String, codes, err, false, ok, true, ℕ, List, if◌then◌else◌,
  ◌++◌,
}
use baijimu_codex_connector.Process.{verified_connector_pid}
use baijimu_codex_connector.Projects.Checkout.{CheckoutRequest}
use baijimu_codex_connector.Act.{◌>>◌, fail, Act, lift, ◌>>=◌, Act, lift, ◌>>=◌}

pub record Shell (S : Type 0) : Type 0 where
  pub print_version : S → S
  pub print_help : S → S
  pub print_status : S → S
  pub print : Value → S → S
  pub start_server : ServerOptions → S → Result Chars (Unit {0}) × S
  pub daemonize : ServerOptions → S → Result Chars (Unit {0}) × S
  pub connector_health : ServerOptions → S → Result String Value × S
  pub terminate_process : ℕ → S → Result Chars (Unit {0}) × S
  pub remove_pid_file : S → S
  pub checkout : CheckoutRequest → S → Result Chars Value × S

abbrev pub stopped : ℕ → Value
stopped pid = obj (("ok", bool true) ∷ ("stopped", bool true) ∷ ("pid", num pid) ∷ [])

abbrev pub not_running : Value
not_running = obj (
    ("ok", bool true)
    ∷ ("stopped", bool false)
    ∷ ("reason", string "healthy connector process not found")
    ∷ [])

abbrev pub told : {A : Type 0} → Result String A → Result Chars A
told (ok a) = ok a
told (err e) = err (codes e)

-- `main` of src/main.rs, after `run`: the message for the error output, and the exit code.
unfoldable pub exit_of : Result Chars (Unit {0}) → Option Chars × ℕ
exit_of (ok _) = (none, 0)
exit_of (err e) = (some e, 1)

module _ {S : Type 0} (shell : Shell S) where
  abbrev pub does : (S → S) → Act S Chars (Unit {0})
  does change s = (ok tt, change s)

  -- What `stop` does with a health report.
  unfoldable pub stop_running : Value → Act S Chars (Unit {0})
  unfolding verified_connector_pid
  stop_running health = do
    pid ← lift (told (verified_connector_pid health))
    shell.terminate_process pid
    does shell.remove_pid_file
    does (shell.print (stopped pid))

  unfoldable pub stop_with : Result String Value → Act S Chars (Unit {0})
  unfolding stop_running
  stop_with (err e) = does (shell.print not_running)
  stop_with (ok health) = stop_running health

  unfoldable pub stop : ServerOptions → Act S Chars (Unit {0})
  unfolding stop_with
  stop options s = let (answer, s') = shell.connector_health options s in stop_with answer s'

  unfoldable pub start_command : ServerOptions → Act S Chars (Unit {0})
  start_command options =
      if options.daemon then shell.daemonize options else shell.start_server options

  unfoldable pub checkout_command : ParsedArgs → Act S Chars (Unit {0})
  unfolding required_u64_arg string_arg
  checkout_command parsed = do
    workspace_id ← lift (required_u64_arg parsed "workspaceId")
    project_id ← lift (required_u64_arg parsed "projectId")
    prepared ← shell.checkout (record {
      workspace_id = workspace_id;
      project_id = project_id;
      branch = string_arg parsed "branch";
    })
    does (shell.print prepared)

  module _ (to_uppercase : ℕ → Chars)
      (options_of_args : ParsedArgs → Result Chars ServerOptions) where
    unfoldable pub run_command : ParsedArgs → Act S Chars (Unit {0})
    unfolding start_command stop checkout_command chars_eq
    run_command parsed =
        if one_of parsed.command ("--version" ∷ [])
        then does shell.print_version
        else if one_of parsed.command ("help" ∷ "" ∷ [])
        then does shell.print_help
        else if one_of parsed.command ("start" ∷ [])
        then (do options ← lift (options_of_args parsed); start_command options)
        else if one_of parsed.command ("status" ∷ [])
        then does shell.print_status
        else if one_of parsed.command ("stop" ∷ [])
        then (do options ← lift (options_of_args parsed); stop options)
        else if one_of parsed.command ("checkout-project" ∷ [])
        then checkout_command parsed
        else fail (codes "unknown command: " ++ parsed.command)

    unfoldable pub run : List Chars → Act S Chars (Unit {0})
    unfolding parse_args run_command
    run args = do parsed ← lift (parse_args to_uppercase args); run_command parsed
