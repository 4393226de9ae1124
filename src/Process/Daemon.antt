-- ===== src/Process/Daemon.antt =====
-- `daemonize` and `terminate_process` of src/process_runtime.rs over interfaces of the machine, the sockets
-- and the programs that are started.
pub mod Started
use baijimu_codex_connector.Text.{Chars}
use baijimu_codex_connector.Json.{Value, bool, index, is_true, null, num, obj, string, unwrap_or}
use baijimu_codex_connector.Prelude.{
  Bool, List, Option, Result, String, [], codes, ensure, err, if◌then◌else◌, none, ok, some, true,
  ℕ, ◌++◌, ◌∷◌,
}
use baijimu_codex_connector.Act.{Act, lift, pure, ◌>>=◌, ◌>>◌}
use baijimu_codex_connector.Cli.Options.{ServerOptions, daemon_args}
use baijimu_codex_connector.Process.Host.{Host, connector_home, pid_path, log_path}
use baijimu_codex_connector.Process.Connect.{Network, connector_health, wait_for_health}
use baijimu_codex_connector.Process.{connector_field, u64_of}
use baijimu_codex_connector.Invoke.Input.{decimal}

pub record Exit : Type 0 where
  pub success : Bool
  pub shown : Chars

-- `L` is an open file. `run` waits for a program; `spawn` gives the process id of a program that goes on
-- in a session of its own. `show_list` prints a list of texts as JSON, which cannot fail.
pub record Programs (S L : Type 0) : Type 0 where
  pub open_append : Chars → Act S Chars L
  pub try_clone : L → Act S Chars L
  pub current_exe : S → Result Chars Chars
  pub spawn : Chars → List Chars → L → L → Act S Chars ℕ
  pub run : Chars → List Chars → Act S Chars Exit
  pub print : Value → S → S
  pub show_list : List Chars → Chars

-- An error is a text, or `none` where the rounds of the wait run out.
abbrev pub noted : {S A : Type 0} → Result Chars A × S → Result (Option Chars) A × S
noted (ok a, s) = (ok a, s)
noted (err e, s) = (err (some e), s)

abbrev pub within : {S A : Type 0} → Act S Chars A → Act S (Option Chars) A
within m s = noted (m s)

abbrev pub waited :
    {S : Type 0} → Option (Result String Value) × S → Result (Option Chars) Value × S
waited (none, s) = (err none, s)
waited (some (ok body), s) = (ok body, s)
waited (some (err e), s) = (err (some (codes e)), s)

abbrev pub pid_line : ℕ → Chars
pid_line pid = codes (decimal pid) ++ (b'\n' ∷ [])

abbrev pub url_of : ServerOptions → Chars
url_of options = codes "http://" ++ (options.host ++ (b':' ∷ codes (decimal options.port)))

abbrev pub existing_report : Value → String → String → Value
existing_report pid url log = obj (
    ("ok", bool true)
    ∷ ("pid", pid)
    ∷ ("existing", bool true)
    ∷ ("url", string url)
    ∷ ("logPath", string log)
    ∷ [])

abbrev pub started_report : ℕ → String → String → Value
started_report pid url log =
    obj (("ok", bool true) ∷ ("pid", num pid) ∷ ("url", string url) ∷ ("logPath", string log) ∷ [])

module _ {S A C L : Type 0} (host : Host S) (net : Network S A C) (programs : Programs S L) where
  abbrev pub report : Value → Act S (Option Chars) (Unit {0})
  report v s = (ok tt, programs.print v s)

  unfoldable pub write_pid : ℕ → Act S (Option Chars) (Unit {0})
  unfolding pid_path
  write_pid pid = within (host.write (pid_path host) (pid_line pid))

  abbrev pub write_known : Option ℕ → Act S (Option Chars) (Unit {0})
  write_known none = pure tt
  write_known (some pid) = write_pid pid

  unfoldable pub keep_existing : ServerOptions → Value → Act S (Option Chars) (Unit {0})
  unfolding connector_field log_path write_pid
  keep_existing options body = do
    write_known (u64_of (connector_field "pid" body))
    report (
        existing_report (unwrap_or (connector_field "pid" body) null) (net.show (url_of options))
          (net.show (log_path host)))

  unfoldable pub spawn_connector : ServerOptions → Act S (Option Chars) ℕ
  unfolding log_path daemon_args
  spawn_connector options = do
    log ← within (programs.open_append (log_path host))
    log_err ← within (programs.try_clone log)
    exe ← within (λ s. (programs.current_exe s, s))
    within (programs.spawn exe (daemon_args programs.show_list options) log log_err)

  unfoldable pub confirm : ServerOptions → ℕ → Act S (Option Chars) (Unit {0})
  unfolding wait_for_health connector_field write_pid log_path
  confirm options pid = do
    health ← λ s. waited (wait_for_health net options (some pid) s)
    let real_pid = unwrap_or (u64_of (connector_field "pid" health)) pid
    write_pid real_pid
    report (started_report real_pid (net.show (url_of options)) (net.show (log_path host)))

  unfoldable pub start_new : ServerOptions → Act S (Option Chars) (Unit {0})
  unfolding spawn_connector confirm
  start_new options = do pid ← spawn_connector options; confirm options pid

  unfoldable pub start_unless :
      ServerOptions → Result String Value → Act S (Option Chars) (Unit {0})
  unfolding keep_existing start_new index
  start_unless options (err e) s = start_new options s
  start_unless options (ok body) s =
      if is_true (index "ok" body) then keep_existing options body s else start_new options s

  unfoldable pub daemonize : ServerOptions → Act S (Option Chars) (Unit {0})
  unfolding connector_home connector_health start_unless
  daemonize options = do
    within (host.create_dir_all (connector_home host))
    λ s. let (answer, s') = connector_health net options s in start_unless options answer s'

-- An error with what failed before it.
abbrev pub explain : {S A : Type 0} → Chars → Result Chars A × S → Result Chars A × S
explain failed (ok a, s) = (ok a, s)
explain failed (err e, s) = (err (failed ++ (codes ": " ++ e)), s)

abbrev pub stop_failed : ℕ → Chars
stop_failed pid = codes "failed to stop connector process " ++ codes (decimal pid)

module _ {S L : Type 0} (programs : Programs S L) where
  unfoldable pub terminate_process : ℕ → Act S Chars (Unit {0})
  terminate_process pid = do
    exit ← λ s.
        explain (stop_failed pid)
          (programs.run (codes "kill") (codes "-TERM" ∷ codes (decimal pid) ∷ []) s)
    lift (ensure exit.success (stop_failed pid ++ (codes ": command exited with " ++ exit.shown)))
