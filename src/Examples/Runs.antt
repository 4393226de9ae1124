-- ===== src/Examples/Runs.antt =====
-- What starts, waits for and stops a connector, at runs of one machine.
use baijimu_codex_connector.History.Cursor.{digit, hex}
use baijimu_codex_connector.Text.{chars_eq, trim, starts_with, Chars}
use baijimu_codex_connector.Text.Utf8.{from_utf8_lossy}
use baijimu_codex_connector.Process.{read_health, is_ready, long_token}
use baijimu_codex_connector.Process.Connect.{connector_health, wait_for_health, Network}
use baijimu_codex_connector.Process.Daemon.{daemonize}
use baijimu_codex_connector.Process.Daemon.Started.{daemonize-Started, Existing, Spawned}
use baijimu_codex_connector.Examples.Machine.{
  new_machine, network, programs, Machine, host, options, host-Fills, zeros,
}
use baijimu_codex_connector.Act.{continue}
use baijimu_codex_connector.Process.Host.{connector_home, management_token_path, home_dir}
use baijimu_codex_connector.Json.{Value}
use baijimu_codex_connector.Prelude.{
  Result, String, [], arith, codes, err, none, ok, refl, some, true, ℕ, ◌+◌, ◌≡◌, ◌⊎◌,
}
use baijimu_codex_connector.Process.Token.{
  load_or_create_management_token, create_management_token, write_token, read_back,
}
use baijimu_codex_connector.Process.Token.Kept.{load_or_create_management_token-twice}
use baijimu_codex_connector.Process.Connect.Ends.{Ticks, rounds_from, wait_for_health-Ends}
use baijimu_codex_connector.Process.Waiting.{Some, Answers}

abbrev key : Chars
key = codes (hex (zeros 32))

after_key : Machine
unfolding load_or_create_management_token
after_key = (load_or_create_management_token host new_machine).1

key_lem : load_or_create_management_token host new_machine ≡ (ok key, after_key)
unfolding load_or_create_management_token continue host after_key chars_eq trim hex digit
    create_management_token write_token read_back management_token_path connector_home home_dir
key_lem = refl

load_or_create_management_token-twice_example :
    (long_token key ≡ true) × (load_or_create_management_token host after_key ≡ (ok key, after_key))
unfolding host
load_or_create_management_token-twice_example =
    load_or_create_management_token-twice host new_machine after_key after_key after_key key
      host-Fills key_lem refl refl refl

abbrev deaf : Network ℕ ℕ ℕ
deaf = record {
  resolve = λ name port s. (err "unknown host", s);
  connect = λ address s. (err "refused", s);
  set_timeouts = λ stream s. (ok tt, s);
  write_all = λ stream text s. (ok tt, s);
  read_up_to = λ n stream s. (ok [], s);
  token_file = λ s. none;
  now = λ s. s;
  sleep = λ ms s. s + ms;
  parse = λ text. err "not JSON";
  show = λ text. "text";
}

deaf-Ticks : Ticks deaf options
unfolding connector_health continue
deaf-Ticks = record { asking = λ s. omega arith; sleeping = λ s ms. omega arith }

wait_for_health-Ends_example :
    (result : Result String Value) × ((wait_for_health deaf options none 0).0 ≡ some result)
    × ((body : Value)
        → result ≡ ok body
        → Some (Answers (0 + 5000) none body) (rounds_from deaf options 51 0))
wait_for_health-Ends_example = wait_for_health-Ends deaf options none 0 deaf-Ticks

after_start : Machine
unfolding daemonize
after_start = (daemonize host network programs options new_machine).1

start_lem : daemonize host network programs options new_machine ≡ (ok tt, after_start)
unfolding daemonize continue host after_start chars_eq connector_health read_health from_utf8_lossy
    starts_with wait_for_health is_ready
start_lem = refl

daemonize-Started_example :
    (made : Machine) × (host.create_dir_all (connector_home host) new_machine ≡ (ok tt, made))
    × (Existing host network programs options made after_start
        ⊎ Spawned host network programs options after_start)
daemonize-Started_example =
    daemonize-Started host network programs options new_machine after_start start_lem
