-- ===== src/Examples/Starts.antt =====
-- A server that starts, a stop, the events that are posted, and a history query, at concrete inputs.
use baijimu_codex_connector.Process.Token.{load_or_create_management_token}
use baijimu_codex_connector.Ipc.Lifecycle.{Client, connect_client, own_socket, Asked}
use baijimu_codex_connector.Ipc.Lifecycle.Connected.{Live, Owned, connect_client-Owned}
use baijimu_codex_connector.Ipc.Client.{new_session, connect, open_session, initialize}
use baijimu_codex_connector.Ipc.Session.{Session}
use baijimu_codex_connector.Json.{index, is_str, obj, string, Value, bool, null}
use baijimu_codex_connector.Prelude.{
  List, Result, String, [], arith, codes, err, none, ok, refl, some, true, ℕ, ◌∷◌, ◌≡◌, ◌⊎◌, Option,
  ◌<◌, ◌^◌, false, ◌++◌,
}
use baijimu_codex_connector.Text.{Chars, chars_eq, trim, starts_with}
use baijimu_codex_connector.History.Cursor.{hex, digit}
use baijimu_codex_connector.Text.Utf8.{from_utf8_lossy}
use baijimu_codex_connector.Process.Daemon.{terminate_process, Exit, pid_line}
use baijimu_codex_connector.Cli.Options.{ServerOptions}
use baijimu_codex_connector.Examples.Machine.{
  Machine, new_machine, host, network, programs, options, host-Fills,
}
use baijimu_codex_connector.Server.Start.{Sockets, start_server, loopback, app_state}
use baijimu_codex_connector.Server.Start.Serving.{Served, start_server-Served}
use baijimu_codex_connector.Server.Handling.{App}
use baijimu_codex_connector.Server.Writing.{write_json}
use baijimu_codex_connector.Server.Writing.Health.{read_health-write_json}
use baijimu_codex_connector.Cli.Run.{Shell, stop, stopped, not_running}
use baijimu_codex_connector.Cli.Stop.Killed.{on_machine, kill_args, stop-Killed}
use baijimu_codex_connector.Process.Host.{pid_path}
use baijimu_codex_connector.Process.Token.Kept.{Stored}
use baijimu_codex_connector.Process.Connect.{connector_health}
use baijimu_codex_connector.Process.{
  verified_connector_pid, read_health, connector_field, health_name, says, u64_of,
}
use baijimu_codex_connector.Ipc.Publisher.{
  Channel, Move, moves, published, taken, built, gone, running, starting,
}
use baijimu_codex_connector.Ipc.Publisher.Order.{Delivers, payloads, moves-Delivers}
use baijimu_codex_connector.Ipc.Publisher.Progress.{moves-Posts}
use baijimu_codex_connector.Act.{continue}
use mathlib.Core.List.Sublistᴰ.{slnil}

abbrev empty_channel : Channel
empty_channel = record { phase = starting; queue = []; posted = [] }

abbrev three_moves : List Move
three_moves = built true ∷ published null ∷ published (bool true) ∷ taken "e1" ∷ []

moves-Delivers_example : Delivers (null ∷ bool true ∷ []) (moves "app" three_moves empty_channel)
moves-Delivers_example =
    moves-Delivers "app" three_moves empty_channel []
      (record { in_order = slnil; bounded = omega arith })

abbrev late_moves : List Move
late_moves = taken "e1" ∷ published (bool false) ∷ taken "e2" ∷ []

moves-Posts_example :
    (later : List Value) × (payloads
        (moves "app" late_moves
          (record { phase = running; queue = null ∷ bool true ∷ []; posted = [] })).posted
      ≡ ([] ++ null ∷ bool true ∷ []) ++ later)
moves-Posts_example = moves-Posts "app" late_moves (null ∷ bool true ∷ []) [] (omega arith)

-- Where the HTTP client cannot be built, nothing is posted.
gone_test :
    (moves "app" (published null ∷ built false ∷ published null ∷ taken "e1" ∷ []) empty_channel)
    ≡ record { phase = gone; queue = []; posted = [] }
unfolding moves
gone_test = refl

abbrev parse_any : Chars → Result String Value
parse_any text = ok null

read_health-write_json_example :
    read_health parse_any (λ t. "") (write_json 200 (codes "{}")) ≡ ok null
unfolding write_json
read_health-write_json_example =
    read_health-write_json parse_any (λ t. "") (codes "{}")
      ((omega arith, omega arith), ((omega arith, omega arith), tt)) (omega arith)

abbrev sockets : Sockets Machine (Unit {0}) (Unit {0})
sockets = record {
  parse_ip = λ address. some tt;
  is_loopback = λ ip. true;
  bind = λ address port s. (ok tt, s);
  incoming = λ listener s. none ∷ some [] ∷ [];
}

abbrev plain_client : ServerOptions → App Machine
plain_client _ = record {
  token = [];
  status = λ s. (null, s);
  invoke = λ path body workspace s. (ok null, s);
  checkout = λ body s. (ok null, s);
}

after_serving : Machine
unfolding start_server
after_serving =
    (start_server host sockets plain_client parse_any (λ t. "") null options new_machine).1

serving_lem :
    start_server host sockets plain_client parse_any (λ t. "") null options new_machine
    ≡ (ok tt, after_serving)
unfolding start_server continue host after_serving chars_eq trim hex digit
serving_lem = refl

start_server-Served_example :
    (loopback sockets (codes "127.0.0.1") ≡ true)
    × (listener : Unit {0}) × (token : Chars) × (bound : Machine) × (kept : Machine)
    × (written : Machine) × (sockets.bind options.host options.port new_machine
        ≡ (ok listener, bound))
    × (load_or_create_management_token host bound ≡ (ok token, kept))
    × Stored host token kept
    × (host.write (pid_path host) (pid_line host.process_id) kept ≡ (ok tt, written))
    × Served
        (app_state plain_client options token)
        parse_any
        (λ t. "")
        null
        (none ∷ some [] ∷ [])
        written
        after_serving
start_server-Served_example =
    start_server-Served host sockets plain_client parse_any (λ t. "") null options new_machine
      after_serving host-Fills serving_lem

abbrev busy : Machine
busy = record new_machine { running = some 77 }

abbrev shell : Shell Machine
shell = record {
  print_version = λ s. s;
  print_help = λ s. s;
  print_status = λ s. s;
  print = programs.print;
  start_server = λ options s. (ok tt, s);
  daemonize = λ options s. (ok tt, s);
  connector_health = λ options s. (err "", s);
  terminate_process = λ pid s. (ok tt, s);
  remove_pid_file = λ s. record s { pid = none };
  checkout = λ request s. (err [], s);
}

after_stop : Machine
unfolding stop
after_stop = (stop (on_machine network programs shell) options busy).1

stopping_lem : stop (on_machine network programs shell) options busy ≡ (ok tt, after_stop)
unfolding stop continue after_stop connector_health read_health from_utf8_lossy starts_with
    verified_connector_pid terminate_process
stopping_lem = refl

stop-Killed_example :
    ((e : String) × ((connector_health network options busy).0 ≡ err e)
      × (after_stop ≡ shell.print not_running (connector_health network options busy).1))
    ⊎ ((health : Value) × (pid : ℕ) × (exit : Exit) × (t : Machine) × ((connector_health network
            options busy).0
          ≡ ok health)
        × (says (connector_field "name" health) health_name ≡ true)
        × (u64_of (connector_field "pid" health) ≡ some pid)
        × (pid < 2 ^ 32)
        × (programs.run (codes "kill") (kill_args pid) (connector_health network options busy).1
            ≡ (ok exit, t))
        × (exit.success ≡ true)
        × (after_stop ≡ shell.print (stopped pid) (shell.remove_pid_file t)))
stop-Killed_example = stop-Killed network programs shell options busy after_stop stopping_lem

abbrev away : Client
away = record { endpoint = "/tmp/ipc.sock"; session = none }

abbrev hello : Value
hello = obj (
    ("type", string "response")
    ∷ ("requestId", string "r")
    ∷ ("resultType", string "success")
    ∷ ("result", obj (("clientId", string "me") ∷ []))
    ∷ [])

abbrev desktop_there : Asked
desktop_there = record {
  id = "r";
  user = 501;
  found = ok (record { is_socket = true; uid = 501 });
  answer = ok (hello ∷ [], "closed");
  publisher = none;
}

away_lem : (connect_client desktop_there away).0 ≡ ok (new_session "me" none)
unfolding connect_client connect own_socket open_session initialize index is_str
away_lem = refl

connect_client-Owned_example :
    Live (connect_client desktop_there away).1 (new_session "me" none)
    × ((◌≡◌ {A = Option Session} none (some (new_session "me" none)))
        ⊎ Owned 501 (ok (record { is_socket = true; uid = 501 })))
connect_client-Owned_example =
    connect_client-Owned desktop_there away (new_session "me" none) away_lem
