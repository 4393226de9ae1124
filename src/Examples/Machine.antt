-- ===== src/Examples/Machine.antt =====
-- A machine with one token file, one pid file, a clock and at most one connector in the background.
use baijimu_codex_connector.Prelude.{
  zero, suc, All, Bool, List, Option, Result, String, [], arith, codes, err, false, length, none,
  ok, refl, some, true, ℕ, ◌+◌, ◌<◌, ◌∷◌, ◌≡◌,
}
use baijimu_codex_connector.Text.{Chars, chars_eq}
use baijimu_codex_connector.Json.{Value, bool, num, obj, string}
use baijimu_codex_connector.Process.Host.{Host}
use baijimu_codex_connector.Process.Connect.{Network}
use baijimu_codex_connector.Process.Daemon.{Programs}
use baijimu_codex_connector.Process.Token.Kept.{Fills}
use baijimu_codex_connector.Process.{health_name}
use baijimu_codex_connector.Cli.Options.{ServerOptions, default_listen}

pub record Machine : Type 0 where
  pub token : Option Chars
  pub pid : Option Chars
  pub clock : ℕ
  pub running : Option ℕ
  pub ended : List (List Chars)
  pub shown : List Value

abbrev pub new_machine : Machine
new_machine = record { token = none; pid = none; clock = 0; running = none; ended = []; shown = [] }

abbrev pub zeros : ℕ → List ℕ
zeros zero = []
zeros (suc n) = 0 ∷ zeros n

abbrev stored : Option Chars → Result Chars Chars
stored none = err (codes "no such file")
stored (some t) = ok t

abbrev written : Bool → Chars → Machine → Machine
written true t s = record s { pid = some t }
written false t s = record s { token = some t }

unfoldable pub host : Host Machine
unfolding chars_eq
host = record {
  env = λ name. none;
  join = λ directory name. codes name;
  with_extension = λ p e. p;
  process_id = 5;
  create_dir_all = λ p s. (ok tt, s);
  set_permissions = λ p mode s. (ok tt, s);
  read_to_string = λ p s. stored s.token;
  write = λ p t s. (ok tt, written (chars_eq p (codes "connector.pid")) t s);
  rename = λ from to s. (ok tt, s);
  random_bytes = λ n s. (zeros n, s);
}

abbrev pub health_report : ℕ → Value
health_report pid = obj (
    ("ok", bool true)
    ∷ (
      "status",
      obj (("connector", obj (("name", string health_name) ∷ ("pid", num pid) ∷ [])) ∷ []),
    )
    ∷ [])

abbrev reached : Option ℕ → Result String ℕ
reached none = err "refused"
reached (some pid) = ok pid

-- A connection is the process that answers; its response is read as its report.
abbrev pub network : Network Machine ℕ ℕ
network = record {
  resolve = λ name port s. (ok (0 ∷ []), s);
  connect = λ address s. (reached s.running, s);
  set_timeouts = λ stream s. (ok tt, s);
  write_all = λ stream text s. (ok tt, s);
  read_up_to = λ n stream s. (ok (codes "HTTP/1.1 200"), s);
  token_file = λ s. s.token;
  now = λ s. s.clock;
  sleep = λ ms s. record s { clock = s.clock + ms };
  parse = λ text. ok (health_report 77);
  show = λ text. "text";
}

abbrev pub programs : Programs Machine (Unit {0})
programs = record {
  open_append = λ p s. (ok tt, s);
  try_clone = λ log s. (ok tt, s);
  current_exe = λ s. ok (codes "connector");
  spawn = λ exe args log log_err s. (ok 77, record s { running = some 77 });
  run = λ program args s. (
    ok (record { success = true; shown = [] }),
    record s { running = none; ended = args ∷ s.ended },
  );
  print = λ v s. record s { shown = v ∷ s.shown };
  show_list = λ texts. [];
}

abbrev pub options : ServerOptions
options = record {
  host = codes "127.0.0.1";
  port = 18111;
  listen = default_listen;
  extra_args = [];
  request_timeout_ms = 60000;
  daemon = true;
}

zeros_lem : (n : ℕ) → (length (zeros n) ≡ n) × All (λ b. b < 256) (zeros n)
zeros_lem zero = (refl, tt)
zeros_lem (suc n) = let (long, small) = zeros_lem n in (omega (arith, long), (omega arith, small))

pub host-Fills : Fills host
unfolding host
host-Fills s = zeros_lem 32
