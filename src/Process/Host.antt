-- ===== src/Process/Host.antt =====
-- What src/process_runtime.rs asks of the machine: the environment, the file system, random bytes, the
-- clock, sockets and processes. A path is its text. The Unix build is the one that is modelled.
use baijimu_codex_connector.Act.{Act}
use baijimu_codex_connector.History.Cursor.{hex}
use baijimu_codex_connector.Text.{Chars}
use baijimu_codex_connector.Invoke.Input.{decimal}
use baijimu_codex_connector.Prelude.{ℕ, List, Option, none, some, Result, String, codes, ◌∷◌, ◌++◌}

pub record Host (S : Type 0) : Type 0 where
  pub env : String → Option Chars
  pub join : Chars → String → Chars
  pub with_extension : Chars → Chars → Chars
  pub process_id : ℕ
  pub create_dir_all : Chars → Act S Chars (Unit {0})
  pub set_permissions : Chars → ℕ → Act S Chars (Unit {0})
  pub read_to_string : Chars → S → Result Chars Chars
  pub write : Chars → Chars → Act S Chars (Unit {0})
  pub rename : Chars → Chars → Act S Chars (Unit {0})
  pub random_bytes : ℕ → S → List ℕ × S

-- `filter(|value| !value.is_empty())`
abbrev pub non_empty : Option Chars → Option Chars
non_empty (some (c ∷ cs)) = some (c ∷ cs)
non_empty _ = none

abbrev pub first_of : Option Chars → Option Chars → Option Chars
first_of none b = b
first_of (some a) b = some a

abbrev pub given_or : Option Chars → Chars → Chars
given_or none d = d
given_or (some a) d = a

-- The seconds since the epoch, or nothing where the clock stands before it.
unfoldable pub timestamp : Option ℕ → Chars
timestamp none = codes (decimal 0)
timestamp (some seconds) = codes (decimal seconds)

module _ {S : Type 0} (host : Host S) where
  unfoldable pub home_dir : Chars
  home_dir = given_or (non_empty (host.env "HOME")) (codes ".")

  unfoldable pub connector_home : Chars
  unfolding home_dir
  connector_home =
      given_or (first_of (host.env "BAIJIMU_LOCAL_APP_DATA_DIR") (host.env "CODEX_CONNECTOR_HOME"))
        (host.join home_dir ".baijimu-connector-codex")

  unfoldable pub system_codex_home : Chars
  unfolding home_dir
  system_codex_home = host.join home_dir ".codex"

  unfoldable pub management_token_path : Chars
  unfolding connector_home
  management_token_path =
      given_or (host.env "BAIJIMU_LOCAL_APP_TOKEN_FILE")
        (host.join connector_home "management-token")

  unfoldable pub pid_path : Chars
  unfolding connector_home
  pid_path = host.join connector_home "connector.pid"

  unfoldable pub log_path : Chars
  unfolding connector_home
  log_path = host.join connector_home "connector.log"

  unfoldable pub random_event_id : S → Chars × S
  unfolding hex
  random_event_id s =
      let (bytes, s') = host.random_bytes 16 s in (codes "codex_evt_" ++ codes (hex bytes), s')
