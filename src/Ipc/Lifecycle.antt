-- ===== src/Ipc/Lifecycle.antt =====
-- The life of a `DesktopClient` of src/desktop_ipc.rs: its endpoint, the session that it keeps, `status`,
-- `ensure_connected`, the two ways to follow, and its end.
pub mod Connected
use baijimu_codex_connector.Text.{Chars}
use baijimu_codex_connector.Json.{Object, Value, bool, null, obj, string, unwrap_or}
use baijimu_codex_connector.Prelude.{
  List, Option, Result, String, [], err, false, none, ok, some, true, ℕ, ◌>>=◌, ◌∷◌, Bool,
  if◌then◌else◌, nat_eq, ◌&&◌,
}
use baijimu_codex_connector.Ipc.Client.{connect}
use baijimu_codex_connector.Ipc.Follower.{follower_checked}
use baijimu_codex_connector.Ipc.Session.{Session, close}
use baijimu_codex_connector.Ipc.Call.{Event}
use baijimu_codex_connector.Http.{Http, HttpError}
use baijimu_codex_connector.Process.Host.{Host, given_or, system_codex_home}

unfoldable pub endpoint_path : {S : Type 0} → Host S → Chars
unfolding system_codex_home
endpoint_path host =
    given_or (host.env "CODEX_DESKTOP_IPC_PATH") (host.join (system_codex_home host) "ipc/ipc.sock")

pub record Client : Type 0 where
  pub endpoint : String
  pub session : Option Session

-- What `symlink_metadata` says of the endpoint.
pub record Metadata : Type 0 where
  pub is_socket : Bool
  pub uid : ℕ

-- The endpoint is connected to only where it is a socket of the user that runs the connector.
unfoldable pub own_socket :
    {A : Type 0} → ℕ → Result String Metadata → Result String A → Result String A
own_socket user (err e) connected = err e
own_socket user (ok meta) connected =
    if meta.is_socket && nat_eq meta.uid user
    then connected
    else err "IPC endpoint must be a socket owned by the current user"

-- What a connection finds: the user that runs the connector, what `symlink_metadata` says of the endpoint,
-- and what the endpoint answers when it is asked, as in `connect`.
pub record Asked : Type 0 where
  pub id : String
  pub user : ℕ
  pub found : Result String Metadata
  pub answer : Result String (List Value × String)
  pub publisher : Option (List Value)

-- `connect` with the session that it keeps: a dead one is taken out before the endpoint is asked.
-- (Closing it once more changes nothing.)
unfoldable pub keep : Http Session → Client → Client
keep (ok s) client = record client { session = some s }
keep (err e) client = record client { session = none }

unfoldable pub connect_client : Asked → Client → Http Session × Client
unfolding connect keep own_socket
connect_client asked client =
    let answer = own_socket asked.user asked.found asked.answer in
    let r = connect asked.id answer asked.publisher client.session in (r, keep r client)

unfoldable pub ensure_connected : Asked → Client → Http (Unit {0}) × Client
unfolding connect_client
ensure_connected asked client =
    let (r, client') = connect_client asked client in (r >>= λ _. ok tt, client')

abbrev pub connected_status : String → String → Client → Session → Value
connected_status name version client s = obj (
    ("connector", obj (("name", string name) ∷ ("version", string version) ∷ []))
    ∷ ("transport", string "desktop-ipc")
    ∷ ("connected", bool true)
    ∷ ("clientId", string s.id)
    ∷ ("endpoint", string client.endpoint)
    ∷ (
      "capabilities",
      obj (
          ("createThread", bool false)
          ∷ ("rawAppServerRpc", bool false)
          ∷ ("liveTaskControl", bool true)
          ∷ []),
    )
    ∷ [])

abbrev pub failed_status : Client → HttpError → Value
failed_status client e = obj (
    ("transport", string "desktop-ipc")
    ∷ ("connected", bool false)
    ∷ ("endpoint", string client.endpoint)
    ∷ ("error", obj (("code", unwrap_or e.error_code null) ∷ ("message", string e.message) ∷ []))
    ∷ [])

unfoldable pub status : String → String → Asked → Client → Value × Client
unfolding connect_client
status name version asked client =
    let (r, client') = connect_client asked client in
    (
      elim r [ ok s ↦ connected_status name version client s | err e ↦ failed_status client e ],
      client',
    )

-- `Drop`
unfoldable pub drop_client : Client → Client
unfolding close
drop_client client = record client {
  session = elim client.session [ none ↦ none | some s ↦ some (close "Connector stopped" s) ];
}

module _ (size : Value → ℕ) where
  -- `follower` and `follower_for_owner`, from the connected session on.
  unfoldable pub follower :
      String
      → String
      → String
      → String
      → ℕ
      → Object
      → ℕ
      → List Event
      → List Event
      → Session
      → Http Value × Session
  unfolding follower_checked
  follower id id' thread method version params timeout schedule schedule' s =
      follower_checked size id id' thread method version params none timeout schedule schedule' s

  unfoldable pub follower_for_owner :
      String
      → String
      → String
      → String
      → ℕ
      → Object
      → String
      → ℕ
      → List Event
      → List Event
      → Session
      → Http Value × Session
  unfolding follower_checked
  follower_for_owner id id' thread method version params wanted timeout schedule schedule' s =
      follower_checked size id id' thread method version params (some wanted) timeout schedule
        schedule' s
