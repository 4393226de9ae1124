-- ===== src/Ipc/Session.antt =====
-- The session of src/desktop_ipc.rs: its shared state, `Session::send` and `Session::close`.
-- Each lock-protected map is a keyed list. `mailbox` holds what the one-place channel of a request
-- has buffered, by the request's id; `written` is what the writer task has put on the socket.
pub mod Closing
use baijimu_codex_connector.Prelude.{
  ℕ, String, Bool, false, Option, List, [], ◌∷◌, ◌++◌, ltb, length, ok, err, if◌then◌else◌,
}
use baijimu_codex_connector.Json.{Value, insert}
use baijimu_codex_connector.Http.{Http, failure}

-- The tasks whose abort handles the session keeps.
pub data Task : Type 0 where
  reader writer : Task

-- A buffered reply: what `recv_timeout` hands to the caller.
abbrev pub Reply : Type 0
Reply = Http Value

pub record Session : Type 0 where
  pub id : String
  pub alive : Bool
  pub outgoing : List Value
  pub written : List Value
  pub pending : List (String × Unit {0})
  pub mailbox : List (String × Reply)
  pub snapshots : List (String × (ℕ × Value))
  pub snapshot_serial : List (String × ℕ)
  pub owners : List (String × String)
  pub latest : ℕ
  pub events : List Value
  pub tasks : List Task
  pub publisher : Option (List Value)

-- The capacity of the outgoing channel.
abbrev pub queue_limit : ℕ
queue_limit = 64

-- `Session::send`: refused when disconnected, and when the outgoing channel is full.
unfoldable pub send : Value → Session → Http Session
unfolding failure
send v s =
    if s.alive
    then (if ltb (length s.outgoing) queue_limit
        then ok (record s { outgoing = s.outgoing ++ v ∷ [] })
        else err (failure "IPC_QUEUE_UNAVAILABLE" "request was not queued"))
    else err (failure "DESKTOP_IPC_DISCONNECTED" "desktop IPC disconnected")

-- `let _ = self.send(…)`
unfoldable pub try_send : Value → Session → Session
unfolding send
try_send v s = elim (send v s) [ ok s' ↦ s' | err e ↦ s ]

-- What `close` sends to the callers that still wait.
unfoldable pub disconnect_all :
    String → List (String × Unit {0}) → List (String × Reply) → List (String × Reply)
unfolding failure
disconnect_all message [] mail = mail
disconnect_all message ((id, _) ∷ waiting) mail =
    insert id (err (failure "DESKTOP_IPC_DISCONNECTED" message))
      (disconnect_all message waiting mail)

-- `Session::close`
unfoldable pub close : String → Session → Session
unfolding disconnect_all
close message s =
    if s.alive
    then record s {
      alive = false;
      pending = [];
      mailbox = disconnect_all message s.pending s.mailbox;
      snapshots = [];
      tasks = [];
    }
    else s
