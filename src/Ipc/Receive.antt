-- ===== src/Ipc/Receive.antt =====
-- `Session::receive` of src/desktop_ipc.rs: what one incoming frame does to the session.
-- The printed size of a JSON value and the clock are parameters.
pub mod Cases
pub mod Events
pub mod Snapshots
use baijimu_codex_connector.Prelude.{
  ℕ, ◌+◌, ◌*◌, ◌%◌, ◌^◌, String, Bool, true, false, ◌||◌, Option, none, some, List, [], ◌∷◌, ◌++◌,
  ltb, length, ok, ◌==◌, nat_eq, if◌then◌else◌,
}
use baijimu_codex_connector.Json.{
  Value, bool, number, uint, string, obj, num, lookup, insert, remove, index, as_str, as_u64,
  is_str, unwrap_or,
}
use baijimu_codex_connector.Ipc.Session.{Session, try_send, close}

-- A 64-bit counter's `+= 1`.
abbrev pub next_u64 : ℕ → ℕ
next_u64 n = (n + 1) % 2 ^ 64

-- `value == n` for a JSON value and a small number.
abbrev pub is_num : Value → ℕ → Bool
is_num (number (uint m)) n = nat_eq m n
is_num _ n = false

abbrev pub str_opt_eq : Option String → Option String → Bool
str_opt_eq none none = true
str_opt_eq (some a) (some b) = a == b
str_opt_eq _ _ = false

-- The first arm of `receive`: the reply goes to the channel of the request that waits for it.
unfoldable pub deliver : String → Value → Session → Session
deliver id v s = elim (lookup id s.pending) [
  | none ↦ s
  | some _ ↦ record s { pending = remove id s.pending; mailbox = insert id (ok v) s.mailbox }
]

abbrev pub discovery_refusal : Value → Value
discovery_refusal v = obj (
    ("type", string "client-discovery-response")
    ∷ ("requestId", index "requestId" v)
    ∷ ("response", obj (("canHandle", bool false) ∷ []))
    ∷ [])

abbrev pub request_refusal : Value → Value
request_refusal v = obj (
    ("type", string "response")
    ∷ ("requestId", index "requestId" v)
    ∷ ("resultType", string "error")
    ∷ ("error", string "Connector is a follower only")
    ∷ [])

-- What a broadcast comes to before it is recorded as an event: the session is closed with a
-- message, the broadcast is dropped, or it is recorded in the session given.
pub data Verdict : Type 0 where
  closing : String → Verdict
  dropped : Verdict
  recorded : Session → Verdict

-- `snapshots.insert(…)` and `*serials.entry(…).or_default() += 1`
unfoldable pub store_snapshot : String → ℕ → Value → Session → Session
store_snapshot id revision state s = record s {
  snapshots = insert id (revision, state) s.snapshots;
  snapshot_serial =
      insert id (next_u64 (unwrap_or (lookup id s.snapshot_serial) 0)) s.snapshot_serial;
}

-- The table of owners. It is read under its lock before the snapshots are locked, and other calls may come
-- in between: `owners` is the table as it was read, and the session is the one after.
abbrev pub Owners : Type 0
Owners = List (String × String)

-- The body under `if let Some(id) = params["conversationId"].as_str()`.
unfoldable pub apply_change : String → Value → Owners → Session → Verdict
unfolding store_snapshot
apply_change id v owners s =
    let change = index "change" (index "params" v) in
    if str_opt_eq (lookup id owners) (as_str (index "sourceClientId" v))
    then (if is_str (index "type" change) "snapshot"
        then elim (as_u64 (index "revision" change)) [
          | none ↦ recorded s
          | some revision ↦
              recorded (store_snapshot id revision (index "conversationState" change) s)
        ]
        else recorded s)
    else dropped

unfoldable pub judge : Value → Owners → Session → Verdict
unfolding apply_change
judge v owners s =
    let params = index "params" v in
    if is_str (index "method" v) "ipc-connection-reset"
    then closing "desktop IPC reset"
    else if is_str (index "method" v) "thread-stream-state-changed"
    then (if is_num (index "version" v) 11
        then (if is_str (index "hostId" params) "local"
            then elim (as_str (index "conversationId" params)) [
              | none ↦ recorded s
              | some id ↦ apply_change id v owners s
            ]
            else dropped)
        else closing "unsupported desktop stream protocol version")
    else recorded s

-- The bounds on the retained events.
abbrev pub event_limit : ℕ
event_limit = 100

abbrev pub event_bytes : ℕ
event_bytes = 8 * 1024 * 1024

-- `Publisher::publish` of src/desktop_events.rs: a full queue loses the event.
abbrev pub publish_limit : ℕ
publish_limit = 8

unfoldable pub publish : Value → Option (List Value) → Option (List Value)
publish event none = none
publish event (some queue) =
    if ltb (length queue) publish_limit then some (queue ++ event ∷ []) else some queue

unfoldable pub event_of : String → ℕ → String → Value → Value
event_of stream seq now v = obj (
    ("streamId", string stream)
    ∷ ("sequence", num seq)
    ∷ ("receivedAt", string now)
    ∷ ("message", v)
    ∷ [])

module _ (size : Value → ℕ) where
  unfoldable pub total : List Value → ℕ
  total [] = 0
  total (e ∷ es) = size e + total es

  unfoldable pub too_much : List Value → Bool
  unfolding total
  too_much es = ltb event_limit (length es) || ltb event_bytes (total es)

  -- The loop that drops the oldest events while there are too many.
  unfoldable pub trim : List Value → List Value
  unfolding too_much
  trim [] = []
  trim (e ∷ es) = if too_much (e ∷ es) then trim es else e ∷ es

  unfoldable pub record_event : String → Value → Session → Session
  unfolding event_of publish
  record_event now v s =
      let seq = next_u64 s.latest in
      let event = event_of s.id seq now v in
      record s {
        latest = seq;
        events = trim (s.events ++ event ∷ []);
        publisher = publish event s.publisher;
      }

  unfoldable pub settle : String → Value → Session → Verdict → Session
  settle now v s (closing message) = close message s
  settle now v s dropped = s
  settle now v s (recorded s') = record_event now v s'

  unfoldable pub broadcast : String → Value → Owners → Session → Session
  broadcast now v owners s = settle now v s (judge v owners s)

  unfoldable pub receive : String → Value → Owners → Session → Session
  receive now v owners s =
      let kind = index "type" v in
      if is_str kind "response"
      then elim (as_str (index "requestId" v)) [ none ↦ s | some id ↦ deliver id v s ]
      else if is_str kind "client-discovery"
      then try_send (discovery_refusal v) s
      else if is_str kind "request"
      then try_send (request_refusal v) s
      else if is_str kind "broadcast"
      then broadcast now v owners s
      else s
