-- ===== src/Ipc/Call.antt =====
-- `Session::rpc` and `Session::owner` of src/desktop_ipc.rs. While a call waits for its reply, the
-- reader and writer tasks and the other calls go on: a schedule lists what they do, in order, until
-- the reply is there or the time is up.
pub mod Pending
pub mod Outcome
pub mod Owner
pub mod Counting
pub mod Replay
use baijimu_codex_connector.Ipc.Session.{Reply, Session, close, send, try_send}
use baijimu_codex_connector.Ipc.Receive.{Owners, receive, str_opt_eq}
use baijimu_codex_connector.Http.{Http, coded, failure, HttpError}
use baijimu_codex_connector.Json.{
  Object, Value, as_str, bool, index, insert, is_str, is_true, lookup, num, obj, remove, string,
  unwrap_or,
}
use baijimu_codex_connector.Prelude.{
  Bool, List, Option, String, [], ensure, err, if◌then◌else◌, none, not, ok, ok_or, some, ℕ, ◌++◌,
  ◌>>=◌, ◌∷◌, ◌>>◌, Result-cases, inl, inr, ◌≡◌,
}

-- What happens to a session while a call waits. `joined`, `left` and `queued` are other calls. A frame's
-- broadcast is checked against the owner table of the moment, or, where other events came between its
-- check and its effect, against one from before them (any, here).
pub data Event : Type 0 where
  frame : String → Value → Event
  checked_before : Owners → String → Value → Event
  broken : String → Event
  flushed : Event
  joined : String → Event
  left : String → Event
  queued : Value → Event
  owned : String → String → Event

-- `pending.insert(id, tx)`
unfoldable pub register : String → Session → Session
register id s = record s { pending = insert id tt s.pending }

-- `pending.remove(&id)`; the channel goes with the call that made it.
unfoldable pub unregister : String → Session → Session
unregister id s = record s { pending = remove id s.pending; mailbox = remove id s.mailbox }

-- The writer task puts the oldest queued frame on the socket.
unfoldable pub flush : Session → Session
flush s = elim s.outgoing [
  | [] ↦ s
  | v ∷ rest ↦ record s { outgoing = rest; written = s.written ++ v ∷ [] }
]

-- The end of `owner`: the owner is recorded, and a snapshot of another owner is dropped.
unfoldable pub set_owner : String → String → Session → Session
set_owner thread owner s =
    let s' = record s { owners = insert thread owner s.owners } in
    if str_opt_eq (lookup thread s.owners) (some owner)
    then s'
    else record s' { snapshots = remove thread s.snapshots }

-- The call's frame.
unfoldable pub request : String → String → String → ℕ → Value → Option String → ℕ → Value
request id source method version params target timeout =
    let base : Object =
      ("type", string "request")
      ∷ ("requestId", string id)
      ∷ ("sourceClientId", string source)
      ∷ ("method", string method)
      ∷ ("version", num version)
      ∷ ("params", params)
      ∷ ("timeoutMs", num timeout)
      ∷ [] in
    elim target [ none ↦ obj base | some t ↦ obj (insert "targetClientId" (string t) base) ]

-- The code of a failed call: a mutation may have taken effect.
abbrev pub failed_code : Bool → String → String
failed_code mutation otherwise = if mutation then "IPC_OPERATION_OUTCOME_UNKNOWN" else otherwise

-- The `match response` of `rpc`.
unfoldable pub interpret : String → String → Bool → Option Reply → Http Value
interpret id method mutation (some (ok v)) =
    if is_str (index "resultType" v) "success"
    then ok (index "result" v)
    else err (
        coded 409 (unwrap_or (as_str (index "error" v)) "desktop rejected request")
          (failed_code mutation "DESKTOP_REQUEST_REJECTED")
          (obj (
            ("method", string method)
            ∷ ("requestId", string id)
            ∷ ("response", v)
            ∷ ("retrySafe", bool (not mutation))
            ∷ [])))
interpret id method mutation (some (err e)) = err (
    coded 503 e.message (failed_code mutation "DESKTOP_IPC_DISCONNECTED") (
      obj (
        ("requestId", string id)
        ∷ ("method", string method)
        ∷ ("retrySafe", bool (not mutation))
        ∷ [])))
interpret id method mutation none = err (
    coded 503 "IPC response timed out" (failed_code mutation "DESKTOP_IPC_DISCONNECTED") (
      obj (
        ("requestId", string id)
        ∷ ("method", string method)
        ∷ ("retrySafe", bool (not mutation))
        ∷ [])))

abbrev pub discovery : String → String → String → ℕ → Value
discovery id source thread timeout = obj (
    ("type", string "request")
    ∷ ("requestId", string id)
    ∷ ("sourceClientId", string source)
    ∷ ("version", num 1)
    ∷ ("method", string "thread-owner-discovery")
    ∷ ("params", obj (("hostId", string "local") ∷ ("conversationId", string thread) ∷ []))
    ∷ ("timeoutMs", num timeout)
    ∷ [])

-- The checks of `owner` on the reply.
unfoldable pub owner_of : Option Reply → Http String
unfolding failure
owner_of none = err (failure "DESKTOP_OWNER_UNAVAILABLE" "owner discovery timed out")
owner_of (some (err e)) = err e
owner_of (some (ok v)) = do
  owner ←
      ok_or
        (if is_str (index "resultType" v) "success"
          then as_str (index "handledByClientId" v)
          else none)
        (failure "DESKTOP_OWNER_UNAVAILABLE" "请在桌面端打开该任务；未找到任务所有者")
  ensure (is_true (index "supportsUntrustedAppInput" (index "result" v))) (
      failure "IPC_PROTOCOL_MISMATCH"
        "desktop owner does not advertise untrusted app input support")
  ok owner

module _ (size : Value → ℕ) where
  unfoldable pub step : Event → Session → Session
  step (frame now v) s = receive size now v s.owners s
  step (checked_before owners now v) s = receive size now v owners s
  step (broken message) s = close message s
  step flushed s = flush s
  step (joined id) s = register id s
  step (left id) s = unregister id s
  step (queued v) s = try_send v s
  step (owned thread owner) s = set_owner thread owner s

  -- `rx.recv_timeout(…)`: the session when the reply is there, or when the schedule is over.
  unfoldable pub await : String → List Event → Session → Session
  await id [] s = s
  await id (e ∷ es) s = elim (lookup id s.mailbox) [ some _ ↦ s | none ↦ await id es (step e s) ]

  -- Send a frame under a fresh id and wait: the reply that came, if one did, or the refusal to send.
  unfoldable pub exchange : String → Value → List Event → Session → Http (Option Reply) × Session
  exchange id v schedule s = elim (send v (register id s)) [
    | err e ↦ (err e, unregister id (register id s))
    | ok sent ↦
        let done = await id schedule sent in (ok (lookup id done.mailbox), unregister id done)
  ]

  unfoldable pub rpc :
      String
      → String
      → ℕ
      → Value
      → Option String
      → ℕ
      → Bool
      → List Event
      → Session
      → Http Value × Session
  rpc id method version params target timeout mutation schedule s =
      let (got, done) =
        exchange id (request id s.id method version params target timeout) schedule s in
      (got >>= interpret id method mutation, done)

  unfoldable pub owner : String → String → ℕ → List Event → Session → Http String × Session
  owner id thread timeout schedule s =
      let (got, done) = exchange id (discovery id s.id thread timeout) schedule s in
      elim (got >>= owner_of) [ err e ↦ (err e, done) | ok o ↦ (ok o, set_owner thread o done) ]

  -- The two ways that an exchange can go.
  pub exchange_cases {ℓ} :
      (P : Http (Option Reply) × Session → Type ℓ) (id : String) (v : Value) (schedule : List Event)
      (s : Session)
      → ((e : HttpError)
          → send v (register id s) ≡ err e
          → P (err e, unregister id (register id s)))
      → ((t : Session)
          → send v (register id s) ≡ ok t
          → P (ok (lookup id (await id schedule t).mailbox), unregister id (await id schedule t)))
      → P (exchange id v schedule s)
  unfolding exchange
  exchange_cases P id v schedule s refused sent = elim (Result-cases (send v (register id s))) [
    | inl (t, a) ↦ rw (a, exchange) (sent t a)
    | inr (e, a) ↦ rw (a, exchange) (refused e a)
  ]
