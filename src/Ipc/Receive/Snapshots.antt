-- ===== src/Ipc/Receive/Snapshots.antt =====
-- Which broadcasts may change the snapshot that the connector holds for a thread.
use baijimu_codex_connector.Ipc.Receive.Cases.{receive_cases, receive-broadcast, is_str-ne}
use baijimu_codex_connector.Json.Laws.{lookup-insert, lookup-insert_self}
use baijimu_codex_connector.Prelude.{
  ℕ, String, ◌≡◌, ◌⊎◌, true, some, Option-cases, arith, eq_iff, inl, inr, [], refl, if◌then◌else◌,
  ◌==◌,
}
use baijimu_codex_connector.Json.{Value, lookup, index, as_str, as_u64, is_str, unwrap_or}
use baijimu_codex_connector.Ipc.Session.{Session, close, try_send}
use baijimu_codex_connector.Ipc.Receive.{
  judge, apply_change, broadcast, recorded, is_num, str_opt_eq, Verdict, closing, deliver,
  discovery_refusal, dropped, next_u64, receive, request_refusal, settle, record_event,
  store_snapshot, Owners,
}

close-snapshots :
    (message : String) (s : Session)
    → ((close message s).snapshots ≡ []) ⊎ ((close message s).snapshots ≡ s.snapshots)
unfolding close
close-snapshots message s = ground arith

abbrev pub Snapshot : Type 0
Snapshot = ℕ × Value

-- A broadcast that carries a snapshot of the thread: a state change of stream version 11, of the local
-- host, whose source is what this owner table has for the thread. That is the recorded owner, or, where
-- none is recorded, no source at all.
pub record Trusted (v : Value) (owners : Owners) (thread : String) (snap : Snapshot) : Type 0 where
  pub told : is_str (index "type" v) "broadcast" ≡ true
  pub changed : is_str (index "method" v) "thread-stream-state-changed" ≡ true
  pub version : is_num (index "version" v) 11 ≡ true
  pub host : is_str (index "hostId" (index "params" v)) "local" ≡ true
  pub subject : as_str (index "conversationId" (index "params" v)) ≡ some thread
  pub owner : str_opt_eq (lookup thread owners) (as_str (index "sourceClientId" v)) ≡ true
  pub kind : is_str (index "type" (index "change" (index "params" v))) "snapshot" ≡ true
  pub revision : as_u64 (index "revision" (index "change" (index "params" v))) ≡ some snap.0
  pub state : index "conversationState" (index "change" (index "params" v)) ≡ snap.1

apply_change-Trusted :
    (v : Value) (owners : Owners) (s t : Session) (id thread : String) (snap : Snapshot)
    → is_str (index "type" v) "broadcast" ≡ true
    → is_str (index "method" v) "thread-stream-state-changed" ≡ true
    → is_num (index "version" v) 11 ≡ true
    → is_str (index "hostId" (index "params" v)) "local" ≡ true
    → as_str (index "conversationId" (index "params" v)) ≡ some id
    → apply_change id v owners s ≡ recorded t
    → lookup thread t.snapshots ≡ some snap
    → (lookup thread s.snapshots ≡ some snap) ⊎ Trusted v owners thread snap
unfolding apply_change
apply_change-Trusted v owners s t id thread snap a b c d e f g =
    let change = index "change" (index "params" v) in
    elim (Option-cases (as_u64 (index "revision" change))) [
      | inl missing ↦ ground arith
      | inr (rev, there) ↦
          let state = index "conversationState" change in
          ground (arith, eq_iff id thread, lookup-insert {0} id thread (rev, state) s.snapshots)
    ]

judge-Trusted :
    (v : Value) (owners : Owners) (s t : Session) (thread : String) (snap : Snapshot)
    → is_str (index "type" v) "broadcast" ≡ true
    → judge v owners s ≡ recorded t
    → lookup thread t.snapshots ≡ some snap
    → (lookup thread s.snapshots ≡ some snap) ⊎ Trusted v owners thread snap
unfolding judge
judge-Trusted v owners s t thread snap a e g =
    elim (Option-cases (as_str (index "conversationId" (index "params" v)))) [
      | inl none_there ↦ ground arith
      | inr (id, there) ↦ ground (arith, apply_change-Trusted v owners s t id thread snap)
    ]

settle-Trusted :
    (size : Value → ℕ) (now : String) (v : Value) (owners : Owners) (s : Session) (thread : String)
    (snap : Snapshot) (j : Verdict)
    → judge v owners s ≡ j
    → is_str (index "type" v) "broadcast" ≡ true
    → lookup thread (settle size now v s j).snapshots ≡ some snap
    → (lookup thread s.snapshots ≡ some snap) ⊎ Trusted v owners thread snap
unfolding settle lookup record_event
settle-Trusted size now v owners s thread snap (closing message) e a h =
    ground (arith, close-snapshots message s)
settle-Trusted size now v owners s thread snap dropped e a h = inl h
settle-Trusted size now v owners s thread snap (recorded t) e a h =
    judge-Trusted v owners s t thread snap a e h

abbrev Explained : Value → Owners → Session → String → Snapshot → Session → Type 0
Explained v owners s thread snap t =
    lookup thread t.snapshots ≡ some snap
    → (lookup thread s.snapshots ≡ some snap) ⊎ Trusted v owners thread snap

-- A snapshot that the session holds after a frame was there before, or the frame is a broadcast that
-- carries it, of the right version and host, and whose source is the owner that the table it was checked
-- against has for the thread; or that table has none and the broadcast names no source.
pub receive-Trusted :
    (size : Value → ℕ) (now : String) (v : Value) (owners : Owners) (s : Session) (thread : String)
    (snap : Snapshot)
    → lookup thread (receive size now v owners s).snapshots ≡ some snap
    → (lookup thread s.snapshots ≡ some snap) ⊎ Trusted v owners thread snap
unfolding deliver try_send broadcast
receive-Trusted size now v owners s thread snap =
    receive_cases size (Explained v owners s thread snap) now v owners s (λ h. inl h)
      (λ _ id _. kept id) (sent (discovery_refusal v)) (sent (request_refusal v))
      (λ a h. settle-Trusted size now v owners s thread snap (judge v owners s) refl a h)
  where
    kept : (id : String) → Explained v owners s thread snap (deliver id v s)
    kept id h = ground arith

    sent : (m : Value) → Explained v owners s thread snap (try_send m s)
    sent m h = ground arith

judge-store_snapshot :
    (v : Value) (owners : Owners) (s : Session) (thread : String) (snap : Snapshot)
    → Trusted v owners thread snap
    → judge v owners s ≡ recorded (store_snapshot thread snap.0 snap.1 s)
unfolding judge apply_change
judge-store_snapshot v owners s thread snap k = ground (
  arith,
  is_str-ne (index "method" v) "thread-stream-state-changed" "ipc-connection-reset",
  eq_iff "thread-stream-state-changed" "ipc-connection-reset",
)

-- A broadcast that carries a snapshot and passes the checks replaces the thread's snapshot, leaves those of
-- the other threads alone, and moves the thread's serial on by one.
pub receive-stores :
    (size : Value → ℕ) (now : String) (v : Value) (owners : Owners) (s : Session) (thread : String)
    (snap : Snapshot)
    → Trusted v owners thread snap
    → ((other : String)
        → lookup other (receive size now v owners s).snapshots
          ≡ (if thread == other then some snap else lookup other s.snapshots))
      × (lookup thread (receive size now v owners s).snapshot_serial
          ≡ some (next_u64 (unwrap_or (lookup thread s.snapshot_serial) 0)))
unfolding broadcast settle record_event store_snapshot
receive-stores size now v owners s thread snap k =
    rw
      (
        receive-broadcast size now v owners s k.told,
        broadcast,
        judge-store_snapshot v owners s thread snap k,
      )
      (
        λ other. lookup-insert {0} thread other snap s.snapshots,
        lookup-insert_self {0} thread _ s.snapshot_serial,
      )
