-- ===== src/Examples/Session.antt =====
-- The stream and the session of src/desktop_ipc.rs at concrete inputs.
use baijimu_codex_connector.Json.{
  Value, index, insert, is_str, lookup, null, num, obj, string, unwrap_or,
}
use baijimu_codex_connector.Prelude.{
  Result, String, [], arith, codes, err, if◌then◌else◌, nat_eq, none, ok, refl, some, true, ℕ, ◌++◌,
  ◌==◌, ◌∷◌, ◌≡◌, ◌⊎◌, length,
}
use baijimu_codex_connector.Ipc.Frame.{Bytes, read_frame, u32_le, write_frame}
use baijimu_codex_connector.Ipc.Frame.RoundTrip.{read_frame-write_frame}
use baijimu_codex_connector.Ipc.Session.{Session, close}
use baijimu_codex_connector.Ipc.Session.Closing.{Ends, close-Ends}
use baijimu_codex_connector.Ipc.Receive.{
  receive, total, broadcast, judge, next_u64, record_event, settle,
}
use baijimu_codex_connector.Ipc.Receive.Events.{EventsHold, receive-EventsHold}
use baijimu_codex_connector.Ipc.Receive.Snapshots.{Trusted, receive-Trusted, receive-stores}

-- A reader and a printer that know the text `null` alone.
abbrev parse_null : Bytes → Result String Value
parse_null bytes = if nat_eq (length bytes) 4 then ok null else err "not null"

abbrev print_null : Value → Result String Bytes
print_null v = ok (codes "null")

abbrev null_wire : Bytes
null_wire = 4 ∷ 0 ∷ 0 ∷ 0 ∷ codes "null"

read_frame-write_frame_example :
    read_frame parse_null print_null (null_wire ++ 9 ∷ []) ≡ ok (null, 9 ∷ [])
unfolding write_frame u32_le
read_frame-write_frame_example =
    read_frame-write_frame parse_null print_null null (codes "null") null_wire (9 ∷ []) refl
      (omega arith) refl refl

abbrev pub idle : Session
idle = record {
  id = "me";
  alive = true;
  outgoing = [];
  written = [];
  pending = ("r", tt) ∷ [];
  mailbox = [];
  snapshots = [];
  snapshot_serial = [];
  owners = ("task-a", "owner-a") ∷ [];
  latest = 0;
  events = [];
  tasks = [];
  publisher = none;
}

close-Ends_example : Ends "bye" idle (close "bye" idle)
close-Ends_example = close-Ends "bye" idle refl

abbrev pub unit_size : Value → ℕ
unit_size v = 1

idle-EventsHold : EventsHold unit_size idle
unfolding total
idle-EventsHold = record {
  fits = record { few = omega arith; small = omega arith };
  numbered = record { first = 1; run = tt; ends = omega arith };
}

abbrev pub snapshot_frame : Value
snapshot_frame = obj (
    ("type", string "broadcast")
    ∷ ("method", string "thread-stream-state-changed")
    ∷ ("version", num 11)
    ∷ ("sourceClientId", string "owner-a")
    ∷ (
      "params",
      obj (
          ("hostId", string "local")
          ∷ ("conversationId", string "task-a")
          ∷ (
            "change",
            obj (
                ("type", string "snapshot")
                ∷ ("revision", num 6)
                ∷ ("conversationState", null)
                ∷ []),
          )
          ∷ []),
    )
    ∷ [])

receive-EventsHold_example :
    EventsHold unit_size (receive unit_size "now" snapshot_frame idle.owners idle)
receive-EventsHold_example =
    receive-EventsHold unit_size "now" snapshot_frame idle.owners idle (omega arith) idle-EventsHold

snapshot-Trusted : Trusted snapshot_frame idle.owners "task-a" (6, null)
unfolding index is_str lookup
snapshot-Trusted = record {
  told = refl;
  changed = refl;
  version = refl;
  host = refl;
  subject = refl;
  owner = refl;
  kind = refl;
  revision = refl;
  state = refl;
}

receive-Trusted_example :
    (lookup "task-a" idle.snapshots ≡ some (6, null))
    ⊎ Trusted snapshot_frame idle.owners "task-a" (6, null)
unfolding receive broadcast judge settle record_event index is_str lookup insert
receive-Trusted_example =
    receive-Trusted unit_size "now" snapshot_frame idle.owners idle "task-a" (6, null) refl

receive-stores_example :
    ((other : String)
      → lookup other (receive unit_size "now" snapshot_frame idle.owners idle).snapshots
        ≡ (if "task-a" == other then some (6, null) else lookup other idle.snapshots))
    × (lookup "task-a" (receive unit_size "now" snapshot_frame idle.owners idle).snapshot_serial
        ≡ some (next_u64 (unwrap_or (lookup "task-a" idle.snapshot_serial) 0)))
receive-stores_example =
    receive-stores unit_size "now" snapshot_frame idle.owners idle "task-a" (6, null)
      snapshot-Trusted
