-- ===== src/Examples/Waits.antt =====
-- The client of src/desktop_ipc.rs at concrete inputs: reading metadata, following, polling events.
use baijimu_codex_connector.Ipc.Session.{Session}
use baijimu_codex_connector.Ipc.Receive.{total}
use baijimu_codex_connector.Ipc.Call.{frame, owner}
use baijimu_codex_connector.Http.{Http}
use baijimu_codex_connector.Json.{Object, Value, index, list, lookup, num, obj, string}
use baijimu_codex_connector.Prelude.{
  List, String, [], arith, inr, length, max, min, none, ok, refl, some, suc, ℕ, ◌-◌, ◌<◌, ◌∷◌, ◌≡◌,
}
use baijimu_codex_connector.Examples.Session.{idle, unit_size}
use baijimu_codex_connector.Examples.Calls.{discovered, program}
use baijimu_codex_connector.Ipc.Reading.{
  Wake, metadata, metadata_result, read_metadata, await_snapshot, pick, run, serial_of,
  without_history,
}
use baijimu_codex_connector.Ipc.Window.{window}
use baijimu_codex_connector.Ipc.Window.Events.{window-Run}
use baijimu_codex_connector.Ipc.Reading.Waiting.{read_metadata_fresh, read_metadata_total}
use baijimu_codex_connector.Ipc.Receive.Events.{EventsHold, Run}

abbrev numbered : ℕ → Value
numbered n = obj (("sequence", num n) ∷ [])

abbrev busy : Session
busy = record idle { latest = 9; events = numbered 8 ∷ numbered 9 ∷ [] }

abbrev busy-EventsHold : EventsHold unit_size busy
unfolding total index lookup
busy-EventsHold = record {
  fits = record { few = omega arith; small = omega arith };
  numbered = record { first = 8; run = (refl, (refl, tt)); ends = omega arith };
}

window-Run_example :
    Run (max 8 (suc 8)) (window 8 5 busy.events)
    × (length (window 8 5 busy.events) ≡ min 5 (suc 9 - max 8 (suc 8)))
unfolding total index lookup
window-Run_example = window-Run unit_size 8 5 busy busy-EventsHold

-- A wake-up that brings a snapshot, and one at the deadline.
abbrev object_frame : Value
object_frame = obj (
    ("type", string "broadcast")
    ∷ ("method", string "thread-stream-state-changed")
    ∷ ("version", num 11)
    ∷ ("sourceClientId", string "owner-a")
    ∷ (
      "params",
      obj (
          ("hostId", string "local")
          ∷ ("conversationId", string "task-a")
          ∷ (
            "change",
            obj (
                ("type", string "snapshot")
                ∷ ("revision", num 6)
                ∷ ("conversationState", obj (("id", string "task-a") ∷ ("turns", list []) ∷ []))
                ∷ []),
          )
          ∷ []),
    )
    ∷ [])

abbrev wakes : List Wake
wakes =
    record { now = 3; during = frame "now" object_frame ∷ [] }
    ∷ record { now = 20; during = [] }
    ∷ []

read_metadata_total_example :
    (r : Http Value × Session) × (read_metadata unit_size "q" "task-a" 10 2 discovered wakes idle
      ≡ some r)
read_metadata_total_example =
    read_metadata_total unit_size "q" "task-a" 10 2 discovered wakes idle (inr (inr (omega arith)))

abbrev after_read : Session
after_read = elim (read_metadata unit_size "q" "task-a" 10 2 discovered wakes idle) [
  | none ↦ idle
  | some r ↦ r.1
]

abbrev task_metadata : Value
task_metadata = obj (
    ("thread", obj (("id", string "task-a") ∷ []))
    ∷ ("revision", num 6)
    ∷ ("ownerClientId", string "owner-a")
    ∷ ("transport", string "desktop-ipc")
    ∷ [])

read_metadata_fresh_example :
    (o : String) × (snap : ℕ × Value) × ((owner unit_size "q" "task-a" 10 discovered idle).0 ≡ ok o)
    × (serial_of "task-a" (owner unit_size "q" "task-a" 10 discovered idle).1
        < serial_of "task-a" after_read)
    × (lookup "task-a" after_read.snapshots ≡ some snap)
    × (metadata_result o snap ≡ ok task_metadata)
unfolding program read_metadata await_snapshot run metadata_result metadata without_history pick
read_metadata_fresh_example =
    read_metadata_fresh unit_size "q" "task-a" 10 2 discovered wakes idle after_read task_metadata
      refl

abbrev thread_fields : Object
thread_fields = ("turns", list (num 1 ∷ [])) ∷ ("id", string "task-a") ∷ []
