-- ===== src/Ipc/Reading.antt =====
-- `read_metadata` and `read` of src/desktop_ipc.rs: following a thread and waiting for a snapshot. What
-- the desktop does meanwhile is the schedules of the waits.

pub mod Waiting
use baijimu_codex_connector.Ipc.Session.{Session, send}
use baijimu_codex_connector.Ipc.Call.{Event, owner, rpc, step}
use baijimu_codex_connector.Http.{Http, failure}
use baijimu_codex_connector.Json.{
  Object, Value, as_array, as_object, as_u64, bool, get, insert, list, lookup, num, obj, string,
  unwrap_or,
}
use baijimu_codex_connector.Prelude.{
  Bool, List, Option, String, [], err, false, if◌then◌else◌, last, leb, ltb, none, ok, ok_or, some,
  true, ℕ, ◌+◌, ◌==◌, ◌>>=◌, ◌||◌, ◌∷◌,
}

-- One round of a wait: what happened before the condition variable woke the caller, and the time.
pub record Wake : Type 0 where
  pub now : ℕ
  pub during : List Event

abbrev pub following : String → String → String → Value
following source owner thread = obj (
    ("type", string "broadcast")
    ∷ ("method", string "thread-stream-following-changed")
    ∷ ("version", num 1)
    ∷ ("sourceClientId", string source)
    ∷ ("targetClientIds", list (string owner ∷ []))
    ∷ (
      "params",
      obj (
          ("conversationId", string thread)
          ∷ ("hostId", string "local")
          ∷ ("following", bool true)
          ∷ []),
    )
    ∷ [])

-- The historical fields that a metadata response leaves out.
abbrev pub is_history : String → Bool
is_history k = k == "turns" || k == "turnHistory"

unfoldable pub without_history : Object → Object
without_history [] = []
without_history ((k, v) ∷ fs) =
    if is_history k then without_history fs else (k, v) ∷ without_history fs

-- The keys of a turn that are kept, in the source's order.
unfoldable pub pick : List String → Value → Object
pick [] turn = []
pick (k ∷ ks) turn = elim (get k turn) [ none ↦ pick ks turn | some v ↦ (k, v) ∷ pick ks turn ]

abbrev pub turn_keys : List String
turn_keys = "turnId" ∷ "id" ∷ "status" ∷ "startedAt" ∷ "completedAt" ∷ []

abbrev pub last_turn : Object → Option Value
last_turn fs = elim (lookup "turns" fs) [
  | none ↦ none
  | some v ↦ elim (as_array v) [ none ↦ none | some turns ↦ last turns ]
]

unfoldable pub metadata : Object → Object
metadata fs = elim (last_turn fs) [
  | none ↦ without_history fs
  | some turn ↦ insert "latestTurn" (obj (pick turn_keys turn)) (without_history fs)
]

unfoldable pub metadata_result : String → ℕ × Value → Http Value
unfolding failure
metadata_result owner (revision, value) = elim (as_object value) [
  | none ↦ err (failure "IPC_PROTOCOL_MISMATCH" "invalid desktop snapshot")
  | some fs ↦ ok (
      obj (
        ("thread", obj (metadata fs))
        ∷ ("revision", num revision)
        ∷ ("ownerClientId", string owner)
        ∷ ("transport", string "desktop-ipc")
        ∷ []))
]

unfoldable pub state_result : String → ℕ × Value → Http Value
state_result owner (revision, value) = ok (
    obj (
      ("thread", value)
      ∷ ("revision", num revision)
      ∷ ("ownerClientId", string owner)
      ∷ ("transport", string "desktop-ipc")
      ∷ []))

abbrev pub serial_of : String → Session → ℕ
serial_of thread s = unwrap_or (lookup thread s.snapshot_serial) 0

-- The snapshot that `read_metadata` accepts: any, once the thread's serial has moved on.
abbrev pub fresh : String → ℕ → Session → Option (ℕ × Value)
fresh thread before s = if ltb before (serial_of thread s) then lookup thread s.snapshots else none

-- The snapshot that `read` accepts: one of the revision asked for, or a later one.
abbrev pub recent : String → ℕ → Session → Option (ℕ × Value)
recent thread revision s = elim (lookup thread s.snapshots) [
  | none ↦ none
  | some snap ↦ if leb revision snap.0 then some snap else none
]

module _ (size : Value → ℕ) where
  unfoldable pub run : List Event → Session → Session
  run [] s = s
  run (e ∷ es) s = run es (step size e s)

  -- The loop of `read_metadata` and `read`: a snapshot that is accepted ends it, a dead session and
  -- the deadline end it with an error, and otherwise the caller sleeps until it is woken. `none`: the
  -- schedule is over and the caller still sleeps.
  unfoldable pub await_snapshot :
      (Session → Option (ℕ × Value))
      → (ℕ × Value → Http Value)
      → String
      → String
      → ℕ
      → ℕ
      → List Wake
      → Session
      → Option (Http Value × Session)
  unfolding failure
  await_snapshot accept answer gone late deadline now [] s = elim (accept s) [
    | some snap ↦ some (answer snap, s)
    | none ↦
        if s.alive
        then (if leb deadline now
            then some (err (failure "IPC_SNAPSHOT_TIMEOUT" late), s)
            else none)
        else some (err (failure "DESKTOP_IPC_DISCONNECTED" gone), s)
  ]
  await_snapshot accept answer gone late deadline now (w ∷ ws) s = elim (accept s) [
    | some snap ↦ some (answer snap, s)
    | none ↦
        let rest = await_snapshot accept answer gone late deadline w.now ws (run w.during s) in
        if s.alive
        then (if leb deadline now
            then some (err (failure "IPC_SNAPSHOT_TIMEOUT" late), s)
            else rest)
        else some (err (failure "DESKTOP_IPC_DISCONNECTED" gone), s)
  ]

  -- `read_metadata`, from the connected session on.
  unfoldable pub read_metadata :
      String → String → ℕ → ℕ → List Event → List Wake → Session → Option (Http Value × Session)
  read_metadata id thread timeout now schedule wakes s =
      let (discovered, s1) = owner size id thread timeout schedule s in
      elim discovered [
        | err e ↦ some (err e, s1)
        | ok o ↦ elim (send (following s1.id o thread) s1) [
          | err e ↦ some (err e, s1)
          | ok s2 ↦
              await_snapshot (fresh thread (serial_of thread s1)) (metadata_result o)
                "desktop disconnected during metadata read"
                "desktop did not deliver current metadata snapshot" (now + timeout) now wakes s2
        ]
      ]

  -- `read`, from the connected session on: two calls, each with its own id and schedule.
  unfoldable pub read :
      String
      → String
      → String
      → ℕ
      → ℕ
      → List Event
      → List Event
      → List Wake
      → Session
      → Option (Http Value × Session)
  unfolding failure
  read id id' thread timeout now schedule schedule' wakes s =
      let (discovered, s1) = owner size id thread timeout schedule s in
      elim discovered [
        | err e ↦ some (err e, s1)
        | ok o ↦ elim (send (following s1.id o thread) s1) [
          | err e ↦ some (err e, s1)
          | ok s2 ↦
              let (response, s3) =
                rpc size id' "thread-follower-load-complete-history" 1
                  (obj (("conversationId", string thread) ∷ [])) (some o) timeout false schedule'
                  s2 in
              elim (response >>= λ v.
              ok_or (elim (get "revision" v) [ none ↦ none | some r ↦ as_u64 r ])
                (failure "IPC_PROTOCOL_MISMATCH" "missing history revision")) [
                  | err e ↦ some (err e, s3)
                  | ok revision ↦
                      await_snapshot (recent thread revision) (state_result o)
                        "desktop disconnected during history read"
                        "desktop did not deliver requested snapshot" (now + timeout) now wakes s3
                ]
        ]
      ]
