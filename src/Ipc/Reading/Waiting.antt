-- ===== src/Ipc/Reading/Waiting.antt =====
-- The waits for a snapshot: they end by the deadline, and what they return was accepted.
use baijimu_codex_connector.Ipc.Call.{Event, owner}
use baijimu_codex_connector.Ipc.Reading.{
  Wake, await_snapshot, run, metadata_result, read_metadata, serial_of, following, fresh,
}
use baijimu_codex_connector.Http.{Http, HttpError}
use baijimu_codex_connector.Json.{Value, lookup}
use baijimu_codex_connector.Prelude.{
  List, Option, String, [], ok, some, ℕ, ◌∷◌, ◌≡◌, ◌≤◌, ◌⊎◌, Option-cases, arith, inl, inr, none,
  ◌+◌, ◌<◌, ◌≢◌, Result-cases, err, refl,
}
use baijimu_codex_connector.Ipc.Session.{Session, send}

-- The deadline has passed at the time given, or at one of the wake-ups.
abbrev pub Reaches : ℕ → ℕ → List Wake → Type 0
Reaches deadline now [] = deadline ≤ now
Reaches deadline now (w ∷ ws) = (deadline ≤ now) ⊎ Reaches deadline w.now ws

module _ (size : Value → ℕ) (accept : Session → Option (ℕ × Value))
    (answer : ℕ × Value → Http Value) (gone late : String) (deadline : ℕ) where
  await_snapshot-ne-none :
      (now : ℕ) (ws : List Wake) (s : Session)
      → Reaches deadline now ws
      → await_snapshot size accept answer gone late deadline now ws s ≢ none
  unfolding await_snapshot
  await_snapshot-ne-none now [] s h = ground arith
  await_snapshot-ne-none now (w ∷ ws) s h =
      ground (arith, await_snapshot-ne-none w.now ws (run size w.during s))

  -- A wait whose schedule reaches the deadline returns.
  await_snapshot_total :
      (now : ℕ) (ws : List Wake) (s : Session)
      → Reaches deadline now ws
      → (r : Http Value × Session) × (await_snapshot size accept answer gone late deadline now ws s
          ≡ some r)
  await_snapshot_total now ws s h =
      elim (Option-cases (await_snapshot size accept answer gone late deadline now ws s)) [
        | inl stuck ↦ absurd (await_snapshot-ne-none now ws s h stuck)
        | inr returned ↦ returned
      ]

  -- What it returns was accepted in the state that it returns in.
  await_snapshot_sound :
      (now : ℕ) (ws : List Wake) (s t : Session) (x : Value)
      → await_snapshot size accept answer gone late deadline now ws s ≡ some (ok x, t)
      → (snap : ℕ × Value) × (accept t ≡ some snap) × (answer snap ≡ ok x)
  unfolding await_snapshot
  await_snapshot_sound now [] s t x h = elim (Option-cases (accept s)) [
    | inr (snap, e) ↦ (snap, ground arith, ground arith)
    | inl e ↦ ground arith
  ]
  await_snapshot_sound now (w ∷ ws) s t x h = elim (Option-cases (accept s)) [
    | inr (snap, e) ↦ (snap, ground arith, ground arith)
    | inl e ↦ await_snapshot_sound w.now ws (run size w.during s) t x (ground arith)
  ]

-- The two early ends of `read_metadata`, or its wait.
read_metadata_cases {ℓ} :
    (size : Value → ℕ) (P : Option (Http Value × Session) → Type ℓ) (id thread : String)
    (timeout now : ℕ) (schedule : List Event) (wakes : List Wake) (s : Session)
    → let s1 = (owner size id thread timeout schedule s).1 in
      ((e : HttpError) (t : Session) → P (some (err e, t)))
      → ((o : String) (s2 : Session)
          → (owner size id thread timeout schedule s).0 ≡ ok o
          → P (
              await_snapshot size
                (fresh thread (serial_of thread s1))
                (metadata_result o)
                "desktop disconnected during metadata read"
                "desktop did not deliver current metadata snapshot"
                (now + timeout)
                now
                wakes
                s2))
      → P (read_metadata size id thread timeout now schedule wakes s)
unfolding read_metadata
read_metadata_cases size P id thread timeout now schedule wakes s failed waits =
    elim (Result-cases (owner size id thread timeout schedule s).0) [
      | inr (e, a) ↦ rw (a, read_metadata) (failed e _)
      | inl (o, a) ↦
          elim (Result-cases (
            send (following (owner size id thread timeout schedule s).1.id o thread)
              (owner size id thread timeout schedule s).1)) [
                | inr (e, b) ↦ rw (a, read_metadata) (rw b (failed e _))
                | inl (s2, b) ↦ rw (a, read_metadata) (rw b (waits o s2 a))
              ]
    ]

fresh_lem :
    (thread : String) (before : ℕ) (t : Session) (snap : ℕ × Value)
    → fresh thread before t ≡ some snap
    → (before < serial_of thread t) × (lookup thread t.snapshots ≡ some snap)
fresh_lem thread before t snap h = ground arith

-- `read_metadata` returns once the wake-ups reach the deadline, whatever else happens.
pub read_metadata_total :
    (size : Value → ℕ) (id thread : String) (timeout now : ℕ) (schedule : List Event)
    (wakes : List Wake) (s : Session)
    → Reaches (now + timeout) now wakes
    → (r : Http Value × Session) × (read_metadata size id thread timeout now schedule wakes s
        ≡ some r)
read_metadata_total size id thread timeout now schedule wakes s h =
    read_metadata_cases size (λ m. (r : Http Value × Session) × (m ≡ some r)) id thread timeout now
      schedule wakes s (λ e t. ((err e, t), refl))
      (λ o s2 _. await_snapshot_total size _ _ _ _ (now + timeout) now wakes s2 h)

-- A metadata result is that of a snapshot which the session stored after the request: the serial of
-- the thread has moved on since the owner was found, and the snapshot is the one held at the end.
pub read_metadata_fresh :
    (size : Value → ℕ) (id thread : String) (timeout now : ℕ) (schedule : List Event)
    (wakes : List Wake) (s t : Session) (x : Value)
    → read_metadata size id thread timeout now schedule wakes s ≡ some (ok x, t)
    → (o : String) × (snap : ℕ × Value) × ((owner size id thread timeout schedule s).0 ≡ ok o)
      × (serial_of thread (owner size id thread timeout schedule s).1 < serial_of thread t)
      × (lookup thread t.snapshots ≡ some snap)
      × (metadata_result o snap ≡ ok x)
read_metadata_fresh size id thread timeout now schedule wakes s t x =
    read_metadata_cases size
      (λ m.
        m ≡ some (ok x, t)
        → (o : String) × (snap : ℕ × Value) × ((owner size id thread timeout schedule s).0 ≡ ok o)
          × (serial_of thread (owner size id thread timeout schedule s).1 < serial_of thread t)
          × (lookup thread t.snapshots ≡ some snap)
          × (metadata_result o snap ≡ ok x))
      id thread timeout now schedule wakes s (λ e u h. cc h)
      (λ o s2 a h.
        let (snap, b, c) = await_snapshot_sound size _ _ _ _ (now + timeout) now wakes s2 t x h in
        let (moved, held) = fresh_lem thread _ t snap b in (o, snap, a, moved, held, c))
