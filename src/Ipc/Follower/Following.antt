-- ===== src/Ipc/Follower/Following.antt =====
-- What a metadata response leaves out, and when a follower request goes out.
use baijimu_codex_connector.Ipc.Reading.{
  is_history, last_turn, metadata, pick, turn_keys, without_history,
}
use baijimu_codex_connector.Ipc.Follower.{follower_checked}
use baijimu_codex_connector.Ipc.Call.Counting.{Foreign, sent, owner-Foreign}
use baijimu_codex_connector.Ipc.Call.{Event, owner, rpc}
use baijimu_codex_connector.Json.Laws.{lookup-insert}
use baijimu_codex_connector.Json.{Object, Value, insert, lookup, obj, string}
use baijimu_codex_connector.Prelude.{
  ◌⊎◌, eq_refl, true, All, List, Option-cases, String, [], arith, eq_iff, false, if◌then◌else◌, inl,
  inr, none, refl, ℕ, ◌∙◌, ◌∷◌, ◌≡◌, ◌≢◌, Bool-cases, Result-cases, ap, ok, some, sym, ◌==◌,
}
use baijimu_codex_connector.Ipc.Session.{Session}

lookup-without_history :
    (k : String) (fs : Object)
    → lookup k (without_history fs) ≡ (if is_history k then none else lookup k fs)
unfolding without_history lookup
lookup-without_history k [] = ground arith
lookup-without_history k ((j, v) ∷ fs) = ground (
  arith,
  eq_iff j k,
  eq_iff j "turns",
  eq_iff j "turnHistory",
  eq_iff k "turns",
  eq_iff k "turnHistory",
  lookup-without_history k fs,
)

latest_plain : is_history "latestTurn" ≡ false
latest_plain = refl

-- The historical fields never reach a metadata response; of the others only `latestTurn` may differ
-- from the snapshot's.
pub lookup-metadata :
    (k : String) (fs : Object)
    → k ≢ "latestTurn"
    → lookup k (metadata fs) ≡ (if is_history k then none else lookup k fs)
unfolding metadata
lookup-metadata k fs n = elim (Option-cases (last_turn fs)) [
  | inl e ↦ rw (e, metadata) (lookup-without_history k fs)
  | inr (turn, e) ↦
      rw (e, metadata)
        (ground (
          arith,
          eq_iff "latestTurn" k,
          lookup-insert {0} "latestTurn" k (obj (pick turn_keys turn)) (without_history fs),
          lookup-without_history k fs,
        ))
]

-- A mutation for a given owner goes out only to that owner: where the discovery finds another one,
-- or fails, no request is sent under the mutation's id.
pub follower_checked_guard :
    (size : Value → ℕ) (id id' thread method : String) (version : ℕ) (params : Object)
    (wanted : String) (timeout : ℕ) (schedule schedule' : List Event) (s : Session)
    → All (Foreign id') schedule
    → id ≢ id'
    → (owner size id thread timeout schedule s).0 ≢ ok wanted
    → sent id'
        (follower_checked size id id' thread method version params
          (some wanted)
          timeout
          schedule
          schedule'
          s).1
      ≡ sent id' s
unfolding follower_checked
follower_checked_guard size id id' thread method version params wanted timeout schedule schedule' s
      hs n other =
    let quiet = owner-Foreign size id id' thread timeout schedule s hs n in
    elim (Result-cases (owner size id thread timeout schedule s).0) [
      | inr (e, a) ↦ rw (a, follower_checked) quiet
      | inl (o, a) ↦ elim (Bool-cases (wanted == o)) [
        | inl same ↦ absurd (other (a ∙ ap ok (sym ((eq_iff wanted o).0 same))))
        | inr differs ↦ rw (a, follower_checked) (rw differs quiet)
      ]
    ]

-- Where the discovery finds the given owner, the result is that of the call to it.
pub follower_checked_called :
    (size : Value → ℕ) (id id' thread method : String) (version : ℕ) (params : Object)
    (wanted : String) (timeout : ℕ) (schedule schedule' : List Event) (s : Session)
    → (owner size id thread timeout schedule s).0 ≡ ok wanted
    → follower_checked size id id' thread method version params
        (some wanted)
        timeout
        schedule
        schedule'
        s
      ≡ rpc size id' method version
          (obj (insert "conversationId" (string thread) params))
          (some wanted)
          timeout
          true
          schedule'
          (owner size id thread timeout schedule s).1
unfolding follower_checked
follower_checked_called size id id' thread method version params wanted timeout schedule schedule' s
      found =
    rw (found, follower_checked) (rw (eq_refl wanted) refl)

-- The discovery finds the given owner or does not.
pub owner-cases :
    (size : Value → ℕ) (id thread : String) (timeout : ℕ) (schedule : List Event) (s : Session)
    (wanted : String)
    → ((owner size id thread timeout schedule s).0 ≡ ok wanted)
      ⊎ ((owner size id thread timeout schedule s).0 ≢ ok wanted)
owner-cases size id thread timeout schedule s wanted =
    elim (Result-cases (owner size id thread timeout schedule s).0) [
      | inr (e, a) ↦ inr (λ b. cc (a, b))
      | inl (o, a) ↦ elim (Bool-cases (wanted == o)) [
        | inl same ↦ inl (a ∙ ap ok (sym ((eq_iff wanted o).0 same)))
        | inr differs ↦ inr (λ b. ground (arith, eq_iff wanted o, a, b, differs))
      ]
    ]
