-- ===== src/Ipc/Call/Owner.antt =====
-- Owner discovery: what a found owner means, and what it does to the session.
use baijimu_codex_connector.Ipc.Reading.{fresh, read}
use baijimu_codex_connector.Http.{Http, HttpError}
use baijimu_codex_connector.Ipc.Receive.{str_opt_eq}
use baijimu_codex_connector.Ipc.Call.Pending.{Heard, exchange-Heard}
use baijimu_codex_connector.Ipc.Call.{Event, discovery, exchange, owner, owner_of, set_owner}
use baijimu_codex_connector.Json.Laws.{lookup-insert_self, lookup-remove_self}
use baijimu_codex_connector.Json.{Value, as_str, index, is_str, is_true, lookup}
use baijimu_codex_connector.Prelude.{
  List, Option, String, arith, err, if◌then◌else◌, none, ok, refl, some, true, ℕ, ◌≡◌, >>=-eq-ok,
  Result-cases, ap, inl, inr, ◌>>=◌, ◌∙◌,
}
use baijimu_codex_connector.Ipc.Session.{Session, Reply}

-- The session after the discovery of `owner` for a thread that `t` (the session at the end of the
-- wait) knew or did not know: a snapshot is kept only if it came from the same owner.
pub record OwnerSet (thread owner : String) (t u : Session) : Type 0 where
  pub known : lookup thread u.owners ≡ some owner
  pub snapshot : lookup thread u.snapshots ≡ (
      if str_opt_eq (lookup thread t.owners) (some owner) then lookup thread t.snapshots else none)
  pub events : u.events ≡ t.events

set_owner-OwnerSet : (thread o : String) (t : Session) → OwnerSet thread o t (set_owner thread o t)
unfolding set_owner
set_owner-OwnerSet thread o t = record {
  known = ground (arith, lookup-insert_self {0} thread o t.owners);
  snapshot = ground (arith, lookup-remove_self {0} thread t.snapshots);
  events = ground arith;
}

-- A response that names an owner: a success that advertises untrusted app input.
pub record Accepts (v : Value) (owner : String) : Type 0 where
  pub success : is_str (index "resultType" v) "success" ≡ true
  pub named : as_str (index "handledByClientId" v) ≡ some owner
  pub supported : is_true (index "supportsUntrustedAppInput" (index "result" v)) ≡ true

owner_of-Accepts :
    (r : Option Reply) (o : String)
    → owner_of r ≡ ok o
    → (v : Value) × (r ≡ some (ok v)) × Accepts v o
unfolding owner_of
owner_of-Accepts none o h = cc h
owner_of-Accepts (some (err e)) o h = cc h
owner_of-Accepts (some (ok v)) o h = (v, refl, ground arith)

-- The owner is found only by a response to this discovery that arrived while it waited, reports
-- success and advertises untrusted app input; it is then recorded as the thread's owner, and the
-- thread's snapshot survives only if that owner was recorded already.
pub owner_sound :
    (size : Value → ℕ) (id thread : String) (timeout : ℕ) (schedule : List Event) (s : Session)
    (o : String)
    → lookup id s.mailbox ≡ none
    → (owner size id thread timeout schedule s).0 ≡ ok o
    → ((v : Value) × Heard id v schedule × Accepts v o)
      × OwnerSet thread o
          (exchange size id (discovery id s.id thread timeout) schedule s).1
          (owner size id thread timeout schedule s).1
unfolding owner
owner_sound size id thread timeout schedule s o fresh h =
    elim (Result-cases ((exchange size id wire schedule s).0 >>= owner_of)) [
      | inl (o', hit) ↦ rw (hit, owner) (finish o' hit (rw (hit, owner) at h))
      | inr (e, gone) ↦ absurd (failed e (rw (gone, owner) at h))
    ]
  where
    wire : Value
    wire = discovery id s.id thread timeout

    failed : (e : HttpError) → ◌≡◌ {A = Http String} (err e) (ok o) → ⊥
    failed e k = cc k

    finish :
        (o' : String)
        → ((exchange size id wire schedule s).0 >>= owner_of) ≡ ok o'
        → ◌≡◌ {A = Http String} (ok o') (ok o)
        → ((v : Value) × Heard id v schedule × Accepts v o)
          × OwnerSet thread o
              (exchange size id wire schedule s).1
              (set_owner thread o' (exchange size id wire schedule s).1)
    finish o' hit k =
        let same : o' ≡ o = cc k in
        let (r, got, read) = >>=-eq-ok (exchange size id wire schedule s).0 owner_of hit in
        let (v, there, accepts) = owner_of-Accepts r o' read in
        (
          (
            v,
            exchange-Heard size id wire schedule s v fresh (got ∙ ap ok there),
            rw (← same) accepts,
          ),
          rw (← same) (set_owner-OwnerSet thread o' _),
        )
