-- ===== src/Invoke/Dispatch/Guarded.antt =====
-- The answer to a pending request with the client that sends it.
use baijimu_codex_connector.Http.{new, Http, HttpError}
use baijimu_codex_connector.Prelude.{
  inl, inr, subst, sym, true, ok_or, ap, ◌∙◌, refl, some, All, Bool, List, String, [], err, ok, suc,
  ℕ, ◌≡◌, ◌≢◌,
}
use baijimu_codex_connector.Json.{Value, as_object, index, insert, obj, string, unwrap_or}
use baijimu_codex_connector.Invoke.Desktop.{Desktop, answer, request_id_of, and_then, lift}
use baijimu_codex_connector.Invoke.Desktop.Answer.{answer-CalledFor}
use baijimu_codex_connector.Invoke.Dispatch.{respond}
use baijimu_codex_connector.Invoke.Input.{required}
use baijimu_codex_connector.Ipc.Lifecycle.{follower_for_owner}
use baijimu_codex_connector.Ipc.Follower.Following.{
  follower_checked_guard, follower_checked_called, owner-cases,
}
use baijimu_codex_connector.Ipc.Call.{Event, owner, request, rpc}
use baijimu_codex_connector.Ipc.Call.Counting.{Foreign, sent}
use baijimu_codex_connector.Ipc.Session.{Session}

-- The identifiers of a discovery and of the request after it, and what the desktop does meanwhile.
pub record Exchange : Type 0 where
  pub discovery_id : String
  pub request_id : String
  pub discovering : List Event
  pub requesting : List Event

-- A session, and the exchanges that it is going to have.
pub record World : Type 0 where
  pub session : Session
  pub count : ℕ
  pub exchanges : ℕ → Exchange

abbrev pub upcoming : World → Exchange
upcoming w = w.exchanges w.count

and_then-ok :
    {S A B : Type 0} (m : S → Http A × S) (next : A → S → Http B × S) (s : S) {a : A} {t : S}
    → m s ≡ (ok a, t)
    → and_then m next s ≡ next a t
and_then-ok {S = S} {B = B} m next s h =
    ap (λ p. elim p.0 as (λ _. Http B × S) [ ok a ↦ next a p.1 | err e ↦ (err e, p.1) ]) h

-- The request of a call with a target names it.
request_target :
    (id source method : String) (version : ℕ) (params : Value) (target : String) (timeout : ℕ)
    → index "targetClientId" (request id source method version params (some target) timeout)
      ≡ string target
unfolding request index insert
request_target id source method version params target timeout = refl

module _ (size : Value → ℕ) (timeout : ℕ) where
  abbrev pub found_by : String → World → Http String × Session
  found_by thread w =
      owner size (upcoming w).discovery_id thread timeout (upcoming w).discovering w.session

  abbrev pub on_thread : String → Value → Value
  on_thread thread params =
      obj (insert "conversationId" (string thread) (unwrap_or (as_object params) []))

  -- The result and the session are those of the call to this owner, after the discovery.
  abbrev pub Called : String → String → ℕ → Value → String → World → Http Value × World → Type 0
  Called thread method version params wanted w r =
      ◌≡◌ {A = Http Value × Session} (r.0, r.1.session)
        (rpc size (upcoming w).request_id method version (on_thread thread params) (some wanted)
          timeout true (upcoming w).requesting (found_by thread w).1)

  -- How a response ends once the state has been read.
  pub data Responded (eq : Value → Value → Bool) (body : Value) (thread : String)
      (asked read : Value) (w : World) (r : Http Value × World) : Type 0 where
    unanswered :
        (e : HttpError)
        → answer eq body asked read ≡ err e
        → sent (upcoming w).request_id r.1.session ≡ sent (upcoming w).request_id w.session
        → Responded eq body thread asked read w r
    withheld :
        (a : String × Value × String)
        → answer eq body asked read ≡ ok a
        → required read "ownerClientId" ≡ ok a.2
        → (found_by thread w).0 ≢ ok a.2
        → sent (upcoming w).request_id r.1.session ≡ sent (upcoming w).request_id w.session
        → Responded eq body thread asked read w r
    called :
        (a : String × Value × String)
        → answer eq body asked read ≡ ok a
        → required read "ownerClientId" ≡ ok a.2
        → (found_by thread w).0 ≡ ok a.2
        → index "targetClientId" (
            request
              (upcoming w).request_id
              (found_by thread w).1.id
              a.0
              1
              (on_thread thread a.1)
              (some a.2)
              timeout)
          ≡ string a.2
        → Called thread a.0 1 a.1 a.2 w r
        → Responded eq body thread asked read w r

module _ (size : Value → ℕ) (timeout : ℕ) where
  -- `DesktopClient::follower_for_owner` on the session of a world.
  unfoldable pub follow : String → String → ℕ → Value → String → World → Http Value × World
  unfolding follower_for_owner
  follow thread method version params wanted w =
      let e = upcoming w in
      let (r, s) =
        follower_for_owner size e.discovery_id e.request_id thread method version
          (unwrap_or (as_object params) []) wanted timeout e.discovering e.requesting w.session in
      (r, record w { session = s; count = suc w.count })

  abbrev pub on_session : Desktop World → Desktop World
  on_session desktop = record desktop { follower_for_owner = follow }

  follow_guard :
      (thread method : String) (version : ℕ) (params : Value) (wanted : String) (w : World)
      → All (Foreign (upcoming w).request_id) (upcoming w).discovering
      → (upcoming w).discovery_id ≢ (upcoming w).request_id
      → (owner size (upcoming w).discovery_id thread timeout (upcoming w).discovering w.session).0
        ≢ ok wanted
      → sent (upcoming w).request_id (follow thread method version params wanted w).1.session
        ≡ sent (upcoming w).request_id w.session
  unfolding follow follower_for_owner
  follow_guard thread method version params wanted w hs n other =
      follower_checked_guard size (upcoming w).discovery_id (upcoming w).request_id thread method
        version (unwrap_or (as_object params) []) wanted timeout (upcoming w).discovering
        (upcoming w).requesting w.session hs n other

  follow-Called :
      (thread method : String) (version : ℕ) (params : Value) (wanted : String) (w : World)
      → (owner size (upcoming w).discovery_id thread timeout (upcoming w).discovering w.session).0
        ≡ ok wanted
      → Called size timeout thread method version params wanted w
          (follow thread method version params wanted w)
  unfolding follow follower_for_owner
  follow-Called thread method version params wanted w found =
      follower_checked_called size (upcoming w).discovery_id (upcoming w).request_id thread method
        version (unwrap_or (as_object params) []) wanted timeout (upcoming w).discovering
        (upcoming w).requesting w.session found

  module _ (desktop : Desktop World) (eq : Value → Value → Bool) (body : Value) (thread : String)
      (asked read : Value) (w : World) where
    -- What a response does after the state has been read.
    abbrev finish : Http (String × Value × String) → World → Http Value × World
    finish r = and_then (lift r) (λ a. follow thread a.0 1 a.1 a.2)

    abbrev after_read : String → Value → Value → World → Http Value × World
    after_read id request_id found =
        and_then (lift (answer eq body request_id found)) (λ a. follow id a.0 1 a.1 a.2)

    abbrev after_id : String → Value → World → Http Value × World
    after_id id request_id = and_then (desktop.read_metadata id) (after_read id request_id)

    abbrev after_thread : String → World → Http Value × World
    after_thread id =
        and_then (lift (ok_or (request_id_of body) (new 400 "requestId required"))) (after_id id)

    responding :
        (before : World)
        → required body "threadId" ≡ ok thread
        → request_id_of body ≡ some asked
        → desktop.read_metadata thread before ≡ (ok read, w)
        → respond (on_session desktop) eq body before ≡ finish (answer eq body asked read) w
    unfolding respond
    responding before at_thread at_id at_read =
        and_then-ok (lift (required body "threadId")) after_thread before
          (ap (λ r. (r, before)) at_thread)
        ∙ and_then-ok (lift (ok_or (request_id_of body) (new 400 "requestId required")))
            (after_id thread) before
            (ap (λ o. (ok_or o (new 400 "requestId required"), before)) at_id)
        ∙ and_then-ok (desktop.read_metadata thread) (after_read thread asked) before at_read

    finish-Responded :
        (r : Http (String × Value × String))
        → answer eq body asked read ≡ r
        → All (Foreign (upcoming w).request_id) (upcoming w).discovering
        → (upcoming w).discovery_id ≢ (upcoming w).request_id
        → Responded size timeout eq body thread asked read w (finish r w)
    finish-Responded (err e) at hs n = unanswered e at refl
    finish-Responded (ok a) at hs n =
        let owned = (answer-CalledFor eq body asked read a at).owner in
        elim (owner-cases size (upcoming w).discovery_id thread timeout (upcoming w).discovering
          w.session a.2) [
            | inl found ↦
                called a at owned found (request_target _ _ a.0 1 _ a.2 timeout)
                  (follow-Called thread a.0 1 a.1 a.2 w found)
            | inr other ↦ withheld a at owned other (follow_guard thread a.0 1 a.1 a.2 w hs n other)
          ]

-- An answer to a pending request, whose thread and request are named, goes out only to the owner that the
-- state of the request was read from. It may be refused, or the discovery before it fails or finds
-- another owner, and then no request is sent under the answer's id, whatever the desktop does meanwhile
-- under other ids; or the discovery finds that owner, and then the result is that of the call whose
-- request names it as the target.
pub respond-Guarded :
    (size : Value → ℕ) (timeout : ℕ) (desktop : Desktop World) (eq : Value → Value → Bool)
    (body : Value) (thread : String) (asked read : Value) (before w : World)
    → required body "threadId" ≡ ok thread
    → request_id_of body ≡ some asked
    → desktop.read_metadata thread before ≡ (ok read, w)
    → All (Foreign (upcoming w).request_id) (upcoming w).discovering
    → (upcoming w).discovery_id ≢ (upcoming w).request_id
    → Responded size timeout eq body thread asked read w
        (respond (on_session size timeout desktop) eq body before)
respond-Guarded size timeout desktop eq body thread asked read before w at_thread at_id at_read hs
      n =
    subst (Responded size timeout eq body thread asked read w)
      (sym (
        responding size timeout desktop eq body thread asked read w before at_thread at_id at_read))
      (finish-Responded size timeout desktop eq body thread asked read w (answer eq body asked read)
        refl hs n)
