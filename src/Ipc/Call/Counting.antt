-- ===== src/Ipc/Call/Counting.antt =====
-- How often the frames of a session ask under an id, whatever happens while a call waits.

use baijimu_codex_connector.Ipc.Receive.Cases.{receive_cases}
use baijimu_codex_connector.Ipc.Receive.{
  Verdict, broadcast, closing, deliver, discovery_refusal, dropped, judge, receive, record_event,
  recorded, request_refusal, settle, Owners,
}
use baijimu_codex_connector.Ipc.Call.{
  Event, await, flush, flushed, owned, frame, joined, left, broken, queued, register, set_owner,
  step, unregister, exchange_cases, discovery, exchange, owner, owner_of, checked_before,
}
use baijimu_codex_connector.Json.{Value, index, is_str, lookup}
use baijimu_codex_connector.Prelude.{
  All, Bool, List, Option-cases, String, [], arith, false, if◌then◌else◌, inl, inr, ok, refl, suc,
  ℕ, ◌&&◌, ◌++◌, ◌+◌, ◌∙◌, ◌∷◌, ◌≡◌, Result-cases, eq_iff, ◌>>=◌, ◌≢◌,
}
use baijimu_codex_connector.Ipc.Session.{Session, close, send, try_send}

-- The frame is a request with the id.
unfoldable pub is_request : String → Value → Bool
is_request id v = is_str (index "type" v) "request" && is_str (index "requestId" v) id

unfoldable pub count_requests : String → List Value → ℕ
count_requests id [] = 0
count_requests id (v ∷ vs) =
    if is_request id v then suc (count_requests id vs) else count_requests id vs

-- How many requests with the id the session has put on the socket or in the queue.
unfoldable pub sent : String → Session → ℕ
sent id s = count_requests id s.written + count_requests id s.outgoing

-- The other calls use other ids.
abbrev pub Foreign : String → Event → Type 0
Foreign id (queued v) = is_request id v ≡ false
Foreign id _ = Unit {0}

pub count-append :
    (id : String) (xs ys : List Value)
    → count_requests id (xs ++ ys) ≡ count_requests id xs + count_requests id ys
unfolding count_requests
count-append id [] ys = omega arith
count-append id (x ∷ xs) ys = ground (arith, count-append id xs ys)

pub count_one :
    (id : String) (v : Value) → count_requests id (v ∷ []) ≡ (if is_request id v then 1 else 0)
unfolding count_requests
count_one id v = ground arith

try_send-sent :
    (id : String) (v : Value) (s : Session)
    → is_request id v ≡ false
    → sent id (try_send v s) ≡ sent id s
unfolding try_send sent
try_send-sent id v s h = ground (arith, count-append id s.outgoing (v ∷ []), count_one id v)

close-sent : (id message : String) (s : Session) → sent id (close message s) ≡ sent id s
unfolding close sent
close-sent id message s = ground arith

flush-sent :
    (id : String) (s : Session) (queue : List Value)
    → s.outgoing ≡ queue
    → sent id (flush s) ≡ sent id s
unfolding flush sent count_requests
flush-sent id s [] e = ground arith
flush-sent id s (v ∷ rest) e = ground (arith, count-append id s.written (v ∷ []), count_one id v)

-- What a verdict leaves of the frames that went out.
SameFrames : Session → Verdict → Type 0
SameFrames s (recorded t) = (t.outgoing ≡ s.outgoing) × (t.written ≡ s.written)
SameFrames s _ = Unit {0}

judge-SameFrames : (m : Value) (owners : Owners) (s : Session) → SameFrames s (judge m owners s)
unfolding judge SameFrames
judge-SameFrames m owners s = ground arith

settle-sent :
    (size : Value → ℕ) (id now : String) (m : Value) (s : Session) (j : Verdict)
    → SameFrames s j
    → sent id (settle size now m s j) ≡ sent id s
unfolding settle record_event SameFrames
settle-sent size id now m s (closing message) _ = close-sent id message s
settle-sent size id now m s dropped _ = refl
settle-sent size id now m s (recorded t) same = unfold sent in rw (same.0, same.1)

broadcast-sent :
    (size : Value → ℕ) (id now : String) (m : Value) (owners : Owners) (s : Session)
    → sent id (broadcast size now m owners s) ≡ sent id s
unfolding broadcast
broadcast-sent size id now m owners s =
    settle-sent size id now m s (judge m owners s) (judge-SameFrames m owners s)

deliver-sent : (id j : String) (m : Value) (s : Session) → sent id (deliver j m s) ≡ sent id s
unfolding deliver sent
deliver-sent id j m s = ground arith

refusals :
    (id : String) (m : Value)
    → (is_request id (discovery_refusal m) ≡ false) × (is_request id (request_refusal m) ≡ false)
unfolding is_request index is_str
refusals id m = (refl, refl)

receive-sent :
    (size : Value → ℕ) (id now : String) (m : Value) (owners : Owners) (s : Session)
    → sent id (receive size now m owners s) ≡ sent id s
receive-sent size id now m owners s =
    receive_cases size (λ t. sent id t ≡ sent id s) now m owners s refl
      (λ _ j _. deliver-sent id j m s) (try_send-sent id _ s (refusals id m).0)
      (try_send-sent id _ s (refusals id m).1) (λ _. broadcast-sent size id now m owners s)

step-sent :
    (size : Value → ℕ) (id : String) (e : Event) (s : Session)
    → Foreign id e
    → sent id (step size e s) ≡ sent id s
unfolding step register unregister set_owner
step-sent size id (frame now m) s _ = receive-sent size id now m s.owners s
step-sent size id (checked_before owners now m) s _ = receive-sent size id now m owners s
step-sent size id (broken message) s _ = close-sent id message s
step-sent size id flushed s _ = flush-sent id s s.outgoing refl
step-sent size id (queued m) s h = try_send-sent id m s h
step-sent size id (joined j) s _ = unfold sent in refl
step-sent size id (left j) s _ = unfold sent in refl
step-sent size id (owned thread o) s _ = unfold sent in ground arith

set_owner-sent : (id thread o : String) (s : Session) → sent id (set_owner thread o s) ≡ sent id s
unfolding set_owner sent
set_owner-sent id thread o s = ground arith

discovery_foreign :
    (id other source thread : String) (timeout : ℕ)
    → id ≢ other
    → is_request other (discovery id source thread timeout) ≡ false
unfolding is_request index is_str
discovery_foreign id other source thread timeout n = ground (arith, eq_iff id other)

pub await-sent :
    (size : Value → ℕ) (id other : String) (es : List Event) (s : Session)
    → All (Foreign other) es
    → sent other (await size id es s) ≡ sent other s
unfolding await
await-sent size id other [] s _ = refl
await-sent size id other (e ∷ es) s (h, hs) = elim (Option-cases (lookup id s.mailbox)) [
  | inl waiting ↦
      rw (waiting, await)
        (await-sent size id other es (step size e s) hs ∙ step-sent size other e s h)
  | inr (r, there) ↦ rw (there, await)
]

send_foreign :
    (id other : String) (v : Value) (s t : Session)
    → is_request other v ≡ false
    → send v (register id s) ≡ ok t
    → sent other t ≡ sent other s
unfolding send register sent
send_foreign id other v s t r h =
    ground (arith, count-append other s.outgoing (v ∷ []), count_one other v)

-- An exchange sends no request under an id that neither it nor the other calls use.
pub exchange-Foreign :
    (size : Value → ℕ) (id other : String) (v : Value) (schedule : List Event) (s : Session)
    → All (Foreign other) schedule
    → is_request other v ≡ false
    → sent other (exchange size id v schedule s).1 ≡ sent other s
exchange-Foreign size id other v schedule s hs n =
    exchange_cases size (λ p. sent other p.1 ≡ sent other s) id v schedule s
      (λ e a. unfold sent register unregister in refl)
      (λ t a.
        unfold unregister sent in
        await-sent size id other schedule t hs ∙ send_foreign id other v s t n a)

-- Nor does an owner discovery under another id.
pub owner-Foreign :
    (size : Value → ℕ) (id other thread : String) (timeout : ℕ) (schedule : List Event)
    (s : Session)
    → All (Foreign other) schedule
    → id ≢ other
    → sent other (owner size id thread timeout schedule s).1 ≡ sent other s
unfolding owner
owner-Foreign size id other thread timeout schedule s hs n =
    let quiet =
      exchange-Foreign size id other (discovery id s.id thread timeout) schedule s hs
        (discovery_foreign id other s.id thread timeout n) in
    elim (Result-cases
      ((exchange size id (discovery id s.id thread timeout) schedule s).0 >>= owner_of)) [
        | inl (o, e) ↦ rw (e, owner) (set_owner-sent other thread o _ ∙ quiet)
        | inr (c, e) ↦ rw (e, owner) quiet
      ]
