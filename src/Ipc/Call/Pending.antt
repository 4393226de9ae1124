-- ===== src/Ipc/Call/Pending.antt =====
-- The channel of a call while it waits: what can come into it, and that nothing of it is left over.
use baijimu_codex_connector.Ipc.Reading.{fresh}
use baijimu_codex_connector.Ipc.Receive.Cases.{receive_cases}
use baijimu_codex_connector.Ipc.Session.Closing.{disconnected}
use baijimu_codex_connector.Ipc.Receive.{
  Verdict, closing, deliver, dropped, judge, receive, record_event, recorded, settle, broadcast,
  discovery_refusal, request_refusal, Owners,
}
use baijimu_codex_connector.Ipc.Call.{
  Event, await, flushed, owned, frame, joined, left, broken, owner, queued, step, flush, register,
  checked_before, set_owner, unregister, exchange, exchange_cases,
}
use baijimu_codex_connector.Json.Laws.{lookup-insert, lookup-remove, lookup-remove_self}
use baijimu_codex_connector.Json.{Value, as_str, index, is_str, lookup}
use baijimu_codex_connector.Prelude.{
  List, String, [], arith, eq_iff, inl, ok, some, true, ℕ, ◌∷◌, ◌≡◌, ◌⊎◌, Option-cases, inr, none,
}
use baijimu_codex_connector.Ipc.Session.{Session, Reply, close, disconnect_all, try_send, send}

-- The event is a response frame for the request.
abbrev pub Answers : String → Value → Event → Type 0
Answers id v (frame now w) =
    (w ≡ v) × (is_str (index "type" v) "response" ≡ true) × (as_str (index "requestId" v) ≡ some id)
Answers id v (checked_before owners now w) =
    (w ≡ v) × (is_str (index "type" v) "response" ≡ true) × (as_str (index "requestId" v) ≡ some id)
Answers id v _ = ⊥

-- Some event of the schedule is.
abbrev pub Heard : String → Value → List Event → Type 0
Heard id v [] = ⊥
Heard id v (e ∷ es) = Answers id v e ⊎ Heard id v es

disconnect_all-ok :
    (message id : String) (waiting : List (String × Unit {0})) (mail : List (String × Reply))
    (v : Value)
    → lookup id (disconnect_all message waiting mail) ≡ some (ok v)
    → lookup id mail ≡ some (ok v)
unfolding disconnect_all
disconnect_all-ok message id [] mail v h = h
disconnect_all-ok message id ((j, w) ∷ waiting) mail v h =
    let rest = disconnect_all message waiting mail in
    ground (
      arith,
      lookup-insert {0} j id (disconnected message) rest,
      disconnect_all-ok message id waiting mail v,
    )

-- A session whose channel for the request holds a reply `v` only if `s` has it there.
abbrev Quiet : String → Value → Session → Session → Type 0
Quiet id v s t = lookup id t.mailbox ≡ some (ok v) → lookup id s.mailbox ≡ some (ok v)

close-Quiet : (message id : String) (v : Value) (s : Session) → Quiet id v s (close message s)
unfolding close
close-Quiet message id v s = ground (arith, disconnect_all-ok message id s.pending s.mailbox v)

try_send-Quiet : (id : String) (v m : Value) (s : Session) → Quiet id v s (try_send m s)
unfolding try_send
try_send-Quiet id v m s = ground arith

SameMail : Session → Verdict → Type 0
SameMail s (recorded t) = t.mailbox ≡ s.mailbox
SameMail s _ = Unit {0}

judge-SameMail : (m : Value) (owners : Owners) (s : Session) → SameMail s (judge m owners s)
unfolding judge SameMail
judge-SameMail m owners s = ground arith

settle-Quiet :
    (size : Value → ℕ) (now id : String) (v m : Value) (s : Session) (j : Verdict)
    → SameMail s j
    → Quiet id v s (settle size now m s j)
unfolding settle record_event SameMail
settle-Quiet size now id v m s (closing message) _ = close-Quiet message id v s
settle-Quiet size now id v m s dropped _ = λ h. h
settle-Quiet size now id v m s (recorded t) same = λ h. rw (← same) h

broadcast-Quiet :
    (size : Value → ℕ) (now id : String) (v m : Value) (owners : Owners) (s : Session)
    → Quiet id v s (broadcast size now m owners s)
unfolding broadcast
broadcast-Quiet size now id v m owners s =
    settle-Quiet size now id v m s (judge m owners s) (judge-SameMail m owners s)

deliver-answer :
    (id j : String) (v m : Value) (s : Session)
    → lookup id (deliver j m s).mailbox ≡ some (ok v)
    → (lookup id s.mailbox ≡ some (ok v)) ⊎ ((j ≡ id) × (m ≡ v))
unfolding deliver
deliver-answer id j v m s h = ground (arith, eq_iff j id, lookup-insert {0} j id (ok m) s.mailbox)

receive-answer :
    (size : Value → ℕ) (now id : String) (v m : Value) (owners : Owners) (s : Session)
    → lookup id (receive size now m owners s).mailbox ≡ some (ok v)
    → (lookup id s.mailbox ≡ some (ok v)) ⊎ Answers id v (frame now m)
receive-answer size now id v m owners s =
    receive_cases size
      (λ t.
        lookup id t.mailbox ≡ some (ok v)
        → (lookup id s.mailbox ≡ some (ok v)) ⊎ Answers id v (frame now m))
      now m owners s (λ h. inl h) (λ a j b h. replied a j b (deliver-answer id j v m s h))
      (λ h. inl (try_send-Quiet id v (discovery_refusal m) s h))
      (λ h. inl (try_send-Quiet id v (request_refusal m) s h))
      (λ _ h. inl (broadcast-Quiet size now id v m owners s h))
  where
    replied :
        is_str (index "type" m) "response" ≡ true
        → (j : String) → as_str (index "requestId" m) ≡ some j
        → (lookup id s.mailbox ≡ some (ok v)) ⊎ ((j ≡ id) × (m ≡ v))
        → (lookup id s.mailbox ≡ some (ok v)) ⊎ Answers id v (frame now m)
    replied a j b (inl h) = inl h
    replied a j b (inr (same, whole)) = inr (whole, rw whole at a, rw (same, whole) at b)

step-answer :
    (size : Value → ℕ) (id : String) (v : Value) (e : Event) (s : Session)
    → lookup id (step size e s).mailbox ≡ some (ok v)
    → (lookup id s.mailbox ≡ some (ok v)) ⊎ Answers id v e
unfolding step flush register unregister set_owner
step-answer size id v (frame now m) s h = receive-answer size now id v m s.owners s h
step-answer size id v (checked_before owners now m) s h = receive-answer size now id v m owners s h
step-answer size id v (broken message) s h = inl (close-Quiet message id v s h)
step-answer size id v flushed s h = ground arith
step-answer size id v (joined j) s h = ground arith
step-answer size id v (left j) s h = ground (arith, eq_iff j id, lookup-remove {0} j id s.mailbox)
step-answer size id v (queued m) s h = inl (try_send-Quiet id v m s h)
step-answer size id v (owned thread owner) s h = ground arith

-- A reply in the channel at the end of the wait was there before, or came in a frame.
pub await-Heard :
    (size : Value → ℕ) (id : String) (v : Value) (es : List Event) (s : Session)
    → lookup id (await size id es s).mailbox ≡ some (ok v)
    → (lookup id s.mailbox ≡ some (ok v)) ⊎ Heard id v es
unfolding await
await-Heard size id v [] s h = inl h
await-Heard size id v (e ∷ es) s h = elim (Option-cases (lookup id s.mailbox)) [
  | inl waiting ↦ later (await-Heard size id v es (step size e s) (rw (waiting, await) at h))
  | inr (r, there) ↦ inl (rw (there, await) at h)
]
  where
    later :
        (lookup id (step size e s).mailbox ≡ some (ok v)) ⊎ Heard id v es
        → (lookup id s.mailbox ≡ some (ok v)) ⊎ Heard id v (e ∷ es)
    later (inr x) = inr (inr x)
    later (inl x) = elim (step-answer size id v e s x) [ inl y ↦ inl y | inr y ↦ inr (inl y) ]

send_fresh :
    (id : String) (v : Value) (s t : Session)
    → send v (register id s) ≡ ok t
    → lookup id s.mailbox ≡ none
    → lookup id t.mailbox ≡ none
unfolding send register
send_fresh id v s t h e = ground arith

-- An exchange under a fresh id that ends with a reply got it from a frame of its schedule.
pub exchange-Heard :
    (size : Value → ℕ) (id : String) (v : Value) (schedule : List Event) (s : Session) (w : Value)
    → lookup id s.mailbox ≡ none
    → (exchange size id v schedule s).0 ≡ ok (some (ok w))
    → Heard id w schedule
exchange-Heard size id v schedule s w fresh =
    exchange_cases size (λ p. p.0 ≡ ok (some (ok w)) → Heard id w schedule) id v schedule s
      (λ e a h. cc h) (λ t a h. received t a (cc h))
  where
    received :
        (t : Session)
        → send v (register id s) ≡ ok t
        → lookup id (await size id schedule t).mailbox ≡ some (ok w)
        → Heard id w schedule
    received t a there =
        let quiet : lookup id t.mailbox ≡ none = send_fresh id v s t a fresh in
        elim (await-Heard size id w schedule t there) [
          | inl old ↦ cc (quiet, old)
          | inr heard ↦ heard
        ]

-- Nothing of an exchange is left over: neither its entry among the pending requests nor its channel.
pub exchange_clears :
    (size : Value → ℕ) (id : String) (v : Value) (schedule : List Event) (s : Session)
    → (lookup id (exchange size id v schedule s).1.pending ≡ none)
      × (lookup id (exchange size id v schedule s).1.mailbox ≡ none)
unfolding unregister
exchange_clears size id v schedule s =
    exchange_cases size (λ p. (lookup id p.1.pending ≡ none) × (lookup id p.1.mailbox ≡ none)) id v
      schedule s (λ e a. (lookup-remove_self {0} id _, lookup-remove_self {0} id _))
      (λ t a. (lookup-remove_self {0} id _, lookup-remove_self {0} id _))
