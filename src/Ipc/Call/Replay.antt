-- ===== src/Ipc/Call/Replay.antt =====
-- How often a call puts its request out.

use baijimu_codex_connector.Http.{HttpError}
use baijimu_codex_connector.Ipc.Call.{Event, register, request, rpc, unregister, exchange_cases}
use baijimu_codex_connector.Json.{Value, index, is_str, insert}
use baijimu_codex_connector.Prelude.{
  All, Bool, List, Option, Result, String, [], arith, err, false, if◌then◌else◌, ok, refl, suc,
  true, ℕ, ◌∙◌, ◌∷◌, ◌≡◌, eq_refl, none, some,
}
use baijimu_codex_connector.Ipc.Session.{Session, send}
use baijimu_codex_connector.Ipc.Call.Counting.{
  count-append, count_one, await-sent, is_request, sent, Foreign,
}

abbrev pub is_Ok {ℓ κ} : {E : Type ℓ} {A : Type κ} → Result E A → Bool
is_Ok (ok _) = true
is_Ok (err _) = false

is_request-request :
    (id source method : String) (version : ℕ) (params : Value) (target : Option String)
    (timeout : ℕ)
    → is_request id (request id source method version params target timeout) ≡ true
unfolding is_request request index is_str insert
is_request-request id source method version params none timeout = eq_refl id
is_request-request id source method version params (some t) timeout = eq_refl id

send-sent :
    (id : String) (v : Value) (s t : Session)
    → is_request id v ≡ true
    → send v (register id s) ≡ ok t
    → (sent id t ≡ suc (sent id s)) × (is_Ok (send v s) ≡ true)
unfolding send register sent
send-sent id v s t r h = ground (arith, count-append id s.outgoing (v ∷ []), count_one id v)

pub send_refused :
    (id : String) (v : Value) (s : Session) (e : HttpError)
    → send v (register id s) ≡ err e
    → is_Ok (send v s) ≡ false
unfolding send register
send_refused id v s e h = ground arith

pub send_taken :
    (id : String) (v : Value) (s t : Session)
    → send v (register id s) ≡ ok t
    → is_Ok (send v s) ≡ true
unfolding send register
send_taken id v s t h = ground arith

-- However the wait goes (frames, disconnection, other calls), a call has put its request out once if
-- the session took it and not at all if the session refused it. It is never replayed.
pub sent-rpc :
    (size : Value → ℕ) (id method : String) (version : ℕ) (params : Value) (target : Option String)
    (timeout : ℕ) (mutation : Bool) (schedule : List Event) (s : Session)
    → All (Foreign id) schedule
    → sent id (rpc size id method version params target timeout mutation schedule s).1 ≡ (
        if is_Ok (send (request id s.id method version params target timeout) s)
        then suc (sent id s)
        else sent id s)
unfolding rpc
sent-rpc size id method version params target timeout mutation schedule s hs =
    exchange_cases size
      (λ p. sent id p.1 ≡ (if is_Ok (send wire s) then suc (sent id s) else sent id s)) id wire
      schedule s (λ e a. rw (send_refused id wire s e a) (unfold sent register unregister in refl))
      (λ t a.
        let (more, well) =
          send-sent id wire s t (is_request-request id s.id method version params target timeout)
            a in
        rw well (unfold unregister sent in await-sent size id id schedule t hs ∙ more))
  where
    wire : Value
    wire = request id s.id method version params target timeout
