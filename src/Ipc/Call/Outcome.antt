-- ===== src/Ipc/Call/Outcome.antt =====
-- What a caller of `rpc` may conclude from its result.
use baijimu_codex_connector.Ipc.Call.Replay.{is_Ok, send_refused, send_taken}
use baijimu_codex_connector.Ipc.Reading.{fresh, read}
use baijimu_codex_connector.Ipc.Call.Pending.{Heard, exchange-Heard}
use baijimu_codex_connector.Ipc.Call.{
  Event, interpret, register, rpc, unregister, failed_code, exchange_cases, request, exchange,
}
use baijimu_codex_connector.Http.{HttpError, failure, coded, Http}
use baijimu_codex_connector.Json.{Value, bool, index, is_str, lookup, string}
use baijimu_codex_connector.Prelude.{
  Bool, List, Option, String, err, none, not, ok, some, true, ℕ, ◌≡◌, ◌≢◌, ◌⊎◌, Bool-cases, arith,
  eq_iff, inl, inr, refl, ◌>>=◌, ◌∙◌, ◌↔◌, >>=-eq-ok, ap, false,
}
use baijimu_codex_connector.Ipc.Session.{Session, Reply, send}

abbrev pub unknown_outcome : Option Value
unknown_outcome = some (string "IPC_OPERATION_OUTCOME_UNKNOWN")

-- An error after the frame was queued: a mutation's is marked as unknown and not safe to retry, and
-- that of a read is neither.
pub record Reported (mutation : Bool) (e : HttpError) : Type 0 where
  pub marked : (e.error_code ≡ unknown_outcome) ↔ (mutation ≡ true)
  pub advice : Value
  pub attached : e.error_data ≡ some advice
  pub retry_safe : index "retrySafe" advice ≡ bool (not mutation)

-- An error before: nothing was queued, and the caller may try again.
pub record NotSent (s t : Session) (e : HttpError) : Type 0 where
  pub certain : e.error_code ≢ unknown_outcome
  pub queue : t.outgoing ≡ s.outgoing
  pub socket : t.written ≡ s.written

coded-Reported :
    (mutation : Bool) (status : ℕ) (message otherwise : String) (payload : Value) (e : HttpError)
    → ◌≢◌ {A = String} otherwise "IPC_OPERATION_OUTCOME_UNKNOWN"
    → index "retrySafe" payload ≡ bool (not mutation)
    → ◌≡◌ {A = Http Value}
        (err (coded status message (failed_code mutation otherwise) payload))
        (err e)
    → Reported mutation e
unfolding coded
coded-Reported mutation status message otherwise payload e other safe h = record {
  marked = (λ m. ground arith, λ m. ground arith);
  advice = payload;
  attached = ground arith;
  retry_safe = safe;
}

rejected-ne : ◌≢◌ {A = String} "DESKTOP_REQUEST_REJECTED" "IPC_OPERATION_OUTCOME_UNKNOWN"
rejected-ne = ground (arith, eq_iff "DESKTOP_REQUEST_REJECTED" "IPC_OPERATION_OUTCOME_UNKNOWN")

disconnected-ne : ◌≢◌ {A = String} "DESKTOP_IPC_DISCONNECTED" "IPC_OPERATION_OUTCOME_UNKNOWN"
disconnected-ne = ground (arith, eq_iff "DESKTOP_IPC_DISCONNECTED" "IPC_OPERATION_OUTCOME_UNKNOWN")

interpret-Reported :
    (id method : String) (mutation : Bool) (r : Option Reply) (e : HttpError)
    → interpret id method mutation r ≡ err e
    → Reported mutation e
unfolding interpret index
interpret-Reported id method mutation (some (ok v)) e h =
    elim (Bool-cases (is_str (index "resultType" v) "success")) [
      | inl good ↦ cc good
      | inr bad ↦ coded-Reported mutation _ _ _ _ e rejected-ne refl (rw (bad, interpret) at h)
    ]
interpret-Reported id method mutation (some (err c)) e h =
    coded-Reported mutation _ _ _ _ e disconnected-ne refl h
interpret-Reported id method mutation none e h =
    coded-Reported mutation _ _ _ _ e disconnected-ne refl h

queue-ne : ◌≢◌ {A = String} "IPC_QUEUE_UNAVAILABLE" "IPC_OPERATION_OUTCOME_UNKNOWN"
queue-ne = ground (arith, eq_iff "IPC_QUEUE_UNAVAILABLE" "IPC_OPERATION_OUTCOME_UNKNOWN")

send-NotSent :
    (id : String) (v : Value) (s : Session) (e : HttpError)
    → send v (register id s) ≡ err e
    → NotSent s (unregister id (register id s)) e
unfolding send register unregister failure
send-NotSent id v s e h = record {
  certain = ground (arith, queue-ne, disconnected-ne);
  queue = refl;
  socket = refl;
}

-- A call that fails either had its request refused by the session, and then neither the queue nor the
-- socket changed and the error does not claim an unknown outcome; or the session took the request, and
-- then the error says whether a retry is safe: for a mutation never, with the code
-- IPC_OPERATION_OUTCOME_UNKNOWN.
pub rpc_failure :
    (size : Value → ℕ) (id method : String) (version : ℕ) (params : Value) (target : Option String)
    (timeout : ℕ) (mutation : Bool) (schedule : List Event) (s : Session) (e : HttpError)
    → (rpc size id method version params target timeout mutation schedule s).0 ≡ err e
    → ((is_Ok (send (request id s.id method version params target timeout) s) ≡ false)
        × NotSent s (rpc size id method version params target timeout mutation schedule s).1 e)
      ⊎ ((is_Ok (send (request id s.id method version params target timeout) s) ≡ true)
          × Reported mutation e)
unfolding rpc
rpc_failure size id method version params target timeout mutation schedule s e =
    exchange_cases size
      (λ p.
        (p.0 >>= interpret id method mutation) ≡ err e
        → ((is_Ok (send wire s) ≡ false) × NotSent s p.1 e)
          ⊎ ((is_Ok (send wire s) ≡ true) × Reported mutation e))
      id wire schedule s
      (λ c a h. inl (send_refused id wire s c a, send-NotSent id wire s e (a ∙ cc h)))
      (λ t a h. inr (send_taken id wire s t a, interpret-Reported id method mutation _ e h))
  where
    wire : Value
    wire = request id s.id method version params target timeout

abbrev pub Delivered : String → Value → List Event → Type 0
Delivered id x schedule =
    (v : Value) × Heard id v schedule
    × (is_str (index "resultType" v) "success" ≡ true)
    × (index "result" v ≡ x)

interpret-ok :
    (id method : String) (mutation : Bool) (r : Option Reply) (x : Value)
    → interpret id method mutation r ≡ ok x
    → (v : Value) × (r ≡ some (ok v))
      × (is_str (index "resultType" v) "success" ≡ true)
      × (index "result" v ≡ x)
unfolding interpret
interpret-ok id method mutation (some (ok v)) x h = (v, refl, ground arith, ground arith)
interpret-ok id method mutation (some (err c)) x h = cc h
interpret-ok id method mutation none x h = cc h

-- A call succeeds only by a response frame for its own id that reports success and arrived while
-- it waited, and the result is that frame's.
pub rpc_success :
    (size : Value → ℕ) (id method : String) (version : ℕ) (params : Value) (target : Option String)
    (timeout : ℕ) (mutation : Bool) (schedule : List Event) (s : Session) (x : Value)
    → lookup id s.mailbox ≡ none
    → (rpc size id method version params target timeout mutation schedule s).0 ≡ ok x
    → Delivered id x schedule
unfolding rpc
rpc_success size id method version params target timeout mutation schedule s x fresh h =
    let wire = request id s.id method version params target timeout in
    let (r, got, read) = >>=-eq-ok (exchange size id wire schedule s).0 _ h in
    let (v, there, good, same) = interpret-ok id method mutation r x read in
    (v, exchange-Heard size id wire schedule s v fresh (got ∙ ap ok there), good, same)
