-- ===== src/Examples/Calls.antt =====
-- Calls, owner discoveries and the wait of src/desktop_ipc.rs at concrete inputs.
use baijimu_codex_connector.Ipc.Session.{send, try_send}
use baijimu_codex_connector.Ipc.Receive.{
  apply_change, broadcast, deliver, judge, receive, record_event, settle, store_snapshot,
}
use baijimu_codex_connector.Http.{HttpError, coded, failure}
use baijimu_codex_connector.Json.{
  Value, bool, index, insert, is_str, lookup, null, num, obj, remove, string,
}
use baijimu_codex_connector.Prelude.{
  List, String, [], false, if◌then◌else◌, none, refl, some, suc, true, ◌∷◌, ◌≡◌, ◌⊎◌,
}
use baijimu_codex_connector.Examples.Session.{idle, unit_size}
use baijimu_codex_connector.Ipc.Call.{
  Event, exchange, owner, rpc, await, discovery, flush, flushed, frame, interpret, joined, owner_of,
  register, request, set_owner, step, unregister,
}
use baijimu_codex_connector.Ipc.Call.Pending.{exchange_clears, Heard}
use baijimu_codex_connector.Ipc.Call.Outcome.{
  Delivered, NotSent, Reported, rpc_failure, rpc_success,
}
use baijimu_codex_connector.Ipc.Call.Owner.{Accepts, OwnerSet, owner_sound}
use baijimu_codex_connector.Ipc.Call.Counting.{sent}
use baijimu_codex_connector.Ipc.Call.Replay.{is_Ok, sent-rpc}

unfoldable pub program : Unit {0}
unfolding rpc exchange send register unregister await step flush receive deliver interpret request
    owner owner_of set_owner index is_str coded failure insert lookup remove record_event settle
    judge broadcast store_snapshot apply_change try_send
program = tt

abbrev reply : String → Value → Event
reply id v = frame "now" (
    obj (
      ("type", string "response")
      ∷ ("requestId", string id)
      ∷ ("resultType", string "success")
      ∷ ("handledByClientId", string "owner-a")
      ∷ ("result", v)
      ∷ []))

abbrev supported : Value
supported = obj (("supportsUntrustedAppInput", bool true) ∷ [])

exchange_clears_example :
    (lookup "q" (exchange unit_size "q" null (flushed ∷ []) idle).1.pending ≡ none)
    × (lookup "q" (exchange unit_size "q" null (flushed ∷ []) idle).1.mailbox ≡ none)
exchange_clears_example = exchange_clears unit_size "q" null (flushed ∷ []) idle

-- A mutation whose reply does not come.
abbrev lost : HttpError
lost = record {
  status = 503;
  message = "IPC response timed out";
  error_code = some (string "IPC_OPERATION_OUTCOME_UNKNOWN");
  error_data =
      some (
        obj (("requestId", string "q") ∷ ("method", string "go") ∷ ("retrySafe", bool false) ∷ []));
}

rpc_failure_example :
    ((is_Ok (send (request "q" "me" "go" 1 null none 5) idle) ≡ false)
      × NotSent idle (rpc unit_size "q" "go" 1 null none 5 true (flushed ∷ []) idle).1 lost)
    ⊎ ((is_Ok (send (request "q" "me" "go" 1 null none 5) idle) ≡ true) × Reported true lost)
unfolding program
rpc_failure_example =
    rpc_failure unit_size "q" "go" 1 null none 5 true (flushed ∷ []) idle lost refl

abbrev answered : List Event
answered = flushed ∷ joined "other" ∷ reply "q" (num 7) ∷ []

rpc_success_example : Delivered "q" (num 7) answered
unfolding program
rpc_success_example =
    rpc_success unit_size "q" "go" 1 null none 5 true answered idle (num 7) refl refl

sent-rpc_example : sent "q" (rpc unit_size "q" "go" 1 null none 5 true answered idle).1 ≡ (
    if is_Ok (send (request "q" "me" "go" 1 null none 5) idle)
    then suc (sent "q" idle)
    else sent "q" idle)
sent-rpc_example = sent-rpc unit_size "q" "go" 1 null none 5 true answered idle (tt, (tt, (tt, tt)))

abbrev pub discovered : List Event
discovered = flushed ∷ reply "q" supported ∷ []

owner_sound_example :
    ((v : Value) × Heard "q" v discovered × Accepts v "owner-a")
    × OwnerSet "task-a" "owner-a"
        (exchange unit_size "q" (discovery "q" "me" "task-a" 5) discovered idle).1
        (owner unit_size "q" "task-a" 5 discovered idle).1
unfolding program
owner_sound_example = owner_sound unit_size "q" "task-a" 5 discovered idle "owner-a" refl refl
