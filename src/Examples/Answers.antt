-- ===== src/Examples/Answers.antt =====
-- An answer to a pending request whose owner is not found again.
use baijimu_codex_connector.Prelude.{Bool, [], ok, refl, true, ◌∷◌, eq_iff, arith}
use baijimu_codex_connector.Invoke.Input.{required}
use baijimu_codex_connector.Json.{Value, get, list, null, num, obj, string}
use baijimu_codex_connector.Examples.Calls.{discovered, program}
use baijimu_codex_connector.Examples.Session.{idle, unit_size}
use baijimu_codex_connector.Invoke.Desktop.{Desktop}
use baijimu_codex_connector.Invoke.Dispatch.{respond}
use baijimu_codex_connector.Invoke.Dispatch.Guarded.{Responded, World, on_session, respond-Guarded}

abbrev quiet : World
quiet = record {
  session = idle;
  count = 0;
  exchanges = λ n. record {
    discovery_id = "q";
    request_id = "m";
    discovering = discovered;
    requesting = discovered;
  };
}

abbrev state_read : Value
state_read = obj (
    ("ownerClientId", string "owner-b")
    ∷ (
      "thread",
      obj (
          (
            "requests",
            list (
                obj (
                  ("id", num 4)
                  ∷ ("method", string "item/fileChange/requestApproval")
                  ∷ ("params", obj (("turnId", string "turn-1") ∷ []))
                  ∷ [])
                ∷ []),
          )
          ∷ []),
    )
    ∷ [])

abbrev plain_desktop : Desktop World
plain_desktop = record {
  status = λ w. (null, w);
  ensure_connected = λ w. (ok tt, w);
  read_metadata = λ id w. (ok state_read, w);
  read = λ id w. (ok null, w);
  follower = λ id method version params w. (ok null, w);
  follower_for_owner = λ id method version params o w. (ok null, w);
  recent_events = λ body w. null;
  threads = λ body w. (ok null, w);
  projects = λ body w. (ok null, w);
  history = λ method body w. (ok null, w);
  prepare = λ workspace body w. (ok null, w);
  random_event_id = λ w. ("codex_evt_1", w);
}

abbrev answer_body : Value
answer_body = obj (
    ("threadId", string "task-a")
    ∷ ("requestId", num 4)
    ∷ ("turnId", string "turn-1")
    ∷ ("result", obj (("decision", string "accept") ∷ []))
    ∷ [])

abbrev any_equal : Value → Value → Bool
any_equal a b = true

respond-Guarded_example :
    Responded unit_size 60000 any_equal answer_body "task-a"
      (num 4)
      state_read
      quiet
      (respond (on_session unit_size 60000 plain_desktop) any_equal answer_body quiet)
unfolding program required get
respond-Guarded_example =
    respond-Guarded unit_size 60000 plain_desktop any_equal answer_body "task-a" (num 4) state_read
      quiet quiet refl refl refl (tt, (tt, tt)) (ground (arith, eq_iff "q" "m"))
