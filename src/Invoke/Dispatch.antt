-- ===== src/Invoke/Dispatch.antt =====
-- `invoke_http` of src/desktop_invoke.rs: a handler for each path, and the dispatch.
pub mod Guarded
use baijimu_codex_connector.Invoke.Schema.{validate_request}
use baijimu_codex_connector.Invoke.Input.{required, input}
use baijimu_codex_connector.Http.{Http, new, coded}
use baijimu_codex_connector.Json.{
  Value, get, index, obj, string, Number, is_false, is_true, list, null,
}
use baijimu_codex_connector.Prelude.{
  Bool, Option, String, [], err, if◌then◌else◌, none, ok, ok_or, some, ℕ, ◌==◌, ◌∷◌, List, Result,
  ◌||◌,
}
use baijimu_codex_connector.Invoke.Desktop.{
  Desktop, and_then, lift, wrap, request_id_of, answer, start_request,
}

module _ {S : Type 0} (desktop : Desktop S) (eq : Value → Value → Bool) where
  -- `/invoke/respondToRequest`
  unfoldable pub respond : Value → S → Http Value × S
  unfolding new get
  respond body = and_then (lift (required body "threadId")) (λ id.
      and_then (lift (ok_or (request_id_of body) (new 400 "requestId required"))) (λ request_id.
        and_then (desktop.read_metadata id) (λ read.
          and_then (lift (answer eq body request_id read))
            (λ a. desktop.follower_for_owner id a.0 1 a.1 a.2))))

  -- `/invoke/startTurn`
  unfoldable pub start_turn : Value → S → Http Value × S
  unfolding coded get
  start_turn body = and_then (lift (required body "threadId")) (λ id.
      and_then (lift (input body)) (λ content.
        and_then
          (desktop.follower id "thread-follower-start-turn" 2 (start_request id content body))
          (λ result. lift (
            ok_or (get "result" result)
              (coded 502 "desktop turn result missing" "IPC_PROTOCOL_MISMATCH" (obj []))))))

  -- `/invoke/steerTurn`
  unfoldable pub steer_turn : Value → S → Http Value × S
  unfolding new get
  steer_turn body s = elim (get "turnId" body) [
    | some _ ↦ (err (new 400 "desktop steerTurn 不支持 turnId 条件；使用桌面当前轮次语义"), s)
    | none ↦
        and_then (lift (required body "threadId"))
          (λ id. and_then (lift (input body)) (λ content t.
            let (message, t') = desktop.random_event_id t in
            desktop.follower id "thread-follower-steer-turn" 1
              (obj (
                ("input", content)
                ∷ ("restoreMessage", null)
                ∷ ("attachments", list [])
                ∷ ("clientUserMessageId", string message)
                ∷ []))
              t'))
          s
  ]

  -- `/invoke/interruptTurn`
  unfoldable pub interrupt_turn : Value → S → Http Value × S
  interrupt_turn body = and_then (lift (required body "threadId")) (λ id.
      and_then (lift (required body "turnId")) (λ turn.
        desktop.follower id "thread-follower-interrupt-turn" 4
          (obj (("expectedTurnId", string turn) ∷ ("mode", string "user-stop") ∷ []))))

  -- `/invoke/readThread` and `/invoke/resumeThread`
  unfoldable pub read_thread : Value → S → Http Value × S
  unfolding index
  read_thread body = and_then (lift (required body "threadId")) (λ id.
      if is_true (index "excludeTurns" body) || is_false (index "includeTurns" body)
      then desktop.read_metadata id
      else desktop.read id)

  -- `/invoke/pendingRequests`
  unfoldable pub pending_requests : Value → S → Http Value × S
  unfolding index
  pending_requests body = and_then (lift (required body "threadId")) (λ id.
      and_then (desktop.read_metadata id) (λ read. lift (
        ok (
          obj (
            ("requests", index "requests" (index "thread" read))
            ∷ ("revision", index "revision" read)
            ∷ [])))))

  -- A path whose value is wrapped as the result; nothing for the other paths.
  unfoldable pub handler : String → Value → Option (S → Http Value × S)
  handler path body =
      if path == "/invoke/listThreads"
        || path == "/invoke/listSessions"
        || path == "/invoke/searchThreads"
      then some (and_then desktop.ensure_connected (λ _. desktop.threads body))
      else if path == "/invoke/listProjects"
      then some (and_then desktop.ensure_connected (λ _. desktop.projects body))
      else if path == "/invoke/readThread" || path == "/invoke/resumeThread"
      then some (read_thread body)
      else if path == "/invoke/listThreadTurns"
      then some (and_then desktop.ensure_connected (λ _. desktop.history "listThreadTurns" body))
      else if path == "/invoke/listThreadItems"
      then some (and_then desktop.ensure_connected (λ _. desktop.history "listThreadItems" body))
      else if path == "/invoke/readThreadItem"
      then some (and_then desktop.ensure_connected (λ _. desktop.history "readThreadItem" body))
      else if path == "/invoke/startTurn"
      then some (start_turn body)
      else if path == "/invoke/steerTurn"
      then some (steer_turn body)
      else if path == "/invoke/interruptTurn"
      then some (interrupt_turn body)
      else if path == "/invoke/pendingRequests"
      then some (pending_requests body)
      else if path == "/invoke/respondToRequest"
      then some (respond body)
      else none

  -- The dispatch on the path.
  unfoldable pub dispatch : String → Value → ℕ → S → Http Value × S
  unfolding coded
  dispatch path body workspace s =
      if path == "/invoke/status"
      then (let (v, s') = desktop.status s in (ok v, s'))
      else if path == "/invoke/recentEvents"
      then (ok (desktop.recent_events body s), s)
      else if path == "/invoke/prepareProject"
      then desktop.prepare workspace body s
      else elim (handler path body) [
        | some h ↦ and_then h (λ v. lift (wrap v)) s
        | none ↦ (
          err (
              coded 404 "接口不受桌面 IPC Connector 支持" "METHOD_NOT_SUPPORTED"
                (obj (("path", string path) ∷ []))),
          s,
        )
      ]

  module _ (parse : List ℕ → Result String Value) (le : Number → Number → Bool)
      (methods : List Value) where
    unfoldable pub body_of : List ℕ → Http Value
    unfolding new
    body_of [] = ok (obj [])
    body_of (b ∷ bs) = elim (parse (b ∷ bs)) [ ok v ↦ ok v | err e ↦ err (new 400 e) ]

    unfoldable pub invoke_http : String → List ℕ → ℕ → S → Http Value × S
    invoke_http path bytes workspace = and_then (lift (body_of bytes)) (λ body.
        and_then (lift (validate_request eq le methods path body))
          (λ _. dispatch path body workspace))
