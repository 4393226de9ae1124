-- ===== src/Ipc/Follower.antt =====
-- `follower_checked` of src/desktop_ipc.rs. What the desktop does meanwhile is the schedules.

pub mod Following
use baijimu_codex_connector.Ipc.Session.{Session}
use baijimu_codex_connector.Ipc.Call.{Event, owner, rpc}
use baijimu_codex_connector.Http.{Http, failure}
use baijimu_codex_connector.Json.{Object, Value, insert, obj, string}
use baijimu_codex_connector.Prelude.{
  List, Option, String, err, if◌then◌else◌, none, ok, some, true, ℕ, ◌==◌,
}

module _ (size : Value → ℕ) where
  -- `follower_checked`, from the connected session on.
  unfoldable pub follower_checked :
      String
      → String
      → String
      → String
      → ℕ
      → Object
      → Option String
      → ℕ
      → List Event
      → List Event
      → Session
      → Http Value × Session
  unfolding failure
  follower_checked id id' thread method version params expected timeout schedule schedule' s =
      let (discovered, s1) = owner size id thread timeout schedule s in
      elim discovered [
        | err e ↦ (err e, s1)
        | ok o ↦
            let called =
              rpc size id' method version (obj (insert "conversationId" (string thread) params))
                (some o) timeout true schedule' s1 in
            elim expected [
              | none ↦ called
              | some wanted ↦
                  if wanted == o
                  then called
                  else (err (failure "IPC_OWNER_CHANGED" "桌面任务所有者已变化，请重新读取待处理请求"), s1)
            ]
      ]
