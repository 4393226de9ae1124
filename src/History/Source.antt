-- ===== src/History/Source.antt =====
-- `invoke` and `open_history` of src/desktop_history.rs: the check of the thread's source, the query on a
-- history database opened for reading, and what is said of how far the projection is.
pub mod Observed
use baijimu_codex_connector.Text.{Chars}
use baijimu_codex_connector.Prelude.{
  Bool, Option, Result, String, [], ensure, err, false, nat_eq, ok, ok_or, ℕ, ◌==◌, ◌>>=◌, ◌>>◌,
  ◌∷◌,
}
use baijimu_codex_connector.History.Cursor.{error}
use baijimu_codex_connector.History.Query.{Codec, database, int, or_null, required, statement}
use baijimu_codex_connector.History.Query.Content.{query}
use baijimu_codex_connector.History.Tables.{Tables}
use baijimu_codex_connector.Http.{Http}
use baijimu_codex_connector.Process.Host.{Host, given_or, system_codex_home}
use baijimu_codex_connector.Prelude.Int.{ℤ, pos, negsuc}
use baijimu_codex_connector.Json.{
  null, insert, Value, bool, fields, lookup, num, obj, object, string,
}

-- `result[key] = value`. The code panics on a value that is neither an object nor null; the queries give
-- objects.
unfoldable pub set_field : String → Value → Value → Value
unfolding insert
set_field key value (object fs) = obj (insert key value (fields fs))
set_field key value null = obj ((key, value) ∷ [])
set_field key value other = other

-- `projected >= 0 && n == projected as u64`
unfoldable pub is_projected : ℤ → ℕ → Bool
is_projected (pos p) n = nat_eq n p
is_projected (negsuc p) n = false

unfoldable pub persistence : ℤ → Option ℕ → Value
unfolding is_projected
persistence projected observed = obj (
    ("projectedBytes", int projected)
    ∷ ("observedRolloutBytes", or_null num observed)
    ∷ ("matchesObservedRollout", or_null (λ n. bool (is_projected projected n)) observed)
    ∷ ("liveStateSource", string "desktop-ipc")
    ∷ [])

-- `configure` sets the timeout and begins a transaction that only reads; `source_of` is the catalog's.
pub record Stores : Type 0 where
  pub source_of : String → Http (String × String)
  pub open_read_only : Chars → Result String Tables
  pub configure : Tables → Result String (Unit {0})
  pub file_length : String → Option ℕ

abbrev pub on_database : {A : Type 0} → Result String A → Http A
on_database (ok a) = ok a
on_database (err e) = err (database e)

unfoldable pub projected_of : Tables → String → Http ℤ
unfolding statement lookup error
projected_of db thread = do
  projection ← statement db (lookup thread db.projection)
  ok_or projection (error "DESKTOP_HISTORY_NOT_READY" "Codex 尚未建立此任务的历史投影；请在桌面打开任务后重试")

module _ {S : Type 0} (host : Host S) (stores : Stores) where
  unfoldable pub history_path : Chars
  unfolding system_codex_home
  history_path =
      given_or (host.env "CODEX_DESKTOP_HISTORY_DB")
        (host.join (system_codex_home host) "thread_history_1.sqlite")

  unfoldable pub open_history : Http Tables
  unfolding history_path database
  open_history = do
    db ← on_database (stores.open_read_only history_path)
    on_database (stores.configure db)
    ok db

  module _ (codec : Codec) where
    unfoldable pub invoke : String → Value → Http Value
    unfolding required open_history projected_of query set_field persistence error
    invoke method body = do
      thread ← required body "threadId"
      (mode, rollout) ← stores.source_of thread
      ensure (mode == "paginated") (
          error "DESKTOP_HISTORY_MODE_UNSUPPORTED"
            "此任务尚未使用 Codex 原生分页历史；请在支持分页的桌面版本中打开该任务。Connector 不迁移或改写历史。")
      db ← open_history
      projected ← projected_of db thread
      result ← query codec db method body
      ok (
          set_field "persistence" (persistence projected (stores.file_length rollout))
            (set_field "source" (string "desktop-readonly-history") result))
