-- ===== src/Catalog/Index.antt =====
-- `open`, `list` and `projects` of src/desktop_catalog.rs. What is at a path is a parameter: the rows of
-- the `threads` table, or why it cannot be opened for reading.
use baijimu_codex_connector.Json.{Value, obj}
use baijimu_codex_connector.Prelude.{Bool, Result, String, [], err, ok, str_append, ◌>>=◌}
use baijimu_codex_connector.Catalog.{Threads, query, history_source}
use baijimu_codex_connector.Catalog.Projects.{project_query}
use baijimu_codex_connector.Http.{Http, HttpError, coded}
use baijimu_codex_connector.Process.Host.{Host, given_or, system_codex_home}
use baijimu_codex_connector.Text.{Chars}

abbrev pub unreadable : String → HttpError
unreadable e = coded 503 (str_append "桌面元数据索引不可读：" e) "DESKTOP_INDEX_UNAVAILABLE" (obj [])

module _ {S : Type 0} (host : Host S) (open_read_only : Chars → Result String Threads) where
  unfoldable pub index_path : Chars
  unfolding system_codex_home
  index_path =
      given_or (host.env "CODEX_DESKTOP_STATE_DB")
        (host.join (system_codex_home host) "state_5.sqlite")

  unfoldable pub open_index : Http Threads
  unfolding index_path
  open_index = elim (open_read_only index_path) [ ok db ↦ ok db | err e ↦ err (unreadable e) ]

  unfoldable pub list_threads : Value → Http Value
  unfolding open_index query
  list_threads body = do db ← open_index; query db body

  unfoldable pub list_projects : (String → Bool) → Value → Http Value
  unfolding open_index project_query
  list_projects is_dir body = do db ← open_index; project_query is_dir db body

  unfoldable pub source_of_thread : String → Http (String × String)
  unfolding open_index history_source
  source_of_thread id = do db ← open_index; history_source db id
