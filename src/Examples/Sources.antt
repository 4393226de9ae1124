-- ===== src/Examples/Sources.antt =====
-- A history query that finds its rollout as long as it is projected.
use baijimu_codex_connector.Http.{Http}
use baijimu_codex_connector.Prelude.{String, [], err, none, ok, refl, some, ℕ, ◌∷◌, ◌≡◌, true}
use baijimu_codex_connector.Examples.Machine.{host}
use baijimu_codex_connector.History.Source.{Stores, invoke, open_history}
use baijimu_codex_connector.History.Source.Observed.{invoke-matched, claim}
use baijimu_codex_connector.History.Query.{Codec, required, order, limit, page_value}
use baijimu_codex_connector.History.Query.Content.{query}
use baijimu_codex_connector.History.Query.Turns.{list_turns, turn_cursor}
use baijimu_codex_connector.History.Cursor.{decode}
use baijimu_codex_connector.History.Paging.{page, fill}
use baijimu_codex_connector.History.Tables.{rows_after, order_by, Tables}
use baijimu_codex_connector.Prelude.Int.{pos}
use baijimu_codex_connector.Json.{lookup, Value, null, obj, string, bool}

abbrev tables : Tables
tables = record { turns = []; items = []; projection = ("t", pos 7) ∷ []; fault = none }

abbrev stores : Stores
stores = record {
  source_of = λ thread. ok ("paginated", "rollout.jsonl");
  open_read_only = λ path. ok tables;
  configure = λ db. ok tt;
  file_length = λ path. some 7;
}

abbrev codec : Codec
codec = record {
  to_vec = λ cursor. [];
  from_slice = λ bytes. none;
  size = λ v. 1;
  extract = λ row. (none, none);
  byte_length = λ text. 0;
}

abbrev asked : Value
asked = obj (("threadId", string "t") ∷ [])

abbrev value_of : Http Value → Value
value_of (ok v) = v
value_of (err e) = null

listed : Value
unfolding invoke
listed = value_of (invoke host stores codec "listThreadTurns" asked)

listed_lem : invoke host stores codec "listThreadTurns" asked ≡ ok listed
unfolding invoke listed query list_turns order limit decode turn_cursor page fill rows_after
    order_by
listed_lem = refl

claim_lem : claim listed ≡ bool true
unfolding invoke listed query list_turns order limit decode turn_cursor page fill rows_after
    order_by page_value
claim_lem = refl

invoke-matched_example :
    (thread : String) × (rollout : String) × (db : Tables) × (n : ℕ) × (required asked "threadId"
      ≡ ok thread)
    × (stores.source_of thread ≡ ok ("paginated", rollout))
    × (open_history host stores ≡ ok db)
    × (lookup thread db.projection ≡ some (pos n))
    × (stores.file_length rollout ≡ some n)
invoke-matched_example =
    invoke-matched host stores codec "listThreadTurns" asked listed listed_lem claim_lem
