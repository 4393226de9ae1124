-- ===== src/History/Query/Turns.antt =====
-- `list_turns` of src/desktop_history.rs.
use baijimu_codex_connector.Prelude.Int.{eq_ℤ, ltb_ℤ, ℤ}
use baijimu_codex_connector.History.Tables.{
  ItemRow, Tables, TurnRow, max_ordinal, order_by, rows_after,
}
use baijimu_codex_connector.History.Query.{
  Codec, int, item_preview, items_of, limit, or_null, order, page_value, required, stale, statement,
  text,
}
use baijimu_codex_connector.History.Paging.{Entry, page}
use baijimu_codex_connector.History.Cursor.{Cursor, decode, error, start}
use baijimu_codex_connector.Http.{Http}
use baijimu_codex_connector.Json.{Value, as_str, index, items, list, num, obj, string, unwrap_or}
use baijimu_codex_connector.Prelude.{
  List, Option, String, [], any, ensure, if◌then◌else◌, keep_if, length, map, none, not, ok, some,
  take, ◌&&◌, ◌==◌, ◌>>=◌, ◌>>◌, ◌||◌, ◌∷◌,
}

abbrev pub turns_of : Tables → String → List TurnRow
turns_of db thread = keep_if (λ r. r.thread_id == thread) db.turns

abbrev pub latest : List ItemRow → Option String
latest rs = elim (order_by (λ r. r.ordinal) "desc" rs) [ [] ↦ none | r ∷ _ ↦ some r.item_id ]

-- The item that ends a turn: the recorded one, or the last agent message.
unfoldable pub latest_agent : Tables → TurnRow → Http (Option String)
latest_agent db r = elim r.final_agent_item_id [
  | some id ↦ ok (some id)
  | none ↦
      statement db
        (latest (keep_if (λ i. i.item_type == "agentMessage") (items_of db r.thread_id r.turn_id)))
]

module _ (codec : Codec) where
  unfoldable pub previews : Tables → TurnRow → List (Option String) → Http (List Value)
  previews db r [] = ok []
  previews db r (none ∷ ids) = previews db r ids
  previews db r (some id ∷ ids) = do
    found ← item_preview codec db r.thread_id r.turn_id id
    others ← previews db r ids
    ok (elim found [ none ↦ others | some v ↦ v ∷ others ])

  unfoldable pub summary : Tables → String → TurnRow → Http (List Value)
  summary db view r =
      if view == "summary"
      then (latest_agent db r >>= λ agent. previews db r (r.first_user_item_id ∷ agent ∷ []))
      else ok []

  unfoldable pub turn_value : Tables → String → TurnRow → Http Value
  turn_value db view r = do
    count ← statement db (length (items_of db r.thread_id r.turn_id))
    items ← summary db view r
    ok (
        obj (
          ("turnId", string r.turn_id)
          ∷ ("status", string r.status)
          ∷ ("errorPreview", or_null (λ t. string (text (take 2000 t))) r.error_json)
          ∷ ("startedAt", or_null int r.started_at)
          ∷ ("completedAt", or_null int r.completed_at)
          ∷ ("durationMs", or_null int r.duration_ms)
          ∷ ("itemsView", string view)
          ∷ ("itemCount", num count)
          ∷ ("items", list items)
          ∷ []))

  abbrev pub turn_entry : Tables → String → TurnRow → Entry
  turn_entry db view r = record {
    id = r.turn_id;
    ordinal = r.ordinal;
    value = turn_value db view r;
  }

  -- A prior cursor stands when its row is there and the history has not been cut behind it.
  unfoldable pub turn_cursor : Tables → String → String → ℤ → Option Cursor → Http Cursor
  turn_cursor db thread sort head none = ok (start "turns" thread "" sort head)
  turn_cursor db thread sort head (some c) = do
    exists ←
        statement db (any (λ r. r.turn_id == c.id && eq_ℤ r.ordinal c.ordinal) (turns_of db thread))
    ensure (exists && not (ltb_ℤ head c.head)) stale
    ok c

  unfoldable pub list_turns : Tables → Value → Http Value
  list_turns db body = do
    thread ← required body "threadId"
    sort ← order body "desc"
    view ← ok (unwrap_or (as_str (index "itemsView" body)) "summary")
    ensure (view == "summary" || view == "notLoaded") (
        error "UNSUPPORTED_ITEMS_VIEW"
          "轮次列表支持 summary 或 notLoaded；详细条目使用 listThreadItems 和 readThreadItem 分页读取")
    most ← limit body 1
    head ← statement db (max_ordinal (λ r. r.ordinal) (turns_of db thread))
    prior ← decode codec.to_vec codec.from_slice body "turns" thread "" sort
    cursor ← turn_cursor db thread sort head prior
    rows ←
        statement db (
          rows_after (λ r. r.ordinal) sort cursor.head cursor.id cursor.ordinal
            (turns_of db thread))
    p ← page codec.size most (map (turn_entry db view) rows)
    ok (
        page_value codec cursor p
          (("sortDirection", string sort) ∷ ("itemsView", string view) ∷ []))
