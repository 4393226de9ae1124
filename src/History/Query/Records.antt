-- ===== src/History/Query/Records.antt =====
-- `list_items` of src/desktop_history.rs.
use baijimu_codex_connector.Prelude.Int.{eq_ℤ, ltb_ℤ, ℤ}
use baijimu_codex_connector.History.Tables.{ItemRow, Tables, max_ordinal, rows_after}
use baijimu_codex_connector.History.Query.Turns.{turns_of}
use baijimu_codex_connector.History.Query.{
  Codec, item_preview, items_of, limit, order, page_value, required, stale, statement,
}
use baijimu_codex_connector.History.Paging.{Entry, page}
use baijimu_codex_connector.History.Cursor.{Cursor, decode, error, start}
use baijimu_codex_connector.Http.{Http}
use baijimu_codex_connector.Json.{Value, string}
use baijimu_codex_connector.Prelude.{
  Option, String, [], any, ensure, map, none, not, ok, ok_or, some, ◌&&◌, ◌==◌, ◌>>=◌, ◌>>◌, ◌∷◌,
}

module _ (codec : Codec) where
  abbrev pub item_entry : Tables → String → String → ItemRow → Entry
  item_entry db thread turn r = record {
    id = r.item_id;
    ordinal = r.ordinal;
    value = item_preview codec db thread turn r.item_id >>= λ v. ok_or v stale;
  }

  unfoldable pub item_cursor : Tables → String → String → String → ℤ → Option Cursor → Http Cursor
  item_cursor db thread turn sort head none = ok (start "items" thread turn sort head)
  item_cursor db thread turn sort head (some c) = do
    exists ←
        statement db
          (any (λ r. r.item_id == c.id && eq_ℤ r.ordinal c.ordinal) (items_of db thread turn))
    ensure (exists && not (ltb_ℤ head c.head)) stale
    ok c

  unfoldable pub list_items : Tables → Value → Http Value
  list_items db body = do
    thread ← required body "threadId"
    turn ← required body "turnId"
    sort ← order body "asc"
    most ← limit body 20
    exists ← statement db (any (λ r. r.turn_id == turn) (turns_of db thread))
    ensure exists (error "TURN_NOT_FOUND" "轮次不存在于该任务")
    head ← statement db (max_ordinal (λ r. r.ordinal) (items_of db thread turn))
    prior ← decode codec.to_vec codec.from_slice body "items" thread turn sort
    cursor ← item_cursor db thread turn sort head prior
    rows ← statement db (
        rows_after (λ r. r.ordinal) sort cursor.head cursor.id cursor.ordinal
          (items_of db thread turn))
    p ← page codec.size most (map (item_entry db thread turn) rows)
    ok (page_value codec cursor p (("sortDirection", string sort) ∷ []))
