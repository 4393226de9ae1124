-- ===== src/History/Query/Content.antt =====
-- `read_item`, `query` and `invoke` of src/desktop_history.rs.
pub mod Whole
use baijimu_codex_connector.Prelude.Int.{eq_ℤ, leb_ℤ, pos, pos_part, ℤ}
use baijimu_codex_connector.History.Tables.{ItemRow, Tables}
use baijimu_codex_connector.History.Query.Turns.{list_turns}
use baijimu_codex_connector.History.Query.Records.{list_items}
use baijimu_codex_connector.History.Query.{
  Codec, chunk_chars, int, items_of, or_null, order, required, stale, statement, text,
}
use baijimu_codex_connector.History.Cursor.{Cursor, decode, encode, error}
use baijimu_codex_connector.Http.{Http, new}
use baijimu_codex_connector.Json.{Value, num, obj, string}
use baijimu_codex_connector.Prelude.{
  Bool, Char, List, Option, String, [], drop, ensure, err, find, if◌then◌else◌, length, ltb, none,
  ok, ok_or, some, take, ◌&&◌, ◌+◌, ◌==◌, ◌>>=◌, ◌>>◌, ◌∷◌,
}

-- The cursor at another offset.
abbrev pub at : Cursor → ℤ → Cursor
at c offset = record {
  version = c.version;
  kind = c.kind;
  thread = c.thread;
  turn = c.turn;
  order = c.order;
  head = c.head;
  ordinal = c.ordinal;
  id = c.id;
  offset = offset;
  item_version = c.item_version;
  length = c.length;
}

-- The cursor of a content read with none: the item's identity, at offset 0.
unfoldable pub first_chunk : ItemRow → Cursor
first_chunk r = record {
  version = 1;
  kind = "content";
  thread = r.thread_id;
  turn = r.turn_id;
  order = "";
  head = r.ordinal;
  ordinal = r.ordinal;
  id = r.item_id;
  offset = pos 0;
  item_version = r.updated_at;
  length = pos (length r.item_json);
}

-- The cursor still describes the item as it is.
unfoldable pub is_current : ItemRow → Cursor → Bool
is_current r c =
    c.id == r.item_id
    && eq_ℤ c.ordinal r.ordinal
    && eq_ℤ c.item_version r.updated_at
    && eq_ℤ c.length (pos (length r.item_json))
    && leb_ℤ c.offset (pos (length r.item_json))

unfoldable pub content_cursor : ItemRow → Option Cursor → Http Cursor
content_cursor r none = ok (first_chunk r)
content_cursor r (some c) = ensure (is_current r c) stale >> ok c

-- `substr(item_json, offset + 1, 8192)`; the decoder lets no negative offset through.
unfoldable pub chunk : ItemRow → Cursor → List Char
chunk r c = take chunk_chars (drop (pos_part c.offset) r.item_json)

-- The next cursor, where characters remain.
unfoldable pub next_chunk : ItemRow → Cursor → Option Cursor
next_chunk r c =
    let offset = pos_part c.offset + length (chunk r c) in
    if ltb offset (length r.item_json) then some (at c (pos offset)) else none

module _ (codec : Codec) where
  unfoldable pub read_item : Tables → Value → Http Value
  read_item db body = do
    thread ← required body "threadId"
    turn ← required body "turnId"
    id ← required body "itemId"
    prior ← decode codec.to_vec codec.from_slice body "content" thread turn ""
    row ← statement db (find (λ r. r.item_id == id) (items_of db thread turn))
    r ← ok_or row (error "ITEM_NOT_FOUND" "条目不存在于该轮次")
    c ← content_cursor r prior
    content ← statement db (chunk r c)
    ok (
        obj (
          ("threadId", string thread)
          ∷ ("turnId", string turn)
          ∷ ("itemId", string id)
          ∷ ("version", int r.updated_at)
          ∷ ("encoding", string "json-text")
          ∷ ("offset", int c.offset)
          ∷ ("totalCharacters", num (length r.item_json))
          ∷ ("content", string (text content))
          ∷ (
            "nextCursor",
            or_null (λ n. string (encode codec.to_vec codec.from_slice n)) (next_chunk r c),
          )
          ∷ []))

  -- `query`
  unfoldable pub query : Tables → String → Value → Http Value
  query db method body =
      if method == "listThreadTurns"
      then list_turns codec db body
      else if method == "listThreadItems"
      then list_items codec db body
      else if method == "readThreadItem"
      then read_item db body
      else err (new 404 "unknown history method")
