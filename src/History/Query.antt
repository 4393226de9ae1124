-- ===== src/History/Query.antt =====
-- What the three queries of src/desktop_history.rs share: `required`, `order`, `limit`, `stale`,
-- `database` and `item_preview`. SQLite's JSON functions and serde's printer are parameters.
pub mod Turns
pub mod Records
pub mod Content
use baijimu_codex_connector.Prelude.Int.{negsuc, pos, ℤ}
use baijimu_codex_connector.History.Tables.{ItemRow, Tables}
use baijimu_codex_connector.History.Paging.{Page, advance}
use baijimu_codex_connector.History.Cursor.{Bytes, Cursor, encode, error}
use baijimu_codex_connector.Http.{Http, HttpError, new}
use baijimu_codex_connector.Json.{
  Object, Value, as_str, bool, get, index, items, list, nint, null, num, number, obj, string, uint,
  unwrap_or,
}
use baijimu_codex_connector.Prelude.{
  Bool, Char, List, Option, String, [], err, find, if◌then◌else◌, keep_if, last, leb, none, ok,
  some, str_append, take, true, ℕ, ◌&&◌, ◌==◌, ◌∷◌,
}

-- The code that the queries call outside the repository: the JSON text of a cursor and back, the
-- length of a value's JSON text, SQLite's json_extract of an item's preview and status, the length
-- of a text in bytes, and the text of a database error.
pub record Codec : Type 0 where
  pub to_vec : Cursor → Bytes
  pub from_slice : Bytes → Option Cursor
  pub size : Value → ℕ
  pub extract : ItemRow → Option (List Char) × Option (List Char)
  pub byte_length : List Char → ℕ

abbrev pub preview_chars : ℕ
preview_chars = 2000

abbrev pub chunk_chars : ℕ
chunk_chars = 8192

abbrev pub text : List Char → String
text [] = String.[]
text (c ∷ cs) = String.◌∷◌ c (text cs)

abbrev pub int : ℤ → Value
int (pos n) = number (uint n)
int (negsuc n) = number (nint n)

abbrev pub or_null {ℓ} : {A : Type ℓ} → (A → Value) → Option A → Value
or_null f none = null
or_null f (some a) = f a

unfoldable pub database : String → HttpError
unfolding error
database e = error "DESKTOP_HISTORY_UNAVAILABLE" (str_append "桌面历史索引不可读或协议不兼容：" e)

-- One statement: its rows, unless the database fails.
unfoldable pub statement {ℓ} : {A : Type ℓ} → Tables → A → Http A
statement db a = elim db.fault [ none ↦ ok a | some e ↦ err (database e) ]

unfoldable pub required : Value → String → Http String
unfolding index new
required v key = elim (index key v) [
  | string String.[] ↦ err (new 400 (str_append key " is required"))
  | string (String.◌∷◌ c s) ↦ ok (String.◌∷◌ c s)
  | _ ↦ err (new 400 (str_append key " is required"))
]

unfoldable pub order : Value → String → Http String
unfolding index new
order body default =
    let sort = unwrap_or (as_str (index "sortDirection" body)) default in
    if sort == "asc"
    then ok "asc"
    else if sort == "desc"
    then ok "desc"
    else err (new 400 "invalid sortDirection")

unfoldable pub limit : Value → ℕ → Http ℕ
unfolding get new
limit body default = elim (get "limit" body) [
  | none ↦ ok default
  | some (number (uint n)) ↦
      if leb 1 n && leb n 100 then ok n else err (new 400 "limit must be 1..100")
  | some _ ↦ err (new 400 "limit must be 1..100")
]

unfoldable pub stale : HttpError
unfolding error
stale = error "HISTORY_CURSOR_STALE" "历史已变化，丢弃旧游标并重新读取最新页"

abbrev pub is_item : String → String → ItemRow → Bool
is_item thread turn r = r.thread_id == thread && r.turn_id == turn

abbrev pub items_of : Tables → String → String → List ItemRow
items_of db thread turn = keep_if (is_item thread turn) db.items

module _ (codec : Codec) where
  unfoldable pub preview : ItemRow → Value
  preview r = obj (
      ("id", string r.item_id)
      ∷ ("type", string r.item_type)
      ∷ ("version", int r.updated_at)
      ∷ ("contentBytes", num (codec.byte_length r.item_json))
      ∷ ("preview", or_null (λ t. string (text (take preview_chars t))) (codec.extract r).0)
      ∷ ("status", or_null (λ t. string (text (take 100 t))) (codec.extract r).1)
      ∷ ("detailAvailable", bool true)
      ∷ ("previewOnly", bool true)
      ∷ [])

  unfoldable pub item_preview : Tables → String → String → String → Http (Option Value)
  item_preview db thread turn id =
      statement db (elim (find (λ r. r.item_id == id) (items_of db thread turn)) [
        | none ↦ none
        | some r ↦ some (preview r)
      ])

  -- The data, the cursor of the next page if there is one, and the fields that follow them.
  unfoldable pub page_value : Cursor → Page → Object → Value
  page_value cursor p rest = obj (
      ("data", list p.rows)
      ∷ (
        "nextCursor",
        if p.more
            then string (encode codec.to_vec codec.from_slice (advance cursor p.last))
            else null,
      )
      ∷ rest)
