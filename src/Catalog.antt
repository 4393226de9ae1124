-- ===== src/Catalog.antt =====
-- src/desktop_catalog.rs: the list of tasks over the `threads` table that the desktop writes. `fault` is an
-- error that every statement meets.
pub mod Walk
pub mod Resume
pub mod Projects
pub mod Paths
pub mod Index
use baijimu_codex_connector.Text.Numbers.{parse_unsigned, unsigned_digits}
use baijimu_codex_connector.Text.{Chars, strip_prefix, to_ascii_lowercase}
use baijimu_codex_connector.Http.{Http, HttpError, coded, new}
use baijimu_codex_connector.Json.{
  index, Value, as_bool, as_str, as_u64, bool, get, is_str, list, null, obj, string, unwrap_or,
}
use baijimu_codex_connector.Prelude.{
  ◌>>◌, [], ◌>>=◌, Bool, List, Option, String, codes, drop, err, false, find, if◌then◌else◌,
  keep_if, length, ltb, map, nat_eq, none, not, ok, ok_or, some, str_append, take, true, ℕ, ◌&&◌,
  ◌+◌, ◌==◌, ◌^◌, ◌||◌, ◌∷◌, clamp,
}
use baijimu_codex_connector.Invoke.Input.{decimal}
use baijimu_codex_connector.Prelude.Int.{ℤ, pos, ltb_ℤ, eq_ℤ}
use baijimu_codex_connector.History.Query.{int}

pub record ThreadRow : Type 0 where
  pub id : String
  pub cwd : String
  pub title : String
  pub created_at : ℤ
  pub updated_at : ℤ
  pub source : String
  pub model_provider : String
  pub archived : ℤ
  pub history_mode : String
  pub rollout_path : String

pub record Threads : Type 0 where
  pub rows : List ThreadRow
  pub fault : Option String

-- `schema`
abbrev pub schema : String → HttpError
schema e = coded 503 (str_append "桌面索引协议不兼容：" e) "DESKTOP_INDEX_INCOMPATIBLE" (obj [])

abbrev pub readable : Threads → Http (Unit {0})
readable db = elim db.fault [ none ↦ ok tt | some e ↦ err (schema e) ]

-- `instr(lower(text),lower(term))>0`, or an empty term; `lower` of SQLite is for ASCII.
unfoldable pub occurs : Chars → Chars → Bool
unfolding strip_prefix
occurs term [] = nat_eq (length term) 0
occurs term (c ∷ cs) = elim (strip_prefix term (c ∷ cs)) [ none ↦ occurs term cs | some _ ↦ true ]

unfoldable pub searched : String → String → Bool
unfolding occurs
searched term text =
    term == "" || occurs (map to_ascii_lowercase (codes term)) (map to_ascii_lowercase (codes text))

-- The order of texts by their characters, which is that of their UTF-8 bytes.
unfoldable pub text_before : Chars → Chars → Bool
text_before s [] = false
text_before [] (d ∷ t) = true
text_before (c ∷ s) (d ∷ t) = ltb c d || (nat_eq c d && text_before s t)

abbrev pub flag : Bool → ℤ
flag true = pos 1
flag false = pos 0

-- `str::parse::<i64>` where the result is not negative.
unfoldable pub parse_natural : Chars → Option ℕ
unfolding parse_unsigned unsigned_digits
parse_natural [] = none
parse_natural (c ∷ cs) =
    if nat_eq c b'-' then unsigned_digits 1 cs else parse_unsigned (2 ^ 63) (c ∷ cs)

abbrev pub bad_cursor : HttpError
bad_cursor = new 400 "invalid cursor"

-- What `query` reads from its request: which rows in which order, and the page of them.
pub record Filter : Type 0 where
  pub ascending : Bool
  pub by_creation : Bool
  pub archived : Bool
  pub term : String
  pub cwd : String

pub record Search : Type 0 where
  pub limit : ℕ
  pub offset : ℕ
  pub filter : Filter

unfoldable pub read_offset : Option Value → Http ℕ
unfolding parse_natural
read_offset none = ok 0
read_offset (some null) = ok 0
read_offset (some (string s)) = ok_or (parse_natural (codes s)) bad_cursor
read_offset (some _) = err bad_cursor

unfoldable pub read_filter : Value → Filter
unfolding index get is_str
read_filter body = record {
  ascending = is_str (index "sortDirection" body) "asc";
  by_creation = is_str (index "sortKey" body) "created_at";
  archived = unwrap_or (as_bool (index "archived" body)) false;
  term = unwrap_or (as_str (index "searchTerm" body)) "";
  cwd = unwrap_or (as_str (index "cwd" body)) "";
}

unfoldable pub read_search : Value → Http Search
unfolding index get read_filter read_offset
read_search body = do
  offset ← read_offset (get "cursor" body)
  ok (record {
    limit = clamp 1 100 (unwrap_or (as_u64 (index "limit" body)) 50);
    offset = offset;
    filter = read_filter body;
  })

abbrev pub selected : Filter → ThreadRow → Bool
selected filter r =
    eq_ℤ r.archived (flag filter.archived)
    && searched filter.term r.title
    && (filter.cwd == "" || r.cwd == filter.cwd)

abbrev pub sort_key : Filter → ThreadRow → ℤ
sort_key filter r = if filter.by_creation then r.created_at else r.updated_at

-- ORDER BY the key and then the id, both in the one direction.
unfoldable pub row_before : Filter → ThreadRow → ThreadRow → Bool
unfolding text_before
row_before filter r q =
    let (a, b) = if filter.ascending then (r, q) else (q, r) in
    ltb_ℤ (sort_key filter a) (sort_key filter b)
    || (eq_ℤ (sort_key filter a) (sort_key filter b) && text_before (codes a.id) (codes b.id))

unfoldable pub insert_thread : Filter → ThreadRow → List ThreadRow → List ThreadRow
unfolding row_before
insert_thread filter r [] = r ∷ []
insert_thread filter r (q ∷ qs) =
    if row_before filter q r then q ∷ insert_thread filter r qs else r ∷ q ∷ qs

unfoldable pub order_threads : Filter → List ThreadRow → List ThreadRow
unfolding insert_thread
order_threads filter [] = []
order_threads filter (r ∷ rs) = insert_thread filter r (order_threads filter rs)

-- WHERE and ORDER BY of `query`.
unfoldable pub matching : Filter → Threads → List ThreadRow
unfolding searched order_threads
matching filter db = order_threads filter (keep_if (selected filter) db.rows)

-- One row more than the limit is asked for, and tells whether there is a next page.
unfoldable pub cut_page {ℓ} : {A : Type ℓ} → ℕ → ℕ → List A → List A × Bool
cut_page limit offset rs =
    let rows = take (limit + 1) (drop offset rs) in (take limit rows, ltb limit (length rows))

unfoldable pub thread : ThreadRow → Value
thread r = obj (
    ("id", string r.id)
    ∷ ("cwd", string r.cwd)
    ∷ ("title", string r.title)
    ∷ ("createdAt", int r.created_at)
    ∷ ("updatedAt", int r.updated_at)
    ∷ ("source", string r.source)
    ∷ ("modelProvider", string r.model_provider)
    ∷ ("archived", bool (not (eq_ℤ r.archived (pos 0))))
    ∷ ("metadataOnly", bool true)
    ∷ [])

-- The rows of a page and the offset of the next.
unfoldable pub page_of : Search → Threads → List ThreadRow × Option ℕ
unfolding matching cut_page
page_of search db =
    let (rows, more) = cut_page search.limit search.offset (matching search.filter db) in
    (rows, if more then some (search.offset + search.limit) else none)

abbrev pub next_cursor : Option ℕ → Value
next_cursor none = null
next_cursor (some n) = string (decimal n)

unfoldable pub query : Threads → Value → Http Value
unfolding read_search page_of thread
query db body = do
  search ← read_search body
  readable db
  let (rows, next) = page_of search db
  ok (
      obj (
        ("data", list (map thread rows))
        ∷ ("nextCursor", next_cursor next)
        ∷ ("source", string "desktop-readonly-index")
        ∷ []))

unfoldable pub history_source : Threads → String → Http (String × String)
unfolding coded
history_source db id = do
  readable db
  elim (find (λ r. r.id == id) db.rows) [
    | none ↦ err (coded 404 "任务不存在" "THREAD_NOT_FOUND" (obj []))
    | some r ↦ ok (r.history_mode, r.rollout_path)
  ]
