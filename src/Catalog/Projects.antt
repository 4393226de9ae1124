-- ===== src/Catalog/Projects.antt =====
-- `project_query` of src/desktop_catalog.rs: the project directories of the `threads` table.
use baijimu_codex_connector.Text.Numbers.{parse_u64, parse_unsigned}
use baijimu_codex_connector.Http.{Http}
use baijimu_codex_connector.Json.{
  index, Value, as_bool, as_str, as_u64, get, is_true, list, obj, string, unwrap_or,
}
use baijimu_codex_connector.Prelude.{
  ◌>>◌, [], ◌>>=◌, Bool, List, Option, String, codes, err, false, if◌then◌else◌, keep_if, map, min,
  none, not, ok, ok_or, some, ℕ, ◌&&◌, ◌+◌, ◌-◌, ◌^◌, ◌||◌, ◌∷◌, clamp,
}
use baijimu_codex_connector.Prelude.Int.{eq_ℤ}
use baijimu_codex_connector.Catalog.{
  Threads, readable, searched, text_before, flag, bad_cursor, cut_page, next_cursor,
}

-- SELECT DISTINCT cwd ... ORDER BY cwd.
unfoldable pub insert_path : String → List String → List String
unfolding text_before
insert_path p [] = p ∷ []
insert_path p (q ∷ qs) =
    if text_before (codes p) (codes q)
    then p ∷ q ∷ qs
    else if text_before (codes q) (codes p)
    then q ∷ insert_path p qs
    else q ∷ qs

unfoldable pub distinct_paths : List String → List String
unfolding insert_path
distinct_paths [] = []
distinct_paths (p ∷ ps) = insert_path p (distinct_paths ps)

unfoldable pub project_paths : Bool → String → Threads → List String
unfolding searched distinct_paths
project_paths archived term db = distinct_paths (
    map (λ r. r.cwd)
      (keep_if (λ r. eq_ℤ r.archived (flag archived) && searched term r.cwd) db.rows))

unfoldable pub read_position : Option Value → Http ℕ
unfolding parse_unsigned
read_position none = ok 0
read_position (some (string s)) = ok_or (parse_u64 (codes s)) bad_cursor
read_position (some _) = err bad_cursor

abbrev pub saturating_add : ℕ → ℕ → ℕ
saturating_add a b = min (a + b) (2 ^ 64 - 1)

module _ (is_dir : String → Bool) where
  unfoldable pub listed_paths : Value → Threads → List String
  unfolding index get project_paths
  listed_paths body db =
      keep_if (λ p. not (is_true (index "existsOnly" body)) || is_dir p)
        (project_paths (unwrap_or (as_bool (index "archived" body)) false)
          (unwrap_or (as_str (index "searchTerm" body)) "") db)

  unfoldable pub project_query : Threads → Value → Http Value
  unfolding get read_position listed_paths cut_page
  project_query db body = do
    offset ← read_position (get "cursor" body)
    let limit = clamp 1 500 (unwrap_or (as_u64 (index "limit" body)) 100)
    readable db
    let (paths, more) = cut_page limit offset (listed_paths body db)
    ok (
        obj (
          (
            "data",
            list (
                map
                  (λ p. obj (("path", string p) ∷ ("source", string "desktop-readonly-index") ∷ []))
                  paths),
          )
          ∷ ("nextCursor", next_cursor (if more then some (saturating_add offset limit) else none))
          ∷ []))
