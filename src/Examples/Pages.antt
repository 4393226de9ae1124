-- ===== src/Examples/Pages.antt =====
-- The cursors, pages and chunks of src/desktop_history.rs at concrete inputs.
use baijimu_codex_connector.History.Paging.Walk.{walk, walk_whole}
use baijimu_codex_connector.History.Tables.{ItemRow, rows_after, insert_row, order_by}
use baijimu_codex_connector.Json.{Object, num, string}
use baijimu_codex_connector.Prelude.Int.{pos}
use baijimu_codex_connector.Prelude.{
  Option, [], arith, if◌then◌else◌, length, nat_eq, none, ok, refl, some, true, ℕ, ◌∷◌, ◌≡◌, List,
}
use baijimu_codex_connector.History.Cursor.{Cursor, Bytes, start}
use baijimu_codex_connector.History.Paging.{Entry, Page, page, fill}
use baijimu_codex_connector.History.Paging.Pages.{Taken, page-Taken}
use baijimu_codex_connector.History.Query.Content.Whole.{contents, contents_whole}
use baijimu_codex_connector.Examples.Session.{unit_size}

abbrev first_cursor : Cursor
first_cursor = start "turns" "task-a" "" "desc" (pos 4)

abbrev two_bytes : Cursor → Bytes
two_bytes c = 1 ∷ 2 ∷ []

abbrev from_two : Bytes → Option Cursor
from_two bytes = if nat_eq (length bytes) 2 then some first_cursor else none

abbrev query_fields : Object
query_fields = ("cursor", string "0102") ∷ []

abbrev entry : ℕ → Entry
entry n = record { id = "row"; ordinal = pos n; value = ok (num n) }

abbrev page_of_two : Page
page_of_two = record { rows = num 9 ∷ num 8 ∷ []; more = true; last = some ("row", pos 8) }

page-Taken_example : Taken unit_size 2 (entry 9 ∷ entry 8 ∷ entry 7 ∷ []) page_of_two
unfolding page fill
page-Taken_example =
    page-Taken unit_size 2 (entry 9 ∷ entry 8 ∷ entry 7 ∷ []) page_of_two (omega arith) refl

abbrev item : ItemRow
item = record {
  thread_id = "task-a";
  turn_id = "turn-a";
  item_id = "item-a";
  item_type = "agentMessage";
  ordinal = pos 3;
  updated_at = pos 4;
  item_json = "a" ∷ "b" ∷ [];
}

contents_whole_example : contents 1 item none ≡ ok item.item_json
contents_whole_example = contents_whole 0 item (omega arith)

abbrev numbers : List ℕ
numbers = 2 ∷ 0 ∷ 1 ∷ []

abbrev newest_first : Cursor
newest_first = start "turns" "task-a" "" "desc" (pos 4)

walk_whole_example :
    walk unit_size 1 pos (λ n. "row") (λ n. ok (num n)) "desc" numbers 4 newest_first
    ≡ ok (num 2 ∷ num 1 ∷ num 0 ∷ [])
unfolding start rows_after order_by insert_row
walk_whole_example =
    walk_whole unit_size 1 pos (λ n. "row") (λ n. ok (num n)) "desc" numbers 4 newest_first
      (num 2 ∷ num 1 ∷ num 0 ∷ []) (omega arith) ((refl, (refl, tt)), ((refl, tt), (tt, tt)))
      (refl, (refl, (refl, tt))) (refl, (refl, (refl, refl))) (omega arith)
