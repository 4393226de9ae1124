-- ===== src/History/Paging.antt =====
-- The loop over the selected rows that `list_turns` and `list_items` of src/desktop_history.rs share,
-- and the place where it leaves the cursor.
pub mod Pages
pub mod Sorted
pub mod Order
pub mod Walk
use baijimu_codex_connector.History.Cursor.{Cursor}
use baijimu_codex_connector.Http.{Http}
use baijimu_codex_connector.Json.{Value}
use baijimu_codex_connector.Prelude.{
  Bool, List, Option, String, [], false, if◌then◌else◌, length, ltb, nat_eq, none, not, ok, some,
  take, true, ℕ, ◌&&◌, ◌*◌, ◌++◌, ◌+◌, ◌>>=◌, ◌∷◌,
}
use baijimu_codex_connector.Prelude.Int.{ℤ}

abbrev pub page_bytes : ℕ
page_bytes = 256 * 1024

-- A row as the loop sees it: its place, and the value that reading it gives.
pub record Entry : Type 0 where
  pub id : String
  pub ordinal : ℤ
  pub value : Http Value

-- What the loop has at its end: the data, whether there is more, and the last row taken.
pub record Page : Type 0 where
  pub rows : List Value
  pub more : Bool
  pub last : Option (String × ℤ)

module _ (size : Value → ℕ) where
  -- The `for row in rows` loop, with the values taken so far, their bytes and the cursor's place.
  unfoldable pub fill : ℕ → List Entry → List Value → ℕ → Option (String × ℤ) → Http Page
  fill most [] taken bytes place = ok (record { rows = taken; more = false; last = place })
  fill most (e ∷ es) taken bytes place =
      if nat_eq (length taken) most
      then ok (record { rows = taken; more = true; last = place })
      else (e.value >>= λ v.
          if ltb page_bytes (bytes + size v) && not (nat_eq (length taken) 0)
          then ok (record { rows = taken; more = true; last = place })
          else fill most es (taken ++ v ∷ []) (bytes + size v) (some (e.id, e.ordinal)))

  -- One page: at most `most + 1` rows are selected.
  unfoldable pub page : ℕ → List Entry → Http Page
  page most es = fill most (take (most + 1) es) [] 0 none

-- The cursor after the loop: it stands at the last row taken, and where it was if there is none.
unfoldable pub advance : Cursor → Option (String × ℤ) → Cursor
advance c none = c
advance c (some (id, ordinal)) = record {
  version = c.version;
  kind = c.kind;
  thread = c.thread;
  turn = c.turn;
  order = c.order;
  head = c.head;
  ordinal = ordinal;
  id = id;
  offset = c.offset;
  item_version = c.item_version;
  length = c.length;
}
