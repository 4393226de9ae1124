-- ===== src/History/Tables.antt =====
-- The two tables of the native history projection, and the SQL of src/desktop_history.rs that reads
-- them: WHERE, ORDER BY on the ordinal, LIMIT, count, max and EXISTS. A text column that SQLite cuts
-- by characters is a list of characters. `fault` is an error that every statement meets.
use baijimu_codex_connector.Prelude.{
  Bool, Char, List, Option, String, [], if◌then◌else◌, keep_if, ◌&&◌, ◌==◌, ◌||◌, ◌∷◌,
}
use baijimu_codex_connector.Prelude.Int.{ℤ, negsuc, ltb_ℤ, leb_ℤ, max_ℤ}

pub record TurnRow : Type 0 where
  pub thread_id : String
  pub turn_id : String
  pub ordinal : ℤ
  pub status : String
  pub error_json : Option (List Char)
  pub started_at : Option ℤ
  pub completed_at : Option ℤ
  pub duration_ms : Option ℤ
  pub first_user_item_id : Option String
  pub final_agent_item_id : Option String

pub record ItemRow : Type 0 where
  pub thread_id : String
  pub turn_id : String
  pub item_id : String
  pub item_type : String
  pub ordinal : ℤ
  pub updated_at : ℤ
  pub item_json : List Char

pub record Tables : Type 0 where
  pub turns : List TurnRow
  pub items : List ItemRow
  pub projection : List (String × ℤ)
  pub fault : Option String

-- The order of a listing.
abbrev pub ahead : String → ℤ → ℤ → Bool
ahead sort a b = if sort == "desc" then ltb_ℤ b a else ltb_ℤ a b

module _ {ℓ} {R : Type ℓ} (ordinal : R → ℤ) where
  -- ORDER BY, by insertion.
  unfoldable pub insert_row : String → R → List R → List R
  insert_row sort r [] = r ∷ []
  insert_row sort r (q ∷ qs) =
      if ahead sort (ordinal r) (ordinal q) then r ∷ q ∷ qs else q ∷ insert_row sort r qs

  unfoldable pub order_by : String → List R → List R
  order_by sort [] = []
  order_by sort (r ∷ rs) = insert_row sort r (order_by sort rs)

  -- `coalesce(max(rollout_ordinal), -1)`
  unfoldable pub max_ordinal : List R → ℤ
  max_ordinal [] = negsuc 0
  max_ordinal (r ∷ []) = ordinal r
  max_ordinal (r ∷ q ∷ rs) = max_ℤ (ordinal r) (max_ordinal (q ∷ rs))

  -- The rows up to the head that stand after the anchor; with no anchor id, all of them.
  unfoldable pub rows_after : String → ℤ → String → ℤ → List R → List R
  rows_after sort head id anchor rs =
      order_by sort
        (keep_if (λ r. leb_ℤ (ordinal r) head && (id == "" || ahead sort anchor (ordinal r))) rs)
