-- ===== src/History/Cursor/RoundTrip.antt =====
-- A cursor comes back from its text for the query that it was made for, and for no other.
use baijimu_codex_connector.History.Cursor.{Bytes, Cursor}
use baijimu_codex_connector.Prelude.{All, Option, some, ◌<◌, ◌≡◌}

module _ (to_vec : Cursor → Bytes) (from_slice : Bytes → Option Cursor) where
  -- What the JSON text of a cursor must do: be bytes, and read back as the cursor.
  pub record Reads (c : Cursor) : Type 0 where
    pub bytes : All (λ b. b < 256) (to_vec c)
    pub back : from_slice (to_vec c) ≡ some c
