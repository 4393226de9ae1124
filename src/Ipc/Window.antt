-- ===== src/Ipc/Window.antt =====
-- `recent_events` of src/desktop_ipc.rs.

pub mod Events
use baijimu_codex_connector.Ipc.Session.{Session}
use baijimu_codex_connector.Json.{Value, as_u64, bool, index, list, num, obj, string, unwrap_or}
use baijimu_codex_connector.Prelude.{
  List, Option, [], false, keep_if, ltb, none, some, take, ℕ, ◌∷◌, clamp,
}

-- `recent_events`: a window on the retained events, after a number and bounded in length.
abbrev pub sequence_of : Value → ℕ
sequence_of v = unwrap_or (as_u64 (index "sequence" v)) 0

unfoldable pub window : ℕ → ℕ → List Value → List Value
window after limit events = take limit (keep_if (λ v. ltb after (sequence_of v)) events)

unfoldable pub recent_events : Value → Option Session → Value
unfolding window
recent_events body none = obj (("events", list []) ∷ ("connected", bool false) ∷ [])
recent_events body (some s) =
    let after = unwrap_or (as_u64 (index "afterSequence" body)) 0 in
    let limit = clamp 1 500 (unwrap_or (as_u64 (index "limit" body)) 100) in
    obj (
      ("events", list (window after limit s.events))
      ∷ ("latestSequence", num s.latest)
      ∷ ("streamId", string s.id)
      ∷ ("connected", bool s.alive)
      ∷ [])
