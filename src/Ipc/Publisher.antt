-- ===== src/Ipc/Publisher.antt =====
-- `Publisher` of src/desktop_events.rs: where its events go, and the thread that takes them from the
-- bounded queue. HTTP is a parameter: an event that was posted counts as such whether or not it arrived.
pub mod Order
pub mod Progress
use baijimu_codex_connector.Text.{trim, Chars}
use baijimu_codex_connector.Json.{Value, index, obj, string}
use baijimu_codex_connector.Prelude.{
  Bool, false, true, List, Option, String, [], none, some, ◌++◌, ◌∷◌,
}
use baijimu_codex_connector.Ipc.Receive.{publish}

pub record Target : Type 0 where
  pub app : String
  pub endpoint : String
  pub token : Chars

abbrev pub target_of : String → String → Chars → Option Target
target_of app endpoint [] = none
target_of app endpoint (c ∷ cs) = some (record { app = app; endpoint = endpoint; token = c ∷ cs })

-- `from_env` up to the channel; `read_to_string` has nothing where the file cannot be read.
unfoldable pub from_env : (String → Option String) → (String → Option Chars) → Option Target
unfolding trim
from_env var read_to_string = elim (var "BAIJIMU_LOCAL_APP_ID") [
  | none ↦ none
  | some app ↦ elim (var "BAIJIMU_LOCAL_APP_EVENT_ENDPOINT") [
    | none ↦ none
    | some endpoint ↦ elim (var "BAIJIMU_LOCAL_APP_EVENT_TOKEN_FILE") [
      | none ↦ none
      | some token_path ↦ elim (read_to_string token_path) [
        | none ↦ none
        | some file ↦ target_of app endpoint (trim file)
      ]
    ]
  ]
]

unfoldable pub envelope : String → String → Value → Value
unfolding index
envelope app event_id payload = obj (
    ("appId", string app)
    ∷ ("event", string "codexDesktopEvent")
    ∷ ("eventId", string event_id)
    ∷ ("occurredAt", index "receivedAt" payload)
    ∷ ("payload", payload)
    ∷ [])

-- The thread builds its HTTP client first. Where that fails it is gone, and the channel with it.
pub data Phase : Type 0 where
  starting : Phase
  running : Phase
  gone : Phase

-- The channel and the thread: `queue` waits in the channel, `posted` has been sent, the first first. The
-- queue is the `publisher` of the session that publishes.
pub record Channel : Type 0 where
  pub phase : Phase
  pub queue : List Value
  pub posted : List Value

pub data Move : Type 0 where
  built : Bool → Move
  published : Value → Move
  taken : String → Move

abbrev pub queue_of : Option (List Value) → List Value
queue_of none = []
queue_of (some queue) = queue

-- The thread takes the oldest event of the queue, under a new id.
unfoldable pub take_next : String → String → List Value → List Value → Channel
unfolding envelope
take_next app event_id [] posted = record { phase = running; queue = []; posted = posted }
take_next app event_id (v ∷ vs) posted = record {
  phase = running;
  queue = vs;
  posted = posted ++ envelope app event_id v ∷ [];
}

-- An early return drops the receiver and what waits; from then on nothing is sent or taken.
unfoldable pub build : Bool → List Value → List Value → Channel
build true queue posted = record { phase = running; queue = queue; posted = posted }
build false queue posted = record { phase = gone; queue = []; posted = posted }

unfoldable pub move_in : String → Phase → Move → List Value → List Value → Channel
unfolding publish take_next build
move_in app gone m queue posted = record { phase = gone; queue = queue; posted = posted }
move_in app p (published v) queue posted = record {
  phase = p;
  queue = queue_of (publish v (some queue));
  posted = posted;
}
move_in app starting (built well) queue posted = build well queue posted
move_in app starting (taken event_id) queue posted = record {
  phase = starting;
  queue = queue;
  posted = posted;
}
move_in app running (built well) queue posted = record {
  phase = running;
  queue = queue;
  posted = posted;
}
move_in app running (taken event_id) queue posted = take_next app event_id queue posted

unfoldable pub move : String → Move → Channel → Channel
unfolding move_in
move app m c = move_in app c.phase m c.queue c.posted

unfoldable pub moves : String → List Move → Channel → Channel
unfolding move
moves app [] c = c
moves app (m ∷ ms) c = moves app ms (move app m c)
