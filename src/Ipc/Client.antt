-- ===== src/Ipc/Client.antt =====
-- `connect` of src/desktop_ipc.rs: the handshake and the session that it gives. The desktop process is a
-- parameter: what the endpoint says during the handshake.
use baijimu_codex_connector.Ipc.Receive.{discovery_refusal}
use baijimu_codex_connector.Ipc.Session.{Session, reader, writer}
use baijimu_codex_connector.Http.{Http, HttpError, failure}
use baijimu_codex_connector.Json.{Value, as_str, index, is_str}
use baijimu_codex_connector.Prelude.{
  List, Option, Result, String, [], err, if◌then◌else◌, none, ok, ok_or, some, true, ◌&&◌, ◌∷◌,
}

-- The loop that reads frames until the reply to `initialize`, with what it writes meanwhile. `stop`
-- is the error by which reading ends: the endpoint's, or the timeout's.
unfoldable pub initialize : String → String → List Value → Result String String × List Value
initialize id stop [] = (err stop, [])
initialize id stop (v ∷ vs) =
    let rest = initialize id stop vs in
    if is_str (index "type" v) "response" && is_str (index "requestId" v) id
    then (
      ok_or
          (if is_str (index "resultType" v) "success"
            then as_str (index "clientId" (index "result" v))
            else none)
          "desktop IPC initialization rejected",
      [],
    )
    else if is_str (index "type" v) "client-discovery"
    then (rest.0, discovery_refusal v ∷ rest.1)
    else rest

-- A fresh session under the client id that the desktop gave.
unfoldable pub new_session : String → Option (List Value) → Session
new_session cid publisher = record {
  id = cid;
  alive = true;
  outgoing = [];
  written = [];
  pending = [];
  mailbox = [];
  snapshots = [];
  snapshot_serial = [];
  owners = [];
  latest = 0;
  events = [];
  tasks = reader ∷ writer ∷ [];
  publisher = publisher;
}

abbrev pub unavailable : String → HttpError
unavailable message = failure "DESKTOP_IPC_UNAVAILABLE" message

-- The endpoint is asked: it refuses the connection, or sends frames until an error stops it.
unfoldable pub open_session :
    String → Result String (List Value × String) → Option (List Value) → Http Session
unfolding failure
open_session id (err e) publisher = err (unavailable e)
open_session id (ok (frames, stop)) publisher = elim (initialize id stop frames).0 [
  | err e ↦ err (unavailable e)
  | ok cid ↦ ok (new_session cid publisher)
]

-- `connect`: a live session is used as it is.
unfoldable pub connect :
    String
    → Result String (List Value × String)
    → Option (List Value)
    → Option Session
    → Http Session
connect id endpoint publisher none = open_session id endpoint publisher
connect id endpoint publisher (some s) =
    if s.alive then ok s else open_session id endpoint publisher
