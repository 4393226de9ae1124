-- ===== src/Ipc/Session/Closing.antt =====
-- What `close` leaves behind.
use baijimu_codex_connector.Prelude.{
  String, ◌≡◌, refl, true, false, none, some, List, [], ◌∷◌, arith, err, Option,
}
use baijimu_codex_connector.Json.{Value, lookup}
use baijimu_codex_connector.Json.Laws.{lookup-insert}
use baijimu_codex_connector.Http.{failure}
use baijimu_codex_connector.Ipc.Session.{Session, Reply, send, close, disconnect_all}

abbrev pub disconnected : String → Reply
disconnected message = err (failure "DESKTOP_IPC_DISCONNECTED" message)

-- What a channel holds after the close, by whether its request waited and what it held.
abbrev pub told : String → Option (Unit {0}) → Option Reply → Option Reply
told message none held = held
told message (some _) held = some (disconnected message)

lookup-disconnect_all :
    (message id : String) (waiting : List (String × Unit {0})) (mail : List (String × Reply))
    → lookup id (disconnect_all message waiting mail)
      ≡ told message (lookup id waiting) (lookup id mail)
unfolding disconnect_all lookup
lookup-disconnect_all message id [] mail = refl
lookup-disconnect_all message id ((j, w) ∷ waiting) mail =
    let rest = disconnect_all message waiting mail in
    ground (
      arith,
      lookup-insert {0} j id (disconnected message) rest,
      lookup-disconnect_all message id waiting mail,
    )

-- What `close` does to a live session: everybody who waits is told, and the session stays shut.
pub record Ends (message : String) (s t : Session) : Type 0 where
  pub dead : t.alive ≡ false
  pub nobody : t.pending ≡ []
  pub no_snapshots : t.snapshots ≡ []
  pub no_tasks : t.tasks ≡ []
  pub channels :
      (id : String) → lookup id t.mailbox ≡ told message (lookup id s.pending) (lookup id s.mailbox)
  pub again : (other : String) → close other t ≡ t
  pub refuses :
      (v : Value) → send v t ≡ err (failure "DESKTOP_IPC_DISCONNECTED" "desktop IPC disconnected")

-- Closing a live session ends it: every request that still waits finds the disconnection in its
-- channel, no other channel changes, pending requests, snapshots and tasks are gone, a second
-- close changes nothing, and every later send is refused.
pub close-Ends :
    (message : String) (s : Session) → s.alive ≡ true → Ends message s (close message s)
unfolding close send
close-Ends message s h = record {
  dead = ground arith;
  nobody = ground arith;
  no_snapshots = ground arith;
  no_tasks = ground arith;
  channels = λ id. ground (arith, lookup-disconnect_all message id s.pending s.mailbox);
  again = λ other. ground arith;
  refuses = λ v. ground arith;
}

pub close-alive : (message : String) (s : Session) → (close message s).alive ≡ false
unfolding close
close-alive message s = ground arith
