-- ===== src/Ipc/Lifecycle/Connected.antt =====
-- What a status tells of the session.
use baijimu_codex_connector.Prelude.{
  ◌&&◌, Bool, arith, nat_eq_iff, ◌⊎◌, ◌>>=◌, nat_eq, ℕ, List, Option, Result, String, err, inl, inr,
  none, ok, some, true, ◌≡◌, ap, if-cases, ok-inj, refl, subst, sym,
}
use baijimu_codex_connector.Ipc.Lifecycle.{
  own_socket, status, ensure_connected, connect_client, keep, Metadata, Client, connected_status,
  failed_status, Asked,
}
use baijimu_codex_connector.Http.{Http}
use baijimu_codex_connector.Ipc.Client.{unavailable, connect, open_session, new_session, initialize}
use baijimu_codex_connector.Json.{Value, get, index, is_true, lookup, string}
use baijimu_codex_connector.Ipc.Session.{Session}

-- A session that is live, and the session that the client keeps.
abbrev pub Live : Client → Session → Type 0
Live client s = (client.session ≡ some s) × (s.alive ≡ true)

opened-alive :
    (r : Result String String) (publisher : Option (List Value)) {s : Session}
    → (elim r as (λ _. Http Session) [
      | err e ↦ err (unavailable e)
      | ok cid ↦ ok (new_session cid publisher)
    ])
      ≡ ok s
    → s.alive ≡ true
unfolding new_session
opened-alive (err e) publisher h = cc h
opened-alive (ok cid) publisher h = sym (ap (λ x. x.alive) (ok-inj _ refl h))

open_session-alive :
    (id : String) (answer : Result String (List Value × String)) (publisher : Option (List Value))
    {s : Session}
    → open_session id answer publisher ≡ ok s
    → s.alive ≡ true
unfolding open_session
open_session-alive id (err e) publisher h = cc h
open_session-alive id (ok (frames, stop)) publisher h =
    opened-alive (initialize id stop frames).0 publisher h

connect-alive :
    (id : String) (answer : Result String (List Value × String)) (publisher : Option (List Value))
    (old : Option Session) {s : Session}
    → connect id answer publisher old ≡ ok s
    → s.alive ≡ true
unfolding connect
connect-alive id answer publisher none h = open_session-alive id answer publisher h
connect-alive id answer publisher (some old) {s} h =
    elim (if-cases old.alive (ok old) (open_session id answer publisher) (ok s) h) [
      | inl (live, same) ↦ subst (λ x. x.alive ≡ true) (ok-inj _ refl same) live
      | inr (_, opened) ↦ open_session-alive id answer publisher opened
    ]

module _ (name version : String) (client : Client) where
  abbrev pub said : Http Session → Value
  said r = elim r [ ok s ↦ connected_status name version client s | err e ↦ failed_status client e ]

  said-connected :
      (r : Http Session)
      → is_true (index "connected" (said r)) ≡ true
      → (s : Session) × (r ≡ ok s) × (index "clientId" (said r) ≡ string s.id)
  unfolding index get lookup
  said-connected (ok s) h = (s, refl, refl)
  said-connected (err e) h = cc h

-- A status that says connected comes with a live session, which the client keeps and whose id the status
-- gives; and the check before a history query passes where the status says so.
pub status-Live :
    (name version : String) (asked : Asked) (client : Client)
    → is_true (index "connected" (status name version asked client).0) ≡ true
    → (s : Session) × Live (status name version asked client).1 s
      × (index "clientId" (status name version asked client).0 ≡ string s.id)
      × ((ensure_connected asked client).0 ≡ ok tt)
unfolding status connect_client ensure_connected keep
status-Live name version asked client h =
    let answer = own_socket asked.user asked.found asked.answer in
    let r = connect asked.id answer asked.publisher client.session in
    let (s, opened, named) = said-connected name version client r h in
    (
      s,
      (
        ap (λ x. (keep x client).session) opened,
        connect-alive asked.id answer asked.publisher client.session opened,
      ),
      named,
      ap (λ x. x >>= λ _. ok tt) opened,
    )

-- Whose socket a connection goes to.
abbrev pub Owned : ℕ → Result String Metadata → Type 0
Owned user found =
    (meta : Metadata) × (found ≡ ok meta) × (meta.is_socket ≡ true) × (meta.uid ≡ user)

both : (a b : Bool) → (a && b) ≡ true → (a ≡ true) × (b ≡ true)
both a b h = (ground arith, ground arith)

own_socket-ok :
    {A : Type 0} (user : ℕ) (found : Result String Metadata) (connected : Result String A) {a : A}
    → own_socket user found connected ≡ ok a
    → Owned user found
unfolding own_socket
own_socket-ok user (err e) connected h = cc h
own_socket-ok user (ok meta) connected {a} h =
    elim (if-cases (meta.is_socket && nat_eq meta.uid user) connected (err _) (ok a) h) [
      | inl (mine, _) ↦
          let (socket, same) = both meta.is_socket (nat_eq meta.uid user) mine in
          (meta, refl, socket, (nat_eq_iff meta.uid user).0 same)
      | inr (_, refused) ↦ cc refused
    ]

-- A session is the one that was kept, or the endpoint has answered.
connected :
    (id : String) (answer : Result String (List Value × String)) (publisher : Option (List Value))
    (old : Option Session) {s : Session}
    → connect id answer publisher old ≡ ok s
    → (old ≡ some s) ⊎ ((frames : List Value × String) × (answer ≡ ok frames))
unfolding connect open_session
connected id (ok frames) publisher old h = inr (frames, refl)
connected id (err e) publisher none h = cc h
connected id (err e) publisher (some old) {s} h =
    elim (if-cases old.alive (ok old) (err (unavailable e)) (ok s) h) [
      | inl (_, same) ↦ inl (ap some (ok-inj _ refl same))
      | inr (_, refused) ↦ cc refused
    ]

-- A session that is given out is live, and the client keeps it; and either it was kept before, or the
-- endpoint is a socket of the user that runs the connector.
pub connect_client-Owned :
    (asked : Asked) (client : Client) (s : Session)
    → (connect_client asked client).0 ≡ ok s
    → Live (connect_client asked client).1 s
      × ((client.session ≡ some s) ⊎ Owned asked.user asked.found)
unfolding connect_client keep
connect_client-Owned asked client s h =
    let answer = own_socket asked.user asked.found asked.answer in
    (
      (
        ap (λ r. (keep r client).session) h,
        connect-alive asked.id answer asked.publisher client.session h,
      ),
      elim (connected asked.id answer asked.publisher client.session h) [
        | inl kept ↦ inl kept
        | inr (_, reached) ↦ inr (own_socket-ok asked.user asked.found asked.answer reached)
      ],
    )
