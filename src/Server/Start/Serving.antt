-- ===== src/Server/Start/Serving.antt =====
-- Whom a server that was started serves.
use baijimu_codex_connector.Act.{continue-eq-ok, ensure-continue}
use baijimu_codex_connector.Server.Start.{start_server, Sockets, loopback, app_state, serve}
use baijimu_codex_connector.Process.Host.{Host, pid_path}
use baijimu_codex_connector.Process.Daemon.{pid_line}
use baijimu_codex_connector.Process.Token.{load_or_create_management_token}
use baijimu_codex_connector.Process.Token.Kept.{Fills, Stored, prepared-Stored}
use baijimu_codex_connector.Server.Handling.{handle_connection, App, is_public, route}
use baijimu_codex_connector.Server.Handling.Guard.{handle_connection_guard}
use baijimu_codex_connector.Cli.Options.{ServerOptions}
use baijimu_codex_connector.Text.{Chars}
use baijimu_codex_connector.Json.{Value}
use baijimu_codex_connector.Prelude.{
  List, Option, Result, String, [], false, inl, inr, none, ok, some, true, ◌∷◌, ◌≡◌, ap, subst,
}
use baijimu_codex_connector.Server.Reading.{Reads, HttpRequest, read_http_request}
use baijimu_codex_connector.Server.Authorization.{management_authorized}

module _ {S : Type 0} (app : App S) (parse : Chars → Result String Value) (show : Chars → String)
    (health : Value) where
  -- How the connections change the state, in order: only a request that is not public and carries the
  -- token does, by its route.
  pub data Served : List (Option Reads) → S → S → Type 0 where
    done : {s : S} → Served [] s s
    failed : {more : List (Option Reads)} {s s' : S} → Served more s s' → Served (none ∷ more) s s'
    unchanged :
        {reads : Reads} {more : List (Option Reads)} {s s' : S}
        → Served more s s'
        → Served (some reads ∷ more) s s'
    allowed :
        {reads : Reads} {more : List (Option Reads)} {s s' : S} (r : HttpRequest)
        → read_http_request reads ≡ ok r
        → is_public r ≡ false
        → management_authorized r.authorization app.token ≡ true
        → Served more (route app parse show health r s).1 s'
        → Served (some reads ∷ more) s s'

  serve-Served :
      (more : List (Option Reads)) (s : S) → Served more s (serve app parse show health more s)
  unfolding serve
  serve-Served [] s = done
  serve-Served (none ∷ more) s = failed (serve-Served more s)
  serve-Served (some reads ∷ more) s =
      let rest = serve-Served more (handle_connection app parse show health reads s).1 in
      elim (handle_connection_guard app parse show health reads s) [
        | inl same ↦ unchanged (
            subst
              (λ x. Served more x (
                serve app parse show health more
                  (handle_connection app parse show health reads s).1))
              same rest)
        | inr (r, arrived, private, good, there) ↦ allowed r arrived private good (
            subst
              (λ x. Served more x (
                serve app parse show health more
                  (handle_connection app parse show health reads s).1))
              (ap (λ p. p.1) there) rest)
      ]

-- A server that has started without an error: its host is a loopback address, the listener that it takes
-- its connections from is the one bound to that host and the port of the options, the token is the one
-- that was loaded or created then and that its token file holds, as a later start reads it, and the pid
-- file has its process id. From then on only requests with that token change the state, each by its route.
-- (Random bytes are bytes and as many as are asked for; connections are taken one after the other.)
pub start_server-Served :
    {S I L : Type 0} (host : Host S) (sockets : Sockets S I L) (client : ServerOptions → App S)
    (parse : Chars → Result String Value) (show : Chars → String) (health : Value)
    (options : ServerOptions) (s s' : S)
    → Fills host
    → start_server host sockets client parse show health options s ≡ (ok tt, s')
    → (loopback sockets options.host ≡ true)
      × (listener : L) × (token : Chars) × (bound kept written : S) × (sockets.bind options.host
            options.port s
          ≡ (ok listener, bound))
      × (load_or_create_management_token host bound ≡ (ok token, kept))
      × Stored host token kept
      × (host.write (pid_path host) (pid_line host.process_id) kept ≡ (ok tt, written))
      × Served
          (app_state client options token)
          parse
          show
          health
          (sockets.incoming listener written)
          written
          s'
unfolding start_server
start_server-Served host sockets client parse show health options s s' fills h =
    let (local, h) = ensure-continue _ _ _ h in
    let (listener, bound, at_bind, h) = continue-eq-ok _ _ h in
    let (token, kept, at_token, h) = continue-eq-ok _ _ h in
    let (_, written, at_pid, h) = continue-eq-ok _ _ h in
    (
      local,
      listener,
      token,
      bound,
      kept,
      written,
      at_bind,
      at_token,
      prepared-Stored host bound kept token fills at_token,
      at_pid,
      subst
          (λ x.
            Served (app_state client options token) parse show health
              (sockets.incoming listener written) written x)
          (ap (λ r. r.1) h)
          (serve-Served _ parse show health (sockets.incoming listener written) written),
    )
