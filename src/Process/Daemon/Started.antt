-- ===== src/Process/Daemon/Started.antt =====
-- Which process a start in the background leaves behind, and which one its file names.
use baijimu_codex_connector.Process.Connect.Ready.{is_ready-pid, wait_for_health-ready}
use baijimu_codex_connector.Prelude.{
  if-cases, Option, Result, String, err, none, ok, some, true, ℕ, ◌≡◌, ap, inl, inr, ◌⊎◌, refl,
  subst, sym,
}
use baijimu_codex_connector.Process.Daemon.{
  within, started_report, write_pid, daemonize, start_unless, waited, noted, Programs, write_known,
  start_new, keep_existing, confirm, spawn_connector, pid_line, url_of,
}
use baijimu_codex_connector.Process.Host.{connector_home, Host, pid_path, log_path}
use baijimu_codex_connector.Process.Connect.{wait_for_health, Network, connector_health}
use baijimu_codex_connector.Act.{continue-eq-ok}
use baijimu_codex_connector.Text.{Chars}
use baijimu_codex_connector.Json.{Value, index, is_true, unwrap_or}
use baijimu_codex_connector.Cli.Options.{ServerOptions, daemon_args}
use baijimu_codex_connector.Process.{connector_field, u64_of}

noted-eq-ok :
    {S A : Type 0} (p : Result Chars A × S) {a : A} {t : S} → noted p ≡ (ok a, t) → p ≡ (ok a, t)
noted-eq-ok (ok b, s) h = cc h
noted-eq-ok (err e, s) h = cc h

waited-eq-ok :
    {S : Type 0} (p : Option (Result String Value) × S) {body : Value} {t : S}
    → waited p ≡ (ok body, t)
    → p ≡ (some (ok body), t)
waited-eq-ok (none, s) h = cc h
waited-eq-ok (some (ok b), s) h = cc h
waited-eq-ok (some (err e), s) h = cc h

module _ {S A C L : Type 0} (host : Host S) (net : Network S A C) (programs : Programs S L)
    (options : ServerOptions) where
  -- Something was there: what answers at the address said that it is well (its name is not looked at),
  -- and if it told a process id, the file names that; nothing was started.
  pub record Existing (s s' : S) : Type 0 where
    pub body : Value
    pub asked : S
    pub written : S
    pub answered : connector_health net options s ≡ (ok body, asked)
    pub well : is_true (index "ok" body) ≡ true
    pub kept :
        write_known host net programs (u64_of (connector_field "pid" body)) asked ≡ (ok tt, written)
    pub last : (report : Value) × (s' ≡ programs.print report written)

  -- A process that was spawned with the options' arguments, that answered under its own process id,
  -- and that the file names.
  pub record Spawned (s' : S) : Type 0 where
    pub pid : ℕ
    pub exe : Chars
    pub log : L
    pub log_err : L
    pub before : S
    pub after : S
    pub asked : S
    pub written : S
    pub body : Value
    pub spawned :
        programs.spawn exe (daemon_args programs.show_list options) log log_err before
        ≡ (ok pid, after)
    pub ready : wait_for_health net options (some pid) after ≡ (some (ok body), asked)
    pub own : u64_of (connector_field "pid" body) ≡ some pid
    pub kept : host.write (pid_path host) (pid_line pid) asked ≡ (ok tt, written)
    pub last :
        s'
        ≡ programs.print
            (started_report pid (net.show (url_of options)) (net.show (log_path host)))
            written

  keep_existing-ok :
      (body : Value) (s : S) {s' : S}
      → keep_existing host net programs options body s ≡ (ok tt, s')
      → (written : S) × (write_known host net programs (u64_of (connector_field "pid" body)) s
          ≡ (ok tt, written))
        × ((report : Value) × (s' ≡ programs.print report written))
  unfolding keep_existing
  keep_existing-ok body s {s'} h =
      let (_, written, kept, h) =
        continue-eq-ok (write_known host net programs (u64_of (connector_field "pid" body)) s) _
          h in
      (written, kept, (_, sym (ap (λ r. r.1) h)))

  start_new-ok : (s : S) {s' : S} → start_new host net programs options s ≡ (ok tt, s') → Spawned s'
  unfolding start_new spawn_connector confirm write_pid
  start_new-ok s {s'} h =
      let (pid, after, at_pid, h) =
        continue-eq-ok (spawn_connector host net programs options s) _ h in
      let (log, opened, at_log, at_pid) = continue-eq-ok _ _ at_pid in
      let (log_err, cloned, at_clone, at_pid) = continue-eq-ok _ _ at_pid in
      let (exe, before, at_exe, at_pid) = continue-eq-ok _ _ at_pid in
      let (body, asked, at_wait, h) = continue-eq-ok _ _ h in
      let (_, written, at_kept, h) = continue-eq-ok _ _ h in
      let ready = waited-eq-ok (wait_for_health net options (some pid) after) at_wait in
      let own = is_ready-pid pid body (wait_for_health-ready net options (some pid) after ready) in
      let real : unwrap_or (u64_of (connector_field "pid" body)) pid ≡ pid =
        ap (λ o. unwrap_or o pid) own in
      record {
        pid = pid;
        exe = exe;
        log = log;
        log_err = log_err;
        before = before;
        after = after;
        asked = asked;
        written = written;
        body = body;
        spawned = noted-eq-ok _ at_pid;
        ready = ready;
        own = own;
        kept =
            subst (λ n. host.write (pid_path host) (pid_line n) asked ≡ (ok tt, written)) real
              (noted-eq-ok _ at_kept);
        last =
            subst
              (λ n.
                s'
                ≡ programs.print
                    (started_report n (net.show (url_of options)) (net.show (log_path host)))
                    written)
              real (sym (ap (λ r. r.1) h));
      }

  start_unless-ok :
      (answer : Result String Value) (s asked : S) {s' : S}
      → connector_health net options s ≡ (answer, asked)
      → start_unless host net programs options answer asked ≡ (ok tt, s')
      → Existing s s' ⊎ Spawned s'
  unfolding start_unless
  start_unless-ok (err e) s asked at_health h = inr (start_new-ok asked h)
  start_unless-ok (ok body) s asked {s'} at_health h =
      elim (if-cases (is_true (index "ok" body))
        (keep_existing host net programs options body asked)
        (start_new host net programs options asked) (ok tt, s') h) [
          | inl (well, h) ↦
              let (written, kept, last) = keep_existing-ok body asked h in
              inl (record {
                body = body;
                asked = asked;
                written = written;
                answered = at_health;
                well = well;
                kept = kept;
                last = last;
              })
          | inr (_, h) ↦ inr (start_new-ok asked h)
        ]

-- A start in the background that succeeds either got an answer at the address that says that it is
-- well, whatever its name, and started nothing; or it spawned a process with the options' arguments, waited until a health report
-- carried that very process id, and the pid file and the report name it.
pub daemonize-Started :
    {S A C L : Type 0} (host : Host S) (net : Network S A C) (programs : Programs S L)
    (options : ServerOptions) (s s' : S)
    → daemonize host net programs options s ≡ (ok tt, s')
    → (made : S) × (host.create_dir_all (connector_home host) s ≡ (ok tt, made))
      × (Existing host net programs options made s' ⊎ Spawned host net programs options s')
unfolding daemonize
daemonize-Started host net programs options s s' h =
    let (_, made, at_made, h) =
      continue-eq-ok (within (host.create_dir_all (connector_home host)) s) _ h in
    (
      made,
      noted-eq-ok _ at_made,
      start_unless-ok host net programs options (connector_health net options made).0 made
          (connector_health net options made).1 refl h,
    )
