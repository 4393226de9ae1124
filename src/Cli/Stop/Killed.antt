-- ===== src/Cli/Stop/Killed.antt =====
-- What a stop runs on the machine.
use baijimu_codex_connector.Process.Daemon.{stop_failed, explain, Programs, Exit, terminate_process}
use baijimu_codex_connector.Act.{continue-eq-ok}
use baijimu_codex_connector.Prelude.{
  ensure-eq-ok, subst, ap, true, ok, err, inl, inr, ◌⊎◌, Result, List, String, [], codes, last, ℕ,
  ◌∷◌, ◌≡◌, some, ◌<◌, ◌^◌,
}
use baijimu_codex_connector.Text.{Chars}
use baijimu_codex_connector.Json.{Value}
use baijimu_codex_connector.Cli.Run.{Shell, stop, not_running, stopped}
use baijimu_codex_connector.Cli.Stop.{stop-Stopped}
use baijimu_codex_connector.Cli.Options.{ServerOptions}
use baijimu_codex_connector.Process.{connector_field, health_name, says, u64_of}
use baijimu_codex_connector.Process.Waiting.{verified_connector_pid-ok}
use baijimu_codex_connector.Process.Connect.{Network, connector_health}
use baijimu_codex_connector.Invoke.Input.{decimal}

-- The commands with the health check and the ending of a process of this machine.
abbrev pub on_machine : {S A C L : Type 0} → Network S A C → Programs S L → Shell S → Shell S
on_machine net programs shell = record shell {
  connector_health = connector_health net;
  terminate_process = terminate_process programs;
}

abbrev pub kill_args : ℕ → List Chars
kill_args pid = codes "-TERM" ∷ codes (decimal pid) ∷ []

explain-eq-ok :
    {S A : Type 0} (failed : Chars) (p : Result Chars A × S) {a : A} {t : S}
    → explain failed p ≡ (ok a, t)
    → p ≡ (ok a, t)
explain-eq-ok failed (ok b, s) h = cc h
explain-eq-ok failed (err e, s) h = cc h

terminate_process-ok :
    {S L : Type 0} (programs : Programs S L) (pid : ℕ) (s s' : S)
    → terminate_process programs pid s ≡ (ok tt, s')
    → (exit : Exit) × (programs.run (codes "kill") (kill_args pid) s ≡ (ok exit, s'))
      × (exit.success ≡ true)
unfolding terminate_process
terminate_process-ok programs pid s s' h =
    let (exit, t, ran, h) = continue-eq-ok _ _ h in
    let there =
      explain-eq-ok (stop_failed pid) (programs.run (codes "kill") (kill_args pid) s) ran in
    let same : t ≡ s' = ap (λ r. r.1) h in
    (
      exit,
      subst (λ x. programs.run (codes "kill") (kill_args pid) s ≡ (ok exit, x)) same there,
      ensure-eq-ok exit.success _ (ap (λ r. r.0) h),
    )

-- A stop that succeeds either got no health report, and only says so; or a report came whose connector
-- has this connector's name and a process id of 32 bits, and `kill -TERM` was run for exactly that
-- process and succeeded, before the file was removed.
pub stop-Killed :
    {S A C L : Type 0} (net : Network S A C) (programs : Programs S L) (shell : Shell S)
    (options : ServerOptions) (s s' : S)
    → stop (on_machine net programs shell) options s ≡ (ok tt, s')
    → ((e : String) × ((connector_health net options s).0 ≡ err e)
        × (s' ≡ shell.print not_running (connector_health net options s).1))
      ⊎ ((health : Value) × (pid : ℕ) × (exit : Exit) × (t : S) × ((connector_health net options
              s).0
            ≡ ok health)
          × (says (connector_field "name" health) health_name ≡ true)
          × (u64_of (connector_field "pid" health) ≡ some pid)
          × (pid < 2 ^ 32)
          × (programs.run (codes "kill") (kill_args pid) (connector_health net options s).1
              ≡ (ok exit, t))
          × (exit.success ≡ true)
          × (s' ≡ shell.print (stopped pid) (shell.remove_pid_file t)))
stop-Killed net programs shell options s s' h =
    elim (stop-Stopped (on_machine net programs shell) options s s' h) [
      | inl silent ↦ inl silent
      | inr (health, pid, t, answered, verified, ended, last) ↦
          let (exit, ran, well) = terminate_process-ok programs pid _ t ended in
          let (named, told, small) = verified_connector_pid-ok health pid verified in
          inr (health, pid, exit, t, answered, named, told, small, ran, well, last)
    ]
