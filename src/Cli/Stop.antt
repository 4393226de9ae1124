-- ===== src/Cli/Stop.antt =====
-- Which process a stop ends.
pub mod Killed
use baijimu_codex_connector.Cli.Options.{ServerOptions}
use baijimu_codex_connector.Json.{Value}
use baijimu_codex_connector.Cli.Run.{
  Shell, stop, told, stopped, not_running, stop_running, stop_with,
}
use baijimu_codex_connector.Prelude.{Result, String, ap, err, inl, inr, ok, refl, sym, ℕ, ◌≡◌, ◌⊎◌}
use baijimu_codex_connector.Process.{verified_connector_pid}
use baijimu_codex_connector.Act.{continue-eq-ok, lift-continue, pure-continue}

module _ {S : Type 0} (shell : Shell S) where
  -- What a stop that succeeds has done, from the answer and the state after it.
  abbrev pub Stopped : Result String Value → S → S → Type 0
  Stopped answer s s' =
      ((e : String) × (answer ≡ err e) × (s' ≡ shell.print not_running s))
      ⊎ ((health : Value) × (pid : ℕ) × (t : S) × (answer ≡ ok health)
          × (verified_connector_pid health ≡ ok pid)
          × (shell.terminate_process pid s ≡ (ok tt, t))
          × (s' ≡ shell.print (stopped pid) (shell.remove_pid_file t)))

  told-eq-ok : {A : Type 0} (r : Result String A) {a : A} → told r ≡ ok a → r ≡ ok a
  told-eq-ok (ok b) h = cc h
  told-eq-ok (err e) h = cc h

  stop_with-ok :
      (answer : Result String Value) (s s' : S)
      → stop_with shell answer s ≡ (ok tt, s')
      → ((e : String) × (answer ≡ err e) × (s' ≡ shell.print not_running s))
        ⊎ ((health : Value) × (pid : ℕ) × (t : S) × (answer ≡ ok health)
            × (verified_connector_pid health ≡ ok pid)
            × (shell.terminate_process pid s ≡ (ok tt, t))
            × (s' ≡ shell.print (stopped pid) (shell.remove_pid_file t)))
  unfolding stop_with stop_running
  stop_with-ok (err e) s s' h = inl (e, refl, sym (ap (λ r. r.1) h))
  stop_with-ok (ok health) s s' h =
      let (pid, at_pid, h) = lift-continue _ _ h in
      let (_, t, at_end, h) = continue-eq-ok _ _ h in
      inr (
        health,
        pid,
        t,
        refl,
        told-eq-ok (verified_connector_pid health) at_pid,
        at_end,
        sym (ap (λ r. r.1) (pure-continue tt (shell.remove_pid_file t) _ h)),
      )

-- A stop that succeeds either found no connector that answers, and only says so; or it ended the very
-- process whose id the health report of a connector of this name gave, and then removed the file.
pub stop-Stopped :
    {S : Type 0} (shell : Shell S) (options : ServerOptions) (s s' : S)
    → stop shell options s ≡ (ok tt, s')
    → Stopped shell (shell.connector_health options s).0 (shell.connector_health options s).1 s'
unfolding stop
stop-Stopped shell options s s' h =
    stop_with-ok shell (shell.connector_health options s).0 (shell.connector_health options s).1 s'
      h
