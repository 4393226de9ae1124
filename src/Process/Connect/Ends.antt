-- ===== src/Process/Connect/Ends.antt =====
-- The wait for a healthy connector ends.
use baijimu_codex_connector.Json.{Value}
use baijimu_codex_connector.Process.Waiting.{Some, Answers, wait_for_connector_health-ok}
use baijimu_codex_connector.Process.Connect.{
  Network, connector_health, wait_loop, judged, wait_for_health,
}
use baijimu_codex_connector.Process.{Round, wait_rounds, is_ready, wait_for_connector_health}
use baijimu_codex_connector.Prelude.{
  [], ◌∷◌, zero, suc, Bool-cases, List, Option, String, inl, inr, ltb, refl, some, ℕ, ◌*◌, ◌+◌, ◌≡◌,
  ◌≤◌, Result, arith, err, false, if◌then◌else◌, ok,
}
use baijimu_codex_connector.Cli.Options.{ServerOptions}

module _ {S A C : Type 0} (net : Network S A C) (options : ServerOptions) where
  -- The clock never goes back, and goes on while the thread sleeps.
  pub record Ticks : Type 0 where
    pub asking : (s : S) → net.now s ≤ net.now (connector_health net options s).1
    pub sleeping : (s : S) (ms : ℕ) → net.now s + ms ≤ net.now (net.sleep ms s)

  -- The rounds of a wait from a state on.
  pub rounds_from : ℕ → S → List Round
  rounds_from zero s = []
  rounds_from (suc n) s =
      let (answer, s') = connector_health net options s in
      record { now = net.now s; health = answer } ∷ rounds_from n (net.sleep 100 s')

  -- A round before the deadline, given what the later rounds come to.
  round_lem :
      (n deadline : ℕ) (expected : Option ℕ) (latest : String) (rounds : List Round) (s' : S)
      (answer : Result String Value)
      → ((e : String)
          → (wait_loop net n options deadline expected e (net.sleep 100 s')).0
            ≡ some (wait_rounds deadline expected e rounds))
      → (elim (judged net expected latest answer) as (λ _. Option (Result String Value) × S) [
        | ok body ↦ (some (ok body), s')
        | err e ↦ wait_loop net n options deadline expected e (net.sleep 100 s')
      ]).0
        ≡ some (elim answer [
          | ok body ↦
              if is_ready expected body
              then ok body
              else wait_rounds deadline expected latest rounds
          | err e ↦ wait_rounds deadline expected e rounds
        ])
  round_lem n deadline expected latest rounds s' (err e) later = later e
  round_lem n deadline expected latest rounds s' (ok body) later =
      elim (Bool-cases (is_ready expected body)) [
        | inl ready ↦ rw ready refl
        | inr other ↦ rw other (later latest)
      ]

  wait_loop_lem :
      (n : ℕ) (deadline : ℕ) (expected : Option ℕ) (latest : String) (s : S)
      → Ticks
      → deadline ≤ net.now s + 100 * n
      → (wait_loop net (suc n) options deadline expected latest s).0
        ≡ some (wait_rounds deadline expected latest (rounds_from (suc n) s))
  unfolding wait_loop wait_rounds rounds_from
  wait_loop_lem zero deadline expected latest s ticks near =
      let late : ltb (net.now s) deadline ≡ false = ground arith in rw late refl
  wait_loop_lem (suc n) deadline expected latest s ticks near =
      elim (Bool-cases (ltb (net.now s) deadline)) [
        | inr late ↦ rw late refl
        | inl early ↦
            let (answer, s') = connector_health net options s in
            let asked = ticks.asking s in
            let slept = ticks.sleeping s' 100 in
            rw early (
              round_lem (suc n) deadline expected latest (rounds_from (suc n) (net.sleep 100 s')) s'
                answer
                λ e.
                  wait_loop_lem n deadline expected e (net.sleep 100 s') ticks
                    (omega (arith, asked, slept, near)))
      ]

-- The wait ends within its 51 rounds of 100 milliseconds, whatever the connector answers, if the clock
-- does not go back and goes on while the thread sleeps. A body that it gives is that of a round within
-- five seconds, says that it is well and, where a process is expected, carries that process's id.
pub wait_for_health-Ends :
    {S A C : Type 0} (net : Network S A C) (options : ServerOptions) (expected : Option ℕ) (s : S)
    → Ticks net options
    → (result : Result String Value) × ((wait_for_health net options expected s).0 ≡ some result)
      × ((body : Value)
          → result ≡ ok body
          → Some (Answers (net.now s + 5000) expected body) (rounds_from net options 51 s))
unfolding wait_for_health wait_for_connector_health
wait_for_health-Ends net options expected s ticks = (
  wait_for_connector_health (net.now s) expected (rounds_from net options 51 s),
  wait_loop_lem net options 50 (net.now s + 5000) expected "not started" s ticks (omega arith),
  wait_for_connector_health-ok (net.now s) expected (rounds_from net options 51 s),
)
