-- ===== src/Process/Waiting.antt =====
-- What the health of a connector has been seen to be.
use baijimu_codex_connector.Process.{
  Round, connector_field, health_name, is_ready, says, u64_of, verified_connector_pid, wait_rounds,
  wait_for_connector_health,
}
use baijimu_codex_connector.Json.{Value}
use baijimu_codex_connector.Prelude.{
  [], ◌∷◌, >>=-eq-ok, List, Option, String, arith, ensure, ensure-eq-ok, ltb, ltb→lt, ok, ok-inj,
  ok_or, ok_or-eq-ok, refl, some, true, ℕ, ◌<◌, ◌^◌, ◌≡◌, ◌⊎◌, Result, err, if◌then◌else◌, inl, inr,
  subst, ◌+◌, if-cases,
}

-- A process id that is taken for the connector's comes from a health report under the connector's name
-- and fits in 32 bits.
pub verified_connector_pid-ok :
    (health : Value) (pid : ℕ)
    → verified_connector_pid health ≡ ok pid
    → (says (connector_field "name" health) health_name ≡ true)
      × (u64_of (connector_field "pid" health) ≡ some pid)
      × (pid < 2 ^ 32)
unfolding verified_connector_pid
verified_connector_pid-ok health pid h =
    let (_, named_so, h) =
      >>=-eq-ok (ensure (says (connector_field "name" health) health_name) _) _ h in
    let (found, at_found, h) = >>=-eq-ok (ok_or (u64_of (connector_field "pid" health)) _) _ h in
    let (_, small, h) = >>=-eq-ok (ensure (ltb found (2 ^ 32)) _) _ h in
    let same : found ≡ pid = ok-inj _ refl h in
    let there = ok_or-eq-ok (u64_of (connector_field "pid" health)) _ at_found in
    (
      ensure-eq-ok _ _ named_so,
      cc (there, same),
      omega (arith, same, ltb→lt found (2 ^ 32) (ensure-eq-ok _ _ small)),
    )

-- A round that answers with a ready body before the deadline.
pub Answers : ℕ → Option ℕ → Value → Round → Type 0
Answers deadline expected body r =
    (r.now < deadline) × (r.health ≡ ok body) × (is_ready expected body ≡ true)

pub Some : (Round → Type 0) → List Round → Type 0
Some P [] = ⊥
Some P (r ∷ rs) = P r ⊎ Some P rs

-- What an answer in time gives: the result, or another round.
answered :
    (deadline : ℕ) (expected : Option ℕ) (latest : String) (rs : List Round) (body : Value)
    (health : Result String Value)
    → (elim health [
      | ok b ↦ if is_ready expected b then ok b else wait_rounds deadline expected latest rs
      | err e ↦ wait_rounds deadline expected e rs
    ])
      ≡ ok body
    → ((health ≡ ok body) × (is_ready expected body ≡ true))
      ⊎ ((message : String) × (wait_rounds deadline expected message rs ≡ ok body))
answered deadline expected latest rs body (err e) h = inr (e, h)
answered deadline expected latest rs body (ok b) h =
    elim (if-cases (is_ready expected b) (ok b) (wait_rounds deadline expected latest rs) (ok body)
      h) [
        | inl (ready, same) ↦
            inl (same, subst (λ x. is_ready expected x ≡ true) (ok-inj _ refl same) ready)
        | inr (_, again) ↦ inr (latest, again)
      ]

wait_rounds-ok :
    (deadline : ℕ) (expected : Option ℕ) (latest : String) (rounds : List Round) (body : Value)
    → wait_rounds deadline expected latest rounds ≡ ok body
    → Some (Answers deadline expected body) rounds
unfolding wait_rounds Some Answers
wait_rounds-ok deadline expected latest [] body h = cc h
wait_rounds-ok deadline expected latest (r ∷ rs) body h =
    elim (if-cases (ltb r.now deadline) _ (err latest) (ok body) h) [
      | inr (_, late) ↦ cc late
      | inl (early, h) ↦ elim (answered deadline expected latest rs body r.health h) [
        | inl (there, ready) ↦ inl (ltb→lt r.now deadline early, there, ready)
        | inr (message, again) ↦ inr (wait_rounds-ok deadline expected message rs body again)
      ]
    ]

-- A wait that succeeds gives the body of a round within five seconds, which says that it is well and,
-- where a process is expected, carries that process's id.
pub wait_for_connector_health-ok :
    (started : ℕ) (expected : Option ℕ) (rounds : List Round) (body : Value)
    → wait_for_connector_health started expected rounds ≡ ok body
    → Some (Answers (started + 5000) expected body) rounds
unfolding wait_for_connector_health
wait_for_connector_health-ok started expected rounds body h =
    wait_rounds-ok (started + 5000) expected "not started" rounds body h
