-- ===== src/Process/Connect/Ready.antt =====
-- What a wait for a healthy connector has found where it ends well.
use baijimu_codex_connector.Prelude.{
  ◌+◌, if-cases, arith, Option, Result, String, err, none, ok, some, suc, true, zero, ℕ, ◌≡◌, Bool,
  ap, false, if◌then◌else◌, inl, inr, ltb, nat_eq, nat_eq_iff, ◌⊎◌, ok-inj, refl, subst,
}
use baijimu_codex_connector.Process.Connect.{
  wait_for_health, Network, wait_loop, connector_health, judged,
}
use baijimu_codex_connector.Json.{Value}
use baijimu_codex_connector.Cli.Options.{ServerOptions}
use baijimu_codex_connector.Process.{connector_field, u64_of, is_ready}

same_pid :
    (pid : ℕ) (found : Option ℕ)
    → (elim found [ none ↦ false | some n ↦ nat_eq n pid ]) ≡ true
    → found ≡ some pid
same_pid pid none h = cc h
same_pid pid (some n) h = ap some ((nat_eq_iff n pid).0 h)

pub is_ready-pid :
    (pid : ℕ) (body : Value)
    → is_ready (some pid) body ≡ true
    → u64_of (connector_field "pid" body) ≡ some pid
unfolding is_ready
is_ready-pid pid body h = same_pid pid (u64_of (connector_field "pid" body)) (ground arith)

module _ {S A C : Type 0} (net : Network S A C) (options : ServerOptions) where
  judged-ready :
      (expected : Option ℕ) (latest : String) (answer : Result String Value) {body : Value}
      → judged net expected latest answer ≡ ok body
      → is_ready expected body ≡ true
  judged-ready expected latest (err e) h = cc h
  judged-ready expected latest (ok b) {body} h =
      elim (if-cases (is_ready expected b) (ok b) (err latest) (ok body) h) [
        | inl (ready, same) ↦ subst (λ x. is_ready expected x ≡ true) (ok-inj _ refl same) ready
        | inr (_, late) ↦ cc late
      ]

  -- What a round that ends well has found: a verdict in its favour, or a later round.
  round_ends :
      (early : Bool) (verdict : Result String Value)
      (later : String → Option (Result String Value) × S) (asked s : S) (latest : String)
      {body : Value} {t : S}
      → (if early
          then (elim verdict as (λ _. Option (Result String Value) × S) [
            | ok b ↦ (some (ok b), asked)
            | err e ↦ later e
          ])
          else (some (err latest), s))
        ≡ (some (ok body), t)
      → (verdict ≡ ok body) ⊎ ((e : String) × (later e ≡ (some (ok body), t)))
  round_ends false verdict later asked s latest h = cc h
  round_ends true (ok b) later asked s latest h = inl (cc h)
  round_ends true (err e) later asked s latest h = inr (e, h)

  wait_loop-ready :
      (n deadline : ℕ) (expected : Option ℕ) (latest : String) (s : S) {body : Value} {t : S}
      → wait_loop net n options deadline expected latest s ≡ (some (ok body), t)
      → is_ready expected body ≡ true
  unfolding wait_loop
  wait_loop-ready zero deadline expected latest s h = cc h
  wait_loop-ready (suc n) deadline expected latest s h =
      let (answer, asked) = connector_health net options s in
      elim (round_ends (ltb (net.now s) deadline) (judged net expected latest answer)
        (λ e. wait_loop net n options deadline expected e (net.sleep 100 asked)) asked s latest h) [
          | inl ready ↦ judged-ready expected latest answer ready
          | inr (e, again) ↦ wait_loop-ready n deadline expected e (net.sleep 100 asked) again
        ]

  pub wait_for_health-ready :
      (expected : Option ℕ) (s : S) {body : Value} {t : S}
      → wait_for_health net options expected s ≡ (some (ok body), t)
      → is_ready expected body ≡ true
  unfolding wait_for_health
  wait_for_health-ready expected s h =
      wait_loop-ready 51 (net.now s + 5000) expected "not started" s h
