-- ===== src/Examples/Health.antt =====
-- The health of a connector at concrete inputs.
use baijimu_codex_connector.Process.{
  Round, health_name, verified_connector_pid, wait_for_connector_health,
}
use baijimu_codex_connector.Json.{Value, bool, num, obj, string}
use baijimu_codex_connector.Prelude.{[], ◌∷◌, List, err, ok, refl, some, true, ◌≡◌}

abbrev report : Value
report = obj (
    ("ok", bool true)
    ∷ (
      "status",
      obj (("connector", obj (("name", string health_name) ∷ ("pid", num 77) ∷ [])) ∷ []),
    )
    ∷ [])

report_lem : verified_connector_pid report ≡ ok 77
unfolding verified_connector_pid
report_lem = refl

abbrev two_rounds : List Round
two_rounds =
    record { now = 1000; health = err "refused" } ∷ record { now = 1100; health = ok report } ∷ []

two_rounds_lem : wait_for_connector_health 1000 (some 77) two_rounds ≡ ok report
unfolding wait_for_connector_health
two_rounds_lem = refl
