-- ===== src/Examples/Routes.antt =====
-- src/ai/routing/circuit-breaker.ts at concrete inputs.
use content_lens.Prelude.{◌≤◌, ◌≡◌, refl, false, none, some, [], ◌∷◌, JsString, js, same, arith}
use content_lens.Prelude.Dict
use content_lens.Circuit.Route.{Circuit, Breaker, acquire, record_temporary_failure, recent, probe}
use content_lens.Circuit.Route.Probes.{probes, probes-le-one, failed_probe_retries}

abbrev key : JsString
key = js "local/m/embedding"

abbrev open_circuit : Circuit
open_circuit = record {
  failures = 1 ∷ 2 ∷ 3 ∷ 4 ∷ 5 ∷ [];
  opened_at = some 5;
  probe_in_flight = false;
}

abbrev open_breaker : Breaker
open_breaker = (key, open_circuit) ∷ []

probes-le-one_example : probes open_breaker key (70000 ∷ 70001 ∷ 90000 ∷ []) ≤ 1
unfolding Dict.get same
probes-le-one_example =
    probes-le-one open_breaker key open_circuit 5 (70000 ∷ 70001 ∷ 90000 ∷ []) refl refl
      (omega arith)

abbrev four : Breaker
four =
    (key, record { failures = 1 ∷ 2 ∷ 3 ∷ 4 ∷ []; opened_at = none; probe_in_flight = false }) ∷ []

failed_probe_retries_example :
    (acquire (record_temporary_failure open_breaker key 400000) key 400000).0 ≡ probe
unfolding Dict.get same recent
failed_probe_retries_example =
    failed_probe_retries open_breaker key open_circuit 5 400000 refl refl (omega arith)
      (omega arith) (omega arith)
