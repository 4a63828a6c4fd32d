-- ===== src/Examples/Capabilities.antt =====
-- decision-pipeline/circuit-breaker.ts and native-feedback/circuit-breaker.ts at concrete inputs.
use content_lens.Prelude.{
  ◌≤◌, ◌<◌, ◌≡◌, refl, true, false, none, some, List, [], ◌∷◌, JsString, js, same, arith,
}
use content_lens.Prelude.Dict
use content_lens.Circuit.Capability
use content_lens.Circuit.Capability.{
  allow, create, run, snapshot, step, failure, allows, succeeds, fails, open_state, is_open,
}
use content_lens.Circuit.Capability.Invariant.{IsValid, create-run-IsValid}
use content_lens.Circuit.Capability.Probe.{single_probe, failures}
use content_lens.Circuit.Native
use content_lens.Circuit.Native.Invariant
use content_lens.Circuit.Native.Invariant.{empty_run-IsValid, late_failure_closes}

abbrev options : Capability.Options
options = record { failure_threshold = 2; cooldown_ms = 100 }

abbrev empty_breaker : Capability.Breaker
empty_breaker = record { options = options; circuits = [] }

abbrev key : JsString
key = js "vision"

abbrev calls : List Capability.Call
calls =
    fails key (js "timeout") 10
    ∷ fails key (js "timeout") 20
    ∷ allows key 130
    ∷ succeeds key 140
    ∷ []

create-run-IsValid_example : IsValid (run empty_breaker calls)
unfolding create
create-run-IsValid_example = create-run-IsValid options empty_breaker calls refl

abbrev open_circuit : Capability.Circuit
open_circuit = record {
  state = open_state;
  failures = 2;
  reason = some (js "timeout");
  retry_at = some 120;
  last_transition_at = some 20;
}

abbrev open_breaker : Capability.Breaker
open_breaker = record { options = options; circuits = (key, open_circuit) ∷ [] }

two_failures : run empty_breaker (failures key (js "timeout") (10 ∷ 20 ∷ [])) ≡ open_breaker
unfolding run step failure Dict.set same Dict.get
two_failures = refl

single_probe_example :
    (130 < 120 → allow open_breaker key 130 ≡ (false, open_breaker))
    × (120 ≤ 130
        → ((allow open_breaker key 130).0 ≡ true)
          × (allow (allow open_breaker key 130).1 key 999
              ≡ (false, (allow open_breaker key 130).1)))
unfolding Dict.get same
single_probe_example = single_probe open_breaker key open_circuit 120 130 999 refl refl refl

abbrev native_options : Native.Options
native_options = Native.options_of none none

empty_run-IsValid_example : Invariant.IsValid (
    Native.run
      (record { options = native_options; records = [] })
      (Native.fails key (js "1") (js "selector") 5 ∷ Native.allows key (js "1") ∷ []))
empty_run-IsValid_example =
    empty_run-IsValid native_options
      (Native.fails key (js "1") (js "selector") 5 ∷ Native.allows key (js "1") ∷ []) (omega arith)

abbrev open_record : Native.Circuit
open_record = record {
  is_open = true;
  failures = 3;
  adapter_version = js "1";
  opened_at = some 3;
  reason = some (js "selector");
  failure_times = 1 ∷ 2 ∷ 3 ∷ [];
}

abbrev open_native : Native.Breaker
open_native = record { options = native_options; records = (key, open_record) ∷ [] }

late_failure_closes_example :
    (Native.allow
      (Native.contract_failure open_native key (js "1") (js "selector") 900000)
      key
      (js "1")).0
    ≡ true
unfolding Dict.get same Native.counted
late_failure_closes_example =
    late_failure_closes open_native key (js "1") (js "selector") open_record 900000 refl refl
      (omega arith)
