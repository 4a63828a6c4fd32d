-- ===== src/Circuit/Native.antt =====
-- src/application/native-feedback/circuit-breaker.ts: `NativeFeedbackCircuitBreaker`, which stops
-- native feedback on a surface whose contract keeps failing for one adapter version.
pub mod Invariant
use content_lens.Prelude.{
  ℕ, ◌+◌, ◌-◌, Bool, true, false, not, ◌||◌, Option, none, some, List, [], ◌∷◌, ◌++◌, JsString, leb,
  same, if◌then◌else◌, get_or, keep, length,
}
use content_lens.Prelude.Dict.{Dict}
use content_lens.Prelude.Dict

pub record Options : Type 0 where
  pub window_ms : ℕ
  pub threshold : ℕ

-- The constructor's defaults for `windowMs` and `threshold`.
abbrev pub options_of : Option ℕ → Option ℕ → Options
options_of window threshold = record {
  window_ms = get_or window 600000;
  threshold = get_or threshold 3;
}

-- `CircuitRecord`; `is_open` stands for its two states.
pub record Circuit : Type 0 where
  pub is_open : Bool
  pub failures : ℕ
  pub adapter_version : JsString
  pub opened_at : Option ℕ
  pub reason : Option JsString
  pub failure_times : List ℕ

pub record Breaker : Type 0 where
  pub options : Options
  pub records : Dict Circuit

abbrev write : Breaker → JsString → Circuit → Breaker
write b key c = record b { records = Dict.set key c b.records }

abbrev pub reset : JsString → Circuit
reset version = record {
  is_open = false;
  failures = 0;
  adapter_version = version;
  opened_at = none;
  reason = none;
  failure_times = [];
}

unfoldable pub allow : Breaker → JsString → JsString → Bool × Breaker
allow b key version = elim (Dict.get key b.records) [
  | none ↦ (true, b)
  | some c ↦
      if same c.adapter_version version
      then (not c.is_open, b)
      else (true, record b { records = Dict.delete key b.records })
]

-- The earlier failures that still count: those of this version, within the window.
unfoldable pub counted : Options → Option Circuit → JsString → ℕ → List ℕ
counted o none version at = []
counted o (some c) version at =
    if same c.adapter_version version
    then keep (λ t. leb (at - t) o.window_ms) c.failure_times
    else []

unfoldable pub failed : Options → Option Circuit → JsString → JsString → ℕ → Circuit
failed o found version reason at =
    let times = counted o found version at ++ at ∷ [] in
    let opens = leb o.threshold (length times) in
    record {
      is_open = opens;
      failures = length times;
      adapter_version = version;
      opened_at = if opens then some at else none;
      reason = if opens then some reason else none;
      failure_times = times;
    }

unfoldable pub contract_failure : Breaker → JsString → JsString → JsString → ℕ → Breaker
unfolding failed
contract_failure b key version reason at =
    write b key (failed b.options (Dict.get key b.records) version reason at)

unfoldable pub contract_success : Breaker → JsString → JsString → Breaker
contract_success b key version = elim (Dict.get key b.records) [
  | none ↦ b
  | some c ↦
      if not (same c.adapter_version version) || c.is_open then b else write b key (reset version)
]

unfoldable pub self_test_succeeded : Breaker → JsString → JsString → Breaker
self_test_succeeded b key version = write b key (reset version)

-- `snapshot`: the record without its failure times.
pub record Snapshot : Type 0 where
  pub is_open : Bool
  pub failures : ℕ
  pub adapter_version : JsString
  pub opened_at : Option ℕ
  pub reason : Option JsString

abbrev view : Circuit → Snapshot
view c = record {
  is_open = c.is_open;
  failures = c.failures;
  adapter_version = c.adapter_version;
  opened_at = c.opened_at;
  reason = c.reason;
}

unfoldable pub snapshot : Breaker → JsString → JsString → Snapshot
snapshot b key version = elim (Dict.get key b.records) [
  | none ↦ view (reset version)
  | some c ↦ if same c.adapter_version version then view c else view (reset version)
]

pub data Call : Type 0 where
  allows succeeds self_tests : JsString → JsString → Call
  fails : JsString → JsString → JsString → ℕ → Call

unfoldable pub step : Breaker → Call → Breaker
step b (allows key version) = (allow b key version).1
step b (succeeds key version) = contract_success b key version
step b (self_tests key version) = self_test_succeeded b key version
step b (fails key version reason at) = contract_failure b key version reason at

unfoldable pub run : Breaker → List Call → Breaker
run b [] = b
run b (c ∷ cs) = run (step b c) cs
