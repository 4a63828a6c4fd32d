-- ===== src/Circuit/Route.antt =====
-- src/ai/routing/circuit-breaker.ts: `RouteCircuitBreaker`, which stops requests on a model route
-- after five temporary failures within five minutes. Times are milliseconds, in ℕ; `at - failureAt`
-- of a later failure is negative in the source and 0 here, within the window in both.
pub mod Probes
use content_lens.Prelude.{
  ℕ, ◌+◌, ◌-◌, ◌*◌, Bool, true, false, Option, none, some, List, [], ◌∷◌, ◌++◌, JsString, ltb, leb,
  ◌==◌, if◌then◌else◌, get_or, keep, length,
}
use content_lens.Prelude.Dict.{Dict}
use content_lens.Prelude.Dict

abbrev pub failure_window_ms : ℕ
failure_window_ms = 300000

abbrev pub open_duration_ms : ℕ
open_duration_ms = 60000

abbrev pub failure_threshold : ℕ
failure_threshold = 5

-- `CircuitState`
pub record Circuit : Type 0 where
  pub failures : List ℕ
  pub opened_at : Option ℕ
  pub probe_in_flight : Bool

abbrev pub Breaker : Type 0
Breaker = Dict Circuit

abbrev pub fresh : Circuit
fresh = record { failures = []; opened_at = none; probe_in_flight = false }

-- The failures that `recordTemporaryFailure` keeps, with the new one behind them.
unfoldable pub recent : List ℕ → ℕ → List ℕ
recent failures at = keep (λ t. leb (at - t) failure_window_ms) failures ++ at ∷ []

unfoldable pub failed : Circuit → ℕ → Circuit
failed c at = record {
  failures = recent c.failures at;
  opened_at =
      if leb failure_threshold (length (recent c.failures at)) then some at else c.opened_at;
  probe_in_flight = false;
}

unfoldable pub record_temporary_failure : Breaker → JsString → ℕ → Breaker
unfolding failed
record_temporary_failure b key at = Dict.set key (failed (get_or (Dict.get key b) fresh) at) b

unfoldable pub record_success : Breaker → JsString → Breaker
record_success b key = Dict.delete key b

pub data Admission : Type 0 where
  closed : Admission
  probe : Admission
  refused_open : ℕ → Admission
  refused_half_open : Admission

-- `current?.openedAt`, which is falsy where it is absent and where it is 0
abbrev pub opening : Option Circuit → Option ℕ
opening none = none
opening (some c) = elim c.opened_at [ none ↦ none | some t ↦ if t == 0 then none else some t ]

unfoldable pub admit : Option Circuit → ℕ → Admission × Option Circuit
admit none at = (closed, none)
admit (some c) at = elim (opening (some c)) [
  | none ↦ (closed, none)
  | some t ↦
      if ltb at (t + open_duration_ms)
      then (refused_open (t + open_duration_ms), none)
      else if c.probe_in_flight
      then (refused_half_open, none)
      else (probe, some (record c { probe_in_flight = true }))
]

unfoldable pub write : Breaker → JsString → Option Circuit → Breaker
write b key none = b
write b key (some c) = Dict.set key c b

unfoldable pub acquire : Breaker → JsString → ℕ → Admission × Breaker
unfolding admit write
acquire b key at =
    let (answer, written) = admit (Dict.get key b) at in (answer, write b key written)
