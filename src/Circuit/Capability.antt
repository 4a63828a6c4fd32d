-- ===== src/Circuit/Capability.antt =====
-- src/application/decision-pipeline/circuit-breaker.ts: `CapabilityCircuitBreaker`, which stops work
-- on a capability that keeps failing. A method returns the new breaker beside its result; times are
-- milliseconds, in ℕ.
pub mod Invariant
pub mod Probe
use content_lens.Prelude.{
  ℕ, suc, ◌+◌, ◌<◌, Bool, true, false, ◌||◌, Option, none, some, List, [], ◌∷◌, JsString, js, ltb,
  leb, if◌then◌else◌, get_or,
}
use content_lens.Prelude.Dict.{Dict}
use content_lens.Prelude.Dict

pub record Options : Type 0 where
  pub failure_threshold : ℕ
  pub cooldown_ms : ℕ

pub data State : Type 0 where
  closed open_state half_open : State

-- `CircuitRecord`
pub record Circuit : Type 0 where
  pub state : State
  pub failures : ℕ
  pub reason : Option JsString
  pub retry_at : Option ℕ
  pub last_transition_at : Option ℕ

pub record Breaker : Type 0 where
  pub options : Options
  pub circuits : Dict Circuit

-- The constructor; `none` is its `throw`.
unfoldable pub create : Options → Option Breaker
create o =
    if ltb o.failure_threshold 1 || ltb o.cooldown_ms 1
    then none
    else some (record { options = o; circuits = [] })

-- What a method leaves in `#circuits`: the record that it writes or mutates, if it does.
unfoldable pub write : Breaker → JsString → Option Circuit → Breaker
write b key none = b
write b key (some c) = record b { circuits = Dict.set key c b.circuits }

-- `(circuit.retryAt ?? Number.POSITIVE_INFINITY) > at`
abbrev pub still_cooling : Option ℕ → ℕ → Bool
still_cooling none at = true
still_cooling (some t) at = ltb at t

-- The body of `allow` on the record it finds: the answer, and the record that it mutates.
unfoldable pub allow_circuit : ℕ → Option Circuit → Bool × Option Circuit
allow_circuit at none = (true, none)
allow_circuit at (some c) = elim c.state [
  | closed ↦ (true, none)
  | half_open ↦ (false, none)
  | open_state ↦
      if still_cooling c.retry_at at
      then (false, none)
      else (true, some (record c { state = half_open; last_transition_at = some at }))
]

unfoldable pub allow : Breaker → JsString → ℕ → Bool × Breaker
unfolding allow_circuit write
allow b key at =
    let (answer, written) = allow_circuit at (Dict.get key b.circuits) in
    (answer, write b key written)

unfoldable pub success_circuit : ℕ → Option Circuit → Option Circuit
success_circuit at none = none
success_circuit at (some c) = some (record c {
  state = closed;
  failures = 0;
  reason = none;
  retry_at = none;
  last_transition_at = some at;
})

unfoldable pub success : Breaker → JsString → ℕ → Breaker
unfolding success_circuit write
success b key at = write b key (success_circuit at (Dict.get key b.circuits))

abbrev pub is_half_open : State → Bool
is_half_open half_open = true
is_half_open closed = false
is_half_open open_state = false

-- The record that `failure` starts from where the capability has none.
abbrev pub fresh : Circuit
fresh = record {
  state = closed;
  failures = 0;
  reason = none;
  retry_at = none;
  last_transition_at = none;
}

-- The change that `failure` makes to its record.
unfoldable pub fail_circuit : Options → JsString → ℕ → Circuit → Circuit
fail_circuit o reason at c =
    let counted = record c { failures = c.failures + 1; reason = some reason } in
    if is_half_open c.state || leb o.failure_threshold (c.failures + 1)
    then record counted {
      state = open_state;
      retry_at = some (at + o.cooldown_ms);
      last_transition_at = some at;
    }
    else counted

unfoldable pub failure : Breaker → JsString → JsString → ℕ → Breaker
unfolding fail_circuit write
failure b key reason at =
    write b key (some (fail_circuit b.options reason at (get_or (Dict.get key b.circuits) fresh)))

unfoldable pub incomplete_circuit : Options → JsString → ℕ → Option Circuit → Option Circuit
incomplete_circuit o reason at none = none
incomplete_circuit o reason at (some c) =
    if is_half_open c.state
    then some (record c {
      state = open_state;
      reason = some reason;
      retry_at = some (at + o.cooldown_ms);
      last_transition_at = some at;
    })
    else none

unfoldable pub incomplete_probe : Breaker → JsString → JsString → ℕ → Breaker
unfolding incomplete_circuit write
incomplete_probe b key reason at =
    write b key (incomplete_circuit b.options reason at (Dict.get key b.circuits))

-- `CircuitSnapshot`; the retry condition is fixed by the state.
pub data Snapshot : Type 0 where
  is_closed : ℕ → Option ℕ → Snapshot
  is_open : ℕ → JsString → ℕ → ℕ → Snapshot
  is_probing : ℕ → JsString → ℕ → ℕ → Snapshot

abbrev capability_failed : JsString
capability_failed = js "capability-failed"

unfoldable pub snapshot_circuit : Option Circuit → Snapshot
snapshot_circuit none = is_closed 0 none
snapshot_circuit (some c) = elim c.state [
  | closed ↦ is_closed c.failures c.last_transition_at
  | half_open ↦
      is_probing c.failures (get_or c.reason capability_failed) (get_or c.retry_at 0)
        (get_or c.last_transition_at 0)
  | open_state ↦
      is_open c.failures (get_or c.reason capability_failed) (get_or c.retry_at 0)
        (get_or c.last_transition_at 0)
]

unfoldable pub snapshot : Breaker → JsString → Snapshot
unfolding snapshot_circuit
snapshot b key = snapshot_circuit (Dict.get key b.circuits)

-- The calls that change a breaker, and their effect.
pub data Call : Type 0 where
  allows succeeds : JsString → ℕ → Call
  fails interrupts : JsString → JsString → ℕ → Call

unfoldable pub step : Breaker → Call → Breaker
step b (allows key at) = (allow b key at).1
step b (succeeds key at) = success b key at
step b (fails key reason at) = failure b key reason at
step b (interrupts key reason at) = incomplete_probe b key reason at

unfoldable pub run : Breaker → List Call → Breaker
run b [] = b
run b (c ∷ cs) = run (step b c) cs
