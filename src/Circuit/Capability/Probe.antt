-- ===== src/Circuit/Capability/Probe.antt =====
-- When a `CapabilityCircuitBreaker` (decision-pipeline/circuit-breaker.ts) opens, and whom it lets by.
use content_lens.Prelude.{
  ℕ, ◌+◌, ◌≤◌, ◌<◌, ◌≡◌, ◌∙◌, refl, true, false, Option, none, some, List, [], ◌∷◌, JsString, arith,
  same, get_or, ap, length,
}
use content_lens.Prelude.Dict.{get-set, get-set_self}
use content_lens.Prelude.Dict
use content_lens.Circuit.Capability.{
  Options, closed, open_state, half_open, Circuit, Breaker, write, allow, success, fresh,
  fail_circuit, failure, incomplete_probe, Call, allows, succeeds, fails, interrupts, step, run,
  snapshot, snapshot_circuit, is_open,
}

abbrev pub call_key : Call → JsString
call_key (allows key at) = key
call_key (succeeds key at) = key
call_key (fails key reason at) = key
call_key (interrupts key reason at) = key

get-write :
    (b : Breaker) (key j : JsString) (o : Option Circuit)
    → same key j ≡ false
    → Dict.get j (write b key o).circuits ≡ Dict.get j b.circuits
unfolding write
get-write b key j none h = refl
get-write b key j (some c) h = ground (arith, get-set key j c b.circuits)

-- A call about one capability leaves the snapshot of every other one as it was.
snapshot-step_other :
    (b : Breaker) (c : Call) (other : JsString)
    → same (call_key c) other ≡ false
    → snapshot (step b c) other ≡ snapshot b other
unfolding step allow success failure incomplete_probe snapshot
snapshot-step_other b (allows key at) other h = ap snapshot_circuit (get-write b key other _ h)
snapshot-step_other b (succeeds key at) other h = ap snapshot_circuit (get-write b key other _ h)
snapshot-step_other b (fails key reason at) other h = ap snapshot_circuit (
    get-write b key other
      (some (fail_circuit b.options reason at (get_or (Dict.get key b.circuits) fresh))) h)
snapshot-step_other b (interrupts key reason at) other h =
    ap snapshot_circuit (get-write b key other _ h)

probing : Circuit → ℕ → Circuit
probing c at = record c { state = half_open; last_transition_at = some at }

-- The failures of a capability at the given times, one after the other.
abbrev pub failures : JsString → JsString → List ℕ → List Call
failures key reason [] = []
failures key reason (t ∷ ts) = fails key reason t ∷ failures key reason ts

-- An open circuit refuses every request before the time to retry, and changes nothing. From then on
-- it lets one through and, until something is reported, no other, whenever that comes.
pub single_probe :
    (b : Breaker) (key : JsString) (c : Circuit) (retry at later : ℕ)
    → Dict.get key b.circuits ≡ some c
    → c.state ≡ open_state
    → c.retry_at ≡ some retry
    → (at < retry → allow b key at ≡ (false, b))
      × (retry ≤ at
          → ((allow b key at).0 ≡ true)
            × (allow (allow b key at).1 key later ≡ (false, (allow b key at).1)))
unfolding allow probing
single_probe b key c retry at later found opened waits = (
  λ early. ground arith,
  λ due. (ground arith, ground (arith, get-set_self key (probing c at) b.circuits)),
)

abbrev circuit_at : Breaker → JsString → Circuit
circuit_at b key = get_or (Dict.get key b.circuits) fresh

circuit_at-failure :
    (b : Breaker) (key reason : JsString) (at : ℕ)
    → circuit_at (failure b key reason at) key ≡ fail_circuit b.options reason at (circuit_at b key)
unfolding failure
circuit_at-failure b key reason at =
    rw (get-set_self key (fail_circuit b.options reason at (circuit_at b key)) b.circuits)

fail_below :
    (o : Options) (reason : JsString) (at : ℕ) (c : Circuit)
    → c.state ≡ closed
    → c.failures + 1 < o.failure_threshold
    → ((fail_circuit o reason at c).state ≡ closed)
      × ((fail_circuit o reason at c).failures ≡ c.failures + 1)
unfolding fail_circuit
fail_below o reason at c s h = ground arith

fail_last :
    (o : Options) (reason : JsString) (at : ℕ) (c : Circuit)
    → c.failures + 1 ≡ o.failure_threshold
    → snapshot_circuit (some (fail_circuit o reason at c))
      ≡ is_open (c.failures + 1) reason (at + o.cooldown_ms) at
unfolding fail_circuit snapshot_circuit
fail_last o reason at c h = ground arith

-- Failures that stay below the threshold are counted, and leave the circuit closed.
tally :
    (b : Breaker) (key reason : JsString) (ts : List ℕ)
    → (circuit_at b key).state ≡ closed
    → (circuit_at b key).failures + length ts < b.options.failure_threshold
    → ((circuit_at (run b (failures key reason ts)) key).state ≡ closed)
      × ((circuit_at (run b (failures key reason ts)) key).failures
          ≡ (circuit_at b key).failures + length ts)
      × ((run b (failures key reason ts)).options ≡ b.options)
unfolding run step
tally b key reason [] s h = (s, omega arith, refl)
tally b key reason (t ∷ ts) s h =
    let e = circuit_at-failure b key reason t in
    let f = fail_below b.options reason t (circuit_at b key) s (omega arith) in
    let o : (failure b key reason t).options ≡ b.options = unfold failure in refl in
    let ih =
      tally (failure b key reason t) key reason ts (rw e f.0) (rw (e, f.1, o) (omega arith)) in
    (ih.0, ih.1 ∙ rw (e, f.1) (omega arith), ih.2 ∙ o)

allow_closed :
    (b : Breaker) (key : JsString) (at : ℕ)
    → (circuit_at b key).state ≡ closed
    → (allow b key at).0 ≡ true
unfolding allow
allow_closed b key at s = ground arith

-- Where a capability has no record, it is let through while fewer failures than the threshold were
-- reported in a row, and the failure that reaches the threshold opens the circuit for one cooldown.
opens_at_threshold :
    (b : Breaker) (key reason : JsString) (ts : List ℕ) (last at : ℕ)
    → Dict.get key b.circuits ≡ none
    → length ts + 1 ≡ b.options.failure_threshold
    → ((allow (run b (failures key reason ts)) key at).0 ≡ true)
      × (snapshot (failure (run b (failures key reason ts)) key reason last) key
          ≡ is_open (length ts + 1) reason (last + b.options.cooldown_ms) last)
unfolding snapshot failure
opens_at_threshold b key reason ts last at new h =
    let z : circuit_at b key ≡ fresh = rw new in
    let t = tally b key reason ts (rw z) (rw z (omega arith)) in
    let b' = run b (failures key reason ts) in
    let n : (circuit_at b' key).failures ≡ length ts = t.1 ∙ rw z (omega arith) in
    let o : b'.options ≡ b.options = t.2 in
    (
      allow_closed b' key at t.0,
      rw (get-set_self key (fail_circuit b'.options reason last (circuit_at b' key)) b'.circuits)
          (fail_last b'.options reason last (circuit_at b' key) (rw (n, o) h) ∙ rw (n, o)),
    )
