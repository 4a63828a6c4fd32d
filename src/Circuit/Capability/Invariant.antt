-- ===== src/Circuit/Capability/Invariant.antt =====
-- What holds of every record of a `CapabilityCircuitBreaker` (decision-pipeline/circuit-breaker.ts).
use content_lens.Prelude.{
  false, ◌||◌, leb, if-both, if◌then◌else◌, Bool-cases, inl, inr, ℕ, ◌+◌, ◌≤◌, ◌<◌, ◌≡◌, refl, ◌⊎◌,
  true, Option, none, some, List, [], ◌∷◌, JsString, arith, get_or, is_some,
}
use content_lens.Prelude.Dict.{Each, Each-set, get-empty}
use content_lens.Prelude.Dict
use content_lens.Circuit.Capability.{
  Options, closed, open_state, half_open, Circuit, Breaker, State, is_half_open, still_cooling,
  create, write, allow, success, fresh, fail_circuit, failure, incomplete_probe, Call, allows,
  succeeds, fails, interrupts, step, run, allow_circuit, success_circuit, incomplete_circuit,
}

-- A closed circuit is below the threshold and waits for nothing. An open or probing one has a reason. An open one may
-- retry exactly one cooldown after its last transition. One whose probe is on made its last transition,
-- the start of the probe, at or after its time to retry, which is one cooldown after some moment.
pub record IsWell (o : Options) (c : Circuit) : Type 0 where
  pub below : c.state ≡ closed → c.failures < o.failure_threshold
  pub idle : c.state ≡ closed → c.retry_at ≡ none
  pub reasoned : (c.state ≡ closed) ⊎ (is_some c.reason ≡ true)
  pub opened :
      c.state ≡ open_state
      → (at : ℕ) × (c.last_transition_at ≡ some at) × (c.retry_at ≡ some (at + o.cooldown_ms))
  pub probing :
      c.state ≡ half_open
      → (at : ℕ) × (began : ℕ) × (c.last_transition_at ≡ some began)
        × (c.retry_at ≡ some (at + o.cooldown_ms))
        × (at + o.cooldown_ms ≤ began)

pub record IsValid (b : Breaker) : Type 0 where
  pub positive : 0 < b.options.failure_threshold
  pub wells : Each (λ _ c. IsWell b.options c) b.circuits

-- The record that a lookup gives, if any, is well.
abbrev AllWell : Options → Option Circuit → Type 0
AllWell o none = Unit
AllWell o (some c) = IsWell o c

found-AllWell :
    (b : Breaker) (key : JsString) → IsValid b → AllWell b.options (Dict.get key b.circuits)
found-AllWell b key v = go (Dict.get key b.circuits) refl
  where
    go : (found : Option Circuit) → Dict.get key b.circuits ≡ found → AllWell b.options found
    go none e = tt
    go (some c) e = v.wells key c e

write-IsValid :
    (b : Breaker) (key : JsString) (o : Option Circuit)
    → IsValid b
    → AllWell b.options o
    → IsValid (write b key o)
unfolding write
write-IsValid b key none v w = v
write-IsValid b key (some c) v w = record {
  positive = v.positive;
  wells = Each-set (λ _ d. IsWell b.options d) key c b.circuits v.wells w;
}

-- The start of a probe.
probing-IsWell :
    (o : Options) (at : ℕ) (c : Circuit)
    → c.state ≡ open_state
    → still_cooling c.retry_at at ≡ false
    → IsWell o c
    → IsWell o (record c { state = half_open; last_transition_at = some at })
probing-IsWell o at c q cool w =
    let (t, last, retry) = w.opened q in
    record {
      below = λ h. absurd (cc h);
      idle = λ h. absurd (cc h);
      reasoned = ground (arith, w.reasoned);
      opened = λ h. absurd (cc h);
      probing = λ h. (t, at, refl, retry, ground (arith, cool, retry));
    }

allow_fields-AllWell :
    (o : Options) (at n : ℕ) (state : State) (reason : Option JsString) (retry last : Option ℕ)
    → let c : Circuit = record {
      state = state;
      failures = n;
      reason = reason;
      retry_at = retry;
      last_transition_at = last;
    } in
      IsWell o c → AllWell o (allow_circuit at (some c)).1
unfolding allow_circuit
allow_fields-AllWell o at n closed reason retry last w = tt
allow_fields-AllWell o at n half_open reason retry last w = tt
allow_fields-AllWell o at n open_state reason retry last w =
    elim (Bool-cases (still_cooling retry at)) [
      | inl q ↦ rw (q, if◌then◌else◌) tt
      | inr q ↦ rw (q, if◌then◌else◌) (probing-IsWell o at _ refl q w)
    ]

allow_circuit-AllWell :
    (o : Options) (at : ℕ) (found : Option Circuit)
    → AllWell o found
    → AllWell o (allow_circuit at found).1
unfolding allow_circuit
allow_circuit-AllWell o at none w = tt
allow_circuit-AllWell o at (some c) w =
    allow_fields-AllWell o at c.failures c.state c.reason c.retry_at c.last_transition_at w

success_circuit-AllWell :
    (o : Options) (at : ℕ) (found : Option Circuit)
    → 0 < o.failure_threshold
    → AllWell o (success_circuit at found)
unfolding success_circuit
success_circuit-AllWell o at none p = tt
success_circuit-AllWell o at (some c) p = record {
  below = λ h. p;
  idle = λ h. refl;
  reasoned = inl refl;
  opened = λ h. absurd (cc h);
  probing = λ h. absurd (cc h);
}

-- An opening at a moment.
opened-IsWell :
    (o : Options) (reason : JsString) (at n : ℕ)
    → IsWell o (record {
      state = open_state;
      failures = n;
      reason = some reason;
      retry_at = some (at + o.cooldown_ms);
      last_transition_at = some at;
    })
opened-IsWell o reason at n = record {
  below = λ h. absurd (cc h);
  idle = λ h. absurd (cc h);
  reasoned = inr refl;
  opened = λ h. (at, refl, refl);
  probing = λ h. absurd (cc h);
}

-- A failure that opens nothing.
counted-IsWell :
    (o : Options) (reason : JsString) (c : Circuit)
    → leb o.failure_threshold (c.failures + 1) ≡ false
    → IsWell o c
    → IsWell o (record c { failures = c.failures + 1; reason = some reason })
counted-IsWell o reason c q w = record {
  below = λ h. ground arith;
  idle = w.idle;
  reasoned = inr refl;
  opened = w.opened;
  probing = w.probing;
}

fresh-IsWell : (o : Options) → 0 < o.failure_threshold → IsWell o fresh
fresh-IsWell o p = record {
  below = λ h. p;
  idle = λ h. refl;
  reasoned = inl refl;
  opened = λ h. absurd (cc h);
  probing = λ h. absurd (cc h);
}

failed-IsWell :
    (o : Options) (reason : JsString) (at : ℕ) (c : Circuit)
    → IsWell o c
    → IsWell o (fail_circuit o reason at c)
unfolding fail_circuit
failed-IsWell o reason at c w =
    elim (Bool-cases (is_half_open c.state || leb o.failure_threshold (c.failures + 1))) [
      | inl q ↦ rw (q, if◌then◌else◌) (opened-IsWell o reason at (c.failures + 1))
      | inr q ↦ rw (q, if◌then◌else◌) (counted-IsWell o reason c (ground (arith, q)) w)
    ]

fail_circuit-IsWell :
    (o : Options) (reason : JsString) (at : ℕ) (found : Option Circuit)
    → 0 < o.failure_threshold
    → AllWell o found
    → IsWell o (fail_circuit o reason at (get_or found fresh))
fail_circuit-IsWell o reason at none p w = failed-IsWell o reason at fresh (fresh-IsWell o p)
fail_circuit-IsWell o reason at (some c) p w = failed-IsWell o reason at c w

incomplete_circuit-AllWell :
    (o : Options) (reason : JsString) (at : ℕ) (found : Option Circuit)
    → AllWell o (incomplete_circuit o reason at found)
unfolding incomplete_circuit
incomplete_circuit-AllWell o reason at none = tt
incomplete_circuit-AllWell o reason at (some c) =
    if-both (AllWell o) (is_half_open c.state) _ none (opened-IsWell o reason at c.failures) tt

options-step : (b : Breaker) (c : Call) → (step b c).options ≡ b.options
unfolding step allow success failure incomplete_probe
options-step b c = ground arith

-- Every call, whatever its arguments and the records it finds, keeps a breaker valid.
pub step-IsValid : (b : Breaker) (c : Call) → IsValid b → IsValid (step b c)
unfolding step allow success failure incomplete_probe
step-IsValid b (allows key at) v =
    write-IsValid b key _ v
      (allow_circuit-AllWell b.options at (Dict.get key b.circuits) (found-AllWell b key v))
step-IsValid b (succeeds key at) v =
    write-IsValid b key _ v
      (success_circuit-AllWell b.options at (Dict.get key b.circuits) v.positive)
step-IsValid b (fails key reason at) v =
    write-IsValid b key
      (some (fail_circuit b.options reason at (get_or (Dict.get key b.circuits) fresh))) v
      (fail_circuit-IsWell b.options reason at (Dict.get key b.circuits) v.positive
        (found-AllWell b key v))
step-IsValid b (interrupts key reason at) v =
    write-IsValid b key _ v
      (incomplete_circuit-AllWell b.options reason at (Dict.get key b.circuits))

run-IsValid : (b : Breaker) (calls : List Call) → IsValid b → IsValid (run b calls)
unfolding run
run-IsValid b [] v = v
run-IsValid b (c ∷ cs) v = run-IsValid (step b c) cs (step-IsValid b c v)

create-IsValid : (o : Options) (b : Breaker) → create o ≡ some b → IsValid b
unfolding create
create-IsValid o b h = record {
  positive = ground arith;
  wells = λ k c e. absurd (cc (get-empty {V = Circuit} k, e, empty));
}
  where
    empty : b.circuits ≡ []
    empty = ground arith

-- A breaker that its constructor accepted is valid after any calls.
pub create-run-IsValid :
    (o : Options) (b : Breaker) (calls : List Call) → create o ≡ some b → IsValid (run b calls)
create-run-IsValid o b calls h = run-IsValid b calls (create-IsValid o b h)
