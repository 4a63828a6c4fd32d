-- ===== src/Circuit/Native/Invariant.antt =====
-- What holds of the records of a `NativeFeedbackCircuitBreaker` (native-feedback/circuit-breaker.ts),
-- and how a circuit that opened closes again.
use content_lens.Prelude.{
  ℕ, ◌<◌, ◌≡◌, ◌⊎◌, sym, subst, true, false, Option, some, List, [], ◌∷◌, JsString, arith, same_iff,
  inl, inr, is_some, length, leb,
}
use content_lens.Prelude.Dict.{Each, Each-set, Each-delete, get-empty, get-set_self, get-set}
use content_lens.Prelude.Dict
use content_lens.Circuit.Native.{
  Options, Circuit, Breaker, allow, contract_failure, contract_success, self_test_succeeded, reset,
  failed, counted, Call, allows, succeeds, self_tests, fails, step, run,
}

-- A record is open exactly when it holds as many failures as the threshold, and only then says when
-- and why it opened.
pub record IsWell (o : Options) (c : Circuit) : Type 0 where
  pub counts : c.failures ≡ length c.failure_times
  pub opens : c.is_open ≡ leb o.threshold c.failures
  pub dated : is_some c.opened_at ≡ c.is_open
  pub reasoned : is_some c.reason ≡ c.is_open

pub record IsValid (b : Breaker) : Type 0 where
  pub positive : 0 < b.options.threshold
  pub wells : Each (λ _ c. IsWell b.options c) b.records

reset-IsWell : (o : Options) (version : JsString) → 0 < o.threshold → IsWell o (reset version)
reset-IsWell o version p = ground arith

failed-IsWell :
    (o : Options) (found : Option Circuit) (version reason : JsString) (at : ℕ)
    → IsWell o (failed o found version reason at)
unfolding failed
failed-IsWell o found version reason at = ground arith

allow_cases :
    (b : Breaker) (key version : JsString)
    → ((allow b key version).1 ≡ b)
      ⊎ ((allow b key version).1 ≡ record b { records = Dict.delete key b.records })
unfolding allow
allow_cases b key version = ground arith

success_cases :
    (b : Breaker) (key version : JsString)
    → (contract_success b key version ≡ b)
      ⊎ (contract_success b key version ≡ self_test_succeeded b key version)
unfolding contract_success self_test_succeeded
success_cases b key version = ground arith

self_test-IsValid :
    (b : Breaker) (key version : JsString) → IsValid b → IsValid (self_test_succeeded b key version)
unfolding self_test_succeeded
self_test-IsValid b key version v = record {
  positive = v.positive;
  wells =
      Each-set (λ _ c. IsWell b.options c) key (reset version) b.records v.wells
        (reset-IsWell b.options version v.positive);
}

-- Every call keeps a breaker with a positive threshold valid.
pub step-IsValid : (b : Breaker) (c : Call) → IsValid b → IsValid (step b c)
unfolding step contract_failure
step-IsValid b (allows key version) v = elim (allow_cases b key version) [
  | inl e ↦ subst IsValid (sym e) v
  | inr e ↦ subst IsValid (sym e) (record {
    positive = v.positive;
    wells = Each-delete (λ _ c. IsWell b.options c) key b.records v.wells;
  })
]
step-IsValid b (succeeds key version) v = elim (success_cases b key version) [
  | inl e ↦ subst IsValid (sym e) v
  | inr e ↦ subst IsValid (sym e) (self_test-IsValid b key version v)
]
step-IsValid b (self_tests key version) v = self_test-IsValid b key version v
step-IsValid b (fails key version reason at) v = record {
  positive = v.positive;
  wells =
      Each-set (λ _ c. IsWell b.options c) key _ b.records v.wells
        (failed-IsWell b.options (Dict.get key b.records) version reason at);
}

run-IsValid : (b : Breaker) (calls : List Call) → IsValid b → IsValid (run b calls)
unfolding run
run-IsValid b [] v = v
run-IsValid b (c ∷ cs) v = run-IsValid (step b c) cs (step-IsValid b c v)

-- A breaker that starts empty, with a positive threshold, is valid after any calls: a circuit is open
-- exactly when it holds as many failures as the threshold, and only then has a time and a reason.
pub empty_run-IsValid :
    (o : Options) (calls : List Call)
    → 0 < o.threshold
    → IsValid (run (record { options = o; records = [] }) calls)
empty_run-IsValid o calls p =
    run-IsValid (record { options = o; records = [] }) calls
      (record { positive = p; wells = λ k c e. absurd (cc (get-empty {V = Circuit} k, e)) })

-- While a circuit is open for an adapter version, requests of that version are refused, and neither
-- a request nor a success of it changes anything: only a self test, another version or a later
-- failure does.
open_stays :
    (b : Breaker) (key version : JsString) (c : Circuit)
    → Dict.get key b.records ≡ some c
    → c.adapter_version ≡ version
    → c.is_open ≡ true
    → (allow b key version ≡ (false, b))
      × (contract_success b key version ≡ b)
      × ((allow (self_test_succeeded b key version) key version).0 ≡ true)
unfolding allow contract_success self_test_succeeded
open_stays b key version c found v o = ground (
  arith,
  same_iff c.adapter_version version,
  same_iff version version,
  get-set_self key (reset version) b.records,
)

-- A failure with no earlier one in its window leaves the circuit closed where the threshold is above
-- one, also a circuit that was open: its next request is let through.
pub late_failure_closes :
    (b : Breaker) (key version reason : JsString) (c : Circuit) (at : ℕ)
    → Dict.get key b.records ≡ some c
    → counted b.options (some c) version at ≡ []
    → 1 < b.options.threshold
    → (allow (contract_failure b key version reason at) key version).0 ≡ true
unfolding allow contract_failure
late_failure_closes b key version reason c at found old above = ground (
  arith,
  get-set_self key (failed b.options (some c) version reason at) b.records,
  same_iff version version,
)
