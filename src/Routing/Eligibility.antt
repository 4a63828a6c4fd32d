-- ===== src/Routing/Eligibility.antt =====
-- src/ai/routing/eligibility.ts: `resolveEligibleRoute`, which sends a task to a model only where
-- every condition holds, and reserves its budget. The budget and the circuit breaker are passed on.
pub mod Checks
pub mod Safety
pub mod Effects
use content_lens.Prelude.{
  ℕ, ◌+◌, Bool, true, false, not, ◌&&◌, ◌||◌, Option, none, some, List, [], ◌∷◌, ◌++◌, JsString, js,
  ltb, same, any, get_elem?, is_some, if◌then◌else◌,
}
use content_lens.Prelude.Dict.{Dict}
use content_lens.Prelude.Dict
use content_lens.Budget
use content_lens.Budget.{
  Budget, ExecutionKind, local, browser, cloud, is_cloud, ReserveInput, reserve, release,
}
use content_lens.Circuit.Route
use content_lens.Routing.Catalog
use content_lens.Routing.Catalog.{
  Task, Modality, Evidence, ModelRef, Capability, Model, Catalog, same_modality, is_available,
  capability_of,
}
use content_lens.Routing.Resolver
use content_lens.Routing.Resolver.{
  Platform, Route, Settings, Source, FailureCategory, Configured, resolve_configured_route,
  can_advance_to_fallback,
}
unfoldable pub use Checks.*

pub record State : Type 0 where
  pub budget : Budget
  pub circuit : Route.Breaker

task_name : Task → JsString
task_name Task.classification_text = js "classification-text"
task_name Task.classification_vision = js "classification-vision"
task_name Task.embedding = js "embedding"
task_name Task.assistance_draft = js "assistance-draft"
task_name Task.assistance_explain = js "assistance-explain"

-- `[providerConfigId, modelId, task].join('/')`
unfoldable pub route_key : ModelRef → Task → JsString
unfolding task_name
route_key ref task = ref.provider_config_id ++ b'/' ∷ (ref.model_id ++ b'/' ∷ task_name task)

unfoldable pub reserve_input : Input → Provider → ReserveInput
reserve_input i p = record {
  provider_config_id = p.provider_config_id;
  execution_kind = p.execution;
  at = i.at;
  estimated_cost = elim i.pricing [ none ↦ none | some x ↦ some x.estimated_cost ];
  price_verified_at = elim i.pricing [ none ↦ none | some x ↦ some x.price_verified_at ];
}

-- The `resolved` case of `EligibleRouteResolution`.
pub record Resolved : Type 0 where
  pub source : Source
  pub selected : ModelRef
  pub fallback_index : Option ℕ
  pub execution_kind : ExecutionKind
  pub capability : Capability
  pub reservation_id : JsString
  pub recovery_probe : Bool

pub data Resolution : Type 0 where
  resolved : Resolved → Resolution
  unavailable : Source → Code → Option ℕ → Resolution

abbrev pub fallback_index : Attempt → Option ℕ
fallback_index primary = none
fallback_index (fallback index cause) = some index

abbrev pub is_probe : Route.Admission → Bool
is_probe Route.Admission.probe = true
is_probe _ = false

abbrev pub is_admitted : Route.Admission → Bool
is_admitted Route.Admission.probe = true
is_admitted Route.Admission.closed = true
is_admitted _ = false

-- The end of `resolveEligibleRoute`, with the budget reserved: the circuit breaker's answer decides,
-- and a refusal gives the reservation back.
unfoldable pub admit :
    Input → Source → ModelRef → Provider × Capability → JsString → State → Resolution × State
unfolding release
admit i source ref (p, c) id s =
    let (answer, circuit') = Route.acquire s.circuit (route_key ref i.task) i.at in
    if is_admitted answer
    then (
      resolved (record {
        source = source;
        selected = ref;
        fallback_index = fallback_index i.attempt;
        execution_kind = p.execution;
        capability = c;
        reservation_id = id;
        recovery_probe = is_probe answer;
      }),
      record { budget = s.budget; circuit = circuit' },
    )
    else (
      unavailable source circuit_open (fallback_index i.attempt),
      record { budget = (release s.budget id).1; circuit = circuit' },
    )

-- What follows the answer of the budget.
unfoldable pub admit_reserved :
    Input
    → Source
    → ModelRef
    → Provider × Capability
    → Budget.Outcome × Budget
    → State
    → Resolution × State
unfolding admit
admit_reserved i source ref pc (Budget.blocked _, budget') s =
    (unavailable source budget_blocked (fallback_index i.attempt), record s { budget = budget' })
admit_reserved i source ref pc (Budget.reserved id, budget') s =
    admit i source ref pc id (record s { budget = budget' })

-- The reservation of the budget for a provider that passed the checks.
unfoldable pub reserve_and_admit :
    Environment → Input → Source → ModelRef → Provider × Capability → State → Resolution × State
unfolding admit_reserved
reserve_and_admit env i source ref pc s =
    admit_reserved i source ref pc (reserve env.budget_env s.budget (reserve_input i pc.0)) s

-- The reference that is tried, with its provider and capability, where all checks pass.
unfoldable pub checked : Environment → Input → Route → Checked (ModelRef × (Provider × Capability))
unfolding selected_reference candidate
checked env i r = do
  ref ← selected_reference env i r i.attempt
  pc ← candidate env i ref
  pass (ref, pc)

invalid_code : Resolver.InvalidCode → Code
invalid_code Resolver.model_not_found = model_not_found
invalid_code Resolver.task_unsupported = task_unsupported

unfoldable pub admit_checked :
    Environment
    → Input
    → Source
    → Checked (ModelRef × (Provider × Capability))
    → State
    → Resolution × State
admit_checked env i source (stop code) s = (unavailable source code (fallback_index i.attempt), s)
admit_checked env i source (pass (ref, pc)) s = reserve_and_admit env i source ref pc s

unfoldable pub resolve_route : Environment → Input → Source → Route → State → Resolution × State
unfolding admit_checked
resolve_route env i source r s = admit_checked env i source (checked env i r) s

unfoldable pub resolve_configured : Environment → Input → Configured → State → Resolution × State
unfolding invalid_code
resolve_configured env i (Configured.off source reason) s =
    (unavailable source route_disabled (fallback_index i.attempt), s)
resolve_configured env i (Configured.wrong source code) s =
    (unavailable source (invalid_code code) (fallback_index i.attempt), s)
resolve_configured env i (Configured.resolved source r) s = resolve_route env i source r s

-- `resolveEligibleRoute`
unfoldable pub resolve_eligible_route : Environment → Input → State → Resolution × State
resolve_eligible_route env i s =
    resolve_configured env i (resolve_configured_route i.settings env.catalog i.platform i.task) s
