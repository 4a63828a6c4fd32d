-- ===== src/Examples/Eligible.antt =====
-- src/ai/routing/eligibility.ts at concrete inputs.
use content_lens.Prelude.{◌≡◌, refl, true, false, none, some, [], ◌∷◌, js, same, ◌++◌}
use content_lens.Prelude.Dict
use content_lens.Budget
use content_lens.Budget.{local}
use content_lens.Routing.Catalog
use content_lens.Routing.Catalog.{Task, Model, Capability, ModelRef}
use content_lens.Routing.Resolver
use content_lens.Routing.Resolver.{
  Route, Settings, Source, Platform, resolve_configured_route, Configured,
}
use content_lens.Routing.Eligibility
use content_lens.Routing.Eligibility.{
  Environment, Input, State, Provider, Content, Resolved, resolve_eligible_route, resolved,
  unavailable, Code,
}
use content_lens.Routing.Eligibility.Safety.{resolved_is_Eligible, SelectedBy, Eligible}
use content_lens.Routing.Eligibility.Effects.{unavailable_keeps_budget, SameCharges}

abbrev reference : ModelRef
reference = record { provider_config_id = js "p"; model_id = js "m" }

abbrev embeds : Capability
embeds = record {
  task = Task.embedding;
  modalities = Catalog.text ∷ [];
  languages = js "en" ∷ [];
  image_mime_types = [];
  max_input_bytes = 1000;
  structured_output = true;
  evidence = Catalog.declared;
}

abbrev model : Model
model = record { execution_kind = local; status = Catalog.available; capabilities = embeds ∷ [] }

abbrev provider : Eligibility.ProviderStatus → Provider
provider status = record {
  provider_config_id = js "p";
  execution = local;
  status = status;
  endpoint_origin = js "http://localhost";
  credential_mode = Eligibility.no_credential;
  credential_ref = none;
}

abbrev env : Eligibility.ProviderStatus → Environment
env status = record {
  providers = (js "p", provider status) ∷ [];
  catalog = (js "p" ++ 0 ∷ js "m", model) ∷ [];
  has_consent = λ k. false;
  has_permission = λ o. true;
  has_credential = λ a b c. false;
  budget_env = record { period_key = λ at. js "d"; decimal = λ n. js "1" };
}

abbrev the_route : Route
the_route = record {
  primary = reference;
  fallbacks = [];
  allow_cloud_fallback = false;
  allow_higher_cost_fallback = false;
}

abbrev settings : Settings
settings = record {
  global_routes = λ t. some (Resolver.route the_route);
  platform_overrides = λ p t. none;
}

abbrev input : Input
input = record {
  settings = settings;
  platform = Resolver.rss;
  task = Task.embedding;
  content = record {
    language = js "en";
    input_bytes = 10;
    modalities = Catalog.text ∷ [];
    image_mime_type = none;
    categories = [];
    include_images = false;
  };
  attempt = Eligibility.primary;
  at = 5;
  pricing = none;
}

abbrev state : State
state = record {
  budget = record {
    policy = record {
      max_concurrent_global = 1;
      max_concurrent_by_provider = 1;
      requests_per_minute_by_provider = 5;
      requests_per_day_by_provider = 5;
      monetary_budget = record { enabled = false; limit = 0; price_max_age_hours = 1 };
    };
    reservations = [];
    minute_requests = [];
    daily_requests = [];
    daily_spend = [];
    sequence = 0;
  };
  circuit = [];
}

abbrev answer : Resolved
answer = record {
  source = Resolver.global;
  selected = reference;
  fallback_index = none;
  execution_kind = local;
  capability = embeds;
  reservation_id = js "budget:1";
  recovery_probe = false;
}

resolved_is_Eligible_example :
    (r : Route) × (p : Provider) × (resolve_configured_route settings
        (env Eligibility.ready).catalog
        Resolver.rss
        Task.embedding
      ≡ Configured.resolved Resolver.global r)
    × SelectedBy (env Eligibility.ready) input r reference Eligibility.primary
    × Eligible (env Eligibility.ready) input reference p embeds
    × (local ≡ p.execution)
unfolding resolve_eligible_route Eligibility.resolve_configured resolve_configured_route
    Resolver.route_for Catalog.get Dict.get same Catalog.model_key Catalog.supports
    Eligibility.resolve_route Eligibility.checked Catalog.capability_of Eligibility.capability_block
    Eligibility.authorization Eligibility.reserve_and_admit Budget.reserve Eligibility.reserve_input
    Budget.recent Budget.active_for Budget.cloud_check Budget.monetary_check Budget.new_id
    Budget.new_reservation Budget.provider_period_key Budget.release Budget.reserve_rate
    content_lens.Circuit.Route.acquire content_lens.Circuit.Route.admit
    content_lens.Circuit.Route.write Dict.delete Dict.set Eligibility.admit
    Eligibility.admit_checked Eligibility.admit_reserved Eligibility.candidate
    Eligibility.costs_more Eligibility.credential_present Eligibility.moves_to_cloud
    Eligibility.require_ready Eligibility.route_key Eligibility.selected_reference
    Resolver.with_route
resolved_is_Eligible_example =
    resolved_is_Eligible (env Eligibility.ready) input state
      (resolve_eligible_route (env Eligibility.ready) input state).1 answer refl

unavailable_keeps_budget_example :
    SameCharges state.budget (resolve_eligible_route (env Eligibility.revoked) input state).1.budget
unfolding resolve_eligible_route Dict.get Eligibility.resolve_configured resolve_configured_route
    Resolver.route_for Catalog.get same Catalog.model_key Catalog.supports Eligibility.resolve_route
    Eligibility.checked
unavailable_keeps_budget_example =
    unavailable_keeps_budget (env Eligibility.revoked) input state Resolver.global
      (resolve_eligible_route (env Eligibility.revoked) input state).1 Code.provider_unavailable
      none refl refl
