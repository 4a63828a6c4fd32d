-- ===== src/Routing/Eligibility/Checks.antt =====
-- src/ai/routing/eligibility.ts: the conditions that `resolveEligibleRoute` checks, in its order.
use content_lens.Prelude.{
  keep, sort, ℕ, ◌+◌, Bool, true, false, not, ◌&&◌, ◌||◌, Option, none, some, List, [], ◌∷◌,
  JsString, js, ltb, same, any, get_elem?, if◌then◌else◌,
}
use content_lens.Prelude.Dict.{Dict}
use content_lens.Prelude.Dict
use content_lens.Budget
use content_lens.Budget.{
  Budget, ExecutionKind, local, browser, cloud, is_cloud, ReserveInput, reserve, release,
}
use content_lens.Routing.Catalog
use content_lens.Routing.Catalog.{
  Task, Modality, Evidence, ModelRef, Capability, Model, Catalog, same_modality, is_available,
  capability_of,
}
use content_lens.Routing.Resolver.{
  Platform, Route, Settings, FailureCategory, can_advance_to_fallback,
}

pub data ProviderStatus : Type 0 where
  unconfigured locked ready degraded rate_limited unauthorized revoked : ProviderStatus

pub data CredentialMode : Type 0 where
  no_credential session_only passphrase_wrapped external_vault : CredentialMode

-- `ProviderDescriptor`, as far as routing reads it.
pub record Provider : Type 0 where
  pub provider_config_id : JsString
  pub execution : ExecutionKind
  pub status : ProviderStatus
  pub endpoint_origin : JsString
  pub credential_mode : CredentialMode
  pub credential_ref : Option JsString

-- `RouteContentCapabilities`
pub record Content : Type 0 where
  pub language : JsString
  pub input_bytes : ℕ
  pub modalities : List Modality
  pub image_mime_type : Option JsString
  pub categories : List JsString
  pub include_images : Bool

-- What a consent is asked for.
pub record ConsentKey : Type 0 where
  pub provider_config_id : JsString
  pub endpoint_origin : JsString
  pub task : Task
  pub platform : Platform
  pub categories : List JsString
  pub include_images : Bool

-- `RouteEnvironment` but for the budget and the breaker: the registry and the catalog, and what the
-- browser, the vault and the stored consents answer.
pub record Environment : Type 0 where
  pub providers : Dict Provider
  pub catalog : Catalog
  pub has_consent : ConsentKey → Bool
  pub has_permission : JsString → Bool
  pub has_credential : JsString → JsString → JsString → Bool
  pub budget_env : Budget.Env

pub data Attempt : Type 0 where
  primary : Attempt
  fallback : ℕ → FailureCategory → Attempt

pub record Pricing : Type 0 where
  pub estimated_cost : ℕ
  pub price_verified_at : ℕ
  pub primary_estimated_cost : Option ℕ

pub record Input : Type 0 where
  pub settings : Settings
  pub platform : Platform
  pub task : Task
  pub content : Content
  pub attempt : Attempt
  pub at : ℕ
  pub pricing : Option Pricing

pub data Code : Type 0 where
  route_disabled fallback_not_configured fallback_cause_not_allowed : Code
  fallback_cloud_not_authorized fallback_higher_cost_not_authorized : Code
  provider_not_found provider_unavailable provider_temporarily_unavailable : Code
  model_not_found task_unsupported execution_mismatch modality_unsupported : Code
  image_mime_unsupported language_unsupported input_too_large structured_output_unsupported : Code
  permission_missing credential_missing consent_missing circuit_open budget_blocked : Code

pub data Checked {ℓ} (A : Type ℓ) : Type ℓ where
  pass : A → Checked A
  stop : Code → Checked A

infixl 5 ◌>>=◌ ◌>>◌
abbrev pub ◌>>=◌ {ℓ κ} : {X : Type ℓ} {Y : Type κ} → Checked X → (X → Checked Y) → Checked Y
stop code >>= next = stop code
pass x >>= next = next x

abbrev pub ◌>>◌ {κ} : {Y : Type κ} → Checked (Unit {0}) → Checked Y → Checked Y
check >> next = check >>= λ done. next

-- An early return of `unavailable`, unless the test holds.
abbrev pub require : Bool → Code → Checked (Unit {0})
require true e = pass tt
require false e = stop e

abbrev pub or_stop {ℓ} : {A : Type ℓ} → Option A → Code → Checked A
or_stop none e = stop e
or_stop (some a) e = pass a

-- `primary && candidate?.executionKind === 'cloud' && primary.executionKind !== 'cloud'`
unfoldable pub moves_to_cloud : Catalog → ModelRef → ModelRef → Bool
moves_to_cloud c from to = elim (Catalog.get c from) [
  | none ↦ false
  | some p ↦ elim (Catalog.get c to) [
    | none ↦ false
    | some m ↦ is_cloud m.execution_kind && not (is_cloud p.execution_kind)
  ]
]

unfoldable pub costs_more : Option Pricing → Bool
costs_more none = false
costs_more (some p) = elim p.primary_estimated_cost [
  | none ↦ false
  | some c ↦ ltb c p.estimated_cost
]

unfoldable pub selected_fallback :
    Environment → Input → Route → ℕ → FailureCategory → Checked ModelRef
unfolding moves_to_cloud costs_more can_advance_to_fallback
selected_fallback env i r index cause = do
  reference ← or_stop (get_elem? r.fallbacks index) fallback_not_configured
  require (can_advance_to_fallback cause) fallback_cause_not_allowed
  require (not (moves_to_cloud env.catalog r.primary reference) || r.allow_cloud_fallback)
      fallback_cloud_not_authorized
  require (not (costs_more i.pricing) || r.allow_higher_cost_fallback)
      fallback_higher_cost_not_authorized
  pass reference

-- `selectedReference`; where it blocks, only the code goes on.
unfoldable pub selected_reference : Environment → Input → Route → Attempt → Checked ModelRef
unfolding selected_fallback
selected_reference env i r primary = pass r.primary
selected_reference env i r (fallback index cause) = selected_fallback env i r index cause

abbrev pub mime_supported : Capability → Content → Bool
mime_supported c content = elim content.image_mime_type [
  | none ↦ false
  | some m ↦ not (same m []) && any (λ t. same t m) c.image_mime_types
]

-- `capabilityBlock`
unfoldable pub capability_block : Capability → Content → Checked (Unit {0})
capability_block c content = do
  require (not (any (λ m. not (any (λ n. same_modality n m) c.modalities)) content.modalities))
      modality_unsupported
  require (not content.include_images || mime_supported c content) image_mime_unsupported
  require (any (λ l. same l content.language) c.languages) language_unsupported
  require (not (ltb c.max_input_bytes content.input_bytes)) input_too_large
  require c.structured_output structured_output_unsupported

abbrev pub same_execution : ExecutionKind → ExecutionKind → Bool
same_execution local local = true
same_execution browser browser = true
same_execution cloud cloud = true
same_execution _ _ = false

abbrev pub is_browser : ExecutionKind → Bool
is_browser browser = true
is_browser local = false
is_browser cloud = false

unfoldable pub require_ready : ProviderStatus → Checked (Unit {0})
require_ready ready = pass tt
require_ready degraded = stop provider_temporarily_unavailable
require_ready rate_limited = stop provider_temporarily_unavailable
require_ready _ = stop provider_unavailable

abbrev pub needs_credential : CredentialMode → Bool
needs_credential no_credential = false
needs_credential session_only = true
needs_credential passphrase_wrapped = true
needs_credential external_vault = true

-- `provider.credentialRef && environment.credentials.has(…)`
unfoldable pub credential_present : Environment → Provider → Bool
credential_present env p = elim p.credential_ref [
  | none ↦ false
  | some ref ↦ not (same ref []) && env.has_credential ref p.provider_config_id p.endpoint_origin
]

-- `DATA_CATEGORY_VALUES` of src/ai/providers/contracts.ts
data_categories : List JsString
data_categories =
    js "title"
    ∷ js "body"
    ∷ js "author"
    ∷ js "context"
    ∷ js "rule"
    ∷ js "examples"
    ∷ js "exclusions"
    ∷ js "image"
    ∷ js "intent"
    ∷ js "decision"
    ∷ []

-- The place of a category from a place on, or 0 (`order.get(…) ?? 0`).
place : ℕ → JsString → List JsString → ℕ
place i c [] = 0
place i c (d ∷ ds) = let later = place (i + 1) c ds in if same d c then i else later

-- `[...new Set(categories)]`
unique : List JsString → List JsString
unique [] = []
unique (c ∷ cs) = c ∷ keep (λ d. not (same c d)) (unique cs)

-- The categories of `normalizeConsentKey`.
unfoldable pub normalized_categories : List JsString → List JsString
unfolding data_categories place unique
normalized_categories cs =
    sort (λ a b. ltb (place 0 a data_categories) (place 0 b data_categories)) (unique cs)

-- `normalizeConsentKey`; the origin of a provider is in its normal form already (its schema wants it).
abbrev pub consent_key : Input → Provider → ConsentKey
consent_key i p = record {
  provider_config_id = p.provider_config_id;
  endpoint_origin = p.endpoint_origin;
  task = i.task;
  platform = i.platform;
  categories = normalized_categories i.content.categories;
  include_images = i.content.include_images;
}

-- The permission, the credential and the consent that a provider wants.
unfoldable pub authorization : Environment → Input → Provider → Checked (Unit {0})
unfolding credential_present
authorization env i p = do
  require (is_browser p.execution || env.has_permission p.endpoint_origin) permission_missing
  require (not (needs_credential p.credential_mode) || credential_present env p) credential_missing
  require (not (is_cloud p.execution) || env.has_consent (consent_key i p)) consent_missing

-- The checks of provider, model and capability, in the source's order.
unfoldable pub candidate : Environment → Input → ModelRef → Checked (Provider × Capability)
unfolding require_ready
candidate env i ref = do
  p ← or_stop (Dict.get ref.provider_config_id env.providers) provider_not_found
  require_ready p.status
  m ← or_stop (Catalog.get env.catalog ref) model_not_found
  require (same_execution m.execution_kind p.execution) execution_mismatch
  c ← or_stop (capability_of m i.task) task_unsupported
  require (is_available m.status) task_unsupported
  capability_block c i.content
  authorization env i p
  pass (p, c)
