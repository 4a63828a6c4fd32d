-- ===== src/Routing/Eligibility/Safety.antt =====
-- What a resolution of `resolveEligibleRoute` (src/ai/routing/eligibility.ts) guarantees.
use content_lens.Prelude.{
  ℕ, ◌≤◌, ◌≡◌, ◌⊎◌, refl, ap, sym, ◌∙◌, true, false, not, some, arith, any, get_elem?, same,
}
use content_lens.Prelude.Dict
use content_lens.Budget.{browser, cloud}
use content_lens.Routing.Catalog
use content_lens.Routing.Catalog.{
  Task, Modality, Evidence, ModelRef, Capability, Model, Catalog, same_modality, is_available,
  available, capability_of,
}
use content_lens.Routing.Resolver.{
  Route, Source, FailureCategory, Configured, resolve_configured_route, temporary, invalid_output,
  can_advance_to_fallback,
}
use content_lens.Routing.Eligibility.{
  Environment, Input, State, Resolved, resolved, Provider, ready, Content, Checked, pass, stop,
  candidate, capability_block, authorization, consent_key, needs_credential, credential_present,
  mime_supported, Attempt, primary, fallback, selected_reference, moves_to_cloud, costs_more,
  checked, resolve_eligible_route, reserve_and_admit, resolve_route, resolve_configured,
  admit_checked,
}

-- The content fits the capability.
pub record Fits (c : Capability) (content : Content) : Type 0 where
  pub modalities :
      any (λ m. not (any (λ n. same_modality n m) c.modalities)) content.modalities ≡ false
  pub mime : (content.include_images ≡ false) ⊎ (mime_supported c content ≡ true)
  pub language : any (λ l. same l content.language) c.languages ≡ true
  pub size : content.input_bytes ≤ c.max_input_bytes
  pub structured : c.structured_output ≡ true

capability_block-Fits :
    (c : Capability) (content : Content) → capability_block c content ≡ pass tt → Fits c content
unfolding capability_block
capability_block-Fits c content h = ground arith

-- The user has allowed the provider: the browser's permission, a credential and a consent, each where
-- the provider wants it.
pub record Allowed (env : Environment) (i : Input) (p : Provider) : Type 0 where
  pub permission : (p.execution ≡ browser) ⊎ (env.has_permission p.endpoint_origin ≡ true)
  pub credential : (needs_credential p.credential_mode ≡ false) ⊎ (credential_present env p ≡ true)
  pub consent : p.execution ≡ cloud → env.has_consent (consent_key i p) ≡ true

authorization-Allowed :
    (env : Environment) (i : Input) (p : Provider)
    → authorization env i p ≡ pass tt
    → Allowed env i p
unfolding authorization
authorization-Allowed env i p h = ground arith

-- A provider and a capability that a request may be sent with: registered and ready, of an available
-- model that runs where the provider does, that fits the content, and allowed by the user.
pub record Eligible (env : Environment) (i : Input) (ref : ModelRef) (p : Provider) (c : Capability)
    : Type 0 where
  pub registered : Dict.get ref.provider_config_id env.providers ≡ some p
  pub ready_now : p.status ≡ ready
  pub model :
      (m : Model) × (Catalog.get env.catalog ref ≡ some m)
      × (m.status ≡ available)
      × (m.execution_kind ≡ p.execution)
      × (capability_of m i.task ≡ some c)
  pub fits : Fits c i.content
  pub allowed : Allowed env i p

candidate-Eligible :
    (env : Environment) (i : Input) (ref : ModelRef) (p : Provider) (c : Capability)
    → candidate env i ref ≡ pass (p, c)
    → Eligible env i ref p c
unfolding candidate
candidate-Eligible env i ref p c h =
    ground (arith, capability_block-Fits c i.content, authorization-Allowed env i p)

-- What a fallback needs beyond a primary: it is configured at its index, the failure before it was
-- temporary or an invalid output, and a move to the cloud or to a higher cost is permitted.
pub record FallbackAllowed (env : Environment) (i : Input) (r : Route) (ref : ModelRef) (index : ℕ)
    (cause : FailureCategory) : Type 0 where
  pub configured : get_elem? r.fallbacks index ≡ some ref
  pub by_cause : (cause ≡ temporary) ⊎ (cause ≡ invalid_output)
  pub to_cloud :
      (r.allow_cloud_fallback ≡ true) ⊎ (moves_to_cloud env.catalog r.primary ref ≡ false)
  pub higher_cost : (r.allow_higher_cost_fallback ≡ true) ⊎ (costs_more i.pricing ≡ false)

abbrev pub SelectedBy : Environment → Input → Route → ModelRef → Attempt → Type 0
SelectedBy env i r ref primary = ref ≡ r.primary
SelectedBy env i r ref (fallback index cause) = FallbackAllowed env i r ref index cause

advance_causes :
    (cause : FailureCategory)
    → can_advance_to_fallback cause ≡ true
    → (cause ≡ temporary) ⊎ (cause ≡ invalid_output)
unfolding can_advance_to_fallback
advance_causes cause h = ground arith

selected-SelectedBy :
    (env : Environment) (i : Input) (r : Route) (ref : ModelRef) (attempt : Attempt)
    → selected_reference env i r attempt ≡ pass ref
    → SelectedBy env i r ref attempt
unfolding selected_reference
selected-SelectedBy env i r ref primary h = ground arith
selected-SelectedBy env i r ref (fallback index cause) h = ground (arith, advance_causes cause)

checked_parts :
    (env : Environment) (i : Input) (r : Route) (ref : ModelRef) (pc : Provider × Capability)
    → checked env i r ≡ pass (ref, pc)
    → (selected_reference env i r i.attempt ≡ pass ref) × (candidate env i ref ≡ pass pc)
unfolding checked
checked_parts env i r ref pc h = ground arith

-- What the end of a resolution keeps: the reference and what was checked of it, and a reservation
-- that the budget holds.
reserve_and_admit-resolved :
    (env : Environment) (i : Input) (source : Source) (ref : ModelRef) (pc : Provider × Capability)
    (s s' : State) (x : Resolved)
    → reserve_and_admit env i source ref pc s ≡ (resolved x, s')
    → (x.source ≡ source)
      × (x.selected ≡ ref)
      × (x.execution_kind ≡ pc.0.execution)
      × (x.capability ≡ pc.1)
unfolding reserve_and_admit
reserve_and_admit-resolved env i source ref pc s s' x h = ground arith

-- The same through the two tests before the end: the route was configured, and the checks passed.
admit_checked-resolved :
    (env : Environment) (i : Input) (source : Source)
    (q : Checked (ModelRef × (Provider × Capability))) (s s' : State) (x : Resolved)
    → admit_checked env i source q s ≡ (resolved x, s')
    → (x.source ≡ source)
      × (p : Provider) × (q ≡ pass (x.selected, (p, x.capability)))
      × (x.execution_kind ≡ p.execution)
unfolding admit_checked
admit_checked-resolved env i source (stop code) s s' x h = cc
admit_checked-resolved env i source (pass (ref, pc)) s s' x h =
    let (e, s, k, c) = reserve_and_admit-resolved env i source ref pc s s' x h in
    (e, pc.0, cc (s, c), k)

configured-resolved :
    (env : Environment) (i : Input) (q : Configured) (s s' : State) (x : Resolved)
    → resolve_configured env i q s ≡ (resolved x, s')
    → (source : Source) × (r : Route) × (q ≡ Configured.resolved source r)
      × (resolve_route env i source r s ≡ (resolved x, s'))
unfolding resolve_configured
configured-resolved env i (Configured.off source reason) s s' x h = cc
configured-resolved env i (Configured.wrong source code) s s' x h = cc
configured-resolved env i (Configured.resolved source r) s s' x h = (source, r, refl, h)

-- A resolved route comes from the settings, by the primary or by a fallback that is allowed, and its
-- provider and capability are eligible: registered and ready, of an available model that runs where
-- the provider does, within the capability's limits, and allowed by permission, credential and, in the
-- cloud, consent.
pub resolved_is_Eligible :
    (env : Environment) (i : Input) (s s' : State) (x : Resolved)
    → resolve_eligible_route env i s ≡ (resolved x, s')
    → (r : Route) × (p : Provider) × (resolve_configured_route i.settings env.catalog i.platform
          i.task
        ≡ Configured.resolved x.source r)
      × SelectedBy env i r x.selected i.attempt
      × Eligible env i x.selected p x.capability
      × (x.execution_kind ≡ p.execution)
unfolding resolve_eligible_route
resolved_is_Eligible env i s s' x h =
    let found = resolve_configured_route i.settings env.catalog i.platform i.task in
    let (source, r, e, h') = configured-resolved env i found s s' x h in
    let (se, p, q, k) =
      admit_checked-resolved env i source (checked env i r) s s' x (unfold resolve_route in h') in
    let (sel, cand) = checked_parts env i r x.selected (p, x.capability) q in
    (
      r,
      p,
      e ∙ ap (λ t. Configured.resolved t r) (sym se),
      selected-SelectedBy env i r x.selected i.attempt sel,
      candidate-Eligible env i x.selected p x.capability cand,
      k,
    )
