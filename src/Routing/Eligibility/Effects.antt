-- ===== src/Routing/Eligibility/Effects.antt =====
-- What `resolveEligibleRoute` (src/ai/routing/eligibility.ts) leaves in the budget.
use content_lens.Prelude.{
  ℕ, ◌≡◌, refl, Option, none, JsString, arith, same_iff, ◌∙◌, ap, sym, subst, subst₂,
}
use content_lens.Prelude.Dict.{get-set, get-delete, get-set_self}
use content_lens.Prelude.Dict
use content_lens.Budget
use content_lens.Budget.{
  Budget, ReserveInput, reserve, release, new_id, new_reservation, reserved, blocked,
}
use content_lens.Budget.Charges.{Granted, reserve-Granted, blocked_changes_nothing}
use content_lens.Routing.Catalog.{ModelRef, Capability}
use content_lens.Routing.Resolver.{Source, Configured, resolve_configured_route}
use content_lens.Routing.Eligibility.{
  Environment, Input, State, Resolution, Resolved, resolved, unavailable, Provider, Checked, pass,
  stop, Code, checked, resolve_eligible_route, reserve_and_admit, resolve_route, resolve_configured,
  admit_checked, admit, admit_reserved, reserve_input,
}

-- Two budgets with the same reservations under every id, and the same charges.
pub record SameCharges (b b' : Budget) : Type 0 where
  pub reservations : (j : JsString) → Dict.get j b'.reservations ≡ Dict.get j b.reservations
  pub requests : b'.daily_requests ≡ b.daily_requests
  pub spend : b'.daily_spend ≡ b.daily_spend

released-SameCharges :
    (env : Budget.Env) (b b' : Budget) (i : ReserveInput) (id : JsString)
    → Granted env b b' i id
    → Dict.get (new_id env b) b.reservations ≡ none
    → SameCharges b (release b' id).1
unfolding release
released-SameCharges env b b' i id g free = record {
  reservations = λ j. rw g.taken (
      ground (
        arith,
        get-delete id j (Dict.set id (new_reservation env b i) b.reservations),
        get-set id j (new_reservation env b i) b.reservations,
        same_iff id j,
        g.named,
      ));
  requests = g.same_requests;
  spend = g.same_spend;
}

admit-unavailable :
    (i : Input) (source source' : Source) (ref : ModelRef) (pc : Provider × Capability)
    (id : JsString) (s s' : State) (code : Code) (index : Option ℕ)
    → admit i source ref pc id s ≡ (unavailable source' code index, s')
    → s'.budget ≡ (release s.budget id).1
unfolding admit
admit-unavailable i source source' ref pc id s s' code index h = ground arith

admit-resolved :
    (i : Input) (source : Source) (ref : ModelRef) (pc : Provider × Capability) (id : JsString)
    (s s' : State) (x : Resolved)
    → admit i source ref pc id s ≡ (resolved x, s')
    → (x.reservation_id ≡ id) × (s'.budget ≡ s.budget)
unfolding admit
admit-resolved i source ref pc id s s' x h = ground arith

abbrev reservation_for : Environment → State → Input → Provider → Budget.Reservation
reservation_for env s i p = new_reservation env.budget_env s.budget (reserve_input i p)

module _ (env : Environment) (i : Input) (s : State) where
  blocked-SameCharges :
      (r : ReserveInput) (code : Budget.BlockCode)
      → (reserve env.budget_env s.budget r).0 ≡ blocked code
      → SameCharges s.budget (reserve env.budget_env s.budget r).1
  blocked-SameCharges r code h =
      let (same_reservations, same_requests, same_spend, _) =
        blocked_changes_nothing env.budget_env s.budget r code h in
      record {
        reservations = λ j. ap (Dict.get j) same_reservations;
        requests = same_requests;
        spend = same_spend;
      }

  reserved-unavailable :
      (source source' : Source) (ref : ModelRef) (pc : Provider × Capability)
      (q : Budget.Outcome × Budget) (s' : State) (code : Code) (index : Option ℕ)
      → Dict.get (new_id env.budget_env s.budget) s.budget.reservations ≡ none
      → reserve env.budget_env s.budget (reserve_input i pc.0) ≡ q
      → admit_reserved i source ref pc q s ≡ (unavailable source' code index, s')
      → SameCharges s.budget s'.budget
  unfolding admit_reserved
  reserved-unavailable source source' ref pc (blocked c, b') s' code index free e h =
      let k : s'.budget ≡ b' = ground arith in
      subst (SameCharges s.budget) (ap (λ t. t.1) e ∙ sym k)
        (blocked-SameCharges (reserve_input i pc.0) c (ap (λ t. t.0) e))
  reserved-unavailable source source' ref pc (reserved id, b') s' code index free e h =
      let g = reserve-Granted env.budget_env s.budget b' (reserve_input i pc.0) id e in
      subst (SameCharges s.budget)
        (sym
          (admit-unavailable i source source' ref pc id (record s { budget = b' }) s' code index h))
        (released-SameCharges env.budget_env s.budget b' (reserve_input i pc.0) id g free)

  reserved-resolved :
      (source : Source) (ref : ModelRef) (pc : Provider × Capability) (q : Budget.Outcome × Budget)
      (s' : State) (x : Resolved)
      → reserve env.budget_env s.budget (reserve_input i pc.0) ≡ q
      → admit_reserved i source ref pc q s ≡ (resolved x, s')
      → Granted env.budget_env s.budget s'.budget (reserve_input i pc.0) x.reservation_id
  unfolding admit_reserved
  reserved-resolved source ref pc (blocked c, b') s' x e h = cc
  reserved-resolved source ref pc (reserved id, b') s' x e h =
      let (k, m) = admit-resolved i source ref pc id (record s { budget = b' }) s' x h in
      subst₂ (λ b j. Granted env.budget_env s.budget b (reserve_input i pc.0) j) (sym m) (sym k)
        (reserve-Granted env.budget_env s.budget b' (reserve_input i pc.0) id e)

  checked-unavailable :
      (source source' : Source) (q : Checked (ModelRef × (Provider × Capability))) (s' : State)
      (code : Code) (index : Option ℕ)
      → Dict.get (new_id env.budget_env s.budget) s.budget.reservations ≡ none
      → admit_checked env i source q s ≡ (unavailable source' code index, s')
      → SameCharges s.budget s'.budget
  unfolding admit_checked reserve_and_admit
  checked-unavailable source source' (stop c) s' code index free h =
      subst (SameCharges s.budget) (ap (λ (t : Resolution × State). t.1.budget) h)
        (record { reservations = λ j. refl; requests = refl; spend = refl })
  checked-unavailable source source' (pass (ref, pc)) s' code index free h =
      reserved-unavailable source source' ref pc _ s' code index free refl h

  configured-unavailable :
      (q : Configured) (source' : Source) (s' : State) (code : Code) (index : Option ℕ)
      → Dict.get (new_id env.budget_env s.budget) s.budget.reservations ≡ none
      → resolve_configured env i q s ≡ (unavailable source' code index, s')
      → SameCharges s.budget s'.budget
  unfolding resolve_configured resolve_route
  configured-unavailable (Configured.resolved source r) source' s' code index free h =
      checked-unavailable source source' (checked env i r) s' code index free h
  configured-unavailable _ source' s' code index free h =
      subst (SameCharges s.budget) (ap (λ (t : Resolution × State). t.1.budget) h)
        (record { reservations = λ j. refl; requests = refl; spend = refl })

  -- A route that is unavailable, for whatever reason, holds no reservation and charges nothing, where
  -- the id that the budget would give next is not in use.
  pub unavailable_keeps_budget :
      (source : Source) (s' : State) (code : Code) (index : Option ℕ)
      → Dict.get (new_id env.budget_env s.budget) s.budget.reservations ≡ none
      → resolve_eligible_route env i s ≡ (unavailable source code index, s')
      → SameCharges s.budget s'.budget
  unfolding resolve_eligible_route
  unavailable_keeps_budget source s' code index free h =
      configured-unavailable (resolve_configured_route i.settings env.catalog i.platform i.task)
        source s' code index free h
