-- ===== src/Budget/Charges.antt =====
-- What `RoutingBudget` (src/ai/routing/budget.ts) charges, and when.
use content_lens.Prelude.{
  ap, length, ℕ, ◌+◌, ◌≤◌, ◌<◌, ◌≡◌, refl, true, false, none, some, JsString, arith, same, same_iff,
  ◌∙◌, get_or,
}
use content_lens.Prelude.Dict.{Dict, get-set, get-delete, get-set_self}
use content_lens.Prelude.Dict
use content_lens.Budget.{
  Env, Budget, Reservation, ReserveInput, BlockCode, reserved, blocked, reserve, commit,
  provider_period_key, spent, requested, cloud_check, monetary_check, active_for, recent, new_id,
  new_reservation, cloud,
}

charged :
    (b : Budget) (id : JsString) (r : Reservation) (key : JsString)
    → Dict.get id b.reservations ≡ some r
    → key ≡ provider_period_key r.provider_config_id r.period_key
    → spent (commit b id).1 key ≡ spent b key + r.estimated_cost
unfolding commit
charged b id r key found e =
    ground (arith, get-set_self key (spent b key + r.estimated_cost) b.daily_spend)

deleted :
    (b : Budget) (id : JsString) (r : Reservation)
    → Dict.get id b.reservations ≡ some r
    → (commit b id).1.reservations ≡ Dict.delete id b.reservations
unfolding commit
deleted b id r found = ground arith

-- A commit finds its reservation once: it charges the day of the reservation by its cost and one
-- request, no other day, and a second commit is refused and changes nothing.
commit_once :
    (b : Budget) (id other : JsString) (r : Reservation) (key : JsString)
    → Dict.get id b.reservations ≡ some r
    → key ≡ provider_period_key r.provider_config_id r.period_key
    → same key other ≡ false
    → ((commit b id).0 ≡ true)
      × (spent (commit b id).1 key ≡ spent b key + r.estimated_cost)
      × (requested (commit b id).1 key ≡ requested b key + 1)
      × (spent (commit b id).1 other ≡ spent b other)
      × (requested (commit b id).1 other ≡ requested b other)
      × (commit (commit b id).1 id ≡ (false, (commit b id).1))
unfolding commit
commit_once b id other r key found e o = ground (
  arith,
  get-set key other (requested b key + 1) b.daily_requests,
  get-set key other (spent b key + r.estimated_cost) b.daily_spend,
  get-set_self key (requested b key + 1) b.daily_requests,
  get-set_self key (spent b key + r.estimated_cost) b.daily_spend,
  get-delete id id b.reservations,
  same_iff id id,
)

-- A request that is blocked reserves and charges nothing.
pub blocked_changes_nothing :
    (env : Env) (b : Budget) (input : ReserveInput) (code : BlockCode)
    → (reserve env b input).0 ≡ blocked code
    → ((reserve env b input).1.reservations ≡ b.reservations)
      × ((reserve env b input).1.daily_requests ≡ b.daily_requests)
      × ((reserve env b input).1.daily_spend ≡ b.daily_spend)
      × ((reserve env b input).1.sequence ≡ b.sequence)
unfolding reserve
blocked_changes_nothing env b input code h = ground arith

-- What a request that was reserved has passed, and what it wrote.
pub record Granted (env : Env) (b b' : Budget) (input : ReserveInput) (id : JsString) : Type 0 where
  pub named : id ≡ new_id env b
  pub checked :
      cloud_check b input (provider_period_key input.provider_config_id (env.period_key input.at))
      ≡ none
  pub taken : b'.reservations ≡ Dict.set id (new_reservation env b input) b.reservations
  pub same_requests : b'.daily_requests ≡ b.daily_requests
  pub same_spend : b'.daily_spend ≡ b.daily_spend
  pub same_policy : b'.policy ≡ b.policy

pub reserve-Granted :
    (env : Env) (b b' : Budget) (input : ReserveInput) (id : JsString)
    → reserve env b input ≡ (reserved id, b')
    → Granted env b b' input id
unfolding reserve
reserve-Granted env b b' input id h = ground arith

cloud_check-le :
    (b : Budget) (input : ReserveInput) (cost : ℕ) (key : JsString)
    → input.execution_kind ≡ cloud
    → input.estimated_cost ≡ some cost
    → cloud_check b input key ≡ none
    → spent b key + cost ≤ b.policy.monetary_budget.limit
unfolding cloud_check
cloud_check-le b input cost key c e h = ground arith

-- A cloud request that is reserved and committed, with nothing in between, leaves the money spent on
-- its day within the limit, and is charged by its estimate.
pub reserve-commit-le-limit :
    (env : Env) (b b' : Budget) (input : ReserveInput) (cost : ℕ) (id key : JsString)
    → input.execution_kind ≡ cloud
    → input.estimated_cost ≡ some cost
    → key ≡ provider_period_key input.provider_config_id (env.period_key input.at)
    → reserve env b input ≡ (reserved id, b')
    → (spent (commit b' id).1 key ≡ spent b key + cost)
      × (spent (commit b' id).1 key ≤ b.policy.monetary_budget.limit)
reserve-commit-le-limit env b b' input cost id key c e ek h =
    let g = reserve-Granted env b b' input id h in
    let r = new_reservation env b input in
    let f : Dict.get id b'.reservations ≡ some r = rw g.taken (get-set_self id r b.reservations) in
    let s = charged b' id r key f (ek ∙ unfold new_reservation in refl) in
    let k : r.estimated_cost ≡ cost = unfold new_reservation in rw e in
    let q : spent (commit b' id).1 key ≡ spent b key + cost = s ∙ rw (k, g.same_spend) in
    (q, rw q (cloud_check-le b input cost key c e (rw ek g.checked)))

-- A reservation changes nothing that the check of the money reads.
reserved-cloud_check :
    (env : Env) (b b' : Budget) (input other : ReserveInput) (id key : JsString)
    → Granted env b b' input id
    → cloud_check b' other key ≡ cloud_check b other key
unfolding cloud_check monetary_check
reserved-cloud_check env b b' input other id key g =
    ap (λ p. cloud_check (record b' { policy = p }) other key) g.same_policy
    ∙ ap (λ d. cloud_check (record b { daily_spend = d }) other key) g.same_spend

-- The limits on concurrency and rate that a request meets.
pub record HasRoom (b : Budget) (input : ReserveInput) (key : JsString) : Type 0 where
  pub global : length b.reservations < b.policy.max_concurrent_global
  pub provider : active_for input.provider_config_id b < b.policy.max_concurrent_by_provider
  pub rate : length (recent b input) < b.policy.requests_per_minute_by_provider
  pub quota : requested b key < b.policy.requests_per_day_by_provider

reserve-reserved :
    (env : Env) (b : Budget) (input : ReserveInput) (key : JsString)
    → key ≡ provider_period_key input.provider_config_id (env.period_key input.at)
    → cloud_check b input key ≡ none
    → HasRoom b input key
    → (reserve env b input).0 ≡ reserved (new_id env b)
unfolding reserve
reserve-reserved env b input key k h room = ground arith

both_charged :
    (env : Env) (b b₁ b₂ : Budget) (i₁ i₂ : ReserveInput) (id₁ id₂ key : JsString)
    → Granted env b b₁ i₁ id₁
    → Granted env b₁ b₂ i₂ id₂
    → same id₁ id₂ ≡ false
    → key ≡ provider_period_key i₁.provider_config_id (env.period_key i₁.at)
    → key ≡ provider_period_key i₂.provider_config_id (env.period_key i₂.at)
    → spent (commit (commit b₂ id₁).1 id₂).1 key
      ≡ spent b key + get_or i₁.estimated_cost 0 + get_or i₂.estimated_cost 0
both_charged env b b₁ b₂ i₁ i₂ id₁ id₂ key g₁ g₂ d k₁ k₂ =
    let r₁ = new_reservation env b i₁ in
    let r₂ = new_reservation env b₁ i₂ in
    let f₁ : Dict.get id₁ b₂.reservations ≡ some r₁ =
      rw (g₂.taken, g₁.taken)
        (ground (
          arith,
          get-set id₂ id₁ r₂ (Dict.set id₁ r₁ b.reservations),
          get-set_self id₁ r₁ b.reservations,
          same_iff id₁ id₂,
          same_iff id₂ id₁,
        )) in
    let f₂ : Dict.get id₂ (commit b₂ id₁).1.reservations ≡ some r₂ =
      rw (deleted b₂ id₁ r₁ f₁, g₂.taken)
        (ground (
          arith,
          get-delete id₁ id₂ (Dict.set id₂ r₂ b₁.reservations),
          get-set_self id₂ r₂ b₁.reservations,
        )) in
    let c₁ = charged b₂ id₁ r₁ key f₁ (k₁ ∙ unfold new_reservation in refl) in
    let c₂ = charged (commit b₂ id₁).1 id₂ r₂ key f₂ (k₂ ∙ unfold new_reservation in refl) in
    let e₁ : r₁.estimated_cost ≡ get_or i₁.estimated_cost 0 = unfold new_reservation in refl in
    let e₂ : r₂.estimated_cost ≡ get_or i₂.estimated_cost 0 = unfold new_reservation in refl in
    let s₀ : spent b₂ key ≡ spent b key = rw (g₂.same_spend, g₁.same_spend) in
    omega (arith, c₁, c₂, e₁, e₂, s₀)

-- The money of reservations that are not committed yet is not counted. Where a first request is reserved, a second one
-- of the same provider and day passes the check of the money as it was before the first and has room
-- under the limits on concurrency and rate after it, and the estimates of the two do not fit together
-- with the money spent, the second is reserved all the same, and the commits of both pass the limit.
pub reserved_twice_passes_limit :
    (env : Env) (b b₁ : Budget) (i₁ i₂ : ReserveInput) (id₁ key : JsString)
    → reserve env b i₁ ≡ (reserved id₁, b₁)
    → cloud_check b i₂ key ≡ none
    → HasRoom b₁ i₂ key
    → same id₁ (new_id env b₁) ≡ false
    → key ≡ provider_period_key i₁.provider_config_id (env.period_key i₁.at)
    → key ≡ provider_period_key i₂.provider_config_id (env.period_key i₂.at)
    → b.policy.monetary_budget.limit
      < spent b key + get_or i₁.estimated_cost 0 + get_or i₂.estimated_cost 0
    → let (answer, b₂) = reserve env b₁ i₂ in
      (answer ≡ reserved (new_id env b₁))
      × (b.policy.monetary_budget.limit < spent (commit (commit b₂ id₁).1 (new_id env b₁)).1 key)
reserved_twice_passes_limit env b b₁ i₁ i₂ id₁ key h₁ fits room d k₁ k₂ over =
    let g₁ = reserve-Granted env b b₁ i₁ id₁ h₁ in
    let passed = reserved-cloud_check env b b₁ i₁ i₂ id₁ key g₁ ∙ fits in
    let answered = reserve-reserved env b₁ i₂ key k₂ passed room in
    let b₂ = (reserve env b₁ i₂).1 in
    let g₂ =
      reserve-Granted env b₁ b₂ i₂ (new_id env b₁)
        (ap (λ r. (r, (reserve env b₁ i₂).1)) answered) in
    (answered, rw (both_charged env b b₁ b₂ i₁ i₂ id₁ (new_id env b₁) key g₁ g₂ d k₁ k₂) over)
