-- ===== src/Budget.antt =====
-- src/ai/routing/budget.ts: `RoutingBudget`, which reserves requests to model providers within limits
-- on concurrency, rate and money, and charges the reservations that are committed. Times are
-- milliseconds, costs whole parts of the currency, both in ℕ.
pub mod Concurrency
pub mod Charges
use content_lens.Prelude.{
  ℕ, suc, ◌+◌, ◌-◌, ◌*◌, Bool, true, false, not, ◌||◌, Option, none, some, List, [], ◌∷◌, ◌++◌,
  JsString, js, ltb, leb, ◌==◌, same, if◌then◌else◌, get_or, keep, length,
}
use content_lens.Prelude.Dict.{Dict, values}
use content_lens.Prelude.Dict

-- What the class takes from outside: the day of a time in the time zone, as `Intl.DateTimeFormat`
-- writes it, and a number as text.
pub record Env : Type 0 where
  pub period_key : ℕ → JsString
  pub decimal : ℕ → JsString

pub data ExecutionKind : Type 0 where
  local browser cloud : ExecutionKind

abbrev pub is_cloud : ExecutionKind → Bool
is_cloud cloud = true
is_cloud local = false
is_cloud browser = false

pub record MonetaryBudget : Type 0 where
  pub enabled : Bool
  pub limit : ℕ
  pub price_max_age_hours : ℕ

-- `BudgetPolicy` (src/ai/models/contracts.ts)
pub record Policy : Type 0 where
  pub max_concurrent_global : ℕ
  pub max_concurrent_by_provider : ℕ
  pub requests_per_minute_by_provider : ℕ
  pub requests_per_day_by_provider : ℕ
  pub monetary_budget : MonetaryBudget

pub record Reservation : Type 0 where
  pub reservation_id : JsString
  pub provider_config_id : JsString
  pub execution_kind : ExecutionKind
  pub at : ℕ
  pub estimated_cost : ℕ
  pub period_key : JsString

pub record ReserveInput : Type 0 where
  pub provider_config_id : JsString
  pub execution_kind : ExecutionKind
  pub at : ℕ
  pub estimated_cost : Option ℕ
  pub price_verified_at : Option ℕ

pub data BlockCode : Type 0 where
  global_concurrency provider_concurrency provider_rate provider_daily_quota : BlockCode
  monetary_budget_disabled monetary_budget_exhausted price_unavailable price_stale : BlockCode

pub record Budget : Type 0 where
  pub policy : Policy
  pub reservations : Dict Reservation
  pub minute_requests : Dict (List ℕ)
  pub daily_requests : Dict ℕ
  pub daily_spend : Dict ℕ
  pub sequence : ℕ

pub data Outcome : Type 0 where
  reserved : JsString → Outcome
  blocked : BlockCode → Outcome

unfoldable pub create : Policy → Budget
create p = record {
  policy = p;
  reservations = [];
  minute_requests = [];
  daily_requests = [];
  daily_spend = [];
  sequence = 0;
}

-- `${providerConfigId}\u0000${periodKey}`
unfoldable pub provider_period_key : JsString → JsString → JsString
provider_period_key provider period = provider ++ 0 ∷ period

abbrev pub spent : Budget → JsString → ℕ
spent b key = get_or (Dict.get key b.daily_spend) 0

abbrev pub requested : Budget → JsString → ℕ
requested b key = get_or (Dict.get key b.daily_requests) 0

-- `#monetaryCheck`
unfoldable pub monetary_check : Budget → ReserveInput → JsString → Option BlockCode
monetary_check b input key =
    let m = b.policy.monetary_budget in
    if not m.enabled || m.limit == 0
    then some monetary_budget_disabled
    else elim input.estimated_cost [
      | none ↦ some price_unavailable
      | some cost ↦ elim input.price_verified_at [
        | none ↦ some price_unavailable
        | some verified ↦
            if ltb (m.price_max_age_hours * 60 * 60 * 1000) (input.at - verified)
            then some price_stale
            else if ltb m.limit (spent b key + cost)
            then some monetary_budget_exhausted
            else none
      ]
    ]

abbrev pub of_provider : JsString → Reservation → Bool
of_provider provider r = same r.provider_config_id provider

unfoldable pub active_for : JsString → Budget → ℕ
active_for provider b = length (keep (of_provider provider) (values b.reservations))

-- The check of the money, which only cloud requests pass.
unfoldable pub cloud_check : Budget → ReserveInput → JsString → Option BlockCode
unfolding monetary_check
cloud_check b input key = if is_cloud input.execution_kind then monetary_check b input key else none

-- The requests of the last minute that `reserve` keeps.
unfoldable pub recent : Budget → ReserveInput → List ℕ
recent b input =
    keep (λ t. ltb (input.at - t) 60000)
      (get_or (Dict.get input.provider_config_id b.minute_requests) [])

unfoldable pub new_id : Env → Budget → JsString
new_id env b = js "budget:" ++ env.decimal (b.sequence + 1)

unfoldable pub new_reservation : Env → Budget → ReserveInput → Reservation
unfolding new_id
new_reservation env b input = record {
  reservation_id = new_id env b;
  provider_config_id = input.provider_config_id;
  execution_kind = input.execution_kind;
  at = input.at;
  estimated_cost = get_or input.estimated_cost 0;
  period_key = env.period_key input.at;
}

-- `reserve` past the checks of money and concurrency.
unfoldable pub reserve_rate : Env → Budget → ReserveInput → JsString → Outcome × Budget
reserve_rate env b input key =
    let pruned = record b {
      minute_requests = Dict.set input.provider_config_id (recent b input) b.minute_requests;
    } in
    if leb b.policy.requests_per_minute_by_provider (length (recent b input))
    then (blocked provider_rate, pruned)
    else if leb b.policy.requests_per_day_by_provider (requested b key)
    then (blocked provider_daily_quota, pruned)
    else (
      reserved (new_id env b),
      record pruned {
        sequence = b.sequence + 1;
        reservations = Dict.set (new_id env b) (new_reservation env b input) b.reservations;
      },
    )

unfoldable pub reserve : Env → Budget → ReserveInput → Outcome × Budget
unfolding cloud_check active_for reserve_rate
reserve env b input =
    let key = provider_period_key input.provider_config_id (env.period_key input.at) in
    elim (cloud_check b input key) [
      | some code ↦ (blocked code, b)
      | none ↦
          if leb b.policy.max_concurrent_global (length b.reservations)
          then (blocked global_concurrency, b)
          else if leb b.policy.max_concurrent_by_provider (active_for input.provider_config_id b)
          then (blocked provider_concurrency, b)
          else reserve_rate env b input key
    ]

-- The charge of a reservation that `commit` found.
unfoldable pub charge : Budget → JsString → Reservation → Budget
charge b id r =
    let key = provider_period_key r.provider_config_id r.period_key in
    record b {
      reservations = Dict.delete id b.reservations;
      minute_requests =
          Dict.set r.provider_config_id
            (get_or (Dict.get r.provider_config_id b.minute_requests) [] ++ r.at ∷ [])
            b.minute_requests;
      daily_requests = Dict.set key (requested b key + 1) b.daily_requests;
      daily_spend = Dict.set key (spent b key + r.estimated_cost) b.daily_spend;
    }

unfoldable pub commit : Budget → JsString → Bool × Budget
unfolding charge
commit b id = elim (Dict.get id b.reservations) [
  | none ↦ (false, b)
  | some r ↦ (true, charge b id r)
]

unfoldable pub release : Budget → JsString → Bool × Budget
release b id =
    (Dict.has id b.reservations, record b { reservations = Dict.delete id b.reservations })

pub data Call : Type 0 where
  reserves : ReserveInput → Call
  commits releases : JsString → Call

unfoldable pub step : Env → Budget → Call → Budget
step env b (reserves input) = (reserve env b input).1
step env b (commits id) = (commit b id).1
step env b (releases id) = (release b id).1

unfoldable pub run : Env → Budget → List Call → Budget
run env b [] = b
run env b (c ∷ cs) = run env (step env b c) cs
