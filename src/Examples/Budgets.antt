-- ===== src/Examples/Budgets.antt =====
-- src/ai/routing/budget.ts at concrete inputs.
use content_lens.Prelude.{
  ℕ, zero, suc, ◌+◌, ◌≤◌, ◌<◌, ◌≡◌, refl, true, some, [], ◌∷◌, JsString, js, same, arith,
}
use content_lens.Prelude.Dict
use content_lens.Budget.{
  Env, Policy, Budget, Reservation, ReserveInput, cloud, create, run, reserve, commit, reserved,
  reserves, commits, spent, recent, cloud_check, monetary_check, active_for, new_id,
  new_reservation, provider_period_key,
}
use content_lens.Budget.Concurrency.{IsWithin, create-run-IsWithin}
use content_lens.Budget.Charges.{HasRoom, reserve-commit-le-limit, reserved_twice_passes_limit}

-- One day for all times, and numbers as tally marks.
tally : ℕ → JsString
tally zero = []
tally (suc n) = b'|' ∷ tally n

abbrev env : Env
env = record { period_key = λ at. js "2026-01-01"; decimal = tally }

abbrev policy : Policy
policy = record {
  max_concurrent_global = 4;
  max_concurrent_by_provider = 2;
  requests_per_minute_by_provider = 10;
  requests_per_day_by_provider = 100;
  monetary_budget = record { enabled = true; limit = 10; price_max_age_hours = 24 };
}

abbrev input : ReserveInput
input = record {
  provider_config_id = js "p";
  execution_kind = cloud;
  at = 1000;
  estimated_cost = some 6;
  price_verified_at = some 900;
}

abbrev day : JsString
day = provider_period_key (js "p") (js "2026-01-01")

create-run-IsWithin_example :
    IsWithin
      (run env (create policy) (reserves input ∷ reserves input ∷ commits (js "budget:|") ∷ []))
create-run-IsWithin_example =
    create-run-IsWithin env policy (reserves input ∷ reserves input ∷ commits (js "budget:|") ∷ [])

abbrev reservation : JsString → Reservation
reservation id = record {
  reservation_id = id;
  provider_config_id = js "p";
  execution_kind = cloud;
  at = 1000;
  estimated_cost = 6;
  period_key = js "2026-01-01";
}

abbrev holding : Dict.Dict Reservation → ℕ → Budget
holding rs n = record {
  policy = policy;
  reservations = rs;
  minute_requests = (js "p", []) ∷ [];
  daily_requests = [];
  daily_spend = [];
  sequence = n;
}

abbrev one : Budget
one = holding ((js "budget:|", reservation (js "budget:|")) ∷ []) 1

first_reserved : reserve env (create policy) input ≡ (reserved (js "budget:|"), one)
unfolding reserve create Dict.get Dict.set same tally recent new_id new_reservation
first_reserved = refl

reserve_commit-le-limit_example :
    (spent (commit one (js "budget:|")).1 day ≡ spent (create policy) day + 6)
    × (spent (commit one (js "budget:|")).1 day ≤ 10)
unfolding create
reserve_commit-le-limit_example =
    reserve-commit-le-limit env (create policy) one input 6 (js "budget:|") day refl refl refl
      first_reserved

room : HasRoom one input day
unfolding Dict.get same recent active_for
room = record {
  global = omega arith;
  provider = omega arith;
  rate = omega arith;
  quota = omega arith;
}

reserved_twice_passes_limit_example :
    ((reserve env one input).0 ≡ reserved (new_id env one))
    × (10
        < spent
            (commit (commit (reserve env one input).1 (js "budget:|")).1 (new_id env one)).1
            day)
unfolding create same new_id tally cloud_check monetary_check Dict.get
reserved_twice_passes_limit_example =
    reserved_twice_passes_limit env (create policy) one input input (js "budget:|") day
      first_reserved refl room refl refl refl (omega arith)
