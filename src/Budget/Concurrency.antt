-- ===== src/Budget/Concurrency.antt =====
-- The limits on concurrency of `RoutingBudget` (src/ai/routing/budget.ts).
use content_lens.Prelude.{
  ◌+◌, ◌≤◌, ◌<◌, ◌≡◌, refl, subst, sym, Bool, List, [], ◌∷◌, JsString, arith, same, same_iff, inl,
  inr, if◌then◌else◌, keep, length, ◌⊎◌,
}
use content_lens.Prelude.Dict.{Dict, values, set, delete, length-set-le, length-delete-le}
use content_lens.Budget.{
  Env, Budget, Policy, Reservation, ReserveInput, reserve, commit, release, of_provider, active_for,
  create, Call, reserves, commits, releases, step, run, new_id, new_reservation,
}

-- Neither in all nor for one provider are more reservations active than the policy allows.
pub record IsWithin (b : Budget) : Type 0 where
  pub globally : length b.reservations ≤ b.policy.max_concurrent_global
  pub by_provider : (p : JsString) → active_for p b ≤ b.policy.max_concurrent_by_provider

module _ {V : Type 0} (q : V → Bool) where
  length-keep-set :
      (k : JsString) (v : V) (m : Dict V)
      → length (keep q (values (set k v m))) ≤ length (keep q (values m)) + (if q v then 1 else 0)
  unfolding set
  length-keep-set k v [] = ground arith
  length-keep-set k v ((j, w) ∷ m) = ground (arith, length-keep-set k v m)

  length-keep-delete :
      (k : JsString) (m : Dict V)
      → length (keep q (values (delete k m))) ≤ length (keep q (values m))
  unfolding delete
  length-keep-delete k [] = omega arith
  length-keep-delete k ((j, w) ∷ m) = ground (arith, length-keep-delete k m)

delete-IsWithin :
    (b b' : Budget) (id : JsString)
    → b'.policy ≡ b.policy
    → b'.reservations ≡ delete id b.reservations
    → IsWithin b
    → IsWithin b'
unfolding active_for
delete-IsWithin b b' id ep er w = record {
  globally = rw (ep, er) (omega (arith, length-delete-le id b.reservations, w.globally));
  by_provider = λ p.
      rw (ep, er)
        (omega (arith, length-keep-delete (of_provider p) id b.reservations, w.by_provider p));
}

set-IsWithin :
    (b b' : Budget) (id : JsString) (r : Reservation)
    → b'.policy ≡ b.policy
    → b'.reservations ≡ set id r b.reservations
    → IsWithin b
    → length b.reservations < b.policy.max_concurrent_global
    → active_for r.provider_config_id b < b.policy.max_concurrent_by_provider
    → IsWithin b'
unfolding active_for
set-IsWithin b b' id r ep er w g a = record {
  globally = rw (ep, er) (omega (arith, length-set-le id r b.reservations));
  by_provider = λ p.
      rw (ep, er)
        (ground (
          arith,
          length-keep-set (of_provider p) id r b.reservations,
          w.by_provider p,
          same_iff r.provider_config_id p,
        ));
}

keep-IsWithin :
    (b b' : Budget)
    → b'.policy ≡ b.policy
    → b'.reservations ≡ b.reservations
    → IsWithin b
    → IsWithin b'
unfolding active_for
keep-IsWithin b b' ep er w = record {
  globally = rw (ep, er) w.globally;
  by_provider = λ p. rw (ep, er) (w.by_provider p);
}

policy-reserve :
    (env : Env) (b : Budget) (input : ReserveInput) → (reserve env b input).1.policy ≡ b.policy
unfolding reserve
policy-reserve env b input = ground arith

-- A request leaves the reservations alone, or it found a place in all and one of its provider, and
-- takes it.
reserve_cases :
    (env : Env) (b : Budget) (input : ReserveInput)
    → ((reserve env b input).1.reservations ≡ b.reservations)
      ⊎ (((reserve env b input).1.reservations
            ≡ set (new_id env b) (new_reservation env b input) b.reservations)
          × (length b.reservations < b.policy.max_concurrent_global)
          × (active_for input.provider_config_id b < b.policy.max_concurrent_by_provider))
unfolding reserve
reserve_cases env b input = ground arith

reserve-IsWithin :
    (env : Env) (b : Budget) (input : ReserveInput) → IsWithin b → IsWithin (reserve env b input).1
reserve-IsWithin env b input w =
    let b' = (reserve env b input).1 in
    let e = policy-reserve env b input in
    elim (reserve_cases env b input) [
      | inl same ↦ keep-IsWithin b b' e same w
      | inr (taken, all_room, room) ↦
          set-IsWithin b b' (new_id env b) (new_reservation env b input) e taken w all_room
            (unfold new_reservation in room)
    ]

commit_cases :
    (b : Budget) (id : JsString)
    → ((commit b id).1 ≡ b)
      ⊎ (((commit b id).1.policy ≡ b.policy)
          × ((commit b id).1.reservations ≡ delete id b.reservations))
unfolding commit
commit_cases b id = ground arith

step-IsWithin : (env : Env) (b : Budget) (c : Call) → IsWithin b → IsWithin (step env b c)
unfolding step
step-IsWithin env b (reserves input) w = reserve-IsWithin env b input w
step-IsWithin env b (commits id) w = elim (commit_cases b id) [
  | inl e ↦ subst IsWithin (sym e) w
  | inr (ep, er) ↦ delete-IsWithin b (commit b id).1 id ep er w
]
step-IsWithin env b (releases id) w =
    delete-IsWithin b _ id (unfold release in refl) (unfold release in refl) w

run-IsWithin :
    (env : Env) (b : Budget) (calls : List Call) → IsWithin b → IsWithin (run env b calls)
unfolding run
run-IsWithin env b [] w = w
run-IsWithin env b (c ∷ cs) w = run-IsWithin env (step env b c) cs (step-IsWithin env b c w)

-- Whatever requests, commits and releases come in whatever order, a new budget never has more
-- reservations active than its policy allows, in all and for each provider.
pub create-run-IsWithin :
    (env : Env) (p : Policy) (calls : List Call) → IsWithin (run env (create p) calls)
create-run-IsWithin env p calls =
    run-IsWithin env (create p) calls (
      unfold create active_for in record { globally = omega arith; by_provider = λ _. omega arith })
