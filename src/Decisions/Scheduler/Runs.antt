-- ===== src/Decisions/Scheduler/Runs.antt =====
-- src/application/decision-pipeline/scheduler.ts: the bounds of the scheduler after any events.
use content_lens.Prelude.{
  ℕ, ◌-◌, ◌≡◌, refl, Bool, true, false, ◌&&◌, ◌||◌, Option, none, some, List, [], ◌∷◌, JsString,
  ltb, if◌then◌else◌, arith, if-both, if-some, subst,
}
use content_lens.Circuit.Capability.{Breaker, Options, create, success, failure}
use content_lens.Decisions.Scheduler.{
  Work, Stage, running, checking, leaving, left, committed, discarded, failed, Scheduler, finish,
  at_stage, leave, enter, create_scheduler, with_breaker,
}
use content_lens.Decisions.Scheduler.Calls.{
  Event, schedules, cancels, starts, returns, answers, throws, releases, returned, checked, thrown,
  released, awaited, awaited_found, step, run_all,
}
use content_lens.Decisions.Scheduler.Bounds.{
  IsBounded, same_counts, at_stage-IsBounded, ends-IsBounded, enter-IsBounded, pump-IsBounded,
}
use content_lens.Decisions.Scheduler.Admission.{schedule-IsBounded, cancel-IsBounded}

module _ {V : Type 0} (c d : ℕ) where
  checked-IsBounded :
      (s : Scheduler V) (n : ℕ) (w : Work V) (x : V) (b : Bool) (at : ℕ)
      → IsBounded c d s
      → IsBounded c d (checked s n w x b at)
  unfolding checked
  checked-IsBounded s n w x false at v = ends-IsBounded c d s n (discarded w.attempts) at v
  checked-IsBounded s n w x true at v =
      let s' = record s {
        breaker = if w.input.optional then success s.breaker w.input.capability at else s.breaker;
      } in
      ends-IsBounded c d s' n (committed x w.attempts) at
        (same_counts c d s s' v refl refl refl refl (omega arith))

  thrown-IsBounded :
      (s : Scheduler V) (n : ℕ) (w : Work V) (transient : Bool) (code : JsString) (at : ℕ)
      → IsBounded c d s
      → IsBounded c d (thrown s n w transient code at)
  unfolding thrown
  thrown-IsBounded s n w transient code at v =
      let s' = record s {
        breaker =
            if w.input.optional && transient
            then failure s.breaker w.input.capability code at
            else s.breaker;
      } in
      let v' = same_counts c d s s' v refl refl refl refl (omega arith) in
      if-both (IsBounded c d) w.settled (at_stage s n w leaving)
        (if transient && ltb w.attempts s.maximum_attempts
          then enter s' n w at
          else leave (finish s' n (failed code transient w.attempts) at) n)
        (at_stage-IsBounded c d s n w leaving v)
        (if-both (IsBounded c d) (transient && ltb w.attempts s.maximum_attempts) (enter s' n w at)
          (leave (finish s' n (failed code transient w.attempts) at) n)
          (enter-IsBounded c d s' n w at v')
          (ends-IsBounded c d s' n (failed code transient w.attempts) at v'))

  returned-IsBounded :
      (s : Scheduler V) (n : ℕ) (w : Work V) (x : V)
      → IsBounded c d s
      → IsBounded c d (returned s n w x)
  unfolding returned
  returned-IsBounded s n w x v =
      if-both (IsBounded c d) w.settled (at_stage s n w leaving) (at_stage s n w (checking x))
        (at_stage-IsBounded c d s n w leaving v) (at_stage-IsBounded c d s n w (checking x) v)

  released-IsBounded :
      (s : Scheduler V) (n : ℕ) (w : Work V) (at : ℕ)
      → IsBounded c d s
      → IsBounded c d (released s n w at)
  unfolding released
  released-IsBounded s n w at v =
      let w' = at_stage-IsBounded c d s n w left v in
      pump-IsBounded c d (record (at_stage s n w left) { active = s.active - 1 }) at
        (record {
          of_capacity = w'.of_capacity;
          of_concurrency = w'.of_concurrency;
          of_waiting = w'.of_waiting;
          of_active = omega (arith, v.of_active);
          of_terminal = w'.of_terminal;
        })

  awaited-IsBounded :
      (s : Scheduler V) (e : Event V) (at n : ℕ) (w : Work V) (stage : Stage V)
      → IsBounded c d s
      → IsBounded c d (awaited s e at n w stage)
  unfolding awaited
  awaited-IsBounded s (returns m x) at n w running v = returned-IsBounded s n w x v
  awaited-IsBounded s (answers m b) at n w (checking x) v = checked-IsBounded s n w x b at v
  awaited-IsBounded s (throws m transient code) at n w running v =
      thrown-IsBounded s n w transient code at v
  awaited-IsBounded s (throws m transient code) at n w (checking x) v =
      thrown-IsBounded s n w transient code at v
  awaited-IsBounded s (releases m) at n w leaving v = released-IsBounded s n w at v
  awaited-IsBounded s _ at n w _ v = v

  awaited_found-IsBounded :
      (s : Scheduler V) (e : Event V) (at n : ℕ) (o : Option (Work V))
      → IsBounded c d s
      → IsBounded c d (awaited_found s e at n o)
  awaited_found-IsBounded s e at n none v = v
  awaited_found-IsBounded s e at n (some w) v = awaited-IsBounded s e at n w w.stage v

  step-IsBounded :
      (s : Scheduler V) (e : Event V) (at : ℕ) → IsBounded c d s → IsBounded c d (step s e at)
  unfolding step
  step-IsBounded s (schedules input) at v = schedule-IsBounded c d s input at v
  step-IsBounded s (cancels work_id effects) at v = cancel-IsBounded c d s work_id effects at v
  step-IsBounded s starts at v = pump-IsBounded c d s at v
  step-IsBounded s (returns n x) at v = awaited_found-IsBounded s (returns n x) at n (s.works n) v
  step-IsBounded s (answers n b) at v = awaited_found-IsBounded s (answers n b) at n (s.works n) v
  step-IsBounded s (throws n t code) at v =
      awaited_found-IsBounded s (throws n t code) at n (s.works n) v
  step-IsBounded s (releases n) at v = awaited_found-IsBounded s (releases n) at n (s.works n) v

  run_all-IsBounded :
      (s : Scheduler V) (es : List (Event V × ℕ)) → IsBounded c d s → IsBounded c d (run_all s es)
  unfolding run_all
  run_all-IsBounded s [] v = v
  run_all-IsBounded s ((e, at) ∷ es) v =
      run_all-IsBounded (step s e at) es (step-IsBounded s e at v)

create_scheduler-IsBounded :
    {V : Type 0} (c d m : ℕ) (auto : Bool) (options : Options) (s : Scheduler V)
    → create_scheduler c d m auto options ≡ some s
    → IsBounded c d s
unfolding create_scheduler with_breaker
create_scheduler-IsBounded {V} c d m auto options s e =
    guarded (ltb c 1 || ltb d 1 || ltb m 1) (create options) e
  where
    guarded :
        (g : Bool) (o : Option Breaker)
        → (if g then none else with_breaker {V = V} c d m auto o) ≡ some s
        → IsBounded c d s
    guarded true o q = absurd (ground (arith, q))
    guarded false none q = absurd (ground (arith, q))
    guarded false (some b) q = subst (IsBounded c d) (if-some false _ s q) (record {
      of_capacity = refl;
      of_concurrency = refl;
      of_waiting = omega arith;
      of_active = omega arith;
      of_terminal = omega arith;
    })

-- Whatever is scheduled and cancelled, and however and in whatever order the work ends, a scheduler that its
-- constructor accepted never has more work waiting than its capacity, more on than its concurrency, or
-- more outcomes remembered than both together.
pub run_all-create_scheduler-IsBounded :
    {V : Type 0} (c d m : ℕ) (auto : Bool) (options : Options) (s : Scheduler V)
    (es : List (Event V × ℕ))
    → create_scheduler c d m auto options ≡ some s
    → IsBounded c d (run_all s es)
run_all-create_scheduler-IsBounded c d m auto options s es e =
    run_all-IsBounded c d s es (create_scheduler-IsBounded c d m auto options s e)
