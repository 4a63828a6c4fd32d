-- ===== src/Examples/Schedulers.antt =====
-- src/application/decision-pipeline/scheduler.ts at concrete inputs.
use content_lens.Prelude.{
  ℕ, ◌≡◌, refl, Bool, true, false, none, some, List, [], ◌∷◌, JsString, js, sort, insert, same,
  length,
}
use content_lens.Prelude.Dict
use content_lens.Circuit.Capability.{
  Options, open_state, closed, create, allow, allow_circuit, write, success, success_circuit,
  incomplete_probe, incomplete_circuit,
}
use content_lens.Decisions.Scheduler.{
  Priority, cancelled, committed_intent, deterministic_visible, optional_visible, priority_rank,
  Input, Scheduler, scheduled, create_scheduler, with_breaker, finish, finish_found, finish_work,
  evict, tell_incomplete, incomplete_reason, leave, leave_found, enter, begin_found, pump,
  pump_list,
}
use content_lens.Decisions.Scheduler.Calls.{
  replay, checkpoints, Event, schedules, cancels, cancel, cancel_found, cancel_work, returns,
  answers, releases, create_record, allocate, least, without, enqueue, overload, replace, admit,
  schedule_new, schedule_ended, schedule_known, schedule_found, schedule, returned, checked,
  released, awaited, step, run_all,
}
use content_lens.Decisions.Scheduler.Bounds.{IsBounded}
use content_lens.Decisions.Scheduler.Runs.{run_all-create_scheduler-IsBounded}
use content_lens.Decisions.Scheduler.Shedding.{IsFair, schedule-IsFair}

abbrev limits : Options
limits = record { failure_threshold = 3; cooldown_ms = 30000 }

abbrev idle : Scheduler ℕ
idle = record {
  capacity = 1;
  concurrency = 1;
  maximum_attempts = 2;
  auto_start = true;
  breaker = record { options = limits; circuits = [] };
  works = λ n. none;
  records = [];
  waiting = [];
  terminal = [];
  active = 0;
  next = 0;
  resolved = [];
}

abbrev work : JsString → Bool → Priority → Input
work id optional priority = record {
  work_id = id;
  operation_id = none;
  capability = js "c";
  optional = optional;
  priority = priority;
  binding = record {
    content_id = js "i";
    page_instance_id = js "p";
    profile_revision = 1;
    capability_version = js "1";
    adapter_version = js "1";
    policy_version = js "1";
  };
  attempt = none;
}

-- One work is on, one waits and gives way to the third, which begins when the first is done.
abbrev events : List (Event ℕ × ℕ)
events =
    (schedules (work (js "a") false deterministic_visible), 5)
    ∷ (schedules (work (js "b") true optional_visible), 6)
    ∷ (schedules (work (js "d") false committed_intent), 7)
    ∷ (returns 0 42, 8)
    ∷ (answers 0 true, 9)
    ∷ (releases 0, 10)
    ∷ []

created : create_scheduler 1 1 2 true limits ≡ some idle
unfolding create_scheduler with_breaker create
created = refl

run_all-create_scheduler-IsBounded_example : IsBounded 1 1 (run_all idle events)
run_all-create_scheduler-IsBounded_example =
    run_all-create_scheduler-IsBounded 1 1 2 true limits idle events created

abbrev busy : Scheduler ℕ
busy = run_all idle (
    (schedules (work (js "a") false deterministic_visible), 5)
    ∷ (schedules (work (js "b") true optional_visible), 6)
    ∷ [])

sheds_the_optional :
    (schedule busy (work (js "d") false committed_intent) 7).0 ≡ scheduled 2 (some (js "b"))
unfolding schedule schedule_found schedule_known schedule_ended schedule_new admit replace overload
    enqueue without least allocate create_record run_all step pump pump_list begin_found enter leave
    leave_found finish finish_found finish_work evict tell_incomplete incomplete_reason
    priority_rank allow allow_circuit write sort insert same Dict.get Dict.set Dict.delete
sheds_the_optional = refl

schedule-IsFair_example :
    IsFair busy
      (work (js "d") false committed_intent)
      (schedule busy (work (js "d") false committed_intent) 7)
schedule-IsFair_example = schedule-IsFair busy (work (js "d") false committed_intent) 7

third_is_on :
    ((run_all idle events).active ≡ 1)
    × ((run_all idle events).waiting ≡ [])
    × (length (run_all idle events).resolved ≡ 2)
unfolding schedule schedule_found schedule_known schedule_ended schedule_new admit replace overload
    enqueue without least allocate create_record run_all step awaited returned checked released pump
    pump_list begin_found enter leave leave_found finish finish_found finish_work evict
    tell_incomplete incomplete_reason priority_rank allow allow_circuit write success
    success_circuit sort insert same Dict.get Dict.set Dict.delete
third_is_on = (refl, refl, refl)

-- A circuit that lets its probe through at 4.
abbrev probing : Scheduler ℕ
probing = record idle {
  breaker = record {
    options = limits;
    circuits =
        (
          js "c",
          record {
            state = open_state;
            failures = 3;
            reason = some (js "x");
            retry_at = some 4;
            last_transition_at = some 1;
          },
        )
        ∷ [];
  };
}

abbrev cancelled_probe : Scheduler ℕ
cancelled_probe = run_all probing (
    (schedules (work (js "a") true optional_visible), 5)
    ∷ (returns 0 42, 6)
    ∷ (cancels (js "a") [], 7)
    ∷ [])

cancelled_probe_is_open :
    (Dict.get (js "c") cancelled_probe.breaker.circuits
      ≡ some (record {
        state = open_state;
        failures = 3;
        reason = some (js "cancelled");
        retry_at = some 30007;
        last_transition_at = some 7;
      }))
    × (Dict.get (js "c") (step cancelled_probe (answers 0 true) 8).breaker.circuits
        ≡ some (record {
          state = closed;
          failures = 0;
          reason = none;
          retry_at = none;
          last_transition_at = some 8;
        }))
    × ((step cancelled_probe (answers 0 true) 8).terminal ≡ (js "a", cancelled []) ∷ [])
unfolding schedule schedule_found schedule_known schedule_ended schedule_new admit replace overload
    enqueue without least allocate create_record run_all step awaited returned checked released
    cancel cancel_found cancel_work pump pump_list begin_found enter leave leave_found finish
    finish_found finish_work evict tell_incomplete incomplete_reason priority_rank allow
    allow_circuit write success success_circuit incomplete_probe incomplete_circuit sort insert same
    Dict.get Dict.set Dict.delete
cancelled_probe_is_open = (refl, refl, refl)

-- A work that waits goes on from its checkpoint.
checkpoint_waits :
    (length (checkpoints busy) ≡ 2)
    × ((replay idle (λ i. i) (checkpoints busy) 9).0 ≡ scheduled 0 none ∷ scheduled 1 none ∷ [])
unfolding replay schedule schedule_found schedule_known schedule_ended schedule_new admit replace
    overload enqueue without least allocate create_record run_all step pump pump_list begin_found
    enter leave leave_found finish finish_found finish_work evict tell_incomplete incomplete_reason
    priority_rank allow allow_circuit write sort insert same Dict.get Dict.set Dict.delete
checkpoint_waits = (refl, refl)
