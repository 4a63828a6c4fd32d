-- ===== src/Decisions/Scheduler.antt =====
-- src/application/decision-pipeline/scheduler.ts with the types of contracts.ts beside it: `DecisionScheduler`.
-- A record of work is known by a number, under which the heap of works has it; `V` are the values that
-- work gives. `run` and `isCurrent` are awaited: their ends are events, and so is the `finally` after them.
pub mod Calls
pub mod Bounds
pub mod Admission
pub mod Runs
pub mod Shedding
use content_lens.Prelude.{
  ℕ, ◌+◌, ◌-◌, Bool, true, false, not, ◌&&◌, ◌||◌, Option, none, some, get_or, List, [], ◌∷◌, ◌++◌,
  JsString, js, ltb, leb, ◌==◌, same, keep, length, sort, if◌then◌else◌,
}
use content_lens.Prelude.Dict.{Dict}
use content_lens.Prelude.Dict
use content_lens.Circuit.Capability.{
  Breaker, Options, create, allow, success, failure, incomplete_probe,
}

-- `DecisionWorkPriority`, and `priorityRank`
pub data Priority : Type 0 where
  committed_intent deterministic_visible optional_visible optional_offscreen : Priority

unfoldable pub priority_rank : Priority → ℕ
priority_rank committed_intent = 4
priority_rank deterministic_visible = 3
priority_rank optional_visible = 2
priority_rank optional_offscreen = 1

-- `DecisionWorkBinding`
pub record Binding : Type 0 where
  pub content_id : JsString
  pub page_instance_id : JsString
  pub profile_revision : ℕ
  pub capability_version : JsString
  pub adapter_version : JsString
  pub policy_version : JsString

-- `DecisionWorkInput` without its function
pub record Input : Type 0 where
  pub work_id : JsString
  pub operation_id : Option JsString
  pub capability : JsString
  pub optional : Bool
  pub priority : Priority
  pub binding : Binding
  pub attempt : Option ℕ

-- `DecisionWorkOutcome`
pub data Outcome (V : Type 0) : Type 0 where
  committed : V → ℕ → Outcome V
  cancelled : List JsString → Outcome V
  shed : ℕ → Outcome V
  discarded : ℕ → Outcome V
  failed : JsString → Bool → ℕ → Outcome V

-- Where the execution of a record stands: pending, in `run`, in `isCurrent` with the value, before `finally`, after it.
pub data Stage (V : Type 0) : Type 0 where
  pending running leaving left : Stage V
  checking : V → Stage V

-- `WorkRecord`
pub record Work (V : Type 0) : Type 0 where
  pub input : Input
  pub attempts : ℕ
  pub aborted : Bool
  pub settled : Bool
  pub stage : Stage V

-- `resolved` are the calls of `resolve`, the last first.
pub record Scheduler (V : Type 0) : Type 0 where
  pub capacity : ℕ
  pub concurrency : ℕ
  pub maximum_attempts : ℕ
  pub auto_start : Bool
  pub breaker : Breaker
  pub works : ℕ → Option (Work V)
  pub records : Dict ℕ
  pub waiting : List (ℕ × Input)
  pub terminal : Dict (Outcome V)
  pub active : ℕ
  pub next : ℕ
  pub resolved : List (ℕ × Outcome V)

-- `ScheduleResult`; a completion is the number of its record, or an outcome that is there.
pub data Scheduled (V : Type 0) : Type 0 where
  scheduled : ℕ → Option JsString → Scheduled V
  coalesced : ℕ → Scheduled V
  coalesced_with : Outcome V → Scheduled V
  backpressure : Scheduled V
  skipped : Scheduled V
  rejected : Scheduled V

-- `sameBinding`
unfoldable pub same_binding : Binding → Binding → Bool
same_binding a b =
    same a.content_id b.content_id
    && same a.page_instance_id b.page_instance_id
    && a.profile_revision == b.profile_revision
    && same a.capability_version b.capability_version
    && same a.adapter_version b.adapter_version
    && same a.policy_version b.policy_version

unfoldable pub tell_incomplete : Breaker → Input → Option JsString → ℕ → Breaker
tell_incomplete b input none at = b
tell_incomplete b input (some reason) at =
    if input.optional then incomplete_probe b input.capability reason at else b

abbrev pub goes_first : ℕ × Input → ℕ × Input → Bool
goes_first a b = ltb (priority_rank b.1.priority) (priority_rank a.1.priority)

module _ {V : Type 0} where
  abbrev pub put : ℕ → Work V → (ℕ → Option (Work V)) → ℕ → Option (Work V)
  put n w f m = if m == n then some w else f m

  unfoldable pub with_breaker : ℕ → ℕ → ℕ → Bool → Option Breaker → Option (Scheduler V)
  with_breaker capacity concurrency maximum_attempts auto_start none = none
  with_breaker capacity concurrency maximum_attempts auto_start (some breaker) = some (record {
    capacity = capacity;
    concurrency = concurrency;
    maximum_attempts = maximum_attempts;
    auto_start = auto_start;
    breaker = breaker;
    works = λ n. none;
    records = [];
    waiting = [];
    terminal = [];
    active = 0;
    next = 0;
    resolved = [];
  })

  -- The constructor, with what it throws as nothing
  unfoldable pub create_scheduler : ℕ → ℕ → ℕ → Bool → Options → Option (Scheduler V)
  unfolding with_breaker
  create_scheduler capacity concurrency maximum_attempts auto_start options =
      if ltb capacity 1 || ltb concurrency 1 || ltb maximum_attempts 1
      then none
      else with_breaker capacity concurrency maximum_attempts auto_start (create options)

  -- Why a circuit hears of an outcome that leaves its probe incomplete.
  unfoldable pub incomplete_reason : Outcome V → Option JsString
  incomplete_reason (committed v n) = none
  incomplete_reason (cancelled effects) = some (js "cancelled")
  incomplete_reason (shed n) = some (js "shed")
  incomplete_reason (discarded n) = some (js "discarded")
  incomplete_reason (failed code retryable n) = if retryable then none else some code

  -- The loop that drops the oldest outcomes beyond the limit.
  unfoldable pub evict : ℕ → Dict (Outcome V) → Dict (Outcome V)
  evict limit [] = []
  evict limit (x ∷ m) =
      let rest = evict limit m in if leb (length (x ∷ m)) limit then x ∷ m else rest

  unfoldable pub finish_work : Scheduler V → ℕ → Work V → Outcome V → ℕ → Scheduler V
  unfolding evict tell_incomplete incomplete_reason
  finish_work s n w outcome at = if w.settled then s else record s {
    breaker = tell_incomplete s.breaker w.input (incomplete_reason outcome) at;
    works = put n (record w { settled = true }) s.works;
    records = Dict.delete w.input.work_id s.records;
    terminal =
        evict (s.capacity + s.concurrency)
          (Dict.delete w.input.work_id s.terminal ++ ((w.input.work_id, outcome) ∷ []));
    resolved = (n, outcome) ∷ s.resolved;
  }

  unfoldable pub finish_found : Scheduler V → ℕ → Option (Work V) → Outcome V → ℕ → Scheduler V
  unfolding finish_work
  finish_found s n none outcome at = s
  finish_found s n (some w) outcome at = finish_work s n w outcome at

  -- `#finish`
  unfoldable pub finish : Scheduler V → ℕ → Outcome V → ℕ → Scheduler V
  unfolding finish_found
  finish s n outcome at = finish_found s n (s.works n) outcome at

  abbrev pub at_stage : Scheduler V → ℕ → Work V → Stage V → Scheduler V
  at_stage s n w stage = record s { works = put n (record w { stage = stage }) s.works }

  unfoldable pub leave_found : Scheduler V → ℕ → Option (Work V) → Scheduler V
  leave_found s n none = s
  leave_found s n (some w) = at_stage s n w leaving

  -- `#execute` returns.
  unfoldable pub leave : Scheduler V → ℕ → Scheduler V
  unfolding leave_found
  leave s n = leave_found s n (s.works n)

  -- The head of the loop of `#execute`, and what follows the loop.
  unfoldable pub enter : Scheduler V → ℕ → Work V → ℕ → Scheduler V
  unfolding finish leave
  enter s n w at =
      if not w.settled && ltb w.attempts s.maximum_attempts
      then record s {
        works = put n (record w { attempts = w.attempts + 1; stage = running }) s.works;
      }
      else leave (finish s n (failed (js "retry-budget-exhausted") false w.attempts) at) n

  unfoldable pub begin_found : Scheduler V → ℕ → Option (Work V) → ℕ → Scheduler V
  unfolding enter
  begin_found s n none at = s
  begin_found s n (some w) at =
      if w.settled then s else enter (record s { active = s.active + 1 }) n w at

  -- The loop of `#pump` over what waits, in order. Sorting it again in each pass changes nothing.
  unfoldable pub pump_list : Scheduler V → List (ℕ × Input) → ℕ → Scheduler V
  unfolding begin_found
  pump_list s [] at = record s { waiting = [] }
  pump_list s (x ∷ xs) at =
      let rest = pump_list (begin_found s x.0 (s.works x.0) at) xs at in
      if ltb s.active s.concurrency then rest else record s { waiting = x ∷ xs }

  -- `#pump`, and `start`
  unfoldable pub pump : Scheduler V → ℕ → Scheduler V
  unfolding pump_list priority_rank
  pump s at = if ltb s.active s.concurrency then pump_list s (sort goes_first s.waiting) at else s
