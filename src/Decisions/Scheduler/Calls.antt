-- ===== src/Decisions/Scheduler/Calls.antt =====
-- src/application/decision-pipeline/scheduler.ts: the calls of the scheduler and the ends of what it awaits. All that
-- one of them does reads the clock as `at`.
use content_lens.Prelude.{
  ℕ, ◌+◌, ◌-◌, Bool, true, false, ◌&&◌, Option, none, some, get_or, List, [], ◌∷◌, ◌++◌, JsString,
  ltb, leb, ◌==◌, keep, prepend, length, sort, if◌then◌else◌,
}
use content_lens.Prelude.Dict
use content_lens.Circuit.Capability.{allow, success, failure}
use content_lens.Decisions.Scheduler.{
  Input, Work, Stage, pending, running, checking, leaving, left, Outcome, committed, cancelled,
  shed, discarded, failed, Scheduler, Scheduled, scheduled, coalesced, coalesced_with, backpressure,
  skipped, rejected, priority_rank, same_binding, put, finish, at_stage, leave, enter, pump,
}

abbrev pub goes_last : ℕ × Input → ℕ × Input → Bool
goes_last a b = ltb (priority_rank a.1.priority) (priority_rank b.1.priority)

abbrev pub first_of : List (ℕ × Input) → Option (ℕ × Input)
first_of [] = none
first_of (x ∷ xs) = some x

-- `shedId` is left out where it is empty.
abbrev pub shed_id : JsString → Option JsString
shed_id [] = none
shed_id (c ∷ id) = some (c ∷ id)

-- The optional work of the lowest priority that waits.
unfoldable pub least : List (ℕ × Input) → Option (ℕ × Input)
unfolding priority_rank
least waiting = first_of (sort goes_last (keep (λ x. x.1.optional) waiting))

-- `splice` of the one at `indexOf`
unfoldable pub without : ℕ → List (ℕ × Input) → List (ℕ × Input)
without n [] = []
without n (x ∷ xs) = let rest = without n xs in if x.0 == n then xs else x ∷ rest

module _ {V : Type 0} where
  -- `#createRecord`
  unfoldable pub create_record : Input → Work V
  create_record input = record {
    input = input;
    attempts = get_or input.attempt 0;
    aborted = false;
    settled = false;
    stage = pending;
  }

  unfoldable pub allocate : Scheduler V → Input → Scheduler V
  unfolding create_record
  allocate s input = record s {
    works = put s.next (create_record input) s.works;
    next = s.next + 1;
  }

  -- The end of `schedule`, for a record under the next number.
  unfoldable pub enqueue : Scheduler V → Input → Option JsString → ℕ → Scheduled V × Scheduler V
  unfolding allocate pump
  enqueue s input shed_work at =
      let s' = record (allocate s input) {
        records = Dict.set input.work_id s.next s.records;
        waiting = s.waiting ++ ((s.next, input) ∷ []);
      } in
      (scheduled s.next shed_work, if s.auto_start then pump s' at else s')

  -- The new work has no place.
  unfoldable pub overload : Scheduler V → Input → ℕ → Scheduled V × Scheduler V
  unfolding allocate finish
  overload s input at =
      if input.optional
      then (scheduled s.next (some input.work_id), finish (allocate s input) s.next (shed 0) at)
      else (backpressure, s)

  unfoldable pub replace : Scheduler V → Input → ℕ → Option (ℕ × Input) → Scheduled V × Scheduler V
  unfolding overload enqueue without priority_rank
  replace s input at none = overload s input at
  replace s input at (some (n, other)) =
      if leb (priority_rank input.priority) (priority_rank other.priority)
      then overload s input at
      else (let s' = record s { waiting = without n s.waiting } in
          enqueue (finish s' n (shed (get_or other.attempt 0)) at) input (shed_id other.work_id) at)

  unfoldable pub admit : Scheduler V → Input → ℕ → Scheduled V × Scheduler V
  unfolding replace least
  admit s input at =
      if leb s.capacity (length s.waiting)
      then replace s input at (least s.waiting)
      else enqueue s input none at

  -- `schedule` where nothing is known of the work.
  unfoldable pub schedule_new : Scheduler V → Input → ℕ → Scheduled V × Scheduler V
  unfolding admit
  schedule_new s input at =
      let (allowed, breaker) = allow s.breaker input.capability at in
      if input.optional
      then (if allowed
          then admit (record s { breaker = breaker }) input at
          else (skipped, record s { breaker = breaker }))
      else admit s input at

  unfoldable pub schedule_ended :
      Scheduler V → Input → ℕ → Option (Outcome V) → Scheduled V × Scheduler V
  unfolding schedule_new
  schedule_ended s input at (some (committed v n)) = (coalesced_with (committed v n), s)
  schedule_ended s input at (some (cancelled effects)) = (coalesced_with (cancelled effects), s)
  schedule_ended s input at _ =
      schedule_new (record s { terminal = Dict.delete input.work_id s.terminal }) input at

  unfoldable pub schedule_known :
      Scheduler V → Input → ℕ → Option (Work V) → Scheduled V × Scheduler V
  unfolding same_binding
  schedule_known s input n none = (rejected, s)
  schedule_known s input n (some w) =
      (if same_binding w.input.binding input.binding then coalesced n else rejected, s)

  unfoldable pub schedule_found : Scheduler V → Input → ℕ → Option ℕ → Scheduled V × Scheduler V
  unfolding schedule_known schedule_ended
  schedule_found s input at (some n) = schedule_known s input n (s.works n)
  schedule_found s input at none = schedule_ended s input at (Dict.get input.work_id s.terminal)

  -- `schedule`
  unfoldable pub schedule : Scheduler V → Input → ℕ → Scheduled V × Scheduler V
  unfolding schedule_found
  schedule s input at = schedule_found s input at (Dict.get input.work_id s.records)

  -- `replay`; a checkpoint is an input that has its attempt.
  unfoldable pub replay :
      Scheduler V → (Input → Input) → List Input → ℕ → List (Scheduled V) × Scheduler V
  unfolding schedule
  replay s create_work [] at = ([], s)
  replay s create_work (checkpoint ∷ checkpoints) at =
      let (answer, s') = schedule s (create_work checkpoint) at in
      let (answers, s'') = replay s' create_work checkpoints at in (answer ∷ answers, s'')

  abbrev pub checkpoint_of : Option (Work V) → Option Input
  checkpoint_of none = none
  checkpoint_of (some w) = some (record w.input { attempt = some w.attempts })

  abbrev pub checkpoints_of : Scheduler V → List ℕ → List Input
  checkpoints_of s [] = []
  checkpoints_of s (n ∷ ns) = prepend (checkpoint_of (s.works n)) (checkpoints_of s ns)

  -- `checkpoints`
  abbrev pub checkpoints : Scheduler V → List Input
  checkpoints s = checkpoints_of s (Dict.values s.records)

  abbrev pub is_pending : Stage V → Bool
  is_pending pending = true
  is_pending _ = false

  unfoldable pub cancel_work : Scheduler V → ℕ → Option (Work V) → List JsString → ℕ → Scheduler V
  unfolding without finish
  cancel_work s n none effects at = s
  cancel_work s n (some w) effects at =
      let waiting = if is_pending w.stage then without n s.waiting else s.waiting in
      finish (record s { waiting = waiting; works = put n (record w { aborted = true }) s.works }) n
        (cancelled effects) at

  unfoldable pub cancel_found :
      Scheduler V → JsString → Option ℕ → List JsString → ℕ → Option (Outcome V) × Scheduler V
  unfolding cancel_work
  cancel_found s work_id none effects at = (Dict.get work_id s.terminal, s)
  cancel_found s work_id (some n) effects at =
      (some (cancelled effects), cancel_work s n (s.works n) effects at)

  -- `cancel`
  unfoldable pub cancel :
      Scheduler V → JsString → List JsString → ℕ → Option (Outcome V) × Scheduler V
  unfolding cancel_found
  cancel s work_id effects at = cancel_found s work_id (Dict.get work_id s.records) effects at

  -- `run` gives a value.
  unfoldable pub returned : Scheduler V → ℕ → Work V → V → Scheduler V
  returned s n w v = if w.settled then at_stage s n w leaving else at_stage s n w (checking v)

  -- `isCurrent` answers.
  unfoldable pub checked : Scheduler V → ℕ → Work V → V → Bool → ℕ → Scheduler V
  unfolding finish leave
  checked s n w v false at = leave (finish s n (discarded w.attempts) at) n
  checked s n w v true at =
      let breaker =
        if w.input.optional then success s.breaker w.input.capability at else s.breaker in
      leave (finish (record s { breaker = breaker }) n (committed v w.attempts) at) n

  -- `run` or `isCurrent` throws, which is transient or not: the `catch` block.
  unfoldable pub thrown : Scheduler V → ℕ → Work V → Bool → JsString → ℕ → Scheduler V
  unfolding finish leave enter
  thrown s n w transient code at =
      let breaker =
        if w.input.optional && transient
        then failure s.breaker w.input.capability code at
        else s.breaker in
      let s' = record s { breaker = breaker } in
      if w.settled
      then at_stage s n w leaving
      else if transient && ltb w.attempts s.maximum_attempts
      then enter s' n w at
      else leave (finish s' n (failed code transient w.attempts) at) n

  -- The `finally` of `#pump`
  unfoldable pub released : Scheduler V → ℕ → Work V → ℕ → Scheduler V
  unfolding pump
  released s n w at = pump (record (at_stage s n w left) { active = s.active - 1 }) at

-- What happens to a scheduler.
pub data Event (V : Type 0) : Type 0 where
  schedules : Input → Event V
  cancels : JsString → List JsString → Event V
  starts : Event V
  returns : ℕ → V → Event V
  answers : ℕ → Bool → Event V
  throws : ℕ → Bool → JsString → Event V
  releases : ℕ → Event V

module _ {V : Type 0} where
  unfoldable pub awaited : Scheduler V → Event V → ℕ → ℕ → Work V → Stage V → Scheduler V
  unfolding returned checked thrown released
  awaited s (returns m v) at n w running = returned s n w v
  awaited s (answers m b) at n w (checking v) = checked s n w v b at
  awaited s (throws m transient code) at n w running = thrown s n w transient code at
  awaited s (throws m transient code) at n w (checking v) = thrown s n w transient code at
  awaited s (releases m) at n w leaving = released s n w at
  awaited s _ at n w _ = s

  abbrev pub awaited_found : Scheduler V → Event V → ℕ → ℕ → Option (Work V) → Scheduler V
  awaited_found s e at n none = s
  awaited_found s e at n (some w) = awaited s e at n w w.stage

  -- An event that is not awaited at the stage of its record does not happen.
  unfoldable pub step : Scheduler V → Event V → ℕ → Scheduler V
  unfolding schedule cancel pump awaited
  step s (schedules input) at = (schedule s input at).1
  step s (cancels work_id effects) at = (cancel s work_id effects at).1
  step s starts at = pump s at
  step s (returns n v) at = awaited_found s (returns n v) at n (s.works n)
  step s (answers n b) at = awaited_found s (answers n b) at n (s.works n)
  step s (throws n transient code) at = awaited_found s (throws n transient code) at n (s.works n)
  step s (releases n) at = awaited_found s (releases n) at n (s.works n)

  unfoldable pub run_all : Scheduler V → List (Event V × ℕ) → Scheduler V
  run_all s [] = s
  run_all s ((e, at) ∷ es) = run_all (step s e at) es
