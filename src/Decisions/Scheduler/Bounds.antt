-- ===== src/Decisions/Scheduler/Bounds.antt =====
-- src/application/decision-pipeline/scheduler.ts: no more work waits, is on or is remembered than the options allow.
use content_lens.Prelude.{
  ℕ, ◌+◌, ◌≤◌, ◌<◌, ◌≡◌, ◌∙◌, refl, false, not, ◌&&◌, Option, none, some, List, [], ◌∷◌, ◌++◌, ltb,
  length, length-sort, sort, if◌then◌else◌, arith, Bool-cases, inl, inr, if-both,
}
use content_lens.Prelude.Dict
use content_lens.Prelude.Dict.{length-delete-le}
use content_lens.Decisions.Scheduler.{
  Input, Work, Stage, running, leaving, Outcome, failed, Scheduler, put, evict, finish,
  finish_found, finish_work, at_stage, leave, leave_found, enter, begin_found, pump_list, pump,
  goes_first,
}

module _ {V : Type 0} where
  pub record IsBounded (capacity concurrency : ℕ) (s : Scheduler V) : Type 0 where
    pub of_capacity : s.capacity ≡ capacity
    pub of_concurrency : s.concurrency ≡ concurrency
    pub of_waiting : length s.waiting ≤ capacity
    pub of_active : s.active ≤ concurrency
    pub of_terminal : length s.terminal ≤ capacity + concurrency

  length-evict-le : (limit : ℕ) (m : Dict.Dict (Outcome V)) → length (evict limit m) ≤ limit
  unfolding evict
  length-evict-le limit [] = omega arith
  length-evict-le limit (x ∷ m) = ground (arith, length-evict-le limit m)

  pub finish-waiting :
      (s : Scheduler V) (n : ℕ) (o : Outcome V) (at : ℕ) → (finish s n o at).waiting ≡ s.waiting
  unfolding finish finish_found finish_work
  finish-waiting s n o at = found (s.works n)
    where
      found : (x : Option (Work V)) → (finish_found s n x o at).waiting ≡ s.waiting
      found none = refl
      found (some w) = ground arith

  module _ (c d : ℕ) where
    finish_work-IsBounded :
        (s : Scheduler V) (n : ℕ) (w : Work V) (o : Outcome V) (at : ℕ)
        → IsBounded c d s
        → IsBounded c d (finish_work s n w o at)
    unfolding finish_work
    finish_work-IsBounded s n w o at v = elim (Bool-cases w.settled) [
      | inl q ↦ rw (q, if◌then◌else◌) v
      | inr q ↦
          rw (q, if◌then◌else◌)
            (record {
              of_capacity = v.of_capacity;
              of_concurrency = v.of_concurrency;
              of_waiting = v.of_waiting;
              of_active = v.of_active;
              of_terminal = omega (
                arith,
                v.of_capacity,
                v.of_concurrency,
                length-evict-le (s.capacity + s.concurrency)
                    (Dict.delete w.input.work_id s.terminal ++ ((w.input.work_id, o) ∷ [])),
              );
            })
    ]

    pub finish-IsBounded :
        (s : Scheduler V) (n : ℕ) (o : Outcome V) (at : ℕ)
        → IsBounded c d s
        → IsBounded c d (finish s n o at)
    unfolding finish finish_found
    finish-IsBounded s n o at v = found (s.works n)
      where
        found : (x : Option (Work V)) → IsBounded c d (finish_found s n x o at)
        found none = v
        found (some w) = finish_work-IsBounded s n w o at v

    -- The heap, the records, the breaker and the counter do not matter.
    pub same_counts :
        (s s' : Scheduler V)
        → IsBounded c d s
        → s'.capacity ≡ s.capacity
        → s'.concurrency ≡ s.concurrency
        → s'.waiting ≡ s.waiting
        → s'.active ≡ s.active
        → length s'.terminal ≤ length s.terminal
        → IsBounded c d s'
    same_counts s s' v a b w x t = record {
      of_capacity = a ∙ v.of_capacity;
      of_concurrency = b ∙ v.of_concurrency;
      of_waiting = rw w v.of_waiting;
      of_active = rw x v.of_active;
      of_terminal = omega (arith, t, v.of_terminal);
    }

    pub at_stage-IsBounded :
        (s : Scheduler V) (n : ℕ) (w : Work V) (stage : Stage V)
        → IsBounded c d s
        → IsBounded c d (at_stage s n w stage)
    at_stage-IsBounded s n w stage v =
        same_counts s (at_stage s n w stage) v refl refl refl refl (omega arith)

    leave-IsBounded : (s : Scheduler V) (n : ℕ) → IsBounded c d s → IsBounded c d (leave s n)
    unfolding leave leave_found
    leave-IsBounded s n v = found (s.works n)
      where
        found : (x : Option (Work V)) → IsBounded c d (leave_found s n x)
        found none = v
        found (some w) = at_stage-IsBounded s n w leaving v

    pub ends-IsBounded :
        (s : Scheduler V) (n : ℕ) (o : Outcome V) (at : ℕ)
        → IsBounded c d s
        → IsBounded c d (leave (finish s n o at) n)
    ends-IsBounded s n o at v = leave-IsBounded (finish s n o at) n (finish-IsBounded s n o at v)

    pub enter-IsBounded :
        (s : Scheduler V) (n : ℕ) (w : Work V) (at : ℕ)
        → IsBounded c d s
        → IsBounded c d (enter s n w at)
    unfolding enter
    enter-IsBounded s n w at v =
        if-both (IsBounded c d) (not w.settled && ltb w.attempts s.maximum_attempts)
          (record s {
            works = put n (record w { attempts = w.attempts + 1; stage = running }) s.works;
          })
          (leave (finish s n (failed _ false w.attempts) at) n)
          (same_counts s
            (record s {
              works = put n (record w { attempts = w.attempts + 1; stage = running }) s.works;
            })
            v refl refl refl refl (omega arith))
          (ends-IsBounded s n (failed _ false w.attempts) at v)

    begin_found-IsBounded :
        (s : Scheduler V) (n : ℕ) (x : Option (Work V)) (at : ℕ)
        → IsBounded c d s
        → s.active < s.concurrency
        → IsBounded c d (begin_found s n x at)
    unfolding begin_found
    begin_found-IsBounded s n none at v l = v
    begin_found-IsBounded s n (some w) at v l =
        if-both (IsBounded c d) w.settled s (enter (record s { active = s.active + 1 }) n w at) v (
          enter-IsBounded (record s { active = s.active + 1 }) n w at
            (record {
              of_capacity = v.of_capacity;
              of_concurrency = v.of_concurrency;
              of_waiting = v.of_waiting;
              of_active = omega (arith, l, v.of_concurrency);
              of_terminal = v.of_terminal;
            }))

    pub waiting-IsBounded :
        (s : Scheduler V) (xs : List (ℕ × Input))
        → IsBounded c d s
        → length xs ≤ c
        → IsBounded c d (record s { waiting = xs })
    waiting-IsBounded s xs v l = record {
      of_capacity = v.of_capacity;
      of_concurrency = v.of_concurrency;
      of_waiting = l;
      of_active = v.of_active;
      of_terminal = v.of_terminal;
    }

    pump_list-IsBounded :
        (s : Scheduler V) (xs : List (ℕ × Input)) (at : ℕ)
        → IsBounded c d s
        → length xs ≤ c
        → IsBounded c d (pump_list s xs at)
    unfolding pump_list
    pump_list-IsBounded s [] at v l = waiting-IsBounded s [] v (omega arith)
    pump_list-IsBounded s (x ∷ xs) at v l = elim (Bool-cases (ltb s.active s.concurrency)) [
      | inl q ↦
          rw (q, if◌then◌else◌)
            (pump_list-IsBounded (begin_found s x.0 (s.works x.0) at) xs at
              (begin_found-IsBounded s x.0 (s.works x.0) at v (ground (arith, q)))
              (omega (arith, l)))
      | inr q ↦ rw (q, if◌then◌else◌) (waiting-IsBounded s (x ∷ xs) v l)
    ]

    pub pump-IsBounded : (s : Scheduler V) (at : ℕ) → IsBounded c d s → IsBounded c d (pump s at)
    unfolding pump
    pump-IsBounded s at v =
        if-both (IsBounded c d) (ltb s.active s.concurrency)
          (pump_list s (sort goes_first s.waiting) at) s
          (pump_list-IsBounded s (sort goes_first s.waiting) at v
            (omega (arith, length-sort goes_first s.waiting, v.of_waiting)))
          v
