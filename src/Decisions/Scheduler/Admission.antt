-- ===== src/Decisions/Scheduler/Admission.antt =====
-- src/application/decision-pipeline/scheduler.ts: `schedule` and `cancel` keep the bounds of the scheduler.
use content_lens.Prelude.{
  ℕ, ◌+◌, ◌≤◌, ◌<◌, ◌≡◌, ◌∙◌, refl, sym, Bool, true, Option, none, some, get_or, List, [], ◌∷◌,
  ◌++◌, JsString, leb, ◌==◌, any, any-sort, keep, length, length-append, sort, if◌then◌else◌, arith,
  Bool-cases, inl, inr, if-both,
}
use content_lens.Prelude.Dict
use content_lens.Prelude.Dict.{length-delete-le}
use content_lens.Circuit.Capability.{allow}
use content_lens.Decisions.Scheduler.{
  Input, Work, Outcome, committed, cancelled, shed, discarded, failed, Scheduler, Scheduled,
  skipped, scheduled, backpressure, priority_rank, put, finish, pump,
}
use content_lens.Decisions.Scheduler.Calls.{
  allocate, least, first_of, goes_last, without, enqueue, overload, replace, admit, schedule_new,
  schedule_ended, schedule_known, schedule_found, schedule, cancel_work, cancel_found, cancel,
  is_pending,
}
use content_lens.Decisions.Scheduler.Bounds.{
  IsBounded, finish-waiting, finish-IsBounded, same_counts, waiting-IsBounded, pump-IsBounded,
}

length-without-le : (n : ℕ) (xs : List (ℕ × Input)) → length (without n xs) ≤ length xs
unfolding without
length-without-le n [] = omega arith
length-without-le n (x ∷ xs) = ground (arith, length-without-le n xs)

length-without :
    (n : ℕ) (xs : List (ℕ × Input))
    → any (λ x. x.0 == n) xs ≡ true
    → length (without n xs) + 1 ≡ length xs
unfolding without
length-without n [] h = ground arith
length-without n (x ∷ xs) h = ground (arith, length-without n xs)

any-keep :
    (p q : ℕ × Input → Bool) (xs : List (ℕ × Input)) → any p (keep q xs) ≡ true → any p xs ≡ true
any-keep p q [] h = h
any-keep p q (x ∷ xs) h = ground (arith, any-keep p q xs)

any-first_of :
    (n : ℕ) (o : Input) (xs : List (ℕ × Input))
    → first_of xs ≡ some (n, o)
    → any (λ x. x.0 == n) xs ≡ true
any-first_of n o [] h = ground arith
any-first_of n o (x ∷ xs) h = ground arith

least-waits :
    (n : ℕ) (o : Input) (waiting : List (ℕ × Input))
    → least waiting ≡ some (n, o)
    → any (λ x. x.0 == n) waiting ≡ true
unfolding least
least-waits n o waiting h =
    let kept = keep (λ x. x.1.optional) waiting in
    any-keep (λ x. x.0 == n) (λ x. x.1.optional) waiting
      (sym (any-sort goes_last (λ x. x.0 == n) kept) ∙ any-first_of n o (sort goes_last kept) h)

module _ {V : Type 0} (c d : ℕ) where
  enqueue-IsBounded :
      (s : Scheduler V) (input : Input) (shed_id : Option JsString) (at : ℕ)
      → IsBounded c d s
      → length s.waiting < c
      → IsBounded c d (enqueue s input shed_id at).1
  unfolding enqueue allocate
  enqueue-IsBounded s input shed_id at v l =
      let s' = record (allocate s input) {
        records = Dict.set input.work_id s.next s.records;
        waiting = s.waiting ++ ((s.next, input) ∷ []);
      } in
      let w : IsBounded c d s' = record {
        of_capacity = v.of_capacity;
        of_concurrency = v.of_concurrency;
        of_waiting = omega (arith, length-append s.waiting ((s.next, input) ∷ []), l);
        of_active = v.of_active;
        of_terminal = v.of_terminal;
      } in
      if-both (IsBounded c d) s.auto_start (pump s' at) s' (pump-IsBounded c d s' at w) w

  overload-IsBounded :
      (s : Scheduler V) (input : Input) (at : ℕ)
      → IsBounded c d s
      → IsBounded c d (overload s input at).1
  unfolding overload allocate
  overload-IsBounded s input at v =
      if-both (λ (r : Scheduled V × Scheduler V). IsBounded c d r.1) input.optional
        (scheduled s.next (some input.work_id), finish (allocate s input) s.next (shed 0) at)
        (backpressure, s)
        (finish-IsBounded c d (allocate s input) s.next (shed 0) at
          (same_counts c d s (allocate s input) v refl refl refl refl (omega arith)))
        v

  replace-IsBounded :
      (s : Scheduler V) (input : Input) (at : ℕ) (o : Option (ℕ × Input))
      → IsBounded c d s
      → least s.waiting ≡ o
      → IsBounded c d (replace s input at o).1
  unfolding replace
  replace-IsBounded s input at none v e = overload-IsBounded s input at v
  replace-IsBounded s input at (some (n, other)) v e =
      let shorter = length-without n s.waiting (least-waits n other s.waiting e) in
      let s' = record s { waiting = without n s.waiting } in
      let w =
        waiting-IsBounded c d s (without n s.waiting) v (omega (arith, shorter, v.of_waiting)) in
      elim (Bool-cases (leb (priority_rank input.priority) (priority_rank other.priority))) [
        | inl q ↦ rw (q, if◌then◌else◌) (overload-IsBounded s input at v)
        | inr q ↦
            rw (q, if◌then◌else◌)
              (enqueue-IsBounded (finish s' n (shed (get_or other.attempt 0)) at) input
                (some other.work_id) at
                (finish-IsBounded c d s' n (shed (get_or other.attempt 0)) at w)
                (rw (finish-waiting s' n (shed (get_or other.attempt 0)) at)
                  (omega (arith, shorter, v.of_waiting))))
      ]

  admit-IsBounded :
      (s : Scheduler V) (input : Input) (at : ℕ)
      → IsBounded c d s
      → IsBounded c d (admit s input at).1
  unfolding admit
  admit-IsBounded s input at v = elim (Bool-cases (leb s.capacity (length s.waiting))) [
    | inl q ↦ rw (q, if◌then◌else◌) (replace-IsBounded s input at (least s.waiting) v refl)
    | inr q ↦
        rw (q, if◌then◌else◌)
          (enqueue-IsBounded s input none at v (ground (arith, q, v.of_capacity)))
  ]

  schedule_new-IsBounded :
      (s : Scheduler V) (input : Input) (at : ℕ)
      → IsBounded c d s
      → IsBounded c d (schedule_new s input at).1
  unfolding schedule_new
  schedule_new-IsBounded s input at v =
      let s' = record s { breaker = (allow s.breaker input.capability at).1 } in
      let v' = same_counts c d s s' v refl refl refl refl (omega arith) in
      if-both (λ (r : Scheduled V × Scheduler V). IsBounded c d r.1) input.optional
        (if (allow s.breaker input.capability at).0 then admit s' input at else (skipped, s'))
        (admit s input at)
        (if-both (λ (r : Scheduled V × Scheduler V). IsBounded c d r.1)
          (allow s.breaker input.capability at).0 (admit s' input at) (skipped, s')
          (admit-IsBounded s' input at v') v')
        (admit-IsBounded s input at v)

  forgotten : Scheduler V → Input → Scheduler V
  forgotten s input = record s { terminal = Dict.delete input.work_id s.terminal }

  forgotten-IsBounded :
      (s : Scheduler V) (input : Input) → IsBounded c d s → IsBounded c d (forgotten s input)
  unfolding forgotten
  forgotten-IsBounded s input v =
      same_counts c d s (forgotten s input) v refl refl refl refl
        (length-delete-le input.work_id s.terminal)

  schedule_ended-IsBounded :
      (s : Scheduler V) (input : Input) (at : ℕ) (o : Option (Outcome V))
      → IsBounded c d s
      → IsBounded c d (schedule_ended s input at o).1
  unfolding schedule_ended forgotten
  schedule_ended-IsBounded s input at (some (committed x n)) v = v
  schedule_ended-IsBounded s input at (some (cancelled effects)) v = v
  schedule_ended-IsBounded s input at none v =
      schedule_new-IsBounded (forgotten s input) input at (forgotten-IsBounded s input v)
  schedule_ended-IsBounded s input at (some (shed n)) v =
      schedule_new-IsBounded (forgotten s input) input at (forgotten-IsBounded s input v)
  schedule_ended-IsBounded s input at (some (discarded n)) v =
      schedule_new-IsBounded (forgotten s input) input at (forgotten-IsBounded s input v)
  schedule_ended-IsBounded s input at (some (failed code r n)) v =
      schedule_new-IsBounded (forgotten s input) input at (forgotten-IsBounded s input v)

  pub schedule-IsBounded :
      (s : Scheduler V) (input : Input) (at : ℕ)
      → IsBounded c d s
      → IsBounded c d (schedule s input at).1
  unfolding schedule schedule_found schedule_known
  schedule-IsBounded s input at v = found (Dict.get input.work_id s.records)
    where
      known : (n : ℕ) (w : Option (Work V)) → IsBounded c d (schedule_known s input n w).1
      known n none = v
      known n (some w) = v

      found : (o : Option ℕ) → IsBounded c d (schedule_found s input at o).1
      found none = schedule_ended-IsBounded s input at (Dict.get input.work_id s.terminal) v
      found (some n) = known n (s.works n)

  cancel_work-IsBounded :
      (s : Scheduler V) (n : ℕ) (o : Option (Work V)) (effects : List JsString) (at : ℕ)
      → IsBounded c d s
      → IsBounded c d (cancel_work s n o effects at)
  unfolding cancel_work
  cancel_work-IsBounded s n none effects at v = v
  cancel_work-IsBounded s n (some w) effects at v =
      let waiting = if is_pending w.stage then without n s.waiting else s.waiting in
      let s' = record s {
        waiting = waiting;
        works = put n (record w { aborted = true }) s.works;
      } in
      finish-IsBounded c d s' n (cancelled effects) at (
        same_counts c d (record s { waiting = waiting }) s'
          (waiting-IsBounded c d s waiting v
            (ground (arith, length-without-le n s.waiting, v.of_waiting)))
          refl refl refl refl (omega arith))

  pub cancel-IsBounded :
      (s : Scheduler V) (work_id : JsString) (effects : List JsString) (at : ℕ)
      → IsBounded c d s
      → IsBounded c d (cancel s work_id effects at).1
  unfolding cancel cancel_found
  cancel-IsBounded s work_id effects at v = found (Dict.get work_id s.records)
    where
      found : (o : Option ℕ) → IsBounded c d (cancel_found s work_id o effects at).1
      found none = v
      found (some n) = cancel_work-IsBounded s n (s.works n) effects at v
