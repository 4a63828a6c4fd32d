-- ===== src/Decisions/Scheduler/Shedding.antt =====
-- src/application/decision-pipeline/scheduler.ts: which work gives way to a new one.
use content_lens.Prelude.{
  ◌++◌, ◌∙◌, ap, JsString, get_or, ltb, ℕ, ◌<◌, ◌≡◌, ◌⊎◌, refl, sym, subst, Bool, true, Option,
  none, some, List, [], ◌∷◌, leb, All, All-sort, keep, length, sort, if◌then◌else◌, arith,
  Bool-cases, inl, inr, if-both,
}
use content_lens.Prelude.Dict
use content_lens.Circuit.Capability.{allow}
use content_lens.Decisions.Scheduler.{
  Input, Work, Outcome, committed, cancelled, shed, discarded, failed, Scheduler, Scheduled,
  scheduled, coalesced, backpressure, skipped, rejected, priority_rank, same_binding, finish, Work,
  finish_found, finish_work, begin_found, enter, leave, leave_found, pump, pump_list, goes_first,
}
use content_lens.Decisions.Scheduler.Calls.{
  allocate, create_record, least, shed_id, without, first_of, goes_last, enqueue, overload, replace,
  admit, schedule_new, schedule_ended, schedule_known, schedule_found, schedule,
}

abbrev pub Among : ℕ × Input → List (ℕ × Input) → Type 0
Among x [] = ⊥
Among x (y ∷ ys) = (x ≡ y) ⊎ Among x ys

-- The numbers of the records that were resolved as shed.
abbrev pub sheds : {V : Type 0} → List (ℕ × Outcome V) → List ℕ
sheds [] = []
sheds ((n, shed k) ∷ rs) = n ∷ sheds rs
sheds ((n, _) ∷ rs) = sheds rs

-- A record is shed if it is there and not settled.
abbrev pub unless_settled : {V : Type 0} → Option (Work V) → ℕ → List ℕ → List ℕ
unless_settled none n ns = ns
unless_settled (some w) n ns = if w.settled then ns else n ∷ ns

abbrev pub named_as_shed : {V : Type 0} → Scheduled V → Option JsString
named_as_shed (scheduled n id) = id
named_as_shed _ = none

-- What `schedule` sheds: nothing, and its answer names nothing; the new work, which is optional and which it names; or
-- work that waited, is optional and of a lower priority than the new one, whose id it names.
abbrev pub IsFair : {V : Type 0} → Scheduler V → Input → Scheduled V × Scheduler V → Type 0
IsFair s input (answer, s') =
    ((named_as_shed answer ≡ none) × (sheds s'.resolved ≡ sheds s.resolved))
    ⊎ ((input.optional ≡ true)
        × (answer ≡ scheduled s.next (some input.work_id))
        × (sheds s'.resolved ≡ s.next ∷ sheds s.resolved))
    ⊎ ((x : ℕ × Input) × Among x s.waiting
        × (x.1.optional ≡ true)
        × (priority_rank x.1.priority < priority_rank input.priority)
        × (answer ≡ scheduled s.next (shed_id x.1.work_id))
        × (sheds s'.resolved ≡ unless_settled (s.works x.0) x.0 (sheds s.resolved)))

All-first_of :
    (P : ℕ × Input → Type 0) (xs : List (ℕ × Input)) (x : ℕ × Input)
    → All P xs
    → first_of xs ≡ some x
    → P x
All-first_of P [] x h e = absurd (ground (arith, e))
All-first_of P (y ∷ ys) x h e = subst P (the_first e) h.0
  where
    the_first : some y ≡ some x → y ≡ x
    the_first q = ground arith

All-Among :
    (xs ys : List (ℕ × Input))
    → ((x : ℕ × Input) → Among x xs → Among x ys)
    → All (λ x. Among x ys) xs
All-Among [] ys f = tt
All-Among (x ∷ xs) ys f = (f x (inl refl), All-Among xs ys (λ y m. f y (inr m)))

All-keep :
    {A : Type 0} (P : A → Type 0) (p : A → Bool) (xs : List A)
    → All P xs
    → All (λ x. P x × (p x ≡ true)) (keep p xs)
All-keep P p [] h = tt
All-keep P p (x ∷ xs) (px, h) = elim (Bool-cases (p x)) [
  | inl q ↦ rw (q, if◌then◌else◌) ((px, q), All-keep P p xs h)
  | inr q ↦ rw (q, if◌then◌else◌) (All-keep P p xs h)
]

least-Among :
    (waiting : List (ℕ × Input)) (x : ℕ × Input)
    → least waiting ≡ some x
    → Among x waiting × (x.1.optional ≡ true)
unfolding least
least-Among waiting x e =
    All-first_of (λ y. Among y waiting × (y.1.optional ≡ true))
      (sort goes_last (keep (λ y. y.1.optional) waiting)) x
      (All-sort goes_last (λ y. Among y waiting × (y.1.optional ≡ true))
        (keep (λ y. y.1.optional) waiting)
        (All-keep (λ y. Among y waiting) (λ y. y.1.optional) waiting
          (All-Among waiting waiting (λ y m. m))))
      e

module _ {V : Type 0} where
  finish-sheds :
      (s : Scheduler V) (n k at : ℕ)
      → sheds (finish s n (shed k) at).resolved ≡ unless_settled (s.works n) n (sheds s.resolved)
  unfolding finish
  finish-sheds s n k at = found (s.works n)
    where
      found :
          (o : Option (Work V))
          → sheds (finish_found s n o (shed k) at).resolved ≡ unless_settled o n (sheds s.resolved)
      found none = unfold finish_found in refl
      found (some w) = unfold finish_found finish_work in ground arith

  begin-sheds :
      (s : Scheduler V) (n at : ℕ) (o : Option (Work V))
      → sheds (begin_found s n o at).resolved ≡ sheds s.resolved
  unfolding begin_found enter finish finish_found finish_work leave leave_found
  begin-sheds s n at none = refl
  begin-sheds s n at (some w) = ground arith

  pump_list-sheds :
      (s : Scheduler V) (xs : List (ℕ × Input)) (at : ℕ)
      → sheds (pump_list s xs at).resolved ≡ sheds s.resolved
  unfolding pump_list
  pump_list-sheds s [] at = refl
  pump_list-sheds s (x ∷ xs) at =
      if-both (λ (t : Scheduler V). sheds t.resolved ≡ sheds s.resolved)
        (ltb s.active s.concurrency) (pump_list (begin_found s x.0 (s.works x.0) at) xs at)
        (record s { waiting = x ∷ xs })
        (pump_list-sheds (begin_found s x.0 (s.works x.0) at) xs at
          ∙ begin-sheds s x.0 at (s.works x.0))
        refl

  enqueue-answer :
      (s : Scheduler V) (input : Input) (id : Option JsString) (at : ℕ)
      → (enqueue s input id at).0 ≡ scheduled s.next id
  unfolding enqueue
  enqueue-answer s input id at = refl

  finish-next : (s : Scheduler V) (n k at : ℕ) → (finish s n (shed k) at).next ≡ s.next
  unfolding finish
  finish-next s n k at = found (s.works n)
    where
      found : (o : Option (Work V)) → (finish_found s n o (shed k) at).next ≡ s.next
      found none = unfold finish_found in refl
      found (some w) = unfold finish_found finish_work in ground arith

  enqueue-sheds :
      (s : Scheduler V) (input : Input) (id : Option JsString) (at : ℕ)
      → sheds (enqueue s input id at).1.resolved ≡ sheds s.resolved
  unfolding enqueue allocate pump
  enqueue-sheds s input id at =
      let s' : Scheduler V = record (allocate s input) {
        records = Dict.set input.work_id s.next s.records;
        waiting = s.waiting ++ ((s.next, input) ∷ []);
      } in
      if-both (λ (t : Scheduler V). sheds t.resolved ≡ sheds s.resolved) s.auto_start (pump s' at)
        s'
        (if-both (λ (t : Scheduler V). sheds t.resolved ≡ sheds s.resolved)
          (ltb s.active s.concurrency) (pump_list s' (sort goes_first s'.waiting) at) s'
          (pump_list-sheds s' (sort goes_first s'.waiting) at) refl)
        refl

  overload-IsFair :
      (s : Scheduler V) (input : Input) (at : ℕ) → IsFair s input (overload s input at)
  unfolding overload
  overload-IsFair s input at = elim (Bool-cases input.optional) [
    | inl q ↦
        subst (λ b. IsFair s input (if b then answer else (backpressure, s))) (sym q)
          (inr (inl (q, refl, new_shed)))
    | inr q ↦
        subst (λ b. IsFair s input (if b then answer else (backpressure, s))) (sym q)
          (inl (refl, refl))
  ]
    where
      answer : Scheduled V × Scheduler V
      answer = (scheduled s.next (some input.work_id), finish (allocate s input) s.next (shed 0) at)

      new_shed : sheds answer.1.resolved ≡ s.next ∷ sheds s.resolved
      new_shed =
          finish-sheds (allocate s input) s.next 0 at
          ∙ unfold allocate create_record in ground arith

  replace-IsFair :
      (s : Scheduler V) (input : Input) (at : ℕ) (o : Option (ℕ × Input))
      → least s.waiting ≡ o
      → IsFair s input (replace s input at o)
  unfolding replace
  replace-IsFair s input at none e = overload-IsFair s input at
  replace-IsFair s input at (some (n, other)) e =
      elim (Bool-cases (leb (priority_rank input.priority) (priority_rank other.priority))) [
        | inl q ↦ rw (q, if◌then◌else◌) (overload-IsFair s input at)
        | inr q ↦
            rw (q, if◌then◌else◌)
              (let (m, o) = least-Among s.waiting (n, other) e in
                let s' : Scheduler V = record s { waiting = without n s.waiting } in
                let k = get_or other.attempt 0 in
                inr (
                  inr (
                    (n, other),
                    m,
                    o,
                    ground (arith, q),
                    enqueue-answer (finish s' n (shed k) at) input (shed_id other.work_id) at
                        ∙ ap (λ i. scheduled i (shed_id other.work_id)) (finish-next s' n k at),
                    enqueue-sheds (finish s' n (shed k) at) input (shed_id other.work_id) at
                        ∙ finish-sheds s' n k at,
                  )))
      ]

  admit-IsFair : (s : Scheduler V) (input : Input) (at : ℕ) → IsFair s input (admit s input at)
  unfolding admit
  admit-IsFair s input at = elim (Bool-cases (leb s.capacity (length s.waiting))) [
    | inl q ↦ rw (q, if◌then◌else◌) (replace-IsFair s input at (least s.waiting) refl)
    | inr q ↦
        rw (q, if◌then◌else◌)
          (inl (
            ap (λ (a : Scheduled V). named_as_shed a) (enqueue-answer s input none at),
            enqueue-sheds s input none at,
          ))
  ]

  schedule_new-IsFair :
      (s : Scheduler V) (input : Input) (at : ℕ) → IsFair s input (schedule_new s input at)
  unfolding schedule_new
  schedule_new-IsFair s input at =
      let s' = record s { breaker = (allow s.breaker input.capability at).1 } in
      if-both (λ (r : Scheduled V × Scheduler V). IsFair s input r) input.optional
        (if (allow s.breaker input.capability at).0 then admit s' input at else (skipped, s'))
        (admit s input at)
        (if-both (λ (r : Scheduled V × Scheduler V). IsFair s input r)
          (allow s.breaker input.capability at).0 (admit s' input at) (skipped, s')
          (admit-IsFair s' input at) (inl (refl, refl)))
        (admit-IsFair s input at)

  schedule_ended-IsFair :
      (s : Scheduler V) (input : Input) (at : ℕ) (o : Option (Outcome V))
      → IsFair s input (schedule_ended s input at o)
  unfolding schedule_ended
  schedule_ended-IsFair s input at (some (committed v n)) = inl (refl, refl)
  schedule_ended-IsFair s input at (some (cancelled effects)) = inl (refl, refl)
  schedule_ended-IsFair s input at none =
      schedule_new-IsFair (record s { terminal = Dict.delete input.work_id s.terminal }) input at
  schedule_ended-IsFair s input at (some (shed n)) =
      schedule_new-IsFair (record s { terminal = Dict.delete input.work_id s.terminal }) input at
  schedule_ended-IsFair s input at (some (discarded n)) =
      schedule_new-IsFair (record s { terminal = Dict.delete input.work_id s.terminal }) input at
  schedule_ended-IsFair s input at (some (failed code r n)) =
      schedule_new-IsFair (record s { terminal = Dict.delete input.work_id s.terminal }) input at

  schedule_known-IsFair :
      (s : Scheduler V) (input : Input) (n : ℕ) (o : Option (Work V))
      → IsFair s input (schedule_known s input n o)
  unfolding schedule_known
  schedule_known-IsFair s input n none = inl (refl, refl)
  schedule_known-IsFair s input n (some w) =
      if-both (λ (a : Scheduled V). IsFair s input (a, s))
        (same_binding w.input.binding input.binding) (coalesced n) rejected (inl (refl, refl))
        (inl (refl, refl))

  -- A call of `schedule` resolves at most one record as shed: none, and then its answer names none; that of the new
  -- work, which is then optional and which the answer names; or that of work that waited, is optional and
  -- of a lower priority than the new one, if that record is there and not settled, and then the answer
  -- names its id, which it leaves out where it is empty.
  pub schedule-IsFair :
      (s : Scheduler V) (input : Input) (at : ℕ) → IsFair s input (schedule s input at)
  unfolding schedule schedule_found
  schedule-IsFair s input at = found (Dict.get input.work_id s.records)
    where
      found : (o : Option ℕ) → IsFair s input (schedule_found s input at o)
      found none = schedule_ended-IsFair s input at (Dict.get input.work_id s.terminal)
      found (some n) = schedule_known-IsFair s input n (s.works n)
