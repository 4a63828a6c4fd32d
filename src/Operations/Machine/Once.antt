-- ===== src/Operations/Machine/Once.antt =====
-- src/core/operations/journal.ts: a committed command that comes again after other calls of the journal.
use content_lens.Prelude.{
  ℕ, ◌≡◌, ◌⊎◌, refl, Bool, true, Option, none, some, List, [], ◌∷◌, JsString, arith, ◌∙◌, ap, sym,
  subst, is_some, inl, inr, Bool-cases,
}
use content_lens.Prelude.Dict
use content_lens.Operations.{
  Entry, Command, Profile, Journal, Response, committed_at, compensated_at, Outcome, FaultInjector,
}
use content_lens.Operations.Entries.{
  command_is_valid, matches, response, is_committed, compensated_entry,
}
use content_lens.Operations.Execution.{Begun, answered, started, begin, execute, continue_begun}
use content_lens.Operations.Execution.Replay.{Answers, execute-Answers, settled_again}
use content_lens.Operations.Execution.Revisions.{is_applied, IsLog}
use content_lens.Operations.Execution.Revisions.Steps.{
  begin-IsLog_started, begin-IsLog_answered, found-IsGood,
}
use content_lens.Operations.Execution.Revisions.Commits.{complete-IsLog}
use content_lens.Operations.Execution.Lasting.{
  Lasts, acknowledge-Lasts, cancel-Lasts, begin-Lasts, complete-Lasts,
}
use content_lens.Operations.Machine.{
  Machine, Event, acknowledges, executes, cancels, starts, finishes, enqueue, begun, start, finish,
  step, run,
}
use content_lens.Operations.Machine.Runs.{
  RunsAny, IsSound, step-IsSound, run-IsSound, new_machine, new-IsSound,
}

module _ {V : Type 0} where
  committed_state :
      (revision : ℕ) (e : Entry V) (v : Option V) (n : ℕ)
      → response revision e ≡ committed_at v n
      → is_committed e ≡ true
  unfolding response
  committed_state revision e v n h = ground arith

  -- An entry that has a revision answers by it, whatever the revision of the profile.
  dated_answer :
      (r r' : ℕ) (e : Entry V) (v : Option V) (n : ℕ) (by at : JsString)
      → is_some e.op.revision ≡ true
      → response r e ≡ committed_at v n
      → (response r' e ≡ committed_at v n)
        × (response r' (compensated_entry e by at) ≡ compensated_at v n (some by))
  unfolding response compensated_entry
  dated_answer r r' e v n by at d h = ground arith

module _ {C V : Type 0} where
  -- What a command gets that comes again: the answer that it got as committed, or that it is compensated.
  abbrev pub IsAgain : Journal C V → Option V → ℕ → Option (Response V) × Journal C V → Type 0
  IsAgain j v n (answer, j') =
      (j' ≡ j)
      × ((answer ≡ some (committed_at v n))
          ⊎ ((by : JsString) × (answer ≡ some (compensated_at v n (some by)))))

module _ {C V : Type 0} (is_iso : JsString → Bool) where
  begun-journal :
      (m : Machine C V) (c : Command) (rest : List Command) (b : Begun V × Journal C V)
      → (begun m c rest b).journal ≡ b.1
  unfolding begun
  begun-journal m c rest (answered r, j) = refl
  begun-journal m c rest (started e, j) = refl

  start-Lasts :
      (m : Machine C V) (r : Option (Command × Entry V)) (queue : List Command) (id : JsString)
      (x : Entry V)
      → Dict.get id m.journal.entries ≡ some x
      → is_applied x ≡ true
      → Dict.get id (start is_iso m r queue).journal.entries ≡ some x
  unfolding start
  start-Lasts m (some r) queue id x found applied = found
  start-Lasts m none [] id x found applied = found
  start-Lasts m none (c ∷ rest) id x found applied =
      ap (λ j. Dict.get id j.entries) (begun-journal m c rest (begin is_iso m.journal c))
      ∙ begin-Lasts is_iso m.journal c id x found applied

  finish-Lasts :
      (base : ℕ) (m : Machine C V) (r : Option (Command × Entry V)) (o : Outcome C V)
      (id : JsString) (x : Entry V)
      → IsLog base m.journal
      → RunsAny m.journal r
      → Dict.get id m.journal.entries ≡ some x
      → is_applied x ≡ true
      → Lasts id x (finish m r o).journal
  unfolding finish
  finish-Lasts base m none o id x l r found applied = inl found
  finish-Lasts base m (some (c, e)) o id x l r found applied =
      complete-Lasts base m.journal c e o id x l r found applied

  enqueue-journal :
      (m : Machine C V) (c : Command) (o : Option (JsString × JsString))
      → (enqueue m c o).journal ≡ m.journal
  unfolding enqueue
  enqueue-journal m c none = refl
  enqueue-journal m c (some x) = refl

  step-Lasts :
      (base : ℕ) (m : Machine C V) (event : Event C V) (id : JsString) (x : Entry V)
      → IsSound base m
      → Dict.get id m.journal.entries ≡ some x
      → is_applied x ≡ true
      → Lasts id x (step is_iso m event).journal
  unfolding step
  step-Lasts base m (acknowledges c) id x s found applied =
      inl (acknowledge-Lasts is_iso m.journal c id x found)
  step-Lasts base m (executes c) id x s found applied =
      elim (Bool-cases (command_is_valid is_iso c)) [
        | inl valid ↦
            rw (valid, step)
              (inl (
                ap (λ j. Dict.get id j.entries)
                  (enqueue-journal m c (Dict.get c.operation_id m.in_flight))
                ∙ found))
        | inr bad ↦ rw (bad, step) (inl found)
      ]
  step-Lasts base m (cancels by at) id x s found applied =
      inl (cancel-Lasts m.journal by at id x found applied)
  step-Lasts base m starts id x s found applied =
      inl (start-Lasts m m.running m.queue id x found applied)
  step-Lasts base m (finishes o) id x s found applied =
      finish-Lasts base m m.running o id x s.log s.runs found applied

  run-Lasts :
      (base : ℕ) (m : Machine C V) (events : List (Event C V)) (id : JsString) (x : Entry V)
      → IsSound base m
      → Dict.get id m.journal.entries ≡ some x
      → is_applied x ≡ true
      → Lasts id x (run is_iso m events).journal
  unfolding run
  run-Lasts base m [] id x s found applied = inl found
  run-Lasts base m (event ∷ events) id x s found applied =
      let s' = step-IsSound is_iso base m event s in
      elim (step-Lasts base m event id x s found applied) [
        | inl h ↦ run-Lasts base (step is_iso m event) events id x s' h applied
        | inr (by, at, done, h) ↦
            elim (run-Lasts base (step is_iso m event) events id (compensated_entry x by at) s' h
              (unfold compensated_entry in refl)) [
                | inl k ↦ inr (by, at, done, k)
                | inr (by', at', again, k) ↦ absurd (unfold compensated_entry in cc again)
              ]
      ]

  begun-IsLog :
      (base : ℕ) (j j' : Journal C V) (c : Command) (b : Begun V) (mutate : Profile C → Outcome C V)
      → IsLog base j
      → begin is_iso j c ≡ (b, j')
      → IsLog base (continue_begun none c mutate b j').1
  unfolding continue_begun
  begun-IsLog base j j' c (answered r) mutate l h = begin-IsLog_answered is_iso base j j' c r l h
  begun-IsLog base j j' c (started e) mutate l h =
      let (l', r) = begin-IsLog_started is_iso base j j' c e l h in
      complete-IsLog base j' c e (mutate j'.profile) l' r

  execute-IsLog :
      (base : ℕ) (j : Journal C V) (c : Command) (mutate : Profile C → Outcome C V)
      → IsLog base j
      → IsLog base (execute is_iso none j c mutate).1
  unfolding execute
  execute-IsLog base j c mutate l = elim (Bool-cases (command_is_valid is_iso c)) [
    | inl valid ↦
        rw (valid, execute)
          (begun-IsLog base j (begin is_iso j c).1 c (begin is_iso j c).0 mutate l refl)
    | inr bad ↦ rw (bad, execute) l
  ]

  lasting-IsAgain :
      (inject : Option FaultInjector) (base : ℕ) (j j' : Journal C V) (c : Command)
      (again : Profile C → Outcome C V) (v : Option V) (n : ℕ)
      → IsLog base j
      → (a : Answers is_iso j c (committed_at v n)) → Lasts c.operation_id a.entry j'
      → IsAgain j' v n (execute is_iso inject j' c again)
  lasting-IsAgain inject base j j' c again v n l a (inl found) =
      let done = committed_state j.profile.revision a.entry v n a.answer in
      let (g, at) = found-IsGood base j c.operation_id a.entry l a.found in
      let dated : is_some a.entry.op.revision ≡ true = g.dated ∙ ground arith in
      let e = settled_again is_iso inject j' c a.entry again a.valid found a.fits a.settled in
      let same_answer =
        (dated_answer j.profile.revision j'.profile.revision a.entry v n [] [] dated a.answer).0 in
      (ap (λ t. t.1) e, inl (ap (λ t. t.0) e ∙ ap (λ r. some r) same_answer))
  lasting-IsAgain inject base j j' c again v n l a (inr (by, when, done, found)) =
      let (g, at) = found-IsGood base j c.operation_id a.entry l a.found in
      let dated : is_some a.entry.op.revision ≡ true = g.dated ∙ ground arith in
      let x = compensated_entry a.entry by when in
      let e =
        settled_again is_iso inject j' c x again a.valid found
          (unfold compensated_entry matches in a.fits) (unfold compensated_entry in refl) in
      let later_answer =
        (dated_answer j.profile.revision j'.profile.revision a.entry v n by when dated
          a.answer).1 in
      (ap (λ t. t.1) e, inr (by, ap (λ t. t.0) e ∙ ap (λ r. some r) later_answer))

  -- After any calls, let a command be executed while nothing runs, and be answered as committed. Whatever calls, starts
  -- and ends of operations follow, in any order, without injected faults, the command is not executed again when it
  -- comes again: whatever it would do then, it gets the same answer, or the one that it was compensated,
  -- with the same result and revision, and it leaves the journal, the profile included, as it is.
  pub committed_once :
      (inject : Option FaultInjector) (p : Profile C) (before after : List (Event C V))
      (j : Journal C V) (c : Command) (mutate again : Profile C → Outcome C V) (v : Option V)
      (n : ℕ)
      → let m = run is_iso (new_machine p) before in
        m.running ≡ none
        → execute is_iso none m.journal c mutate ≡ (some (committed_at v n), j)
        → let later = (run is_iso (record m { journal = j }) after).journal in
          IsAgain later v n (execute is_iso inject later c again)
  committed_once inject p before after j c mutate again v n idle h =
      let m = run is_iso (new_machine p) before in
      let s = run-IsSound is_iso p.revision (new_machine p) before (new-IsSound p) in
      let l : IsLog p.revision j =
        subst (λ t. IsLog p.revision t.1) h (execute-IsLog p.revision m.journal c mutate s.log) in
      let a = execute-Answers is_iso m.journal j c mutate v n h in
      let sound : IsSound p.revision (record m { journal = j }) = record {
        log = l;
        runs = subst (RunsAny j) (sym idle) tt;
      } in
      let done = committed_state j.profile.revision a.entry v n a.answer in
      lasting-IsAgain inject p.revision j (run is_iso (record m { journal = j }) after).journal c
        again v n l a
        (run-Lasts p.revision (record m { journal = j }) after c.operation_id a.entry sound a.found
          (ground arith))
