-- ===== src/Operations/Execution/Atomicity.antt =====
-- src/core/operations/journal.ts: what an operation that does not commit leaves behind, and what a
-- cancellation and a compensation do.
use content_lens.Prelude.{
  ◌+◌, ◌≡◌, ◌⊎◌, refl, Bool, true, false, Option, none, some, JsString, js, arith, any, same,
  Option-cases, inl, inr,
}
use content_lens.Prelude.Dict.{get-set, get-set_self}
use content_lens.Prelude.Dict
use content_lens.Operations.{
  Entry, Command, Journal, Response, committed_at, was_cancelled, failure, returned, threw,
  Mutation, Thrown, mutation_error, FaultInjector, Compensation,
}
use content_lens.Operations.Entries.{
  command_is_valid, matches, response, is_settled, committed_entry, running_entry, failed_entry,
  invalid_target, cancelled_meanwhile, compensated_entry, cancelled_entry, is_final, is_committed,
  same_effect,
}
use content_lens.Operations.Execution.{
  started, begin, acknowledge, complete, commit, committed_journal, fail, compensate_and_commit,
  find_compensated, cancel,
}
use content_lens.Operations.Execution.Replay.{meanwhile}

module _ {C V : Type 0} where
  -- The profile was left alone, or it is the draft of the mutation under the next revision and the
  -- answer says so.
  abbrev pub Atomic : Journal C V → Mutation C V → Option (Response V) × Journal C V → Type 0
  Atomic j m (answer, j') =
      (j'.profile ≡ j.profile)
      ⊎ ((answer ≡ some (committed_at (some m.value) (j.profile.revision + 1)))
          × (j'.profile ≡ record { revision = j.profile.revision + 1; content = m.draft }))

  profile-fail :
      (j : Journal C V) (c : Command) (e : Entry V) (t : Thrown)
      → (fail j c e t).1.profile ≡ j.profile
  unfolding fail
  profile-fail j c e (Thrown.interrupted p) = refl
  profile-fail j c e (mutation_error a b r) = refl
  profile-fail j c e Thrown.unknown_error = refl

  commit-Atomic :
      (j : Journal C V) (c : Command) (e : Entry V) (m : Mutation C V) (original : Option (Entry V))
      → Atomic j m (commit none j c e m original)
  unfolding commit committed_journal response committed_entry
  commit-Atomic j c e m none = inr (refl, refl)
  commit-Atomic j c e m (some o) = inr (refl, refl)

  compensate-Atomic :
      (j : Journal C V) (c : Command) (e : Entry V) (m : Mutation C V) (x : Option Compensation)
      → Atomic j m (compensate_and_commit none j c e m x)
  unfolding compensate_and_commit
  compensate-Atomic j c e m none = commit-Atomic j c e m none
  compensate-Atomic j c e m (some x) = elim (Option-cases (find_compensated j c x)) [
    | inl q ↦ rw (q, compensate_and_commit) (inl (profile-fail j c e invalid_target))
    | inr (o, q) ↦ rw (q, compensate_and_commit) (commit-Atomic j c e m (some o))
  ]

  -- A mutation that returned changes the profile all at once, with the next revision and an answer
  -- that carries it, or not at all.
  pub complete-Atomic :
      (j : Journal C V) (c : Command) (e : Entry V) (m : Mutation C V)
      → Atomic j m (complete none j c e (returned m))
  unfolding complete
  complete-Atomic j c e m = elim (meanwhile (Dict.get c.operation_id j.entries)) [
    | inl q ↦ rw (q, complete) (compensate-Atomic j c e m m.compensation)
    | inr (x, q, gone) ↦ rw (q, complete) (inl refl)
  ]

  -- A mutation that threw changes no profile.
  profile-complete_threw :
      (inject : Option FaultInjector) (j : Journal C V) (c : Command) (e : Entry V) (t : Thrown)
      → (complete inject j c e (threw t)).1.profile ≡ j.profile
  unfolding complete
  profile-complete_threw inject j c e t = profile-fail j c e t

  -- A cancellation of a pending or running operation wins over a mutation that returns later: the
  -- answer is the cancellation, and the journal stays as the cancellation left it.
  pub cancelled_before_return :
      (inject : Option FaultInjector) (j : Journal C V) (c : Command) (e x : Entry V)
      (m : Mutation C V) (at : JsString)
      → Dict.get c.operation_id j.entries ≡ some x
      → is_final x ≡ false
      → complete inject (cancel j c.operation_id at).1 c e (returned m)
        ≡ (some (was_cancelled x.committed_effects), (cancel j c.operation_id at).1)
  unfolding complete cancel cancelled_entry response
  cancelled_before_return inject j c e x m at found going =
      ground (arith, get-set_self c.operation_id (cancelled_entry x at) j.entries)

  -- It does not win over one that throws later: the entry becomes a failure, and where the error is
  -- retryable, the cancelled command starts again the next time it comes.
  pub cancelled_before_throw :
      (is_iso : JsString → Bool) (inject : Option FaultInjector) (j : Journal C V) (c : Command)
      (e x : Entry V) (at code message : JsString)
      → command_is_valid is_iso c ≡ true
      → Dict.get c.operation_id j.entries ≡ some x
      → is_final x ≡ false
      → matches e c ≡ true
      → let f = failed_entry e c code message true in
        let j' =
          (complete inject
            (cancel j c.operation_id at).1
            c
            e
            (threw (mutation_error code message true))).1 in
        (Dict.get c.operation_id j'.entries ≡ some f)
        × ((begin is_iso j' c).0 ≡ started (running_entry f c))
  unfolding complete fail begin acknowledge
  cancelled_before_throw is_iso inject j c e x at code message valid found going fits =
      let f = failed_entry e c code message true in
      let got = get-set_self c.operation_id f (cancel j c.operation_id at).1.entries in
      let fits' : matches f c ≡ true = unfold matches failed_entry in fits in
      let open_again : is_settled f ≡ false = unfold failed_entry in refl in (got, ground arith)

  found_compensated :
      (j : Journal C V) (c : Command) (o : Entry V) (x : Compensation)
      → Dict.get x.operation_id j.entries ≡ some o
      → is_committed o ≡ true
      → any (λ y. same_effect y x.effect) o.committed_effects ≡ true
      → find_compensated j c x ≡ some (compensated_entry o c.operation_id c.at)
  unfolding find_compensated
  found_compensated j c o x found done effect = rw (found, find_compensated, done, effect)

  -- Where the operation to compensate is committed and has the effect, the commit of the compensation
  -- turns it into a compensated one that names the compensation, with its result, effects and revision
  -- as they were.
  compensates :
      (j : Journal C V) (c : Command) (e o : Entry V) (m : Mutation C V) (x : Compensation)
      → m.compensation ≡ some x
      → cancelled_meanwhile (Dict.get c.operation_id j.entries) ≡ none
      → Dict.get x.operation_id j.entries ≡ some o
      → o.operation_id ≡ x.operation_id
      → is_committed o ≡ true
      → any (λ y. same_effect y x.effect) o.committed_effects ≡ true
      → same c.operation_id x.operation_id ≡ false
      → Dict.get x.operation_id (complete none j c e (returned m)).1.entries
        ≡ some (compensated_entry o c.operation_id c.at)
  unfolding complete commit committed_journal compensate_and_commit
  compensates j c e o m x asked going found named done effect apart =
      let k = compensated_entry o c.operation_id c.at in
      let id : k.operation_id ≡ x.operation_id = unfold compensated_entry in named in
      ground (
        arith,
        id,
        found_compensated j c o x found done effect,
        get-set c.operation_id x.operation_id
            (committed_entry e c (j.profile.revision + 1) m.value m.effects)
            (Dict.set x.operation_id k j.entries),
        get-set_self x.operation_id k j.entries,
      )

  -- Where it is not, the operation fails for good, and neither the profile nor the entry of any other
  -- operation changes.
  compensation_refused :
      (j : Journal C V) (c : Command) (e : Entry V) (m : Mutation C V) (x : Compensation)
      (other : JsString)
      → m.compensation ≡ some x
      → cancelled_meanwhile (Dict.get c.operation_id j.entries) ≡ none
      → find_compensated j c x ≡ none
      → same c.operation_id other ≡ false
      → let (answer, j') = complete none j c e (returned m) in
        (answer
          ≡ some (
              failure
                (record {
                  code = js "invalid-compensation-target";
                  message = js "The original operation cannot be compensated";
                })
                false))
        × (j'.profile ≡ j.profile)
        × (Dict.get other j'.entries ≡ Dict.get other j.entries)
  unfolding complete compensate_and_commit fail response failed_entry
  compensation_refused j c e m x other asked going missing apart = (
    ground arith,
    ground arith,
    ground (
      arith,
      get-set c.operation_id other
          (failed_entry e c (js "invalid-compensation-target")
            (js "The original operation cannot be compensated") false)
          j.entries,
    ),
  )
