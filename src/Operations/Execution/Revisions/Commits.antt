-- ===== src/Operations/Execution/Revisions/Commits.antt =====
-- src/core/operations/journal.ts: the end of an operation gives it the next revision, or none.
use content_lens.Prelude.{
  ℕ, ◌+◌, ◌≡◌, refl, Bool, true, Option, none, some, JsString, arith, ◌∙◌, ap, sym, same_iff,
  Option-cases, inl, inr,
}
use content_lens.Prelude.Dict.{get-set, get-set_self, Each, Each-set}
use content_lens.Prelude.Dict
use content_lens.Operations.{
  Entry, Command, Journal, Outcome, returned, threw, Mutation, Thrown, mutation_error, interrupted,
  unknown_error, Compensation,
}
use content_lens.Operations.Entries.{
  committed_entry, failed_entry, compensated_entry, invalid_target, is_committed,
}
use content_lens.Operations.Execution.{
  complete, commit, committed_journal, fail, compensate_and_commit, find_compensated, put,
}
use content_lens.Operations.Execution.Replay.{meanwhile}
use content_lens.Operations.Execution.Revisions.{
  IsGood, revision_at, IsLog, revision_at-put, put-IsLog, commit-IsLog,
}
use content_lens.Operations.Execution.Revisions.Steps.{Runs, Runs-keep, found-IsGood}

module _ {C V : Type 0} where
  failed-IsLog :
      (base : ℕ) (j : Journal C V) (c : Command) (e : Entry V) (code message : JsString)
      (retry : Bool)
      → IsLog base j
      → Runs j c e
      → IsLog base (put j c.operation_id (failed_entry e c code message retry))
  failed-IsLog base j c e code message retry l r =
      put-IsLog base j c.operation_id (failed_entry e c code message retry) l
        (unfold failed_entry in record { named = r.named; dated = rw r.undated })
        (unfold failed_entry in rw (r.undated, r.unapplied))

  fail-IsLog :
      (base : ℕ) (j : Journal C V) (c : Command) (e : Entry V) (t : Thrown)
      → IsLog base j
      → Runs j c e
      → IsLog base (fail j c e t).1
  unfolding fail
  fail-IsLog base j c e (interrupted p) l r = l
  fail-IsLog base j c e (mutation_error code message retry) l r =
      failed-IsLog base j c e code message retry l r
  fail-IsLog base j c e unknown_error l r = failed-IsLog base j c e _ _ true l r

  -- A commit with no operation to compensate.
  committed-IsLog :
      (base : ℕ) (j : Journal C V) (c : Command) (e : Entry V) (m : Mutation C V)
      → IsLog base j
      → Runs j c e
      → IsLog base (committed_journal j c e m none)
  unfolding committed_journal
  committed-IsLog base j c e m l r =
      commit-IsLog base j m.draft c.operation_id
        (committed_entry e c (j.profile.revision + 1) m.value m.effects) l
        (unfold committed_entry in record { named = r.named; dated = refl }) r.unapplied
        (unfold committed_entry in refl)

  pub found_original :
      (j : Journal C V) (c : Command) (x : Compensation) (o : Entry V)
      → find_compensated j c x ≡ some o
      → (e : Entry V) × (Dict.get x.operation_id j.entries ≡ some e)
        × (is_committed e ≡ true)
        × (o ≡ compensated_entry e c.operation_id c.at)
  unfolding find_compensated
  found_original j c x o h = ground arith

  -- The entry of the operation to compensate keeps its revision, and is another than the one that
  -- runs.
  compensated-IsLog :
      (base : ℕ) (j : Journal C V) (c : Command) (e o : Entry V) (x : Compensation)
      → IsLog base j
      → Runs j c e
      → find_compensated j c x ≡ some o
      → IsLog base (put j o.operation_id o) × Runs (put j o.operation_id o) c e
  compensated-IsLog base j c e o x l r h =
      let (y, found, done, k) = found_original j c x o h in
      let (g, dated) = found-IsGood base j x.operation_id y l found in
      let name : o.operation_id ≡ x.operation_id = rw k (unfold compensated_entry in g.named) in
      let revision : o.op.revision ≡ y.op.revision = rw k (unfold compensated_entry in refl) in
      let good : IsGood o.operation_id o = record {
        named = refl;
        dated = rw k (unfold compensated_entry in ground (arith, g.dated));
      } in
      let kept : o.op.revision ≡ revision_at o.operation_id j =
        revision ∙ dated ∙ ap (λ t. revision_at t j) (sym name) in
      (
        put-IsLog base j o.operation_id o l good kept,
        Runs-keep j (put j o.operation_id o) c e
            (ground (
              arith,
              revision_at-put j o.operation_id c.operation_id o,
              same_iff o.operation_id c.operation_id,
              kept,
            ))
            r,
      )

  commit_none-IsLog :
      (base : ℕ) (j : Journal C V) (c : Command) (e : Entry V) (m : Mutation C V)
      (x : Option Compensation)
      → IsLog base j
      → Runs j c e
      → IsLog base (compensate_and_commit none j c e m x).1
  unfolding compensate_and_commit commit
  commit_none-IsLog base j c e m none l r = committed-IsLog base j c e m l r
  commit_none-IsLog base j c e m (some x) l r = elim (Option-cases (find_compensated j c x)) [
    | inl q ↦ rw (q, compensate_and_commit) (fail-IsLog base j c e invalid_target l r)
    | inr (o, q) ↦
        let (l', r') = compensated-IsLog base j c e o x l r q in
        rw (q, compensate_and_commit)
          (unfold committed_journal in committed-IsLog base (put j o.operation_id o) c e m l' r')
  ]

  -- However a mutation ends, in the extension, which injects no faults, the journal stays a log.
  pub complete-IsLog :
      (base : ℕ) (j : Journal C V) (c : Command) (e : Entry V) (o : Outcome C V)
      → IsLog base j
      → Runs j c e
      → IsLog base (complete none j c e o).1
  unfolding complete
  complete-IsLog base j c e (threw t) l r = fail-IsLog base j c e t l r
  complete-IsLog base j c e (returned m) l r =
      elim (meanwhile (Dict.get c.operation_id j.entries)) [
        | inl q ↦ rw (q, complete) (commit_none-IsLog base j c e m m.compensation l r)
        | inr (x, q, _) ↦ rw (q, complete) l
      ]
