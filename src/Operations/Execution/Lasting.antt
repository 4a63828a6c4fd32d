-- ===== src/Operations/Execution/Lasting.antt =====
-- src/core/operations/journal.ts: the entry of an applied operation under each call of the journal.
use content_lens.Prelude.{
  ℕ, ◌+◌, ◌≡◌, ◌⊎◌, refl, Bool, true, false, Option, none, some, JsString, arith, ◌∙◌, ap, sym,
  subst, same, same_iff, is_some, Option-cases, Bool-cases, inl, inr,
}
use content_lens.Prelude.Dict.{get-set}
use content_lens.Prelude.Dict
use content_lens.Operations.{
  Entry, Command, Journal, Response, Outcome, returned, threw, Mutation, Thrown, mutation_error,
  interrupted, unknown_error, Compensation,
}
use content_lens.Operations.Entries.{
  is_committed, fresh_entry, running_entry, cancelled_entry, compensated_entry, invalid_target,
}
use content_lens.Operations.Execution.{
  acknowledge, begin, begin_entry, complete, commit, committed_journal, fail, compensate_and_commit,
  find_compensated, put, cancel,
}
use content_lens.Operations.Execution.Replay.{meanwhile}
use content_lens.Operations.Execution.Revisions.{is_applied, revision_at, IsLog}
use content_lens.Operations.Execution.Revisions.Steps.{
  Runs, found-IsGood, acknowledge_cases, cancel_cases,
}
use content_lens.Operations.Execution.Revisions.Commits.{found_original}

module _ {C V : Type 0} where
  -- The entry stands under the id as it was, or was committed and is compensated.
  abbrev pub Lasts : JsString → Entry V → Journal C V → Type 0
  Lasts id x j =
      (Dict.get id j.entries ≡ some x)
      ⊎ ((by : JsString) × (at : JsString) × (is_committed x ≡ true)
          × (Dict.get id j.entries ≡ some (compensated_entry x by at)))

  put_elsewhere :
      (j : Journal C V) (id k : JsString) (e : Entry V)
      → same k id ≡ false
      → Dict.get id (put j k e).entries ≡ Dict.get id j.entries
  put_elsewhere j id k e h = ground (arith, get-set k id e j.entries)

  pub acknowledge-Lasts :
      (is_iso : JsString → Bool) (j : Journal C V) (c : Command) (id : JsString) (x : Entry V)
      → Dict.get id j.entries ≡ some x
      → Dict.get id (acknowledge is_iso j c).1.entries ≡ some x
  acknowledge-Lasts is_iso j c id x found = elim (acknowledge_cases is_iso j c) [
    | inl e ↦ ap (λ k. Dict.get id k.entries) e ∙ found
    | inr (missing, e) ↦
        ap (λ k. Dict.get id k.entries) e
        ∙ ground (
          arith,
          get-set c.operation_id id (fresh_entry c) j.entries,
          same_iff c.operation_id id,
          missing,
          found,
        )
  ]

  pub cancel-Lasts :
      (j : Journal C V) (by at id : JsString) (x : Entry V)
      → Dict.get id j.entries ≡ some x
      → is_applied x ≡ true
      → Dict.get id (cancel j by at).1.entries ≡ some x
  cancel-Lasts j by at id x found applied = elim (cancel_cases j by at) [
    | inl e ↦ ap (λ k. Dict.get id k.entries) e ∙ found
    | inr (y, there, going, e) ↦
        ap (λ k. Dict.get id k.entries) e
        ∙ ground (
          arith,
          get-set by id (cancelled_entry y at) j.entries,
          same_iff by id,
          there,
          found,
          going,
        )
  ]

  begin_entry-Lasts :
      (j : Journal C V) (c : Command) (ack : Response V) (o : Option (Entry V)) (id : JsString)
      (x : Entry V)
      → Dict.get c.operation_id j.entries ≡ o
      → Dict.get id j.entries ≡ some x
      → is_applied x ≡ true
      → Dict.get id (begin_entry j c ack o).1.entries ≡ some x
  unfolding begin_entry
  begin_entry-Lasts j c ack none id x there found applied = found
  begin_entry-Lasts j c ack (some y) id x there found applied = ground (
    arith,
    get-set c.operation_id id (running_entry y c) j.entries,
    same_iff c.operation_id id,
    there,
    found,
  )

  pub begin-Lasts :
      (is_iso : JsString → Bool) (j : Journal C V) (c : Command) (id : JsString) (x : Entry V)
      → Dict.get id j.entries ≡ some x
      → is_applied x ≡ true
      → Dict.get id (begin is_iso j c).1.entries ≡ some x
  unfolding begin
  begin-Lasts is_iso j c id x found applied =
      begin_entry-Lasts (acknowledge is_iso j c).1 c (acknowledge is_iso j c).0 _ id x refl
        (acknowledge-Lasts is_iso j c id x found) applied

  -- An operation that runs is another than one that was applied.
  Runs-elsewhere :
      (base : ℕ) (j : Journal C V) (c : Command) (e : Entry V) (id : JsString) (x : Entry V)
      → IsLog base j
      → Runs j c e
      → Dict.get id j.entries ≡ some x
      → is_applied x ≡ true
      → same c.operation_id id ≡ false
  Runs-elsewhere base j c e id x l r found applied =
      let (g, at) = found-IsGood base j id x l found in
      elim (Bool-cases (same c.operation_id id)) [
        | inl s ↦
            let undated : x.op.revision ≡ none =
              at
              ∙ ap (λ k. revision_at k j) (sym ((same_iff c.operation_id id).0 s))
              ∙ r.unapplied in
            absurd (cc (ap (λ o. is_some o) undated, g.dated, applied))
        | inr s ↦ s
      ]

  fail-Lasts :
      (j : Journal C V) (c : Command) (e : Entry V) (t : Thrown) (id : JsString)
      → same c.operation_id id ≡ false
      → Dict.get id (fail j c e t).1.entries ≡ Dict.get id j.entries
  unfolding fail
  fail-Lasts j c e (interrupted p) id s = refl
  fail-Lasts j c e (mutation_error code message retry) id s = put_elsewhere j id c.operation_id _ s
  fail-Lasts j c e unknown_error id s = put_elsewhere j id c.operation_id _ s

  committed-Lasts :
      (j : Journal C V) (c : Command) (e : Entry V) (m : Mutation C V) (id : JsString)
      → same c.operation_id id ≡ false
      → Dict.get id (committed_journal j c e m none).entries ≡ Dict.get id j.entries
  unfolding committed_journal
  committed-Lasts j c e m id s =
      put_elsewhere
        (record j { profile = record { revision = j.profile.revision + 1; content = m.draft } }) id
        c.operation_id _ s

  compensated-Lasts :
      (base : ℕ) (j : Journal C V) (c : Command) (o : Entry V) (y : Compensation) (id : JsString)
      (x : Entry V)
      → IsLog base j
      → Dict.get id j.entries ≡ some x
      → find_compensated j c y ≡ some o
      → Lasts id x (put j o.operation_id o)
  compensated-Lasts base j c o y id x l found h =
      let (z, there, done, k) = found_original j c y o h in
      let (g, dated) = found-IsGood base j y.operation_id z l there in
      let name : o.operation_id ≡ y.operation_id = rw k (unfold compensated_entry in g.named) in
      elim (Bool-cases (same o.operation_id id)) [
        | inl s ↦
            let here : id ≡ y.operation_id = sym ((same_iff o.operation_id id).0 s) ∙ name in
            let z_is_x : z ≡ x = cc in
            inr (
              c.operation_id,
              c.at,
              subst (λ w. is_committed w ≡ true) z_is_x done,
              ground (arith, get-set o.operation_id id o j.entries)
                  ∙ ap (λ w. some w) k
                  ∙ ap (λ w. some (compensated_entry w c.operation_id c.at)) z_is_x,
            )
        | inr s ↦ inl (put_elsewhere j id o.operation_id o s ∙ found)
      ]

  compensate-Lasts :
      (base : ℕ) (j : Journal C V) (c : Command) (e : Entry V) (m : Mutation C V)
      (y : Option Compensation) (id : JsString) (x : Entry V)
      → IsLog base j
      → Dict.get id j.entries ≡ some x
      → same c.operation_id id ≡ false
      → Lasts id x (compensate_and_commit none j c e m y).1
  unfolding compensate_and_commit commit
  compensate-Lasts base j c e m none id x l found s = inl (committed-Lasts j c e m id s ∙ found)
  compensate-Lasts base j c e m (some y) id x l found s =
      elim (Option-cases (find_compensated j c y)) [
        | inl q ↦ rw (q, compensate_and_commit) (inl (fail-Lasts j c e invalid_target id s ∙ found))
        | inr (o, q) ↦
            let j' = put j o.operation_id o in
            let kept : Dict.get id (committed_journal j c e m (some o)).entries
                ≡ Dict.get id j'.entries =
              unfold committed_journal in committed-Lasts j' c e m id s in
            rw (q, compensate_and_commit)
              (elim (compensated-Lasts base j c o y id x l found q) [
                | inl h ↦ inl (kept ∙ h)
                | inr (by, at, done, h) ↦ inr (by, at, done, kept ∙ h)
              ])
      ]

  pub complete-Lasts :
      (base : ℕ) (j : Journal C V) (c : Command) (e : Entry V) (o : Outcome C V) (id : JsString)
      (x : Entry V)
      → IsLog base j
      → Runs j c e
      → Dict.get id j.entries ≡ some x
      → is_applied x ≡ true
      → Lasts id x (complete none j c e o).1
  unfolding complete
  complete-Lasts base j c e (threw t) id x l r found applied =
      inl (fail-Lasts j c e t id (Runs-elsewhere base j c e id x l r found applied) ∙ found)
  complete-Lasts base j c e (returned m) id x l r found applied =
      elim (meanwhile (Dict.get c.operation_id j.entries)) [
        | inl q ↦
            rw (q, complete)
              (compensate-Lasts base j c e m m.compensation id x l found
                (Runs-elsewhere base j c e id x l r found applied))
        | inr (y, q, _) ↦ rw (q, complete) (inl found)
      ]
