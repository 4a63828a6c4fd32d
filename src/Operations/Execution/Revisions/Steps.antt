-- ===== src/Operations/Execution/Revisions/Steps.antt =====
-- src/core/operations/journal.ts: what each call of the journal keeps of its revisions.
use content_lens.Prelude.{
  ℕ, ◌≡◌, ◌⊎◌, refl, Bool, false, Option, none, some, JsString, arith, ◌∙◌, ap, sym, subst, subst₂,
  same_iff, same_refl, inl, inr,
}
use content_lens.Prelude.Dict.{get-set, get-set_self, Each, Each-set}
use content_lens.Prelude.Dict
use content_lens.Operations.{Entry, Command, Journal, Response}
use content_lens.Operations.Entries.{
  fresh_entry, running_entry, cancelled_entry, is_settled, is_final,
}
use content_lens.Operations.Execution.{
  answered, started, acknowledge, begin, begin_entry, put, cancel,
}
use content_lens.Operations.Execution.Revisions.{
  IsGood, revision_at, IsLog, revision_at-put, put-IsLog,
}

module _ {C V : Type 0} where
  pub found-IsGood :
      (base : ℕ) (j : Journal C V) (id : JsString) (e : Entry V)
      → IsLog base j
      → Dict.get id j.entries ≡ some e
      → IsGood id e × (e.op.revision ≡ revision_at id j)
  found-IsGood base j id e l found = (l.good id e found, rw found)

  pub acknowledge_cases :
      (is_iso : JsString → Bool) (j : Journal C V) (c : Command)
      → ((acknowledge is_iso j c).1 ≡ j)
        ⊎ ((Dict.get c.operation_id j.entries ≡ none)
            × ((acknowledge is_iso j c).1 ≡ put j c.operation_id (fresh_entry c)))
  unfolding acknowledge
  acknowledge_cases is_iso j c = ground arith

  pub acknowledge-IsLog :
      (is_iso : JsString → Bool) (base : ℕ) (j : Journal C V) (c : Command)
      → IsLog base j
      → IsLog base (acknowledge is_iso j c).1
  acknowledge-IsLog is_iso base j c l = elim (acknowledge_cases is_iso j c) [
    | inl e ↦ subst (IsLog base) (sym e) l
    | inr (missing, e) ↦ subst (IsLog base) (sym e) (
        put-IsLog base j c.operation_id (fresh_entry c) l
          (unfold fresh_entry in record { named = refl; dated = refl })
          (unfold fresh_entry in rw missing))
  ]

  -- The entry of an operation that runs: it has no revision, and neither has what stands under its id.
  pub record Runs (j : Journal C V) (c : Command) (e : Entry V) : Type 0 where
    pub named : e.operation_id ≡ c.operation_id
    pub undated : e.op.revision ≡ none
    pub unapplied : revision_at c.operation_id j ≡ none

  begin_entry-IsLog :
      (base : ℕ) (j j' : Journal C V) (c : Command) (ack : Response V) (found : Option (Entry V))
      (e : Entry V)
      → IsLog base j
      → Dict.get c.operation_id j.entries ≡ found
      → begin_entry j c ack found ≡ (started e, j')
      → IsLog base j' × Runs j' c e
  unfolding begin_entry
  begin_entry-IsLog base j j' c ack none e l found h = cc
  begin_entry-IsLog base j j' c ack (some x) e l found h =
      let (g, r) = found-IsGood base j c.operation_id x l found in
      let old : is_settled x ≡ false = ground arith in
      let k : j' ≡ put j c.operation_id (running_entry x c) = ground arith in
      let k' : e ≡ running_entry x c = ground arith in
      let undated : x.op.revision ≡ none = ground (arith, g.dated) in
      subst₂ (λ a b. IsLog base a × Runs a c b) (sym k) (sym k')
        (
          put-IsLog base j c.operation_id (running_entry x c) l
              (unfold running_entry in record { named = g.named; dated = rw undated })
              (unfold running_entry in r),
          record {
            named = unfold running_entry in g.named;
            undated = unfold running_entry in undated;
            unapplied =
                revision_at-put j c.operation_id c.operation_id (running_entry x c)
                ∙ rw same_refl (unfold running_entry in undated);
          },
        )

  begin_entry_answered :
      (j j' : Journal C V) (c : Command) (ack r : Response V) (found : Option (Entry V))
      → begin_entry j c ack found ≡ (answered r, j')
      → j' ≡ j
  unfolding begin_entry
  begin_entry_answered j j' c ack r none h = ground arith
  begin_entry_answered j j' c ack r (some x) h = ground arith

  pub begin-IsLog_started :
      (is_iso : JsString → Bool) (base : ℕ) (j j' : Journal C V) (c : Command) (e : Entry V)
      → IsLog base j
      → begin is_iso j c ≡ (started e, j')
      → IsLog base j' × Runs j' c e
  unfolding begin
  begin-IsLog_started is_iso base j j' c e l h =
      begin_entry-IsLog base (acknowledge is_iso j c).1 j' c (acknowledge is_iso j c).0 _ e
        (acknowledge-IsLog is_iso base j c l) refl h

  pub begin-IsLog_answered :
      (is_iso : JsString → Bool) (base : ℕ) (j j' : Journal C V) (c : Command) (r : Response V)
      → IsLog base j
      → begin is_iso j c ≡ (answered r, j')
      → IsLog base j'
  unfolding begin
  begin-IsLog_answered is_iso base j j' c r l h =
      subst (IsLog base)
        (sym
          (begin_entry_answered (acknowledge is_iso j c).1 j' c (acknowledge is_iso j c).0 r _ h))
        (acknowledge-IsLog is_iso base j c l)

  pub cancel_cases :
      (j : Journal C V) (id at : JsString)
      → ((cancel j id at).1 ≡ j)
        ⊎ ((e : Entry V) × (Dict.get id j.entries ≡ some e)
            × (is_final e ≡ false)
            × ((cancel j id at).1 ≡ put j id (cancelled_entry e at)))
  unfolding cancel
  cancel_cases j id at = ground arith

  pub cancel-IsLog :
      (base : ℕ) (j : Journal C V) (id at : JsString) → IsLog base j → IsLog base (cancel j id at).1
  cancel-IsLog base j id at l = elim (cancel_cases j id at) [
    | inl e ↦ subst (IsLog base) (sym e) l
    | inr (e, found, going, k) ↦
        let (g, r) = found-IsGood base j id e l found in
        subst (IsLog base) (sym k) (
          put-IsLog base j id (cancelled_entry e at) l
            (unfold cancelled_entry in record { named = g.named; dated = ground (arith, g.dated) })
            (unfold cancelled_entry in r))
  ]

  -- A call that leaves every revision alone leaves an operation running.
  pub Runs-keep :
      (j j' : Journal C V) (c : Command) (e : Entry V)
      → revision_at c.operation_id j' ≡ revision_at c.operation_id j
      → Runs j c e
      → Runs j' c e
  Runs-keep j j' c e h r = record {
    named = r.named;
    undated = r.undated;
    unapplied = h ∙ r.unapplied;
  }

  pub revision_at-acknowledge :
      (is_iso : JsString → Bool) (j : Journal C V) (c : Command) (id : JsString)
      → revision_at id (acknowledge is_iso j c).1 ≡ revision_at id j
  revision_at-acknowledge is_iso j c id = elim (acknowledge_cases is_iso j c) [
    | inl e ↦ ap (revision_at id) e
    | inr (missing, e) ↦
        ap (revision_at id) e
        ∙ unfold fresh_entry in
          ground (
            arith,
            revision_at-put j c.operation_id id (fresh_entry c),
            same_iff c.operation_id id,
            missing,
          )
  ]

  pub revision_at-cancel :
      (base : ℕ) (j : Journal C V) (id at : JsString)
      → IsLog base j
      → (k : JsString) → revision_at k (cancel j id at).1 ≡ revision_at k j
  revision_at-cancel base j id at l k = elim (cancel_cases j id at) [
    | inl e ↦ ap (revision_at k) e
    | inr (x, found, going, e) ↦
        ap (revision_at k) e
        ∙ unfold cancelled_entry in
          ground (arith, revision_at-put j id k (cancelled_entry x at), same_iff id k, found)
  ]
