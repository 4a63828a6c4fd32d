-- ===== src/Operations/Execution/Revisions.antt =====
-- src/core/operations/journal.ts: each revision of the profile belongs to one operation.
pub mod Steps
pub mod Commits
use content_lens.Prelude.{
  ℕ, suc, ◌+◌, ◌≤◌, ◌<◌, ◌≡◌, ◌≢◌, ◌⊎◌, refl, Bool, true, false, Option, none, some, JsString, js,
  arith, ◌∙◌, ap, sym, subst, subst₂, same_iff, same, same_refl, Bool-cases, Option-cases, inl, inr,
  is_some, if◌then◌else◌,
}
use native.Mathlib.Decide.{dec_le}
use content_lens.Prelude.Dict.{get-set, get-set_self, Each, Each-set}
use content_lens.Prelude.Dict
use content_lens.Operations.{
  Entry, Command, Profile, Journal, committed, compensated, Outcome, returned, threw, Mutation,
  Thrown, mutation_error, interrupted, unknown_error, Compensation, Response,
}
use content_lens.Operations.Entries.{
  fresh_entry, running_entry, committed_entry, failed_entry, cancelled_entry, compensated_entry,
  invalid_target, cancelled_meanwhile, is_committed, is_settled, is_final,
}
use content_lens.Operations.Execution.{
  Begun, answered, started, acknowledge, begin, begin_entry, complete, commit, committed_journal,
  fail, compensate_and_commit, find_compensated, put, put_compensated, cancel,
}

module _ {V : Type 0} where
  -- Whether the operation has changed the profile: it is committed, or was and is compensated.
  abbrev pub is_applied : Entry V → Bool
  is_applied e = elim e.state [ committed ↦ true | compensated ↦ true | _ ↦ false ]

  -- An entry stands under its own id, and has a revision exactly when it was applied.
  pub record IsGood (id : JsString) (e : Entry V) : Type 0 where
    pub named : e.operation_id ≡ id
    pub dated : is_some e.op.revision ≡ is_applied e

  abbrev pub revision_of : Option (Entry V) → Option ℕ
  revision_of none = none
  revision_of (some e) = e.op.revision

module _ {C V : Type 0} where
  abbrev pub revision_at : JsString → Journal C V → Option ℕ
  revision_at id j = revision_of (Dict.get id j.entries)

  -- The revisions after `base` and up to the profile's are those of the applied operations, one each.
  pub record IsLog (base : ℕ) (j : Journal C V) : Type 0 where
    pub started_at : base ≤ j.profile.revision
    pub good : Each IsGood j.entries
    pub bound :
        (id : JsString) (r : ℕ) → revision_at id j ≡ some r → (base < r) × (r ≤ j.profile.revision)
    pub unique :
        (a b : JsString) (r : ℕ) → revision_at a j ≡ some r → revision_at b j ≡ some r → a ≡ b
    pub covers :
        (r : ℕ) → base < r → r ≤ j.profile.revision → (id : JsString) × (revision_at id j ≡ some r)

  pub revision_at-put :
      (j : Journal C V) (id k : JsString) (e : Entry V)
      → revision_at k (put j id e) ≡ (if same id k then e.op.revision else revision_at k j)
  revision_at-put j id k e = ground (arith, get-set id k e j.entries)

  -- A write that keeps the revision of its entry.
  pub put-IsLog :
      (base : ℕ) (j : Journal C V) (id : JsString) (e : Entry V)
      → IsLog base j
      → IsGood id e
      → e.op.revision ≡ revision_at id j
      → IsLog base (put j id e)
  put-IsLog base j id e l g keeps =
      let same_revision : (k : JsString) → revision_at k (put j id e) ≡ revision_at k j =
        λ k. kept k in
      record {
        started_at = l.started_at;
        good = Each-set IsGood id e j.entries l.good g;
        bound = λ k r h. l.bound k r (sym (same_revision k) ∙ h);
        unique =
            λ a b r h h'. l.unique a b r (sym (same_revision a) ∙ h) (sym (same_revision b) ∙ h');
        covers = λ r lo hi. let (k, h) = l.covers r lo hi in (k, same_revision k ∙ h);
      }
    where
      kept : (k : JsString) → revision_at k (put j id e) ≡ revision_at k j
      kept k = ground (arith, revision_at-put j id k e, same_iff id k)

  -- The write of a commit: the next revision, at an operation that had none.
  pub commit-IsLog :
      (base : ℕ) (j : Journal C V) (content : C) (id : JsString) (e : Entry V)
      → IsLog base j
      → IsGood id e
      → revision_at id j ≡ none
      → e.op.revision ≡ some (j.profile.revision + 1)
      → IsLog base (
          put
            (record j { profile = record { revision = j.profile.revision + 1; content = content } })
            id
            e)
  commit-IsLog base j content id e l g new next = record {
    started_at = omega (arith, l.started_at);
    good = Each-set IsGood id e j.entries l.good g;
    bound = λ k r h. ground (arith, at k, l.bound k r, l.started_at);
    unique = λ a b r h h'.
        ground (
          arith,
          at a,
          at b,
          l.bound a r,
          l.bound b r,
          l.unique a b r,
          same_iff id a,
          same_iff id b,
        );
    covers = λ r lo hi. elim (dec_le r j.profile.revision) [
      | yes old ↦ let (k, h) = l.covers r lo old in (k, ground (arith, at k, same_iff id k))
      | no recent ↦ (id, ground (arith, at id, same_refl id))
    ];
  }
    where
      next_journal : Journal C V
      next_journal =
          put
            (record j { profile = record { revision = j.profile.revision + 1; content = content } })
            id e

      at :
          (k : JsString)
          → revision_at k next_journal ≡ (if same id k then e.op.revision else revision_at k j)
      at k = ground (arith, get-set id k e j.entries)
