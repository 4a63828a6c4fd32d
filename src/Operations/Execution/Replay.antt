-- ===== src/Operations/Execution/Replay.antt =====
-- src/core/operations/journal.ts: what `execute` answers to a command whose operation is settled.
use content_lens.Prelude.{
  ℕ, ◌+◌, ◌≡◌, ◌≢◌, ◌⊎◌, refl, Bool, true, Option, none, some, JsString, arith, ◌∙◌, ap, sym, subst,
  same_iff, Bool-cases, Option-cases, inl, inr,
}
use content_lens.Prelude.Dict.{get-set, get-set_self}
use content_lens.Prelude.Dict
use content_lens.Operations.{
  Entry, Command, Profile, Journal, Response, committed_at, was_cancelled, Outcome, returned, threw,
  Mutation, Thrown, FaultInjector, Compensation,
}
use content_lens.Operations.Entries.{
  command_is_valid, matches, response, is_settled, committed_entry, running_entry, failed_entry,
  fresh_entry, conflict_failure, invalid_command_failure, invalid_target, cancelled_meanwhile,
  is_cancelled,
}
use content_lens.Operations.Execution.{
  Begun, answered, started, acknowledge, begin, complete, execute, commit, committed_journal, fail,
  compensate_and_commit, find_compensated, continue_begun,
}

module _ {V : Type 0} where
  pub meanwhile :
      (o : Option (Entry V))
      → (cancelled_meanwhile o ≡ none)
        ⊎ ((x : Entry V) × (cancelled_meanwhile o ≡ some x) × (is_cancelled x ≡ true))
  meanwhile none = inl refl
  meanwhile (some e) = ground arith

  pub cancelled_answer :
      (revision : ℕ) (x : Entry V)
      → is_cancelled x ≡ true
      → response revision x ≡ was_cancelled x.committed_effects
  unfolding response
  cancelled_answer revision x h = ground arith

module _ {C V : Type 0} (is_iso : JsString → Bool) where
  -- A settled operation answers from its entry, whatever would be executed, and changes nothing.
  pub settled_again :
      (inject : Option FaultInjector) (j : Journal C V) (c : Command) (e : Entry V)
      (mutate : Profile C → Outcome C V)
      → command_is_valid is_iso c ≡ true
      → Dict.get c.operation_id j.entries ≡ some e
      → matches e c ≡ true
      → is_settled e ≡ true
      → execute is_iso inject j c mutate ≡ (some (response j.profile.revision e), j)
  unfolding execute begin acknowledge
  settled_again inject j c e mutate valid found fits settled = ground arith

  -- The entry under a command's id answers the command by `r` at once.
  pub record Answers (j : Journal C V) (c : Command) (r : Response V) : Type 0 where
    pub entry : Entry V
    pub valid : command_is_valid is_iso c ≡ true
    pub found : Dict.get c.operation_id j.entries ≡ some entry
    pub fits : matches entry c ≡ true
    pub settled : is_settled entry ≡ true
    pub answer : response j.profile.revision entry ≡ r

  begin-matches :
      (j j' : Journal C V) (c : Command) (e : Entry V)
      → begin is_iso j c ≡ (started e, j')
      → matches e c ≡ true
  unfolding begin acknowledge matches running_entry fresh_entry
  begin-matches j j' c e h = ground (
    arith,
    get-set_self c.operation_id (fresh_entry c) j.entries,
    same_iff c.kind c.kind,
    same_iff c.target_fingerprint c.target_fingerprint,
  )

  -- A committed answer can only come from an entry that was there.
  begin_found :
      (j j' : Journal C V) (c : Command) (v : Option V) (n : ℕ)
      → command_is_valid is_iso c ≡ true
      → begin is_iso j c ≡ (answered (committed_at v n), j')
      → Dict.get c.operation_id j.entries ≢ none
  unfolding begin acknowledge fresh_entry matches response
  begin_found j j' c v n valid h missing = ground (
    arith,
    get-set_self c.operation_id (fresh_entry c) j.entries,
    same_iff c.kind c.kind,
    same_iff c.target_fingerprint c.target_fingerprint,
  )

  begin_entry-Answers :
      (j j' : Journal C V) (c : Command) (e : Entry V) (v : Option V) (n : ℕ)
      → command_is_valid is_iso c ≡ true
      → Dict.get c.operation_id j.entries ≡ some e
      → begin is_iso j c ≡ (answered (committed_at v n), j')
      → (matches e c ≡ true)
        × (is_settled e ≡ true)
        × (response j.profile.revision e ≡ committed_at v n)
        × (j' ≡ j)
  unfolding begin acknowledge conflict_failure
  begin_entry-Answers j j' c e v n valid found h = ground arith

  begin-Answers :
      (j j' : Journal C V) (c : Command) (v : Option V) (n : ℕ)
      → command_is_valid is_iso c ≡ true
      → begin is_iso j c ≡ (answered (committed_at v n), j')
      → Answers j' c (committed_at v n)
  begin-Answers j j' c v n valid h = elim (Option-cases (Dict.get c.operation_id j.entries)) [
    | inl none_there ↦ absurd (begin_found j j' c v n valid h none_there)
    | inr (e, found) ↦
        let (fits, settled, answer, same_journal) =
          begin_entry-Answers j j' c e v n valid found h in
        subst (λ k. Answers k c (committed_at v n)) (sym same_journal)
          (record {
            entry = e;
            valid = valid;
            found = found;
            fits = fits;
            settled = settled;
            answer = answer;
          })
  ]

  fail_uncommitted :
      (j j' : Journal C V) (c : Command) (e : Entry V) (t : Thrown) (v : Option V) (n : ℕ)
      → fail j c e t ≡ (some (committed_at v n), j')
      → ⊥
  unfolding fail response failed_entry
  fail_uncommitted j j' c e (Thrown.interrupted p) v n h = cc
  fail_uncommitted j j' c e (Thrown.mutation_error a b r) v n h = cc
  fail_uncommitted j j' c e Thrown.unknown_error v n h = cc

  commit-Answers :
      (j j' : Journal C V) (c : Command) (e : Entry V) (m : Mutation C V)
      (original : Option (Entry V)) (v : Option V) (n : ℕ)
      → command_is_valid is_iso c ≡ true
      → matches e c ≡ true
      → commit none j c e m original ≡ (some (committed_at v n), j')
      → Answers j' c (committed_at v n)
  unfolding commit committed_journal
  commit-Answers j j' c e m original v n valid fits h = record {
    entry = committed_entry e c (j.profile.revision + 1) m.value m.effects;
    valid = valid;
    found =
        ap (λ t. Dict.get c.operation_id t.1.entries) (sym h)
        ∙ get-set_self c.operation_id
            (committed_entry e c (j.profile.revision + 1) m.value m.effects) _;
    fits = unfold committed_entry matches in fits;
    settled = unfold committed_entry in refl;
    answer = unfold response committed_entry in ground arith;
  }

  compensate-Answers :
      (j j' : Journal C V) (c : Command) (e : Entry V) (m : Mutation C V) (x : Option Compensation)
      (v : Option V) (n : ℕ)
      → command_is_valid is_iso c ≡ true
      → matches e c ≡ true
      → compensate_and_commit none j c e m x ≡ (some (committed_at v n), j')
      → Answers j' c (committed_at v n)
  unfolding compensate_and_commit
  compensate-Answers j j' c e m none v n valid fits h =
      commit-Answers j j' c e m none v n valid fits h
  compensate-Answers j j' c e m (some x) v n valid fits h =
      elim (Option-cases (find_compensated j c x)) [
        | inl q ↦
            absurd
              (fail_uncommitted j j' c e invalid_target v n (rw (q, compensate_and_commit) at h))
        | inr (o, q) ↦
            commit-Answers j j' c e m (some o) v n valid fits (rw (q, compensate_and_commit) at h)
      ]

  complete-Answers :
      (j j' : Journal C V) (c : Command) (e : Entry V) (o : Outcome C V) (v : Option V) (n : ℕ)
      → command_is_valid is_iso c ≡ true
      → matches e c ≡ true
      → complete none j c e o ≡ (some (committed_at v n), j')
      → Answers j' c (committed_at v n)
  unfolding complete
  complete-Answers j j' c e (threw t) v n valid fits h = absurd (fail_uncommitted j j' c e t v n h)
  complete-Answers j j' c e (returned m) v n valid fits h =
      elim (meanwhile (Dict.get c.operation_id j.entries)) [
        | inl q ↦
            compensate-Answers j j' c e m m.compensation v n valid fits (rw (q, complete) at h)
        | inr (x, q, gone) ↦
            cc (ap (λ t. t.0) (rw (q, complete) at h), cancelled_answer j.profile.revision x gone)
      ]

  begun-Answers :
      (j j' j'' : Journal C V) (c : Command) (b : Begun V) (mutate : Profile C → Outcome C V)
      (v : Option V) (n : ℕ)
      → command_is_valid is_iso c ≡ true
      → begin is_iso j c ≡ (b, j')
      → continue_begun none c mutate b j' ≡ (some (committed_at v n), j'')
      → Answers j'' c (committed_at v n)
  unfolding continue_begun
  begun-Answers j j' j'' c (answered r) mutate v n valid e h =
      begin-Answers j j'' c v n valid (ground arith)
  begun-Answers j j' j'' c (started x) mutate v n valid e h =
      complete-Answers j' j'' c x (mutate j'.profile) v n valid (begin-matches j j' c x e) h

  -- What stands under the id of a command that was answered as committed.
  pub execute-Answers :
      (j j' : Journal C V) (c : Command) (mutate : Profile C → Outcome C V) (v : Option V) (n : ℕ)
      → execute is_iso none j c mutate ≡ (some (committed_at v n), j')
      → Answers j' c (committed_at v n)
  unfolding execute invalid_command_failure
  execute-Answers j j' c mutate v n h = elim (Bool-cases (command_is_valid is_iso c)) [
    | inl valid ↦
        begun-Answers j (begin is_iso j c).1 j' c (begin is_iso j c).0 mutate v n valid refl
          (rw (valid, execute) at h)
    | inr bad ↦ cc (ap (λ t. t.0) (rw (bad, execute, invalid_command_failure) at h))
  ]
