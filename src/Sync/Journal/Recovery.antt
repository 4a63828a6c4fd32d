-- ===== src/Sync/Journal/Recovery.antt =====
-- src/sync/journal.ts: what a journal holds, and the decision after an interruption.
use content_lens.Prelude.{
  ◌≤◌, ◌≡◌, Bool, true, none, some, List, [], ◌∷◌, JsString, arith, if◌then◌else◌, same, ◌⊎◌, inl,
  inr, Option-cases,
}
use content_lens.Sync.Journal.{
  Phase, local_committed, push_attempted, Record, Update, confirm_remote, retry_push, remerge,
  reread_remote, conforms, initial, create, updated, advance, parse, is_committed_phase, is_truthy,
  decide_recovery,
}
use content_lens.Sync.Journal.Passed.{Reach, begins, follows}

-- A journal conforms to its schema, is of its synchronisation, and has a candidate from the local commit on.
pub record IsJournal (is_iso : JsString → Bool) (operation profile base at : JsString) (r : Record)
    : Type 0 where
  pub conforming : conforms is_iso r ≡ true
  pub of_operation : r.operation_id ≡ operation
  pub of_profile : r.sync_profile_id ≡ profile
  pub of_base : r.base_digest ≡ base
  pub begun_at : r.started_at ≡ at
  pub candidate : is_committed_phase r.phase ≡ true → is_truthy r.candidate_digest ≡ true
  pub attempts : r.attempt ≤ 3

conforms-attempt :
    (is_iso : JsString → Bool) (r : Record) → conforms is_iso r ≡ true → r.attempt ≤ 3
unfolding conforms
conforms-attempt is_iso r h = ground arith

module _ {is_iso : JsString → Bool} {operation profile base at : JsString} where
  create-IsJournal :
      {r : Record}
      → create is_iso operation profile base at ≡ some r
      → IsJournal is_iso operation profile base at r
  unfolding create initial parse
  create-IsJournal e = ground arith

  advance-IsJournal :
      {r r' : Record} (u : Update)
      → IsJournal is_iso operation profile base at r
      → advance is_iso r u ≡ some r'
      → IsJournal is_iso operation profile base at r'
  unfolding advance updated parse
  advance-IsJournal {r} {r'} u v e = ground (arith, conforms-attempt is_iso r')

  pub Reach-IsJournal :
      {r : Record} {ps : List Phase}
      → Reach is_iso operation profile base at r ps
      → IsJournal is_iso operation profile base at r
  Reach-IsJournal (begins e) = create-IsJournal e
  Reach-IsJournal (follows u w e) = advance-IsJournal u (Reach-IsJournal w) e

  not_there :
      (r : Record)
      → IsJournal is_iso operation profile base at r
      → (r.phase ≡ local_committed) ⊎ (r.phase ≡ push_attempted)
      → r.candidate_digest ≡ none
      → ⊥
  not_there r v h q = ground arith

  committed_decision :
      (r : Record) (candidate remote : JsString)
      → IsJournal is_iso operation profile base at r
      → (r.phase ≡ local_committed) ⊎ (r.phase ≡ push_attempted)
      → r.candidate_digest ≡ some candidate
      → is_truthy (some remote) ≡ true
      → decide_recovery is_iso r (some remote)
        ≡ some (
            if same remote candidate
            then confirm_remote
            else if same remote base
            then retry_push
            else remerge)
  unfolding decide_recovery
  committed_decision r candidate [] v h q t = cc
  committed_decision r candidate (c ∷ s) v h q t = ground arith

  -- After a local commit, also with a push under way, the journal has the digest of the candidate. The
  -- decision after an interruption is to read the remote where nothing is known of it; where its digest is known and not empty, to confirm it where
  -- it holds the candidate, to push again where it still holds the base, and else to merge again.
  pub recovery_by_remote :
      {r : Record} {ps : List Phase} (remote : JsString)
      → Reach is_iso operation profile base at r ps
      → (r.phase ≡ local_committed) ⊎ (r.phase ≡ push_attempted)
      → is_truthy (some remote) ≡ true
      → (candidate : JsString) × (r.candidate_digest ≡ some candidate)
        × (decide_recovery is_iso r none ≡ some reread_remote)
        × (decide_recovery is_iso r (some remote)
            ≡ some (
                if same remote candidate
                then confirm_remote
                else if same remote base
                then retry_push
                else remerge))
  unfolding decide_recovery
  recovery_by_remote {r} remote w h t =
      let v = Reach-IsJournal w in
      elim (Option-cases r.candidate_digest) [
        | inl q ↦ absurd (not_there r v h q)
        | inr (c, q) ↦ (c, q, ground arith, committed_decision r c remote v h q t)
      ]
