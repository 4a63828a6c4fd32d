-- ===== src/Examples/Recoveries.antt =====
-- src/sync/journal.ts at concrete inputs.
use content_lens.Prelude.{
  ℕ, zero, suc, ◌≡◌, inl, refl, Bool, true, Option, none, some, List, [], ◌∷◌, JsString, js,
  if◌then◌else◌, same, has_text,
}
use content_lens.Sync.Journal.{
  Phase, started, remote_read, validated, local_committed, push_attempted, remote_confirmed,
  completed, Record, Update, create, initial, parse, conforms, advance, updated, is_digest, is_text,
  may_follow, decide_recovery, confirm_remote, retry_push, remerge, reread_remote,
}
use content_lens.Sync.Journal.Passed.{Reach, begins, follows, Passed, Reach-Passed}
use content_lens.Sync.Journal.Recovery.{recovery_by_remote}

abbrev digest_of : ℕ → JsString
digest_of c = row 64
  where
    row : ℕ → JsString
    row zero = []
    row (suc n) = c ∷ row n

abbrev any_time : JsString → Bool
any_time s = true

abbrev journal_at : Phase → Option JsString → Record
journal_at phase candidate = record {
  id = js "sync-journal:p1";
  operation_id = js "o1";
  sync_profile_id = js "p1";
  phase = phase;
  attempt = 0;
  started_at = js "t";
  updated_at = js "t";
  base_digest = digest_of 97;
  candidate_digest = candidate;
  remote_version_token = none;
  error_code = none;
}

abbrev move : Phase → Option JsString → Update
move phase candidate = record {
  phase = phase;
  attempt = 0;
  at = js "t";
  candidate_digest = candidate;
  remote_version_token = none;
  error_code = none;
}

abbrev Journals : Phase → Option JsString → List Phase → Type 0
Journals phase candidate ps =
    Reach any_time (js "o1") (js "p1") (digest_of 97) (js "t") (journal_at phase candidate) ps

abbrev candidate : Option JsString
candidate = some (digest_of 98)

to_commit :
    Journals local_committed candidate (local_committed ∷ validated ∷ remote_read ∷ started ∷ [])
unfolding create initial parse conforms is_digest is_text advance updated may_follow has_text
to_commit =
    follows {r = journal_at validated none} (move local_committed candidate)
      (follows {r = journal_at remote_read none} (move validated none)
        (follows {r = journal_at started none} (move remote_read none) (begins refl) refl) refl)
      refl

recovery_by_remote_example :
    (c : JsString) × (some (digest_of 98) ≡ some c)
    × (decide_recovery any_time (journal_at local_committed candidate) none ≡ some reread_remote)
    × (decide_recovery any_time (journal_at local_committed candidate) (some (digest_of 97))
        ≡ some (
            if same (digest_of 97) c
            then confirm_remote
            else if same (digest_of 97) (digest_of 97)
            then retry_push
            else remerge))
recovery_by_remote_example = recovery_by_remote (digest_of 97) to_commit (inl refl) refl

confirmed_there :
    Journals remote_confirmed candidate
      (remote_confirmed ∷ push_attempted ∷ local_committed ∷ validated ∷ remote_read ∷ started ∷ [])
unfolding create initial parse conforms is_digest is_text advance updated may_follow has_text
confirmed_there =
    follows {r = journal_at push_attempted candidate} (move remote_confirmed none)
      (follows {r = journal_at local_committed candidate} (move push_attempted none) to_commit refl)
      refl

done : Journals completed candidate (
    completed ∷ remote_confirmed ∷ push_attempted ∷ local_committed ∷ validated ∷ remote_read
    ∷ started ∷ [])
unfolding create initial parse conforms is_digest is_text advance updated may_follow has_text
done =
    follows {r = journal_at remote_confirmed candidate} (move completed none) confirmed_there refl

Reach-Passed_example : Passed completed (
    completed ∷ remote_confirmed ∷ push_attempted ∷ local_committed ∷ validated ∷ remote_read
    ∷ started ∷ [])
Reach-Passed_example = Reach-Passed done
