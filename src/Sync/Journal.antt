-- ===== src/Sync/Journal.antt =====
-- src/sync/journal.ts: the record of one synchronisation, and what to do after an interruption.
pub mod Passed
pub mod Recovery
use content_lens.Prelude.{
  ℕ, ◌+◌, Bool, true, false, not, ◌&&◌, ◌||◌, Option, none, some, List, [], ◌∷◌, ◌++◌, JsString, js,
  ltb, leb, ◌==◌, same, any, length, has_text, if◌then◌else◌,
}

-- `SYNC_JOURNAL_PHASES`
pub data Phase : Type 0 where
  started remote_read validated snapshot_created local_committed : Phase
  push_attempted remote_confirmed completed conflict degraded : Phase

-- `SyncJournalRecord`
pub record Record : Type 0 where
  pub id : JsString
  pub operation_id : JsString
  pub sync_profile_id : JsString
  pub phase : Phase
  pub attempt : ℕ
  pub started_at : JsString
  pub updated_at : JsString
  pub base_digest : JsString
  pub candidate_digest : Option JsString
  pub remote_version_token : Option JsString
  pub error_code : Option JsString

is_hex : ℕ → Bool
is_hex c = (leb b'a' c && leb c b'f') || (leb b'0' c && leb c b'9')

-- `/^[a-f0-9]{64}$/`
unfoldable pub is_digest : JsString → Bool
unfolding is_hex
is_digest s = length s == 64 && not (any (λ c. not (is_hex c)) s)

-- `nonEmptyStringSchema.max(…)`
unfoldable pub is_text : ℕ → JsString → Bool
is_text limit s = has_text s && leb (length s) limit

-- `.optional()`
abbrev pub if_there : (JsString → Bool) → Option JsString → Bool
if_there test none = true
if_there test (some s) = test s

-- `syncJournalRecordSchema`; `is_iso` is the test of a timestamp by zod.
unfoldable pub conforms : (JsString → Bool) → Record → Bool
conforms is_iso r =
    is_text 512 r.id
    && is_text 256 r.operation_id
    && is_text 256 r.sync_profile_id
    && leb r.attempt 3
    && is_iso r.started_at
    && is_iso r.updated_at
    && is_digest r.base_digest
    && if_there is_digest r.candidate_digest
    && if_there (is_text 1024) r.remote_version_token
    && if_there (is_text 128) r.error_code

-- `syncJournalRecordSchema.parse`; `none` is its `throw`.
unfoldable pub parse : (JsString → Bool) → Record → Option Record
parse is_iso r = if conforms is_iso r then some r else none

-- `transitions`: whether the second phase may follow the first.
unfoldable pub may_follow : Phase → Phase → Bool
may_follow started remote_read = true
may_follow started degraded = true
may_follow remote_read validated = true
may_follow remote_read degraded = true
may_follow validated snapshot_created = true
may_follow validated local_committed = true
may_follow validated conflict = true
may_follow validated degraded = true
may_follow snapshot_created local_committed = true
may_follow snapshot_created degraded = true
may_follow local_committed push_attempted = true
may_follow local_committed degraded = true
may_follow push_attempted remote_confirmed = true
may_follow push_attempted remote_read = true
may_follow push_attempted conflict = true
may_follow push_attempted degraded = true
may_follow remote_confirmed completed = true
may_follow remote_confirmed degraded = true
may_follow _ _ = false

unfoldable pub initial : JsString → JsString → JsString → JsString → Record
initial operation_id sync_profile_id base_digest at = record {
  id = js "sync-journal:" ++ sync_profile_id;
  operation_id = operation_id;
  sync_profile_id = sync_profile_id;
  phase = started;
  attempt = 0;
  started_at = at;
  updated_at = at;
  base_digest = base_digest;
  candidate_digest = none;
  remote_version_token = none;
  error_code = none;
}

-- `createSyncJournal`
unfoldable pub create :
    (JsString → Bool) → JsString → JsString → JsString → JsString → Option Record
unfolding parse initial
create is_iso operation_id sync_profile_id base_digest at =
    parse is_iso (initial operation_id sync_profile_id base_digest at)

pub record Update : Type 0 where
  pub phase : Phase
  pub attempt : ℕ
  pub at : JsString
  pub candidate_digest : Option JsString
  pub remote_version_token : Option JsString
  pub error_code : Option JsString

-- The phases that want the digest of a candidate.
abbrev pub is_committed_phase : Phase → Bool
is_committed_phase local_committed = true
is_committed_phase push_attempted = true
is_committed_phase remote_confirmed = true
is_committed_phase completed = true
is_committed_phase _ = false

-- `a ?? b` of optional texts
abbrev pub or_else : Option JsString → Option JsString → Option JsString
or_else none b = b
or_else (some a) b = some a

-- Whether a text is there and not empty.
abbrev pub is_truthy : Option JsString → Bool
is_truthy none = false
is_truthy (some []) = false
is_truthy (some (c ∷ s)) = true

unfoldable pub updated : Record → Update → Record
updated r u = record r {
  phase = u.phase;
  attempt = u.attempt;
  candidate_digest = or_else u.candidate_digest r.candidate_digest;
  remote_version_token = or_else u.remote_version_token r.remote_version_token;
  error_code = u.error_code;
  updated_at = u.at;
}

-- `advanceSyncJournal`
unfoldable pub advance : (JsString → Bool) → Record → Update → Option Record
unfolding parse updated
advance is_iso r u =
    if not (conforms is_iso r)
    then none
    else if not (may_follow r.phase u.phase)
    then none
    else if ltb u.attempt r.attempt
    then none
    else if is_committed_phase u.phase
        && not (is_truthy (or_else u.candidate_digest r.candidate_digest))
    then none
    else parse is_iso (updated r u)

-- `SyncRecoveryDecision`
pub data Decision : Type 0 where
  restart_from_base reread_remote confirm_remote retry_push remerge : Decision
  complete await_conflict degraded : Decision

same_digest : JsString → Option JsString → Bool
same_digest remote none = false
same_digest remote (some s) = same remote s

-- The decision on what the remote holds, after a local commit.
unfoldable pub compare_remote : Record → Option JsString → Decision
unfolding same_digest
compare_remote r none = reread_remote
compare_remote r (some []) = reread_remote
compare_remote r (some (c ∷ s)) =
    if same_digest (c ∷ s) r.candidate_digest
    then confirm_remote
    else if same (c ∷ s) r.base_digest
    then retry_push
    else remerge

unfoldable pub decide_phase : Phase → Record → Option JsString → Decision
unfolding compare_remote
decide_phase started r remote = restart_from_base
decide_phase remote_read r remote = restart_from_base
decide_phase validated r remote = restart_from_base
decide_phase snapshot_created r remote = restart_from_base
decide_phase local_committed r remote = compare_remote r remote
decide_phase push_attempted r remote = compare_remote r remote
decide_phase conflict r remote = await_conflict
decide_phase Phase.degraded r remote = Decision.degraded
decide_phase remote_confirmed r remote = complete
decide_phase completed r remote = complete

-- `decideSyncRecovery`; `none` is the `throw` of the schema.
unfoldable pub decide_recovery : (JsString → Bool) → Record → Option JsString → Option Decision
unfolding decide_phase
decide_recovery is_iso r remote =
    if conforms is_iso r then some (decide_phase r.phase r remote) else none
