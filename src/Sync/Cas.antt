-- ===== src/Sync/Cas.antt =====
-- src/sync/cas-service.ts: `SyncCasService`, as a program that calls its store and its transport and goes on with
-- what they answer. A call that throws outside of a `try` ends the program there.
pub mod Runs
pub mod Phases
pub mod Confirmed
use content_lens.Prelude.{
  ℕ, zero, suc, ◌+◌, Bool, true, false, not, ◌&&◌, ◌||◌, Option, none, some, List, [], ◌∷◌,
  JsString, ◌==◌, ltb, leb, any, length, if◌then◌else◌,
}
use content_lens.Sync.Envelope.{
  Envelope, Platform, Verdict, valid, invalid_envelope, digest_mismatch, verify,
}
use content_lens.Sync.Merge.{Conflict, Result, merge_sync_envelopes}
use content_lens.Sync.Journal.{
  Phase, started, remote_read, validated, push_attempted, remote_confirmed, completed, conflict,
  degraded, Update,
}

-- `SyncTransportRead`; `none` is what has not the shape of an envelope.
pub record Read : Type 0 where
  pub envelope : Option Envelope
  pub version_token : JsString

-- What `compareAndSwap` and `confirm` answer.
pub data Answer : Type 0 where
  accepted : JsString → Answer
  mismatch : Answer

pub data Code : Type 0 where
  invalid_remote missing_base cas_retry_exhausted confirmation_mismatch provider_error : Code

-- `SyncRunResult`
pub data RunResult : Type 0 where
  confirmed_run : ℕ → JsString → RunResult
  conflict_run : ℕ → List Conflict → RunResult
  degraded_run : ℕ → Code → RunResult

-- What `commitLocal` is given.
pub record Commit : Type 0 where
  pub candidate : Envelope
  pub recovery : Envelope
  pub attempt : ℕ
  pub remote_version_token : JsString

-- The calls of the store and of the transport, with what follows each answer. A call of the transport that
-- fails after its retries answers nothing.
pub data Program : Type 0 where
  returns : RunResult → Program
  throws : Program
  reads_local : (Envelope → Program) → Program
  reads_base : (Option Envelope → Program) → Program
  writes_journal : Update → Program → Program
  writes_draft : Envelope → Envelope → Envelope → JsString → Program → Program
  commits_local : Commit → Program → Program
  confirms_base : Envelope → JsString → Program → Program
  reads_remote : (Option Read → Program) → Program
  swaps : JsString → Envelope → (Option Answer → Program) → Program
  confirms : JsString → JsString → (Option Answer → Program) → Program

-- `validVersionToken`
unfoldable pub is_version_token : JsString → Bool
is_version_token s =
    ltb 0 (length s) && leb (length s) 1024 && not (any (λ c. c == 13 || c == 10) s)

-- What one synchronisation has at hand.
pub record Setting : Type 0 where
  pub platform : Platform
  pub max_attempts : ℕ
  pub at : JsString
  pub initial_local : Envelope
  pub base : Envelope

-- The guard of the constructor.
abbrev pub are_attempts_allowed : ℕ → Bool
are_attempts_allowed n = leb 1 n && leb n 3

abbrev pub update : Phase → ℕ → JsString → Option JsString → Option JsString → Update
update phase attempt at digest token = record {
  phase = phase;
  attempt = attempt;
  at = at;
  candidate_digest = digest;
  remote_version_token = token;
  error_code = none;
}

-- `#degrade` and the `return` after it
abbrev pub degrade : JsString → ℕ → Option JsString → Code → Program
degrade at attempt digest code =
    writes_journal (update degraded attempt at digest none) (returns (degraded_run attempt code))

-- `verifySyncEnvelope` of what was read
abbrev pub verdict_of : Platform → Option Envelope → Verdict
verdict_of platform none = invalid_envelope
verdict_of platform (some e) = verify platform e

module _ (s : Setting) (attempt : ℕ) where
  unfoldable pub after_confirm : Envelope → Program → Option Answer → Program
  after_confirm candidate again none = degrade s.at attempt (some candidate.digest) provider_error
  after_confirm candidate again (some mismatch) =
      if ltb attempt s.max_attempts
      then again
      else degrade s.at attempt (some candidate.digest) confirmation_mismatch
  after_confirm candidate again (some (accepted token)) =
      writes_journal (update remote_confirmed attempt s.at (some candidate.digest) (some token)) (
        confirms_base candidate token (
          writes_journal (update completed attempt s.at (some candidate.digest) (some token))
            (returns (confirmed_run attempt candidate.digest))))

  unfoldable pub after_swap : Envelope → Program → Option Answer → Program
  unfolding after_confirm
  after_swap candidate again none = degrade s.at attempt (some candidate.digest) provider_error
  after_swap candidate again (some mismatch) = again
  after_swap candidate again (some (accepted token)) =
      confirms candidate.digest token (after_confirm candidate again)

  unfoldable pub after_candidate :
      Envelope → Envelope → JsString → List Conflict → Program → Option Envelope → Program
  unfolding after_swap
  after_candidate here there token conflicts again none = writes_draft s.base here there token (
      writes_journal (update conflict attempt s.at none (some token))
        (returns (conflict_run attempt conflicts)))
  after_candidate here there token conflicts again (some candidate) =
      commits_local
        (record {
          candidate = candidate;
          recovery = s.initial_local;
          attempt = attempt;
          remote_version_token = token;
        })
        (writes_journal (update push_attempted attempt s.at (some candidate.digest) (some token))
          (swaps token candidate (after_swap candidate again)))

  unfoldable pub after_merge : Envelope → Envelope → JsString → Program → Option Result → Program
  unfolding after_candidate
  after_merge here there token again none = throws
  after_merge here there token again (some result) =
      after_candidate here there token result.draft.conflicts again result.candidate

  unfoldable pub after_verify : Envelope → JsString → Program → Verdict → Program
  unfolding after_merge
  after_verify here token again (valid there) =
      writes_journal (update validated attempt s.at none (some token))
        (after_merge here there token again (merge_sync_envelopes s.platform s.base here there))
  after_verify here token again _ =
      writes_journal (update degraded attempt s.at none (some token))
        (returns (degraded_run attempt invalid_remote))

  unfoldable pub after_read : Envelope → Program → Option Read → Program
  unfolding after_verify
  after_read here again none = degrade s.at attempt none provider_error
  after_read here again (some r) =
      if not (is_version_token r.version_token)
      then degrade s.at attempt none provider_error
      else writes_journal (update remote_read attempt s.at none (some r.version_token))
          (after_verify here r.version_token again (verdict_of s.platform r.envelope))

-- The loop: the attempts that are left, and the number of the next.
unfoldable pub attempts : Setting → ℕ → ℕ → Program
unfolding after_read
attempts s zero attempt = degrade s.at s.max_attempts none cas_retry_exhausted
attempts s (suc left) attempt =
    let again = attempts s left (attempt + 1) in
    reads_local (λ here. reads_remote (after_read s attempt here again))

unfoldable pub after_base : Platform → ℕ → JsString → Envelope → Option Envelope → Program
unfolding attempts
after_base platform max_attempts at here none = degrade at 0 none missing_base
after_base platform max_attempts at here (some base) =
    writes_journal (update started 0 at (some base.digest) none) (
      attempts
        (record {
          platform = platform;
          max_attempts = max_attempts;
          at = at;
          initial_local = here;
          base = base;
        })
        max_attempts 1)

-- `synchronize`
unfoldable pub synchronize : Platform → ℕ → JsString → Program
unfolding after_base
synchronize platform max_attempts at =
    reads_local (λ here. reads_base (after_base platform max_attempts at here))
