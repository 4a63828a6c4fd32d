-- ===== src/Sync/Cas/Phases.antt =====
-- src/sync/cas-service.ts and src/sync/journal.ts: the phases that a run writes are ones that the journal admits.
use content_lens.Prelude.{
  ℕ, zero, suc, ◌+◌, ◌≤◌, ◌<◌, ◌≡◌, refl, subst, true, not, Option, none, some, List, [], ◌∷◌,
  JsString, ltb, arith, if-both,
}
use content_lens.Sync.Envelope.{
  Envelope, Platform, Verdict, valid, invalid_envelope, digest_mismatch,
}
use content_lens.Sync.Merge.{Result, Conflict, merge_sync_envelopes}
use content_lens.Sync.Journal.{
  Phase, started, remote_read, validated, snapshot_created, local_committed, push_attempted,
  remote_confirmed, completed, conflict, degraded, may_follow, Update,
}
use content_lens.Sync.Cas.{
  Program, writes_journal, Commit, Code, invalid_remote, cas_retry_exhausted, confirmation_mismatch,
  provider_error, RunResult, confirmed_run, conflict_run, degraded_run, Answer, accepted, mismatch,
  Setting, Read, after_confirm, after_swap, after_candidate, after_merge, after_verify, after_read,
  attempts, after_base, synchronize, verdict_of, is_version_token, update, degrade,
}
use content_lens.Sync.Cas.Runs.{
  Event, journal, committed, local_was, base_was, draft, base_confirmed, remote_was, swapped, asked,
  Ends,
}

-- The phases of the journal that the events lead to, the last first; a commit writes two.
unfoldable pub phases : List Event → List (Phase × ℕ)
phases [] = []
phases (journal u ∷ es) = (u.phase, u.attempt) ∷ phases es
phases (committed c ∷ es) = (local_committed, c.attempt) ∷ (snapshot_created, c.attempt) ∷ phases es
phases (local_was e ∷ es) = phases es
phases (base_was o ∷ es) = phases es
phases (draft b l r t ∷ es) = phases es
phases (base_confirmed e t ∷ es) = phases es
phases (remote_was o ∷ es) = phases es
phases (swapped t e o ∷ es) = phases es
phases (asked d t o ∷ es) = phases es

-- Each phase may follow the one before it, with no smaller number of attempts.
unfoldable pub IsAdmitted : List (Phase × ℕ) → Type 0
IsAdmitted [] = Unit
IsAdmitted (p ∷ []) = Unit
IsAdmitted ((q, n) ∷ (p, m) ∷ ps) = (may_follow p q ≡ true) × (m ≤ n) × IsAdmitted ((p, m) ∷ ps)

abbrev pub last_phase : RunResult → Phase
last_phase (confirmed_run n d) = completed
last_phase (conflict_run n cs) = conflict
last_phase (degraded_run n c) = degraded

abbrev pub attempts_of : RunResult → ℕ
attempts_of (confirmed_run n d) = n
attempts_of (conflict_run n cs) = n
attempts_of (degraded_run n c) = n

-- What is shown of a run: its phases were admitted, and the last one is that of its result.
unfoldable pub IsOrderly : ℕ → List Event → RunResult → Type 0
unfolding phases IsAdmitted
IsOrderly most es r =
    IsAdmitted (phases es)
    × ((ps : List (Phase × ℕ)) × (phases es ≡ (last_phase r, attempts_of r) ∷ ps))
    × (attempts_of r ≤ most)

-- The journal stands at a phase, with a number of attempts.
StandsAt : Phase → ℕ → List Event → Type 0
StandsAt p m es = IsAdmitted (phases es) × ((ps : List (Phase × ℕ)) × (phases es ≡ (p, m) ∷ ps))

next-StandsAt :
    (p : Phase) (m : ℕ) (u : Update) (es : List Event)
    → StandsAt p m es
    → may_follow p u.phase ≡ true
    → m ≤ u.attempt
    → StandsAt u.phase u.attempt (journal u ∷ es)
unfolding StandsAt phases IsAdmitted
next-StandsAt p m u es (a, (ps, e)) f l = (rw e (f, l, subst IsAdmitted e a), (phases es, refl))

ends-IsOrderly :
    (p : Phase) (m most : ℕ) (u : Update) (es : List Event) (r : RunResult)
    → StandsAt p m es
    → may_follow p u.phase ≡ true
    → m ≤ u.attempt
    → u.phase ≡ last_phase r
    → u.attempt ≡ attempts_of r
    → attempts_of r ≤ most
    → IsOrderly most (journal u ∷ es) r
unfolding StandsAt IsOrderly
ends-IsOrderly p m most u es r st f l ph n b =
    let (a, (ps, e)) = next-StandsAt p m u es st f l in (a, (ps, rw⁻¹ (ph, n) e), b)

commit-StandsAt :
    (m : ℕ) (c : Commit) (es : List Event)
    → StandsAt validated m es
    → m ≤ c.attempt
    → StandsAt local_committed c.attempt (committed c ∷ es)
unfolding StandsAt phases IsAdmitted may_follow
commit-StandsAt m c es (a, (ps, e)) l = (
  (refl, omega arith, rw e (refl, l, subst IsAdmitted e a)),
  ((snapshot_created, c.attempt) ∷ phases es, refl),
)

module _ (s : Setting) (n : ℕ) (b : n ≤ s.max_attempts) (again : Program)
    (goes_on : (es : List Event)
      → StandsAt push_attempted n es
      → Ends (IsOrderly s.max_attempts) again es) where
  degrade-Ends :
      (p : Phase) (m : ℕ) (es : List Event) (digest : Option JsString) (c : Code)
      → StandsAt p m es
      → may_follow p degraded ≡ true
      → m ≤ n
      → Ends (IsOrderly s.max_attempts) (degrade s.at n digest c) es
  unfolding Ends
  degrade-Ends p m es digest c st f l =
      ends-IsOrderly p m s.max_attempts (update degraded n s.at digest none) es (degraded_run n c)
        st f l refl refl b

  after_confirm-Ends :
      (c : Envelope) (o : Option Answer) (es : List Event)
      → StandsAt push_attempted n es
      → Ends (IsOrderly s.max_attempts) (after_confirm s n c again o) es
  unfolding after_confirm Ends may_follow StandsAt phases
  after_confirm-Ends c none es st =
      degrade-Ends push_attempted n es (some c.digest) provider_error st refl (omega arith)
  after_confirm-Ends c (some mismatch) es st =
      if-both (λ p. Ends (IsOrderly s.max_attempts) p es) (ltb n s.max_attempts) again
        (degrade s.at n (some c.digest) confirmation_mismatch) (goes_on es st)
        (degrade-Ends push_attempted n es (some c.digest) confirmation_mismatch st refl
          (omega arith))
  after_confirm-Ends c (some (accepted t)) es st =
      let u = update remote_confirmed n s.at (some c.digest) (some t) in
      let next = next-StandsAt push_attempted n u es st refl (omega arith) in
      ends-IsOrderly remote_confirmed n s.max_attempts
        (update completed n s.at (some c.digest) (some t)) (base_confirmed c t ∷ journal u ∷ es)
        (confirmed_run n c.digest) next refl (omega arith) refl refl b

  after_swap-Ends :
      (c : Envelope) (o : Option Answer) (es : List Event)
      → StandsAt push_attempted n es
      → Ends (IsOrderly s.max_attempts) (after_swap s n c again o) es
  unfolding after_swap Ends may_follow StandsAt phases
  after_swap-Ends c none es st =
      degrade-Ends push_attempted n es (some c.digest) provider_error st refl (omega arith)
  after_swap-Ends c (some mismatch) es st = goes_on es st
  after_swap-Ends c (some (accepted t)) es st =
      λ o. after_confirm-Ends c o (asked c.digest t o ∷ es) st

  after_candidate-Ends :
      (here there : Envelope) (token : JsString) (cs : List Conflict) (o : Option Envelope)
      (es : List Event)
      → StandsAt validated n es
      → Ends (IsOrderly s.max_attempts) (after_candidate s n here there token cs again o) es
  unfolding after_candidate Ends may_follow StandsAt phases
  after_candidate-Ends here there token cs none es st =
      ends-IsOrderly validated n s.max_attempts (update conflict n s.at none (some token))
        (draft s.base here there token ∷ es) (conflict_run n cs) st refl (omega arith) refl refl b
  after_candidate-Ends here there token cs (some c) es st =
      let commit : Commit = record {
        candidate = c;
        recovery = s.initial_local;
        attempt = n;
        remote_version_token = token;
      } in
      let u = update push_attempted n s.at (some c.digest) (some token) in
      let next =
        next-StandsAt local_committed n u (committed commit ∷ es)
          (commit-StandsAt n commit es st (omega arith)) refl (omega arith) in
      λ o. after_swap-Ends c o (swapped token c o ∷ journal u ∷ committed commit ∷ es) next

  after_verify-Ends :
      (here : Envelope) (token : JsString) (v : Verdict) (es : List Event)
      → StandsAt remote_read n es
      → Ends (IsOrderly s.max_attempts) (after_verify s n here token again v) es
  unfolding after_verify after_merge Ends may_follow
  after_verify-Ends here token (valid there) es st =
      let u = update validated n s.at none (some token) in
      merges (merge_sync_envelopes s.platform s.base here there) (journal u ∷ es)
        (next-StandsAt remote_read n u es st refl (omega arith))
    where
      merges :
          (o : Option Result) (fs : List Event)
          → StandsAt validated n fs
          → Ends (IsOrderly s.max_attempts) (after_merge s n here there token again o) fs
      merges none fs at = tt
      merges (some result) fs at =
          after_candidate-Ends here there token result.draft.conflicts result.candidate fs at
  after_verify-Ends here token invalid_envelope es st =
      ends-IsOrderly remote_read n s.max_attempts (update degraded n s.at none (some token)) es
        (degraded_run n invalid_remote) st refl (omega arith) refl refl b
  after_verify-Ends here token digest_mismatch es st =
      ends-IsOrderly remote_read n s.max_attempts (update degraded n s.at none (some token)) es
        (degraded_run n invalid_remote) st refl (omega arith) refl refl b

  after_read-Ends :
      (p : Phase) (m : ℕ) (here : Envelope) (o : Option Read) (es : List Event)
      → StandsAt p m es
      → m ≤ n
      → may_follow p remote_read ≡ true
      → may_follow p degraded ≡ true
      → Ends (IsOrderly s.max_attempts) (after_read s n here again o) es
  unfolding after_read Ends StandsAt phases
  after_read-Ends p m here none es st l f g = degrade-Ends p m es none provider_error st g l
  after_read-Ends p m here (some r) es st l f g =
      let u = update remote_read n s.at none (some r.version_token) in
      let verdict = verdict_of s.platform r.envelope in
      if-both (λ q. Ends (IsOrderly s.max_attempts) q es) (not (is_version_token r.version_token))
        (degrade s.at n none provider_error)
        (writes_journal u (after_verify s n here r.version_token again verdict))
        (degrade-Ends p m es none provider_error st g l)
        (after_verify-Ends here r.version_token verdict (journal u ∷ es)
          (next-StandsAt p m u es st f l))

attempts-Ends :
    (s : Setting) (left n m : ℕ) (p : Phase) (es : List Event)
    → StandsAt p m es
    → m < n
    → n + left ≡ s.max_attempts + 1
    → may_follow p remote_read ≡ true
    → may_follow p degraded ≡ true
    → Ends (IsOrderly s.max_attempts) (attempts s left n) es
unfolding attempts Ends may_follow StandsAt phases
attempts-Ends s zero n m p es st l e f g =
    ends-IsOrderly p m s.max_attempts (update degraded s.max_attempts s.at none none) es
      (degraded_run s.max_attempts cas_retry_exhausted) st g (omega arith) refl refl (omega arith)
attempts-Ends s (suc left) n m p es st l e f g = λ here o.
    after_read-Ends s n (omega arith) (attempts s left (n + 1))
      (λ fs at.
        attempts-Ends s left (n + 1) n push_attempted fs at (omega arith) (omega arith) refl refl)
      p m here o (remote_was o ∷ local_was here ∷ es) st (omega arith) f g

-- Whatever the store and the transport answer, every run that returns has written phases of which each is
-- admitted by the journal after the one before, with no smaller number of attempts; the last phase and its number
-- of attempts are those of the result, which is of no more attempts than allowed.
pub synchronize-IsOrderly :
    (platform : Platform) (max_attempts : ℕ) (at : JsString)
    → Ends (IsOrderly max_attempts) (synchronize platform max_attempts at) []
unfolding synchronize after_base Ends IsOrderly phases IsAdmitted StandsAt may_follow
synchronize-IsOrderly platform max_attempts at = based
  where
    based :
        (here : Envelope) (o : Option Envelope)
        → Ends
            (IsOrderly max_attempts)
            (after_base platform max_attempts at here o)
            (base_was o ∷ local_was here ∷ [])
    based here none = (tt, ([], refl), omega arith)
    based here (some base) =
        attempts-Ends
          (record {
            platform = platform;
            max_attempts = max_attempts;
            at = at;
            initial_local = here;
            base = base;
          })
          max_attempts 1 0 started
          (journal (update started 0 at (some base.digest) none)
            ∷ base_was (some base)
            ∷ local_was here
            ∷ [])
          (tt, ([], refl)) (omega arith) (omega arith) refl refl
