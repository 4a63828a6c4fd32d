-- ===== src/Sync/Cas/Confirmed.antt =====
-- src/sync/cas-service.ts: what a run has done when it ends as confirmed or in a conflict.
use content_lens.Prelude.{
  ℕ, zero, suc, ◌+◌, ◌≡◌, refl, true, Option, none, some, List, [], ◌∷◌, JsString, ltb,
  if◌then◌else◌, if-both, Bool-cases, inl, inr,
}
use content_lens.Sync.Envelope.{
  Envelope, Platform, Verdict, valid, invalid_envelope, digest_mismatch,
}
use content_lens.Sync.Merge.{Result, merge_sync_envelopes}
use content_lens.Sync.Journal.{
  started, remote_read, validated, push_attempted, remote_confirmed, completed, conflict,
}
use content_lens.Sync.Cas.{
  Program, RunResult, confirmed_run, conflict_run, degraded_run, Answer, accepted, mismatch,
  Setting, Read, Code, confirmation_mismatch, provider_error, invalid_remote, missing_base,
  cas_retry_exhausted, after_confirm, after_swap, after_candidate, after_merge, after_verify,
  after_read, attempts, after_base, synchronize, verdict_of, is_version_token, update, degrade,
}
use content_lens.Sync.Cas.Runs.{
  Event, journal, committed, local_was, base_was, draft, base_confirmed, remote_was, swapped, asked,
  Ends,
}

module _ (platform : Platform) (at : JsString) where
  -- The events that read the initial local envelope and the base, and start the journal, stand first.
  pub data Begun (initial base : Envelope) : List Event → Type 0 where
    begins : Begun initial base (
        journal (update started 0 at (some base.digest) none)
        ∷ base_was (some base)
        ∷ local_was initial
        ∷ [])
    goes_on : {es : List Event} (e : Event) → Begun initial base es → Begun initial base (e ∷ es)

  -- The events of an attempt up to its merge.
  abbrev pub merging : ℕ → Envelope → Read → List Event → List Event
  merging n here r es =
      journal (update validated n at none (some r.version_token))
      ∷ journal (update remote_read n at none (some r.version_token))
      ∷ remote_was (some r)
      ∷ local_was here
      ∷ es

  -- The events of an attempt that is confirmed.
  abbrev pub confirming :
      ℕ → Envelope → Envelope → Read → Envelope → JsString → JsString → List Event → List Event
  confirming n initial here r candidate pushed final es =
      journal (update completed n at (some candidate.digest) (some final))
      ∷ base_confirmed candidate final
      ∷ journal (update remote_confirmed n at (some candidate.digest) (some final))
      ∷ asked candidate.digest pushed (some (accepted final))
      ∷ swapped r.version_token candidate (some (accepted pushed))
      ∷ journal (update push_attempted n at (some candidate.digest) (some r.version_token))
      ∷ committed (record {
        candidate = candidate;
        recovery = initial;
        attempt = n;
        remote_version_token = r.version_token;
      })
      ∷ merging n here r es

  -- The runs that a result stands for. A confirmed one read a remote envelope that verifies, merged the local one
  -- with it over the base, committed the merge's candidate locally with the initial local envelope for
  -- recovery, and then swapped that candidate for what it had read, by its version; the remote side
  -- confirmed the candidate's digest at the new version, and only then it became the base. One in a conflict
  -- wrote a draft of the three envelopes and committed and swapped nothing after the merge.
  pub data IsExplained : List Event → RunResult → Type 0 where
    is_confirmed :
        (n : ℕ) (initial base here there candidate : Envelope) (r : Read) (result : Result)
        (pushed final : JsString) (es : List Event)
        → Begun initial base es
        → is_version_token r.version_token ≡ true
        → verdict_of platform r.envelope ≡ valid there
        → merge_sync_envelopes platform base here there ≡ some result
        → result.candidate ≡ some candidate
        → IsExplained
            (confirming n initial here r candidate pushed final es)
            (confirmed_run n candidate.digest)
    is_conflict :
        (n : ℕ) (initial base here there : Envelope) (r : Read) (result : Result) (es : List Event)
        → Begun initial base es
        → is_version_token r.version_token ≡ true
        → verdict_of platform r.envelope ≡ valid there
        → merge_sync_envelopes platform base here there ≡ some result
        → result.candidate ≡ none
        → IsExplained
            (journal (update conflict n at none (some r.version_token))
              ∷ draft base here there r.version_token
              ∷ merging n here r es)
            (conflict_run n result.draft.conflicts)
    is_degraded : (n : ℕ) (c : Code) (es : List Event) → IsExplained es (degraded_run n c)

module _ (s : Setting) (n : ℕ) (again : Program)
    (continues : (es : List Event)
      → Begun s.platform s.at s.initial_local s.base es
      → Ends (IsExplained s.platform s.at) again es)
    (here there : Envelope) (r : Read) (result : Result) (es : List Event)
    (b : Begun s.platform s.at s.initial_local s.base es)
    (t : is_version_token r.version_token ≡ true)
    (v : verdict_of s.platform r.envelope ≡ valid there)
    (m : merge_sync_envelopes s.platform s.base here there ≡ some result) where
  abbrev P : List Event → RunResult → Type 0
  P = IsExplained s.platform s.at

  abbrev pushing : Envelope → List Event
  pushing c =
      journal (update push_attempted n s.at (some c.digest) (some r.version_token))
      ∷ committed (record {
        candidate = c;
        recovery = s.initial_local;
        attempt = n;
        remote_version_token = r.version_token;
      })
      ∷ merging s.platform s.at n here r es

  pushing-Begun : (c : Envelope) → Begun s.platform s.at s.initial_local s.base (pushing c)
  pushing-Begun c = goes_on _ (goes_on _ (goes_on _ (goes_on _ (goes_on _ (goes_on _ b)))))

  after_confirm-IsExplained :
      (c : Envelope) (pushed : JsString) (o : Option Answer)
      → result.candidate ≡ some c
      → Ends P
          (after_confirm s n c again o)
          (asked c.digest pushed o ∷ swapped r.version_token c (some (accepted pushed)) ∷ pushing c)
  unfolding after_confirm Ends
  after_confirm-IsExplained c pushed none h = is_degraded n provider_error _
  after_confirm-IsExplained c pushed (some mismatch) h =
      let fs =
        asked c.digest pushed (some mismatch)
        ∷ swapped r.version_token c (some (accepted pushed))
        ∷ pushing c in
      if-both (λ p. Ends P p fs) (ltb n s.max_attempts) again
        (degrade s.at n (some c.digest) confirmation_mismatch)
        (continues fs (goes_on _ (goes_on _ (pushing-Begun c))))
        (is_degraded n confirmation_mismatch _)
  after_confirm-IsExplained c pushed (some (accepted final)) h =
      is_confirmed n s.initial_local s.base here there c r result pushed final es b t v m h

  after_swap-IsExplained :
      (c : Envelope) (o : Option Answer)
      → result.candidate ≡ some c
      → Ends P (after_swap s n c again o) (swapped r.version_token c o ∷ pushing c)
  unfolding after_swap Ends
  after_swap-IsExplained c none h = is_degraded n provider_error _
  after_swap-IsExplained c (some mismatch) h = continues _ (goes_on _ (pushing-Begun c))
  after_swap-IsExplained c (some (accepted pushed)) h = λ o. after_confirm-IsExplained c pushed o h

  after_candidate-IsExplained :
      (o : Option Envelope)
      → result.candidate ≡ o
      → Ends P
          (after_candidate s n here there r.version_token result.draft.conflicts again o)
          (merging s.platform s.at n here r es)
  unfolding after_candidate Ends
  after_candidate-IsExplained none h =
      is_conflict n s.initial_local s.base here there r result es b t v m h
  after_candidate-IsExplained (some c) h = λ o. after_swap-IsExplained c o h

module _ (s : Setting) (n : ℕ) (again : Program)
    (continues : (es : List Event)
      → Begun s.platform s.at s.initial_local s.base es
      → Ends (IsExplained s.platform s.at) again es) where
  after_verify-IsExplained :
      (here : Envelope) (r : Read) (w : Verdict) (es : List Event)
      → Begun s.platform s.at s.initial_local s.base es
      → is_version_token r.version_token ≡ true
      → verdict_of s.platform r.envelope ≡ w
      → Ends (IsExplained s.platform s.at) (after_verify s n here r.version_token again w) (
          journal (update remote_read n s.at none (some r.version_token))
          ∷ remote_was (some r)
          ∷ local_was here
          ∷ es)
  unfolding after_verify after_merge Ends
  after_verify-IsExplained here r (valid there) es b t v =
      merges (merge_sync_envelopes s.platform s.base here there) refl
    where
      merges :
          (o : Option Result)
          → merge_sync_envelopes s.platform s.base here there ≡ o
          → Ends
              (IsExplained s.platform s.at)
              (after_merge s n here there r.version_token again o)
              (merging s.platform s.at n here r es)
      merges none m = tt
      merges (some result) m =
          after_candidate-IsExplained s n again continues here there r result es b t v m
            result.candidate refl
  after_verify-IsExplained here r invalid_envelope es b t v = is_degraded n invalid_remote _
  after_verify-IsExplained here r digest_mismatch es b t v = is_degraded n invalid_remote _

  after_read-IsExplained :
      (here : Envelope) (o : Option Read) (es : List Event)
      → Begun s.platform s.at s.initial_local s.base es
      → Ends
          (IsExplained s.platform s.at)
          (after_read s n here again o)
          (remote_was o ∷ local_was here ∷ es)
  unfolding after_read Ends
  after_read-IsExplained here none es b = is_degraded n provider_error _
  after_read-IsExplained here (some r) es b = elim (Bool-cases (is_version_token r.version_token)) [
    | inl t ↦
        rw (t, if◌then◌else◌)
          (after_verify-IsExplained here r (verdict_of s.platform r.envelope) es b t refl)
    | inr t ↦ rw (t, if◌then◌else◌) (is_degraded n provider_error _)
  ]

attempts-IsExplained :
    (s : Setting) (left n : ℕ) (es : List Event)
    → Begun s.platform s.at s.initial_local s.base es
    → Ends (IsExplained s.platform s.at) (attempts s left n) es
unfolding attempts Ends
attempts-IsExplained s zero n es b = is_degraded s.max_attempts cas_retry_exhausted _
attempts-IsExplained s (suc left) n es b = λ here o.
    after_read-IsExplained s n (attempts s left (n + 1)) (attempts-IsExplained s left (n + 1)) here
      o es b

-- Whatever the store and the transport answer, every run of `synchronize` that returns is one that its result
-- stands for: a confirmed one committed the candidate of a merge with a verified remote envelope locally, swapped it by
-- the version that was read, had it confirmed, and then made it the base, in this order; one in a conflict
-- had no candidate, wrote a draft, and committed and swapped nothing after its merge.
pub synchronize-IsExplained :
    (platform : Platform) (max_attempts : ℕ) (at : JsString)
    → Ends (IsExplained platform at) (synchronize platform max_attempts at) []
unfolding synchronize after_base Ends
synchronize-IsExplained platform max_attempts at = based
  where
    based :
        (here : Envelope) (o : Option Envelope)
        → Ends
            (IsExplained platform at)
            (after_base platform max_attempts at here o)
            (base_was o ∷ local_was here ∷ [])
    based here none = is_degraded 0 missing_base _
    based here (some base) =
        attempts-IsExplained
          (record {
            platform = platform;
            max_attempts = max_attempts;
            at = at;
            initial_local = here;
            base = base;
          })
          max_attempts 1 _ begins
