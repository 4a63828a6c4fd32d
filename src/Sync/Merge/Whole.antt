-- ===== src/Sync/Merge/Whole.antt =====
-- src/sync/three-way-merge.ts: `mergeSyncEnvelopes` on three envelopes of one profile and one generation.
use content_lens.Prelude.{◌≡◌, ◌∙◌, ap, subst, true, false, some, [], JsString, same_iff, arith}
use content_lens.Sync.Envelope.{EntityType, Payload, Envelope, Platform, seal, verify, valid}
use content_lens.Sync.Envelope.Sealing.{seal-verify}
use content_lens.Sync.Merge.{
  Draft, Result, states, states_of, state_for, equal_state, merge_sync_envelopes, merged_with,
  sealed_draft, envelope_conflicts,
}
use content_lens.Sync.Merge.Drafts.{base_at, local_at, remote_at, chosen_at, is_nonempty}
use content_lens.Sync.Merge.Outcome.{merged, states-merged}
use content_lens.Sync.Merge.Sides.{merged-unchanged}

-- The three are of one profile and one generation.
abbrev pub AreTogether : Payload → Payload → Payload → Type 0
AreTogether b l r =
    ((l.sync_profile_id ≡ b.sync_profile_id) × (r.sync_profile_id ≡ b.sync_profile_id))
    × ((l.generation ≡ b.generation) × (r.generation ≡ b.generation))

together-conflicts : (b l r : Payload) → AreTogether b l r → envelope_conflicts b l r ≡ []
unfolding envelope_conflicts
together-conflicts b l r h = ground (
  arith,
  h,
  same_iff b.sync_profile_id l.sync_profile_id,
  same_iff b.sync_profile_id r.sync_profile_id,
)

merge-sealed :
    (platform : Platform) (base local remote : Envelope) (result : Result)
    → AreTogether base.payload local.payload remote.payload
    → merge_sync_envelopes platform base local remote ≡ some result
    → sealed_draft platform local (merged base local remote) ≡ some result
unfolding merge_sync_envelopes merged_with
merge-sealed platform base local remote result h m =
    subst (λ cs. merged_with platform base local remote cs ≡ some result)
      (together-conflicts base.payload local.payload remote.payload h) m

sealed_draft-draft :
    (platform : Platform) (local : Envelope) (w : Draft) (result : Result)
    → sealed_draft platform local w ≡ some result
    → result.draft ≡ w
unfolding sealed_draft
sealed_draft-draft platform local w result h = ground arith

-- A draft without conflicts that is sealed gives a candidate.
sealed_draft-made :
    (platform : Platform) (local : Envelope) (w : Draft) (result : Result)
    → sealed_draft platform local w ≡ some result
    → is_nonempty w.conflicts ≡ false
    → (e : Envelope) × (result.candidate ≡ some e)
      × (seal platform (record local.payload { profile = w.profile; tombstones = w.tombstones })
          ≡ some e)
unfolding sealed_draft
sealed_draft-made platform local w result h n = ground arith

-- When the merge of three envelopes of one profile and one generation gives a result, then, whether it has a
-- candidate or conflicts, the states that its draft holds are, for every type and every id, those
-- that the three states of the id ask for.
pub merge_sync_envelopes-states :
    (platform : Platform) (base local remote : Envelope) (result : Result) (t : EntityType)
    (k : JsString)
    → AreTogether base.payload local.payload remote.payload
    → merge_sync_envelopes platform base local remote ≡ some result
    → state_for (states result.draft.profile result.draft.tombstones t) k
      ≡ chosen_at base local remote t k
merge_sync_envelopes-states platform base local remote result t k h m =
    let d =
      sealed_draft-draft platform local (merged base local remote) result
        (merge-sealed platform base local remote result h m) in
    ap (λ w. state_for (states w.profile w.tombstones t) k) d ∙ states-merged base local remote t k

-- When the three envelopes are of one profile and one generation, each id has the same state in the remote envelope
-- as in the base, and the merge gives a result, then it has no conflict and a candidate that verifies
-- and holds the local states, up to `equalState`: nothing that was added, changed or deleted on the
-- local side alone is lost.
pub merge_sync_envelopes-unchanged :
    (platform : Platform) (base local remote : Envelope) (result : Result) (t : EntityType)
    (k : JsString)
    → AreTogether base.payload local.payload remote.payload
    → merge_sync_envelopes platform base local remote ≡ some result
    → ((u : EntityType) (j : JsString)
        → equal_state (base_at base local remote u j) (remote_at base local remote u j) ≡ true)
    → (is_nonempty result.draft.conflicts ≡ false)
      × ((e : Envelope) × (result.candidate ≡ some e)
          × (verify platform e ≡ valid e)
          × (equal_state (state_for (states_of e t) k) (local_at base local remote t k) ≡ true))
merge_sync_envelopes-unchanged platform base local remote result t k h m same_states =
    let w = merged base local remote in
    let s = merge-sealed platform base local remote result h m in
    let (unclashed, held) = merged-unchanged base local remote t k same_states in
    let (e, c, made) = sealed_draft-made platform local w result s unclashed in
    let (p, v) =
      seal-verify platform (record local.payload { profile = w.profile; tombstones = w.tombstones })
        e made in
    (
      ap (λ d. is_nonempty d.conflicts) (sealed_draft-draft platform local w result s) ∙ unclashed,
      (
        e,
        c,
        v,
        ap
              (λ x.
                equal_state (state_for (states x.profile x.tombstones t) k)
                  (local_at base local remote t k))
              p
            ∙ held,
      ),
    )
