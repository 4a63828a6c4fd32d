-- ===== src/Examples/Synchronising.antt =====
-- src/sync/cas-service.ts at concrete inputs.
use content_lens.Prelude.{none, some, List, [], ◌∷◌, js, same, before, has_text, sort, insert}
use content_lens.Prelude.Dict
use content_lens.Sync.Journal.{
  started, remote_read, validated, push_attempted, remote_confirmed, completed, is_digest, is_text,
}
use content_lens.Sync.Envelope.{
  seal, verify, canonical, envelope_conforms, tombstone_conforms, collection_conforms, entity_id,
  same_type, index, tombstone_key,
}
use content_lens.Sync.Merge.{
  equal_state, append_state, merge_states, merge_ids, merge_type, merge_types, states, set_values,
  set_tombstones, state_for, merge_sync_envelopes, merged_with, sealed_draft, envelope_conflicts,
  sorted_ids, distinct,
}
use content_lens.Sync.Cas.{
  synchronize, after_base, attempts, after_read, after_verify, after_merge, after_candidate,
  after_swap, after_confirm, is_version_token, accepted, Read, confirmed_run, update,
}
use content_lens.Sync.Cas.Runs.{
  Event, journal, committed, local_was, base_was, base_confirmed, remote_was, swapped, asked, Ends,
}
use content_lens.Sync.Cas.Phases.{IsOrderly, synchronize-IsOrderly}
use content_lens.Sync.Cas.Confirmed.{IsExplained, synchronize-IsExplained}
use content_lens.Examples.Envelopes.{plain, base, here, there, candidate}

synchronize-IsExplained_example :
    Ends (IsExplained plain (js "t")) (synchronize plain 3 (js "t")) []
synchronize-IsExplained_example = synchronize-IsExplained plain 3 (js "t")

synchronize-IsOrderly_example : Ends (IsOrderly 3) (synchronize plain 3 (js "t")) []
synchronize-IsOrderly_example = synchronize-IsOrderly plain 3 (js "t")

abbrev answer : Read
answer = record { envelope = some there; version_token = js "v1" }

-- A run that is confirmed at its first attempt.
abbrev events : List Event
events =
    journal (update completed 1 (js "t") (some candidate.digest) (some (js "v2")))
    ∷ base_confirmed candidate (js "v2")
    ∷ journal (update remote_confirmed 1 (js "t") (some candidate.digest) (some (js "v2")))
    ∷ asked candidate.digest (js "v2") (some (accepted (js "v2")))
    ∷ swapped (js "v1") candidate (some (accepted (js "v2")))
    ∷ journal (update push_attempted 1 (js "t") (some candidate.digest) (some (js "v1")))
    ∷ committed (record {
      candidate = candidate;
      recovery = here;
      attempt = 1;
      remote_version_token = js "v1";
    })
    ∷ journal (update validated 1 (js "t") none (some (js "v1")))
    ∷ journal (update remote_read 1 (js "t") none (some (js "v1")))
    ∷ remote_was (some answer)
    ∷ local_was here
    ∷ journal (update started 0 (js "t") (some base.digest) none)
    ∷ base_was (some base)
    ∷ local_was here
    ∷ []

confirms_at_once : IsExplained plain (js "t") events (confirmed_run 1 candidate.digest)
unfolding Ends synchronize after_base attempts after_read after_verify after_merge after_candidate
    after_swap after_confirm is_version_token merge_sync_envelopes merged_with sealed_draft
    envelope_conflicts merge_types merge_type merge_ids merge_states append_state equal_state states
    state_for set_values set_tombstones sorted_ids distinct sort insert before seal verify
    envelope_conforms tombstone_conforms collection_conforms canonical is_digest is_text has_text
    entity_id same_type index tombstone_key same Dict.get Dict.set
confirms_at_once =
    synchronize-IsExplained plain 3 (js "t") here (some base) here (some answer)
      (some (accepted (js "v2"))) (some (accepted (js "v2")))
