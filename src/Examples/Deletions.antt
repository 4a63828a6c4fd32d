-- ===== src/Examples/Deletions.antt =====
-- src/sync/tombstones.ts at concrete inputs.
use content_lens.Prelude.{
  ◌<◌, length, ◌+◌, ◌≡◌, refl, true, false, not, ◌&&◌, none, some, [], ◌∷◌, js, any, if◌then◌else◌,
  same, has_text, sort, All,
}
use content_lens.Sync.Journal.{is_digest, is_text}
use content_lens.Sync.Envelope.{
  all_different, rules, Tombstone, Envelope, valid, seal, verify, canonical, envelope_conforms,
  tombstone_conforms, collection_conforms, entity_id, same_type, index, tombstone_key, key_of,
  digest_sync_envelope, fingerprint,
}
use content_lens.Sync.Merge.{
  tombstone, Result, state_for, states_of, merge_sync_envelopes, merged_with, envelope_conflicts,
  empty_draft, generation_mismatch,
}
use content_lens.Sync.Tombstones.{
  deleted, delete_sync_entity, delete_found, sealed_deletion, deleted_payload, take_out, Request,
  compacted, compact_tombstones, compact_unless, sealed_compaction, compacted_payload, block_of,
  is_invalid_selection, is_truthy,
}
use content_lens.Sync.Tombstones.Deleting.{delete_sync_entity-deleted}
use content_lens.Sync.Tombstones.Compacting.{
  HasConfirmed, IsPresent, compact_tombstones-compacted, compact_tombstones-merge,
}
use content_lens.Examples.Envelopes.{plain, rule, base, here, there, gone}

abbrev new_tombstone : Tombstone
new_tombstone = record {
  entity_type = rules;
  entity_id = js "r2";
  deleted_in_generation = 3;
  base_fingerprint = fingerprint plain (rule (js "r2") (js "y"));
  deleted_at = js "t";
}

abbrev without : Envelope
without =
    let p = deleted_payload base.payload new_tombstone (rule (js "r1") (js "x") ∷ []) in
    record { payload = p; digest = digest_sync_envelope plain p }

deletes :
    delete_sync_entity plain base rules (js "r2") (js "t") ≡ some (deleted new_tombstone without)
unfolding delete_sync_entity delete_found sealed_deletion deleted_payload take_out seal
    envelope_conforms tombstone_conforms collection_conforms canonical is_digest is_text has_text
    entity_id same_type index tombstone_key same sort
deletes = refl

delete_sync_entity-deleted_example :
    (verify plain without ≡ valid without)
    × ((without.payload.sync_profile_id ≡ base.payload.sync_profile_id)
        × (without.payload.generation ≡ base.payload.generation))
    × ((new_tombstone.entity_type ≡ rules)
        × (new_tombstone.entity_id ≡ js "r2")
        × (new_tombstone.deleted_in_generation ≡ base.payload.generation))
    × (state_for (states_of without rules) (js "r1") ≡ (
        if same_type rules rules && same (js "r1") (js "r2")
        then tombstone new_tombstone
        else state_for (states_of base rules) (js "r1")))
delete_sync_entity-deleted_example =
    delete_sync_entity-deleted plain base without rules rules (js "r2") (js "r1") (js "t")
      new_tombstone deletes

-- One device has confirmed the generation, the other is revoked.
abbrev request : Request
request = record {
  confirmed_remote_digest = there.digest;
  recovery_snapshot_digest = some (js "s");
  selected_keys = key_of gone ∷ [];
  known_devices =
      record { device_id = js "d1"; confirmed_generation = 3; revoked = false }
      ∷ record { device_id = js "d2"; confirmed_generation = 1; revoked = true }
      ∷ [];
  conflict_count = 0;
  pending_operation_count = 0;
}

abbrev lighter : Envelope
lighter =
    let p = compacted_payload there.payload (key_of gone ∷ []) in
    record { payload = p; digest = digest_sync_envelope plain p }

compacts : compact_tombstones plain there request ≡ some (compacted 1 3 lighter)
unfolding compact_tombstones compact_unless sealed_compaction compacted_payload block_of
    is_invalid_selection seal envelope_conforms tombstone_conforms collection_conforms canonical
    is_digest is_text has_text entity_id same_type index tombstone_key same sort
compacts = refl

compact_tombstones-compacted_example :
    ((request.confirmed_remote_digest ≡ there.digest)
      × (is_truthy request.recovery_snapshot_digest ≡ true))
    × ((request.conflict_count ≡ 0) × (request.pending_operation_count ≡ 0))
    × All (HasConfirmed there.payload.generation) request.known_devices
    × ((0 < length request.selected_keys)
        × (all_different request.selected_keys ≡ true)
        × (1 ≡ length request.selected_keys)
        × All (IsPresent there.payload.tombstones) request.selected_keys)
    × ((verify plain lighter ≡ valid lighter) × (lighter.payload.profile ≡ there.payload.profile))
    × ((3 ≡ there.payload.generation) × (lighter.payload.generation ≡ 3 + 1))
    × (any (λ d. same (key_of gone) (key_of d)) lighter.payload.tombstones ≡ (
        not (any (same (key_of gone)) request.selected_keys)
        && any (λ d. same (key_of gone) (key_of d)) there.payload.tombstones))
compact_tombstones-compacted_example =
    compact_tombstones-compacted plain there lighter request 1 3 (key_of gone) compacts

abbrev refused : Result
refused = record {
  candidate = none;
  draft = record empty_draft { conflicts = generation_mismatch 3 3 4 ∷ [] };
}

refuses : merge_sync_envelopes plain base here lighter ≡ some refused
unfolding merge_sync_envelopes merged_with envelope_conflicts compacted_payload same
refuses = refl

compact_tombstones-merge_example : refused.candidate ≡ none
compact_tombstones-merge_example =
    compact_tombstones-merge plain there lighter base here request 1 3 refused compacts refl refuses
