-- ===== src/Examples/Envelopes.antt =====
-- src/sync/canonical.ts, src/sync/three-way-merge.ts and src/sync/tombstones.ts at concrete inputs.
use content_lens.Prelude.{
  ℕ, zero, suc, ◌+◌, ◌%◌, ◌≡◌, ◌↔◌, refl, true, false, some, List, [], ◌∷◌, ◌++◌, JsString, js,
  if◌then◌else◌, same, before, length, has_text, sort, insert,
}
use content_lens.Prelude.Dict
use content_lens.Sync.Journal.{is_digest, is_text}
use content_lens.Sync.Envelope.{
  rules, Entity, Tombstone, Profile, Payload, Envelope, Platform, valid, seal, verify, canonical,
  envelope_conforms, tombstone_conforms, collection_conforms, entity_id, same_type, index,
  tombstone_key, digest_sync_envelope,
}
use content_lens.Sync.Envelope.Sealing.{verify-seal}
use content_lens.Sync.Merge.{
  Result, states, states_of, state_for, set_values, set_tombstones, equal_state, append_state,
  merge_states, merge_ids, merge_type, merge_types, merge_sync_envelopes, merged_with, sealed_draft,
  envelope_conflicts, sorted_ids, distinct,
}
use content_lens.Sync.Merge.Chosen.{equal_state_refl}
use content_lens.Sync.Merge.Drafts.{base_at, local_at, chosen_at, clash_at, is_nonempty}
use content_lens.Sync.Merge.Outcome.{merged}
use content_lens.Sync.Merge.Sides.{merge_sync_envelopes-candidate}
use content_lens.Sync.Merge.Whole.{merge_sync_envelopes-states, merge_sync_envelopes-unchanged}

abbrev row : ℕ → ℕ → JsString
row c zero = []
row c (suc n) = c ∷ row c n

-- A platform whose digest tells how long a text is.
abbrev pub plain : Platform
plain = record {
  locale_before = before;
  payload_text = λ p. p.sync_profile_id ++ row 49 (length p.tombstones);
  sha256 = λ s. row (48 + length s % 10) 64;
  entities_conform = λ p. true;
  is_iso = λ s. true;
}

abbrev pub rule : JsString → JsString → Entity
rule id json = record { provider_config_id = []; model_id = []; id = id; json = json }

abbrev pub only_rules : List Entity → Profile
only_rules es t = if same_type t rules then es else []

abbrev pub enveloped : List Entity → List Tombstone → Envelope
enveloped es ds =
    let p : Payload = record {
      sync_profile_id = js "p1";
      generation = 3;
      profile = only_rules es;
      tombstones = ds;
    } in
    record { payload = p; digest = digest_sync_envelope plain p }

abbrev pub gone : Tombstone
gone = record {
  entity_type = rules;
  entity_id = js "r2";
  deleted_in_generation = 3;
  base_fingerprint = row 97 64;
  deleted_at = js "t";
}

abbrev pub base : Envelope
base = enveloped (rule (js "r1") (js "x") ∷ rule (js "r2") (js "y") ∷ []) []

-- The local side has changed the first rule, the remote side has deleted the second one and added another.
abbrev pub here : Envelope
here = enveloped (rule (js "r1") (js "z") ∷ rule (js "r2") (js "y") ∷ []) []

abbrev pub there : Envelope
there = enveloped (rule (js "r1") (js "x") ∷ rule (js "r3") (js "w") ∷ []) (gone ∷ [])

there_verifies : verify plain there ≡ valid there
unfolding verify envelope_conforms tombstone_conforms collection_conforms canonical is_digest
    is_text has_text entity_id same_type index tombstone_key same Dict.get Dict.set sort
there_verifies = refl

verify-seal_example : (verify plain there ≡ valid there) ↔ (seal plain there.payload ≡ some there)
verify-seal_example = verify-seal plain there

abbrev pub candidate : Envelope
candidate =
    let w = merged base here there in
    let p = record here.payload { profile = w.profile; tombstones = w.tombstones } in
    record { payload = p; digest = digest_sync_envelope plain p }

abbrev outcome : Result
outcome = record { candidate = some candidate; draft = merged base here there }

merges : merge_sync_envelopes plain base here there ≡ some outcome
unfolding merge_sync_envelopes merged_with sealed_draft envelope_conflicts merge_types merge_type
    merge_ids merge_states append_state equal_state states state_for set_values set_tombstones
    sorted_ids distinct sort insert before seal envelope_conforms tombstone_conforms
    collection_conforms canonical is_digest is_text has_text entity_id same_type index tombstone_key
    same Dict.get Dict.set
merges = refl

merge_sync_envelopes-candidate_example :
    (verify plain candidate ≡ valid candidate)
    × ((candidate.payload.sync_profile_id ≡ base.payload.sync_profile_id)
        × (here.payload.sync_profile_id ≡ base.payload.sync_profile_id)
        × (there.payload.sync_profile_id ≡ base.payload.sync_profile_id))
    × ((candidate.payload.generation ≡ base.payload.generation)
        × (here.payload.generation ≡ base.payload.generation)
        × (there.payload.generation ≡ base.payload.generation))
    × (clash_at base here there rules (js "r3") ≡ false)
    × (state_for (states_of candidate rules) (js "r3") ≡ chosen_at base here there rules (js "r3"))
merge_sync_envelopes-candidate_example =
    merge_sync_envelopes-candidate plain base here there outcome candidate rules (js "r3") merges
      refl

merge_sync_envelopes-states_example :
    state_for (states outcome.draft.profile outcome.draft.tombstones rules) (js "r2")
    ≡ chosen_at base here there rules (js "r2")
merge_sync_envelopes-states_example =
    merge_sync_envelopes-states plain base here there outcome rules (js "r2")
      ((refl, refl), (refl, refl)) merges

abbrev local_candidate : Envelope
local_candidate =
    let w = merged base here base in
    let p = record here.payload { profile = w.profile; tombstones = w.tombstones } in
    record { payload = p; digest = digest_sync_envelope plain p }

abbrev local_outcome : Result
local_outcome = record { candidate = some local_candidate; draft = merged base here base }

merges_local : merge_sync_envelopes plain base here base ≡ some local_outcome
unfolding merge_sync_envelopes merged_with sealed_draft envelope_conflicts merge_types merge_type
    merge_ids merge_states append_state equal_state states state_for set_values set_tombstones
    sorted_ids distinct sort insert before seal envelope_conforms tombstone_conforms
    collection_conforms canonical is_digest is_text has_text entity_id same_type index tombstone_key
    same Dict.get Dict.set
merges_local = refl

merge_sync_envelopes-unchanged_example :
    (is_nonempty local_outcome.draft.conflicts ≡ false)
    × ((e : Envelope) × (local_outcome.candidate ≡ some e)
        × (verify plain e ≡ valid e)
        × (equal_state
              (state_for (states_of e rules) (js "r1"))
              (local_at base here base rules (js "r1"))
            ≡ true))
merge_sync_envelopes-unchanged_example =
    merge_sync_envelopes-unchanged plain base here base local_outcome rules (js "r1")
      ((refl, refl), (refl, refl)) merges_local
      (λ u j. equal_state_refl (base_at base here base u j))
