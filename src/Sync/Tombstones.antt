-- ===== src/Sync/Tombstones.antt =====
-- src/sync/tombstones.ts: the deletion of an entity, and of tombstones that every device has confirmed.
pub mod Deleting
pub mod Compacting
use content_lens.Prelude.{
  ℕ, ◌+◌, Bool, true, false, not, ◌&&◌, ◌||◌, Option, none, some, List, [], ◌∷◌, ◌++◌, JsString,
  ◌==◌, ltb, same, any, map, keep, length, if◌then◌else◌,
}
use content_lens.Sync.Envelope.{
  EntityType, Entity, Tombstone, Payload, Envelope, Platform, same_type, entity_id, tombstone_key,
  key_of, fingerprint, seal, all_different,
}

-- `findIndex` and `splice`: the first entity with the id, and the others.
unfoldable pub take_out : EntityType → JsString → List Entity → Option Entity × List Entity
take_out t id [] = (none, [])
take_out t id (e ∷ es) =
    let (found, rest) = take_out t id es in
    if same (entity_id t e) id then (some e, es) else (found, e ∷ rest)

-- The answers of `deleteSyncEntity`.
pub data Deletion : Type 0 where
  missing : Deletion
  deleted : Tombstone → Envelope → Deletion

-- The payload after the deletion.
unfoldable pub deleted_payload : Payload → Tombstone → List Entity → Payload
deleted_payload p d rest = record p {
  profile = λ u. if same_type u d.entity_type then rest else p.profile u;
  tombstones = keep (λ x. not (same (key_of x) (key_of d))) p.tombstones ++ (d ∷ []);
}

unfoldable pub sealed_deletion : Tombstone → Option Envelope → Option Deletion
sealed_deletion d none = none
sealed_deletion d (some e) = some (deleted d e)

unfoldable pub delete_found :
    Platform
    → Payload
    → EntityType
    → JsString
    → JsString
    → Option Entity × List Entity
    → Option Deletion
unfolding deleted_payload sealed_deletion
delete_found platform p t id at (none, rest) = some missing
delete_found platform p t id at (some e, rest) =
    let d : Tombstone = record {
      entity_type = t;
      entity_id = id;
      deleted_in_generation = p.generation;
      base_fingerprint = fingerprint platform e;
      deleted_at = at;
    } in
    sealed_deletion d (seal platform (deleted_payload p d rest))

-- `deleteSyncEntity`, with what it throws as nothing
unfoldable pub delete_sync_entity :
    Platform → Envelope → EntityType → JsString → JsString → Option Deletion
unfolding delete_found take_out
delete_sync_entity platform envelope t id at =
    delete_found platform envelope.payload t id at (take_out t id (envelope.payload.profile t))

-- `KnownSyncDevice`
pub record Device : Type 0 where
  pub device_id : JsString
  pub confirmed_generation : ℕ
  pub revoked : Bool

-- `TombstoneCompactionBlock`
pub data Block : Type 0 where
  remote_unconfirmed recovery_snapshot_required conflict_present operation_pending device_behind
        selection_invalid :
      Block

pub data Compaction : Type 0 where
  blocked : Block → Compaction
  compacted : ℕ → ℕ → Envelope → Compaction

-- What `compactTombstones` is given besides the envelope.
pub record Request : Type 0 where
  pub confirmed_remote_digest : JsString
  pub recovery_snapshot_digest : Option JsString
  pub selected_keys : List JsString
  pub known_devices : List Device
  pub conflict_count : ℕ
  pub pending_operation_count : ℕ

abbrev pub is_truthy : Option JsString → Bool
is_truthy none = false
is_truthy (some []) = false
is_truthy (some (c ∷ s)) = true

abbrev pub is_behind : ℕ → Device → Bool
is_behind generation device = not device.revoked && ltb device.confirmed_generation generation

-- The selection is empty, holds a key twice, or holds one that is no tombstone's.
unfoldable pub is_invalid_selection : List JsString → List JsString → Bool
is_invalid_selection available selected =
    length selected == 0
    || not (all_different selected)
    || any (λ k. not (any (same k) available)) selected

-- The guards, in their order.
unfoldable pub block_of : Envelope → Request → Option Block
unfolding is_invalid_selection
block_of envelope q =
    if not (same q.confirmed_remote_digest envelope.digest)
    then some remote_unconfirmed
    else if not (is_truthy q.recovery_snapshot_digest)
    then some recovery_snapshot_required
    else if ltb 0 q.conflict_count
    then some conflict_present
    else if ltb 0 q.pending_operation_count
    then some operation_pending
    else if any (is_behind envelope.payload.generation) q.known_devices
    then some device_behind
    else if is_invalid_selection (map key_of envelope.payload.tombstones) q.selected_keys
    then some selection_invalid
    else none

unfoldable pub compacted_payload : Payload → List JsString → Payload
compacted_payload p selected = record p {
  generation = p.generation + 1;
  tombstones = keep (λ d. not (any (same (key_of d)) selected)) p.tombstones;
}

unfoldable pub sealed_compaction : ℕ → ℕ → Option Envelope → Option Compaction
sealed_compaction removed generation none = none
sealed_compaction removed generation (some e) = some (compacted removed generation e)

unfoldable pub compact_unless : Platform → Envelope → Request → Option Block → Option Compaction
unfolding sealed_compaction compacted_payload
compact_unless platform envelope q (some b) = some (blocked b)
compact_unless platform envelope q none =
    sealed_compaction (length q.selected_keys) envelope.payload.generation
      (seal platform (compacted_payload envelope.payload q.selected_keys))

-- `compactTombstones`, with what it throws as nothing
unfoldable pub compact_tombstones : Platform → Envelope → Request → Option Compaction
unfolding compact_unless block_of
compact_tombstones platform envelope q = compact_unless platform envelope q (block_of envelope q)

pub data Generations : Type 0 where
  compatible generation_behind remote_behind : Generations

-- `compareSyncGeneration`
unfoldable pub compare_sync_generation : ℕ → ℕ → Generations
compare_sync_generation here there =
    if here == there
    then compatible
    else if ltb here there
    then generation_behind
    else remote_behind
