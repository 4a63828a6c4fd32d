-- ===== src/Sync/Envelope.antt =====
-- src/sync/contracts.ts and src/sync/canonical.ts: an envelope, its schema and its digest.
pub mod Keys
pub mod Sealing
use content_lens.Prelude.{
  ℕ, ◌+◌, Bool, true, false, not, ◌&&◌, ◌||◌, Option, none, some, List, [], ◌∷◌, ◌++◌, JsString, js,
  ltb, leb, ◌==◌, same, any, map, length, if◌then◌else◌, sort,
}
use content_lens.Sync.Journal.{is_digest, is_text}

-- `SyncEntityType`
pub data EntityType : Type 0 where
  portable_providers model_catalog model_bindings rules exclusions identities platform_preferences :
      EntityType

unfoldable pub index : EntityType → ℕ
index portable_providers = 0
index model_catalog = 1
index model_bindings = 2
index rules = 3
index exclusions = 4
index identities = 5
index platform_preferences = 6

-- `===` on entity types
unfoldable pub same_type : EntityType → EntityType → Bool
unfolding index
same_type t u = index t == index u

-- `collectionOrder`
abbrev pub collection_order : List EntityType
collection_order =
    portable_providers ∷ model_catalog ∷ model_bindings ∷ rules ∷ exclusions ∷ identities
    ∷ platform_preferences ∷ []

-- An entity of a collection: the fields that `syncEntityId` reads, of which a collection has its own, and
-- its JSON text with sorted keys, which is what `stable` and `stableValue` make of it.
pub record Entity : Type 0 where
  pub provider_config_id : JsString
  pub model_id : JsString
  pub id : JsString
  pub json : JsString

-- `Tombstone`
pub record Tombstone : Type 0 where
  pub entity_type : EntityType
  pub entity_id : JsString
  pub deleted_in_generation : ℕ
  pub base_fingerprint : JsString
  pub deleted_at : JsString

-- `SyncProfile`: the collection of each type.
abbrev pub Profile : Type 0
Profile = EntityType → List Entity

-- An envelope without its digest, and `SyncEnvelope`. The schema's version is always 1.
pub record Payload : Type 0 where
  pub sync_profile_id : JsString
  pub generation : ℕ
  pub profile : Profile
  pub tombstones : List Tombstone

pub record Envelope : Type 0 where
  pub payload : Payload
  pub digest : JsString

-- `emptySyncProfile`
abbrev pub empty_sync_profile : Profile
empty_sync_profile t = []

-- `syncEntityId`
unfoldable pub entity_id : EntityType → Entity → JsString
entity_id portable_providers e = e.provider_config_id
entity_id model_catalog e = e.provider_config_id ++ (0 ∷ e.model_id)
entity_id model_bindings e = e.id
entity_id rules e = e.id
entity_id exclusions e = e.id
entity_id identities e = e.id
entity_id platform_preferences e = e.id

unfoldable type_name : EntityType → JsString
type_name portable_providers = js "portableProviders"
type_name model_catalog = js "modelCatalog"
type_name model_bindings = js "modelBindings"
type_name rules = js "rules"
type_name exclusions = js "exclusions"
type_name identities = js "identities"
type_name platform_preferences = js "platformPreferences"

-- `tombstoneKey`
unfoldable pub tombstone_key : EntityType → JsString → JsString
unfolding type_name
tombstone_key t id = type_name t ++ (0 ∷ id)

abbrev pub key_of : Tombstone → JsString
key_of d = tombstone_key d.entity_type d.entity_id

-- `new Set(keys).size === keys.length`
abbrev pub all_different : List JsString → Bool
all_different [] = true
all_different (k ∷ ks) = not (any (same k) ks) && all_different ks

-- What the code takes from its platform: `localeCompare(…) < 0`, the text of a payload by `JSON.stringify`,
-- SHA-256 in hexadecimal of a text in UTF-8, and the schemas of the entities and of a timestamp.
pub record Platform : Type 0 where
  pub locale_before : JsString → JsString → Bool
  pub payload_text : Payload → JsString
  pub sha256 : JsString → JsString
  pub entities_conform : Profile → Bool
  pub is_iso : JsString → Bool

abbrev pub max_entities : ℕ
max_entities = 10000

abbrev pub max_tombstones : ℕ
max_tombstones = 50000

-- The bound of `z.int()`, `Number.MAX_SAFE_INTEGER`
abbrev max_safe_integer : ℕ
max_safe_integer = 9007199254740991

-- The answers of `verifySyncEnvelope`.
pub data Verdict : Type 0 where
  valid : Envelope → Verdict
  invalid_envelope digest_mismatch : Verdict

module _ (platform : Platform) where
  -- `fingerprintSyncEntity`
  abbrev pub fingerprint : Entity → JsString
  fingerprint e = platform.sha256 e.json

  abbrev pub precedes : EntityType → Entity → Entity → Bool
  precedes t d e = platform.locale_before (entity_id t d) (entity_id t e)

  abbrev pub tombstone_precedes : Tombstone → Tombstone → Bool
  tombstone_precedes d e = platform.locale_before (key_of d) (key_of e)

  -- The order that `canonicalSyncPayload` brings a payload in, and the function.
  unfoldable pub canonical : Payload → Payload
  canonical p = record p {
    profile = λ t. sort (precedes t) (p.profile t);
    tombstones = sort tombstone_precedes p.tombstones;
  }

  abbrev pub canonical_sync_payload : Payload → JsString
  canonical_sync_payload p = platform.payload_text (canonical p)

  -- `digestSyncEnvelope`
  abbrev pub digest_sync_envelope : Payload → JsString
  digest_sync_envelope p = platform.sha256 (canonical_sync_payload p)

  -- `tombstoneSchema`
  unfoldable pub tombstone_conforms : Tombstone → Bool
  tombstone_conforms d =
      is_text 512 d.entity_id
      && leb d.deleted_in_generation max_safe_integer
      && is_digest d.base_fingerprint
      && platform.is_iso d.deleted_at

  -- `syncProfileSchema` of a collection: its size, and its ids
  unfoldable pub collection_conforms : EntityType → List Entity → Bool
  collection_conforms t es = leb (length es) max_entities && all_different (map (entity_id t) es)

  -- `syncEnvelopeSchema`
  unfoldable pub envelope_conforms : Envelope → Bool
  unfolding tombstone_conforms collection_conforms
  envelope_conforms e =
      is_text 256 e.payload.sync_profile_id
      && leb e.payload.generation max_safe_integer
      && not (any (λ t. not (collection_conforms t (e.payload.profile t))) collection_order)
      && platform.entities_conform e.payload.profile
      && leb (length e.payload.tombstones) max_tombstones
      && not (any (λ d. not (tombstone_conforms d)) e.payload.tombstones)
      && is_digest e.digest
      && all_different (map key_of e.payload.tombstones)
      && not (any (λ d. ltb e.payload.generation d.deleted_in_generation) e.payload.tombstones)

  -- `sealSyncEnvelope`, with what it throws as nothing
  unfoldable pub seal : Payload → Option Envelope
  unfolding envelope_conforms canonical
  seal p =
      let sealed : Envelope = record { payload = p; digest = digest_sync_envelope p } in
      if envelope_conforms sealed then some sealed else none

  -- `verifySyncEnvelope`, of what has the shape of an envelope
  unfoldable pub verify : Envelope → Verdict
  unfolding envelope_conforms canonical
  verify e =
      if envelope_conforms e
      then (if same (digest_sync_envelope e.payload) e.digest then valid e else digest_mismatch)
      else invalid_envelope
