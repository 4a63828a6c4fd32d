-- ===== src/Sync/Merge.antt =====
-- src/sync/three-way-merge.ts: `mergeSyncEnvelopes`.
pub mod Chosen
pub mod Reading
pub mod Drafts
pub mod Outcome
pub mod Sides
pub mod Whole
use content_lens.Prelude.{
  ℕ, ◌+◌, Bool, true, false, not, ◌&&◌, ◌||◌, Option, none, some, List, [], ◌∷◌, ◌++◌, JsString, js,
  ◌==◌, same, any, map, length, if◌then◌else◌, sort, before, get_or,
}
use content_lens.Prelude.Dict.{Dict}
use content_lens.Prelude.Dict
use content_lens.Sync.Envelope.{
  EntityType, Entity, Tombstone, Profile, Payload, Envelope, Platform, same_type, collection_order,
  empty_sync_profile, entity_id, seal,
}

-- `SyncConflictState`
pub data State : Type 0 where
  absent : State
  tombstone : Tombstone → State
  value : Entity → State

pub data Source : Type 0 where
  from_local from_remote : Source

-- `SyncChangeRecord`
pub record Change : Type 0 where
  pub entity_type : EntityType
  pub entity_id : JsString
  pub source : Source

-- `SyncConflictRecord`, by its reason.
pub data Conflict : Type 0 where
  concurrent_change : EntityType → JsString → State → State → State → Conflict
  generation_mismatch : ℕ → ℕ → ℕ → Conflict
  profile_mismatch : JsString → JsString → JsString → Conflict

-- What the loops build.
pub record Draft : Type 0 where
  pub profile : Profile
  pub tombstones : List Tombstone
  pub applied : List Change
  pub coalesced : List Change
  pub conflicts : List Conflict

-- `SyncMergeResult`
pub record Result : Type 0 where
  pub candidate : Option Envelope
  pub draft : Draft

-- `equalState`
unfoldable pub equal_state : State → State → Bool
equal_state (tombstone d) (tombstone e) =
    d.deleted_in_generation == e.deleted_in_generation && same d.base_fingerprint e.base_fingerprint
equal_state (value d) (value e) = same d.json e.json
equal_state absent absent = true
equal_state absent (tombstone d) = false
equal_state absent (value d) = false
equal_state (tombstone d) absent = false
equal_state (tombstone d) (value e) = false
equal_state (value d) absent = false
equal_state (value d) (tombstone e) = false

-- The two loops of `states`.
unfoldable pub set_values : EntityType → List Entity → Dict State → Dict State
set_values t [] m = m
set_values t (e ∷ es) m = set_values t es (Dict.set (entity_id t e) (value e) m)

unfoldable pub set_tombstones : EntityType → List Tombstone → Dict State → Dict State
set_tombstones t [] m = m
set_tombstones t (d ∷ ds) m =
    set_tombstones t ds
      (if same_type d.entity_type t then Dict.set d.entity_id (tombstone d) m else m)

-- `states`
unfoldable pub states : Profile → List Tombstone → EntityType → Dict State
unfolding set_values set_tombstones
states profile tombstones t = set_tombstones t tombstones (set_values t (profile t) [])

-- `stateFor`
unfoldable pub state_for : Dict State → JsString → State
state_for m id = get_or (Dict.get id m) absent

abbrev pub states_of : Envelope → EntityType → Dict State
states_of e t = states e.payload.profile e.payload.tombstones t

-- `appendState`
unfoldable pub append_state : EntityType → State → Draft → Draft
append_state t absent w = w
append_state t (value e) w = record w {
  profile = λ u. if same_type u t then w.profile u ++ (e ∷ []) else w.profile u;
}
append_state t (tombstone d) w = record w { tombstones = w.tombstones ++ (d ∷ []) }

-- The body of the inner loop, on the three states.
unfoldable pub merge_states : EntityType → JsString → State → State → State → Draft → Draft
unfolding append_state equal_state
merge_states t id b l r w =
    if equal_state l r
    then (let w' = append_state t l w in
        if equal_state b l then w' else record w' {
          coalesced =
              w'.coalesced
              ++ (record { entity_type = t; entity_id = id; source = from_local } ∷ []);
        })
    else if equal_state b l
    then (let w' = append_state t r w in
        record w' {
          applied =
              w'.applied ++ (record { entity_type = t; entity_id = id; source = from_remote } ∷ []);
        })
    else if equal_state b r
    then (let w' = append_state t l w in
        record w' {
          applied =
              w'.applied ++ (record { entity_type = t; entity_id = id; source = from_local } ∷ []);
        })
    else record w { conflicts = w.conflicts ++ (concurrent_change t id b l r ∷ []) }

abbrev pub keys : Dict State → List JsString
keys [] = []
keys ((k, s) ∷ m) = k ∷ keys m

-- `new Set(…)` of the keys
unfoldable pub distinct : List JsString → List JsString
distinct [] = []
distinct (k ∷ ks) = let rest = distinct ks in if any (same k) ks then rest else k ∷ rest

-- `[...ids].sort()`
unfoldable pub sorted_ids : Dict State → Dict State → Dict State → List JsString
unfolding distinct
sorted_ids b l r = sort before (distinct (keys b ++ (keys l ++ keys r)))

unfoldable pub merge_ids :
    EntityType → Dict State → Dict State → Dict State → List JsString → Draft → Draft
unfolding merge_states state_for
merge_ids t b l r [] w = w
merge_ids t b l r (id ∷ ids) w =
    merge_ids t b l r ids (merge_states t id (state_for b id) (state_for l id) (state_for r id) w)

-- The body of the outer loop, and the loop.
unfoldable pub merge_type : Envelope → Envelope → Envelope → EntityType → Draft → Draft
unfolding merge_ids sorted_ids states
merge_type base local remote t w =
    let b = states_of base t in
    let l = states_of local t in
    let r = states_of remote t in merge_ids t b l r (sorted_ids b l r) w

unfoldable pub merge_types : Envelope → Envelope → Envelope → List EntityType → Draft → Draft
unfolding merge_type
merge_types base local remote [] w = w
merge_types base local remote (t ∷ ts) w =
    merge_types base local remote ts (merge_type base local remote t w)

abbrev pub empty_draft : Draft
empty_draft = record {
  profile = empty_sync_profile;
  tombstones = [];
  applied = [];
  coalesced = [];
  conflicts = [];
}

abbrev pub prefix_if : Bool → Conflict → List Conflict
prefix_if true c = c ∷ []
prefix_if false c = []

-- The conflicts of the envelopes as such.
unfoldable pub envelope_conflicts : Payload → Payload → Payload → List Conflict
envelope_conflicts b l r =
    prefix_if
      (not (same b.sync_profile_id l.sync_profile_id)
        || not (same b.sync_profile_id r.sync_profile_id))
      (profile_mismatch b.sync_profile_id l.sync_profile_id r.sync_profile_id)
    ++ prefix_if (not (b.generation == l.generation) || not (b.generation == r.generation))
        (generation_mismatch b.generation l.generation r.generation)

unfoldable pub sealed_draft : Platform → Envelope → Draft → Option Result
sealed_draft platform local w = elim w.conflicts [
  | _ ∷ _ ↦ some (record { candidate = none; draft = w })
  | [] ↦
      elim (seal platform
        (record local.payload { profile = w.profile; tombstones = w.tombstones })) [
          | none ↦ none
          | some candidate ↦ some (record { candidate = some candidate; draft = w })
        ]
]

unfoldable pub merged_with :
    Platform → Envelope → Envelope → Envelope → List Conflict → Option Result
unfolding merge_types sealed_draft
merged_with platform base local remote (c ∷ cs) =
    some (record { candidate = none; draft = record empty_draft { conflicts = c ∷ cs } })
merged_with platform base local remote [] =
    sealed_draft platform local (merge_types base local remote collection_order empty_draft)

-- `mergeSyncEnvelopes`, with what it throws as nothing
unfoldable pub merge_sync_envelopes : Platform → Envelope → Envelope → Envelope → Option Result
unfolding merged_with envelope_conflicts
merge_sync_envelopes platform base local remote =
    merged_with platform base local remote
      (envelope_conflicts base.payload local.payload remote.payload)
