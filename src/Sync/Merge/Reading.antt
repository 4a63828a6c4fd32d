-- ===== src/Sync/Merge/Reading.antt =====
-- src/sync/three-way-merge.ts: `states` of a profile and tombstones that were built from a state per id.
use content_lens.Prelude.{
  ◌≡◌, refl, Bool, true, ◌&&◌, some, List, [], ◌∷◌, JsString, same, same_iff, if◌then◌else◌, arith,
  Bool-cases, inl, inr, All, any,
}
use content_lens.Prelude.Dict.{Dict, get-set}
use content_lens.Prelude.Dict
use content_lens.Sync.Envelope.{EntityType, Entity, Tombstone, Profile, entity_id, same_type}
use content_lens.Sync.Envelope.Sealing.{same_type_iff}
use content_lens.Sync.Merge.{
  State, absent, tombstone, value, set_values, set_tombstones, states, state_for,
}

abbrev pub is_value_at : EntityType → JsString → Entity → Bool
is_value_at t k e = same (entity_id t e) k

abbrev pub is_tombstone_at : EntityType → JsString → Tombstone → Bool
is_tombstone_at t k d = same_type d.entity_type t && same d.entity_id k

-- A state is among those that a profile and tombstones hold.
abbrev pub Present : Profile → List Tombstone → EntityType → JsString → State → Type 0
Present profile ds t k absent = Unit
Present profile ds t k (value e) = any (is_value_at t k) (profile t) ≡ true
Present profile ds t k (tombstone d) = any (is_tombstone_at t k) ds ≡ true

module _ (chosen_for : EntityType → JsString → State) where
  abbrev pub IsChosenValue : EntityType → Entity → Type 0
  IsChosenValue t e = chosen_for t (entity_id t e) ≡ value e

  abbrev pub IsChosenTombstone : Tombstone → Type 0
  IsChosenTombstone d = chosen_for d.entity_type d.entity_id ≡ tombstone d

  get-set_values :
      (t : EntityType) (k : JsString) (es : List Entity) (m : Dict State)
      → All (IsChosenValue t) es
      → Dict.get k (set_values t es m)
        ≡ (if any (is_value_at t k) es then some (chosen_for t k) else Dict.get k m)
  unfolding set_values
  get-set_values t k [] m h = refl
  get-set_values t k (e ∷ es) m (he, h) =
      let ih = get-set_values t k es (Dict.set (entity_id t e) (value e) m) h in
      ground (arith, ih, get-set (entity_id t e) k (value e) m, same_iff (entity_id t e) k)

  get-set_tombstones :
      (t : EntityType) (k : JsString) (ds : List Tombstone) (m : Dict State)
      → All IsChosenTombstone ds
      → Dict.get k (set_tombstones t ds m)
        ≡ (if any (is_tombstone_at t k) ds then some (chosen_for t k) else Dict.get k m)
  unfolding set_tombstones
  get-set_tombstones t k [] m h = refl
  get-set_tombstones t k (d ∷ ds) m (hd, h) = elim (Bool-cases (same_type d.entity_type t)) [
    | inl s ↦
        let at = (same_type_iff d.entity_type t).0 s in
        let ih = get-set_tombstones t k ds (Dict.set d.entity_id (tombstone d) m) h in
        ground (arith, ih, at, s, get-set d.entity_id k (tombstone d) m, same_iff d.entity_id k)
    | inr s ↦ ground (arith, s, get-set_tombstones t k ds m h)
  ]

  -- What is read back is the state that was taken.
  pub state_for-states :
      (profile : Profile) (ds : List Tombstone) (t : EntityType) (k : JsString)
      → All (IsChosenValue t) (profile t)
      → All IsChosenTombstone ds
      → Present profile ds t k (chosen_for t k)
      → state_for (states profile ds t) k ≡ chosen_for t k
  unfolding states state_for Dict.get
  state_for-states profile ds t k hv hd present =
      let there = get-set_tombstones t k ds (set_values t (profile t) []) hd in
      let before = get-set_values t k (profile t) [] hv in read (chosen_for t k) refl present
    where
      read :
          (s : State)
          → chosen_for t k ≡ s
          → Present profile ds t k s
          → state_for (states profile ds t) k ≡ chosen_for t k
      read absent e p = ground (
        arith,
        get-set_tombstones t k ds (set_values t (profile t) []) hd,
        get-set_values t k (profile t) [] hv,
      )
      read (value v) e p = ground (
        arith,
        get-set_tombstones t k ds (set_values t (profile t) []) hd,
        get-set_values t k (profile t) [] hv,
      )
      read (tombstone d) e p = ground (
        arith,
        get-set_tombstones t k ds (set_values t (profile t) []) hd,
        get-set_values t k (profile t) [] hv,
      )
