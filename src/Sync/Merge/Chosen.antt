-- ===== src/Sync/Merge/Chosen.antt =====
-- src/sync/three-way-merge.ts: the state that the merge takes for an id, from its three.
use content_lens.Prelude.{
  ◌≡◌, refl, Bool, true, not, ◌&&◌, some, none, List, [], ◌∷◌, JsString, same_iff, if◌then◌else◌,
  arith, get_or, Option, Bool-cases, inl, inr, if-both,
}
use content_lens.Prelude.Dict.{Dict, Each, Each-set}
use content_lens.Prelude.Dict
use content_lens.Sync.Envelope.{EntityType, Entity, Tombstone, Profile, entity_id, same_type}
use content_lens.Sync.Envelope.Sealing.{same_type_iff}
use content_lens.Sync.Merge.{
  State, absent, tombstone, value, Draft, equal_state, set_values, set_tombstones, states,
  state_for, append_state, merge_states,
}

-- The state that is taken, and whether there is none because both sides changed.
unfoldable pub chosen : State → State → State → State
chosen b l r =
    if equal_state l r
    then l
    else if equal_state b l
    then r
    else if equal_state b r
    then l
    else absent

unfoldable pub clash : State → State → State → Bool
clash b l r = not (equal_state l r) && (not (equal_state b l) && not (equal_state b r))

pub equal_state_refl : (s : State) → equal_state s s ≡ true
unfolding equal_state
equal_state_refl absent = refl
equal_state_refl (tombstone d) = ground (arith, same_iff d.base_fingerprint d.base_fingerprint)
equal_state_refl (value e) = ground (arith, same_iff e.json e.json)

pub equal_state_sym : (s t : State) → equal_state s t ≡ equal_state t s
unfolding equal_state
equal_state_sym absent absent = refl
equal_state_sym absent (tombstone e) = refl
equal_state_sym absent (value e) = refl
equal_state_sym (tombstone d) absent = refl
equal_state_sym (tombstone d) (tombstone e) = ground (
  arith,
  same_iff d.base_fingerprint e.base_fingerprint,
  same_iff e.base_fingerprint d.base_fingerprint,
)
equal_state_sym (tombstone d) (value e) = refl
equal_state_sym (value d) absent = refl
equal_state_sym (value d) (tombstone e) = refl
equal_state_sym (value d) (value e) = ground (arith, same_iff d.json e.json, same_iff e.json d.json)

pub equal_state_trans :
    (s t u : State) → equal_state s t ≡ true → equal_state t u ≡ true → equal_state s u ≡ true
unfolding equal_state
equal_state_trans absent absent u h k = k
equal_state_trans (tombstone c) (tombstone d) (tombstone e) h k = ground (
  arith,
  same_iff c.base_fingerprint d.base_fingerprint,
  same_iff d.base_fingerprint e.base_fingerprint,
  same_iff c.base_fingerprint e.base_fingerprint,
)
equal_state_trans (value c) (value d) (value e) h k =
    ground (arith, same_iff c.json d.json, same_iff d.json e.json, same_iff c.json e.json)
equal_state_trans absent (tombstone d) u h k = ground arith
equal_state_trans absent (value d) u h k = ground arith
equal_state_trans (tombstone d) absent u h k = ground arith
equal_state_trans (tombstone d) (value e) u h k = ground arith
equal_state_trans (value d) absent u h k = ground arith
equal_state_trans (value d) (tombstone e) u h k = ground arith
equal_state_trans (tombstone c) (tombstone d) absent h k = ground arith
equal_state_trans (tombstone c) (tombstone d) (value e) h k = ground arith
equal_state_trans (value c) (value d) absent h k = ground arith
equal_state_trans (value c) (value d) (tombstone e) h k = ground arith

-- What a state says of itself: an entity its id, a tombstone its type and id.
abbrev pub Belongs : EntityType → JsString → State → Type 0
Belongs t k absent = Unit
Belongs t k (value e) = entity_id t e ≡ k
Belongs t k (tombstone d) = (d.entity_type ≡ t) × (d.entity_id ≡ k)

module _ (t : EntityType) where
  set_values-Belongs :
      (es : List Entity) (m : Dict State)
      → Each (Belongs t) m
      → Each (Belongs t) (set_values t es m)
  unfolding set_values
  set_values-Belongs [] m h = h
  set_values-Belongs (e ∷ es) m h =
      set_values-Belongs es (Dict.set (entity_id t e) (value e) m)
        (Each-set (Belongs t) (entity_id t e) (value e) m h refl)

  set_tombstones-Belongs :
      (ds : List Tombstone) (m : Dict State)
      → Each (Belongs t) m
      → Each (Belongs t) (set_tombstones t ds m)
  unfolding set_tombstones
  set_tombstones-Belongs [] m h = h
  set_tombstones-Belongs (d ∷ ds) m h = elim (Bool-cases (same_type d.entity_type t)) [
    | inl s ↦
        rw (s, if◌then◌else◌)
          (set_tombstones-Belongs ds (Dict.set d.entity_id (tombstone d) m) (
            Each-set (Belongs t) d.entity_id (tombstone d) m h
              ((same_type_iff d.entity_type t).0 s, refl)))
    | inr s ↦ rw (s, if◌then◌else◌) (set_tombstones-Belongs ds m h)
  ]

  pub state_for-Belongs :
      (profile : Profile) (ds : List Tombstone) (k : JsString)
      → Belongs t k (state_for (states profile ds t) k)
  unfolding states state_for Dict.get
  state_for-Belongs profile ds k = found (Dict.get k (states profile ds t)) (λ s e.
      set_tombstones-Belongs ds (set_values t (profile t) [])
        (set_values-Belongs (profile t) [] (λ j s e. absurd (ground (arith, e)))) k s e)
    where
      found :
          (o : Option State)
          → ((s : State) → o ≡ some s → Belongs t k s)
          → Belongs t k (get_or o absent)
      found none h = tt
      found (some s) h = h s refl

pub chosen-Belongs :
    (t : EntityType) (k : JsString) (b l r : State)
    → Belongs t k l
    → Belongs t k r
    → Belongs t k (chosen b l r)
unfolding chosen
chosen-Belongs t k b l r hl hr =
    if-both (Belongs t k) (equal_state l r) l
      (if equal_state b l then r else if equal_state b r then l else absent) hl
      (if-both (Belongs t k) (equal_state b l) r (if equal_state b r then l else absent) hr
        (if-both (Belongs t k) (equal_state b r) l absent hl tt))

-- What the body of the inner loop does to the profile, the tombstones and the conflicts.
pub merge_states-chosen :
    (t : EntityType) (id : JsString) (b l r : State) (w : Draft)
    → ((merge_states t id b l r w).profile ≡ (append_state t (chosen b l r) w).profile)
      × ((merge_states t id b l r w).tombstones ≡ (append_state t (chosen b l r) w).tombstones)
unfolding merge_states chosen append_state
merge_states-chosen t id b l r w = ground arith
