-- ===== src/Sync/Tombstones/Deleting.antt =====
-- src/sync/tombstones.ts: a deletion leaves a tombstone in the place of its entity, and all else as it was.
use content_lens.Prelude.{
  ◌≡◌, ◌∙◌, refl, ap, sym, subst, subst₂, false, not, ◌&&◌, Option, none, some, List, [], ◌∷◌, ◌++◌,
  JsString, same, same_iff, keep, if◌then◌else◌, arith, Bool-cases, inl, inr,
}
use content_lens.Prelude.Dict.{Dict, get-set}
use content_lens.Prelude.Dict
use content_lens.Sync.Envelope.{
  EntityType, Entity, Tombstone, Payload, Envelope, Platform, fingerprint, verify, valid, same_type,
  entity_id, tombstone_key, key_of, seal,
}
use content_lens.Sync.Envelope.Sealing.{seal-verify, same_type_iff}
use content_lens.Sync.Envelope.Keys.{tombstone_key_iff}
use content_lens.Sync.Merge.{
  State, tombstone, value, states, states_of, state_for, set_values, set_tombstones,
}
use content_lens.Sync.Tombstones.{
  deleted, take_out, deleted_payload, sealed_deletion, delete_found, delete_sync_entity,
}

-- What is set later does not depend on what an entry of another id was before.
get-set_values_cong :
    (t : EntityType) (k : JsString) (es : List Entity) (m n : Dict State)
    → Dict.get k m ≡ Dict.get k n
    → Dict.get k (set_values t es m) ≡ Dict.get k (set_values t es n)
unfolding set_values
get-set_values_cong t k [] m n h = h
get-set_values_cong t k (e ∷ es) m n h =
    get-set_values_cong t k es (Dict.set (entity_id t e) (value e) m)
      (Dict.set (entity_id t e) (value e) n)
      (ground
        (arith, h, get-set (entity_id t e) k (value e) m, get-set (entity_id t e) k (value e) n))

get-set_values_rest :
    (t : EntityType) (id k : JsString) (es : List Entity) (m : Dict State)
    → same id k ≡ false
    → Dict.get k (set_values t (take_out t id es).1 m) ≡ Dict.get k (set_values t es m)
unfolding set_values take_out
get-set_values_rest t id k [] m h = refl
get-set_values_rest t id k (e ∷ es) m h = elim (Bool-cases (same (entity_id t e) id)) [
  | inl s ↦
      rw (s, if◌then◌else◌)
        (get-set_values_cong t k es m (Dict.set (entity_id t e) (value e) m)
          (ground (arith, get-set (entity_id t e) k (value e) m, same_iff (entity_id t e) id)))
  | inr s ↦
      rw (s, if◌then◌else◌) (get-set_values_rest t id k es (Dict.set (entity_id t e) (value e) m) h)
]

get-set_tombstones_kept :
    (t u : EntityType) (id k : JsString) (ds : List Tombstone) (m n : Dict State)
    → (same_type u t && same k id) ≡ false
    → Dict.get k m ≡ Dict.get k n
    → Dict.get k (set_tombstones u (keep (λ x. not (same (key_of x) (tombstone_key t id))) ds) m)
      ≡ Dict.get k (set_tombstones u ds n)
unfolding set_tombstones
get-set_tombstones_kept t u id k [] m n h e = e
get-set_tombstones_kept t u id k (d ∷ ds) m n h e =
    elim (Bool-cases (same (key_of d) (tombstone_key t id))) [
      | inl s ↦
          rw (s, if◌then◌else◌)
            (get-set_tombstones_kept t u id k ds m (put n) h (
              ground (
                arith,
                e,
                s,
                h,
                tombstone_key_iff d.entity_type t d.entity_id id,
                get-set d.entity_id k (tombstone d) n,
                same_type_iff d.entity_type u,
                same_type_iff d.entity_type t,
                same_type_iff u t,
                same_iff d.entity_id id,
                same_iff d.entity_id k,
                same_iff k id,
              )))
      | inr s ↦
          rw (s, if◌then◌else◌)
            (get-set_tombstones_kept t u id k ds (put m) (put n) h (
              ground (
                arith,
                e,
                get-set d.entity_id k (tombstone d) m,
                get-set d.entity_id k (tombstone d) n,
              )))
    ]
  where
    put : Dict State → Dict State
    put x = if same_type d.entity_type u then Dict.set d.entity_id (tombstone d) x else x

get-set_tombstones_last :
    (u : EntityType) (k : JsString) (ds : List Tombstone) (d : Tombstone) (m : Dict State)
    → Dict.get k (set_tombstones u (ds ++ (d ∷ [])) m) ≡ (
        if same_type d.entity_type u && same d.entity_id k
        then some (tombstone d)
        else Dict.get k (set_tombstones u ds m))
unfolding set_tombstones
get-set_tombstones_last u k [] d m = ground (arith, get-set d.entity_id k (tombstone d) m)
get-set_tombstones_last u k (x ∷ ds) d m =
    get-set_tombstones_last u k ds d
      (if same_type x.entity_type u then Dict.set x.entity_id (tombstone x) m else m)

sealed_deletion-deleted :
    (c d : Tombstone) (o : Option Envelope) (e' : Envelope)
    → sealed_deletion c o ≡ some (deleted d e')
    → (c ≡ d) × (o ≡ some e')
unfolding sealed_deletion
sealed_deletion-deleted c d none e' h = ground arith
sealed_deletion-deleted c d (some e) e' h = (ground arith, ground arith)

delete_found-deleted :
    (platform : Platform) (p : Payload) (t : EntityType) (id at : JsString)
    (found : Option Entity × List Entity) (d : Tombstone) (e' : Envelope)
    → delete_found platform p t id at found ≡ some (deleted d e')
    → ((d.entity_type ≡ t) × (d.entity_id ≡ id) × (d.deleted_in_generation ≡ p.generation))
      × (seal platform (deleted_payload p d found.1) ≡ some e')
unfolding delete_found
delete_found-deleted platform p t id at (none, rest) d e' h = absurd (ground arith)
delete_found-deleted platform p t id at (some e, rest) d e' h =
    let made : Tombstone = record {
      entity_type = t;
      entity_id = id;
      deleted_in_generation = p.generation;
      base_fingerprint = fingerprint platform e;
      deleted_at = at;
    } in
    let (q, s) =
      sealed_deletion-deleted made d (seal platform (deleted_payload p made rest)) e' h in
    (
      (
        ap (λ x. x.entity_type) (sym q),
        ap (λ x. x.entity_id) (sym q),
        ap (λ x. x.deleted_in_generation) (sym q),
      ),
      subst (λ x. seal platform (deleted_payload p x rest) ≡ some e') q s,
    )

values_agree :
    (profile : EntityType → List Entity) (t u : EntityType) (id k : JsString)
    → (same_type u t && same k id) ≡ false
    → Dict.get k
        (set_values u (if same_type u t then (take_out t id (profile t)).1 else profile u) [])
      ≡ Dict.get k (set_values u (profile u) [])
values_agree profile t u id k h = elim (Bool-cases (same_type u t)) [
  | inl s ↦
      rw (s, if◌then◌else◌)
        (subst
          (λ x.
            Dict.get k (set_values x (take_out t id (profile t)).1 [])
            ≡ Dict.get k (set_values x (profile x) []))
          (sym ((same_type_iff u t).0 s))
          (get-set_values_rest t id k (profile t) []
            (ground (arith, same_iff id k, same_iff k id))))
  | inr s ↦ rw (s, if◌then◌else◌) refl
]

state_for-deleted :
    (p : Payload) (d : Tombstone) (u : EntityType) (k : JsString)
    → let p' =
        deleted_payload p d (take_out d.entity_type d.entity_id (p.profile d.entity_type)).1 in
      state_for (states p'.profile p'.tombstones u) k ≡ (
        if same_type u d.entity_type && same k d.entity_id
        then tombstone d
        else state_for (states p.profile p.tombstones u) k)
unfolding deleted_payload states state_for
state_for-deleted p d u k =
    let m =
      set_values u
        (if same_type u d.entity_type
          then (take_out d.entity_type d.entity_id (p.profile d.entity_type)).1
          else p.profile u)
        [] in
    let kept = keep (λ x. not (same (key_of x) (key_of d))) p.tombstones in
    let last = get-set_tombstones_last u k kept d m in
    elim (Bool-cases (same_type u d.entity_type && same k d.entity_id)) [
      | inl s ↦ ground (
        arith,
        s,
        last,
        same_type_iff u d.entity_type,
        same_type_iff d.entity_type u,
        same_iff k d.entity_id,
        same_iff d.entity_id k,
      )
      | inr s ↦ ground (
        arith,
        s,
        last,
        same_type_iff u d.entity_type,
        same_type_iff d.entity_type u,
        same_iff k d.entity_id,
        same_iff d.entity_id k,
        get-set_tombstones_kept d.entity_type u d.entity_id k p.tombstones m
            (set_values u (p.profile u) []) s
            (values_agree p.profile d.entity_type u d.entity_id k s),
      )
    ]

-- A deletion that succeeds gives an envelope that verifies, of the same profile and generation. In it the id holds the
-- tombstone, which is of the type, the id and the generation, and every other id of any type holds what
-- it held.
pub delete_sync_entity-deleted :
    (platform : Platform) (e e' : Envelope) (t u : EntityType) (id k at : JsString) (d : Tombstone)
    → delete_sync_entity platform e t id at ≡ some (deleted d e')
    → (verify platform e' ≡ valid e')
      × ((e'.payload.sync_profile_id ≡ e.payload.sync_profile_id)
          × (e'.payload.generation ≡ e.payload.generation))
      × ((d.entity_type ≡ t)
          × (d.entity_id ≡ id)
          × (d.deleted_in_generation ≡ e.payload.generation))
      × (state_for (states_of e' u) k
          ≡ (if same_type u t && same k id then tombstone d else state_for (states_of e u) k))
unfolding delete_sync_entity
delete_sync_entity-deleted platform e e' t u id k at d h =
    let found = take_out t id (e.payload.profile t) in
    let (of_d, made) = delete_found-deleted platform e.payload t id at found d e' h in
    let (p, v) = seal-verify platform (deleted_payload e.payload d found.1) e' made in
    (
      v,
      (ap (λ x. x.sync_profile_id) p, ap (λ x. x.generation) p),
      of_d,
      ap (λ x. state_for (states x.profile x.tombstones u) k) p
          ∙ subst₂
              (λ x y.
                let p' = deleted_payload e.payload d (take_out x y (e.payload.profile x)).1 in
                state_for (states p'.profile p'.tombstones u) k
                ≡ (if same_type u x && same k y then tombstone d else state_for (states_of e u) k))
              of_d.0 of_d.1 (state_for-deleted e.payload d u k),
    )
