-- ===== src/Sync/Merge/Outcome.antt =====
-- src/sync/three-way-merge.ts: the merge takes for each id the state that its three states ask for.
use content_lens.Prelude.{
  ◌≡◌, refl, sym, subst, true, false, ◌||◌, List, [], ◌∷◌, JsString, same, arith, Bool-cases, inl,
  inr, any,
}
use content_lens.Sync.Envelope.{
  EntityType, Envelope, same_type, collection_order, portable_providers, model_catalog,
  model_bindings, rules, exclusions, identities, platform_preferences, index,
}
use content_lens.Sync.Envelope.Sealing.{same_type_iff}
use content_lens.Sync.Merge.{
  absent, Draft, states, state_for, states_of, equal_state, merge_type, merge_types, empty_draft,
}
use content_lens.Sync.Merge.Chosen.{chosen, clash}
use content_lens.Sync.Merge.Reading.{state_for-states}
use content_lens.Sync.Merge.Drafts.{
  base_at, local_at, remote_at, chosen_at, clash_at, ids_of, Chosen, Holds, is_nonempty, pass_all,
  pass_all-Chosen, pass_all-stays, pass_all-Holds, pass_all-nonempty, any-sorted_ids,
  state_for-absent,
}

module _ (base local remote : Envelope) where
  -- An id that none of the three has.
  elsewhere :
      (t : EntityType) (k : JsString)
      → any (same k) (ids_of base local remote t) ≡ false
      → (base_at base local remote t k ≡ absent)
        × (local_at base local remote t k ≡ absent)
        × (remote_at base local remote t k ≡ absent)
  elsewhere t k h =
      let at = any-sorted_ids k (states_of base t) (states_of local t) (states_of remote t) in
      (
        state_for-absent k (states_of base t) (ground arith),
        state_for-absent k (states_of local t) (ground arith),
        state_for-absent k (states_of remote t) (ground arith),
      )

  elsewhere-Holds :
      (t : EntityType) (k : JsString) (w : Draft)
      → any (same k) (ids_of base local remote t) ≡ false
      → Holds base local remote w t k
  unfolding chosen equal_state
  elsewhere-Holds t k w h = let (b, l, r) = elsewhere t k h in rw (b, l, r) tt

  pub elsewhere-clash :
      (t : EntityType) (k : JsString)
      → any (same k) (ids_of base local remote t) ≡ false
      → clash_at base local remote t k ≡ false
  unfolding clash equal_state
  elsewhere-clash t k h = let (b, l, r) = elsewhere t k h in rw (b, l, r) refl

  merge_type-Holds :
      (t : EntityType) (k : JsString) (w : Draft)
      → Holds base local remote (merge_type base local remote t w) t k
  unfolding merge_type
  merge_type-Holds t k w = elim (Bool-cases (any (same k) (ids_of base local remote t))) [
    | inl s ↦ pass_all-Holds base local remote t (ids_of base local remote t) k w s
    | inr s ↦ elsewhere-Holds t k (pass_all base local remote t (ids_of base local remote t) w) s
  ]

  merge_types-Chosen :
      (ts : List EntityType) (w : Draft)
      → Chosen base local remote w
      → Chosen base local remote (merge_types base local remote ts w)
  unfolding merge_types merge_type
  merge_types-Chosen [] w h = h
  merge_types-Chosen (t ∷ ts) w h =
      merge_types-Chosen ts (merge_type base local remote t w)
        (pass_all-Chosen base local remote t (ids_of base local remote t) w h)

  merge_types-stays :
      (ts : List EntityType) (u : EntityType) (k : JsString) (w : Draft)
      → Holds base local remote w u k
      → Holds base local remote (merge_types base local remote ts w) u k
  unfolding merge_types merge_type
  merge_types-stays [] u k w h = h
  merge_types-stays (t ∷ ts) u k w h =
      merge_types-stays ts u k (merge_type base local remote t w)
        (pass_all-stays base local remote t u (ids_of base local remote t) k w h)

  merge_types-Holds :
      (ts : List EntityType) (u : EntityType) (k : JsString) (w : Draft)
      → any (same_type u) ts ≡ true
      → Holds base local remote (merge_types base local remote ts w) u k
  unfolding merge_types
  merge_types-Holds [] u k w h = absurd (ground (arith, h))
  merge_types-Holds (t ∷ ts) u k w h = elim (Bool-cases (same_type u t)) [
    | inl s ↦
        subst
          (λ x.
            Holds base local remote
              (merge_types base local remote ts (merge_type base local remote t w)) x k)
          (sym ((same_type_iff u t).0 s))
          (merge_types-stays ts t k (merge_type base local remote t w) (merge_type-Holds t k w))
    | inr s ↦ merge_types-Holds ts u k (merge_type base local remote t w) (ground arith)
  ]

  pub merge_types-nonempty :
      (ts : List EntityType) (w : Draft)
      → is_nonempty (merge_types base local remote ts w).conflicts ≡ (
          is_nonempty w.conflicts
          || any (λ t. any (clash_at base local remote t) (ids_of base local remote t)) ts)
  unfolding merge_types merge_type
  merge_types-nonempty [] w = ground arith
  merge_types-nonempty (t ∷ ts) w = ground (
    arith,
    merge_types-nonempty ts (merge_type base local remote t w),
    pass_all-nonempty base local remote t (ids_of base local remote t) w,
  )

pub in_order : (t : EntityType) → any (same_type t) collection_order ≡ true
unfolding same_type index
in_order portable_providers = refl
in_order model_catalog = refl
in_order model_bindings = refl
in_order rules = refl
in_order exclusions = refl
in_order identities = refl
in_order platform_preferences = refl

abbrev pub merged : Envelope → Envelope → Envelope → Draft
merged base local remote = merge_types base local remote collection_order empty_draft

-- The states that the merge of the types leaves in its draft.
pub states-merged :
    (base local remote : Envelope) (t : EntityType) (k : JsString)
    → let w = merged base local remote in
      state_for (states w.profile w.tombstones t) k ≡ chosen_at base local remote t k
states-merged base local remote t k =
    let w = merged base local remote in
    let c =
      merge_types-Chosen base local remote collection_order empty_draft
        (record { of_values = λ u. tt; of_tombstones = tt }) in
    state_for-states (chosen_at base local remote) w.profile w.tombstones t k (c.of_values t)
      c.of_tombstones
      (merge_types-Holds base local remote collection_order t k empty_draft (in_order t))
