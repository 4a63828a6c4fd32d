-- ===== src/Sync/Envelope/Keys.antt =====
-- src/sync/tombstones.ts: `tombstoneKey`.
use content_lens.Prelude.{
  ◌≡◌, ◌∙◌, refl, ap, sym, Bool, true, not, ◌&&◌, Option, some, [], ◌∷◌, ◌++◌, JsString, ◌==◌, same,
  same_iff, same_refl, any, find, arith, Bool-cases, inl, inr,
}
use content_lens.Sync.Envelope.{
  EntityType, same_type, tombstone_key, collection_order, type_name, portable_providers,
  model_catalog, model_bindings, rules, exclusions, identities, platform_preferences,
}
use content_lens.Sync.Envelope.Sealing.{same_type_iff}

-- A key tells its type and its id apart, since no type's name has the character 0.
no_zero : JsString → Bool
no_zero s = not (any (λ c. c == 0) s)

split-key :
    (s u a b : JsString)
    → no_zero s ≡ true
    → no_zero u ≡ true
    → same (s ++ (0 ∷ a)) (u ++ (0 ∷ b)) ≡ true
    → (s ≡ u) × (a ≡ b)
unfolding no_zero same
split-key [] [] a b hs hu e = ground (arith, same_iff a b)
split-key [] (c ∷ u) a b hs hu e = ground arith
split-key (c ∷ s) [] a b hs hu e = ground arith
split-key (c ∷ s) (d ∷ u) a b hs hu e = ground (arith, split-key s u a b)

named : JsString → Option EntityType
named s = find (λ u. same (type_name u) s) collection_order

named-type_name : (t : EntityType) → (named (type_name t) ≡ some t) × (no_zero (type_name t) ≡ true)
unfolding named type_name same no_zero
named-type_name portable_providers = (refl, refl)
named-type_name model_catalog = (refl, refl)
named-type_name model_bindings = (refl, refl)
named-type_name rules = (refl, refl)
named-type_name exclusions = (refl, refl)
named-type_name identities = (refl, refl)
named-type_name platform_preferences = (refl, refl)

pub tombstone_key_iff :
    (t u : EntityType) (j k : JsString)
    → same (tombstone_key t j) (tombstone_key u k) ≡ (same_type t u && same j k)
unfolding tombstone_key
tombstone_key_iff t u j k = elim (Bool-cases (same (tombstone_key t j) (tombstone_key u k))) [
  | inl s ↦
      let (names, ids) =
        split-key (type_name t) (type_name u) j k (named-type_name t).1 (named-type_name u).1 s in
      let types =
        the_same t u (sym (named-type_name t).0 ∙ (ap named names ∙ (named-type_name u).0)) in
      ground (arith, s, same_type_iff t u, same_iff j k)
  | inr s ↦ elim (Bool-cases (same_type t u && same j k)) [
    | inl q ↦ absurd (
        ground (
          arith,
          s,
          again ((same_type_iff t u).0 (ground (arith, q))) ((same_iff j k).0 (ground (arith, q))),
        ))
    | inr q ↦ ground (arith, s, q)
  ]
]
  where
    the_same : (x y : EntityType) → some x ≡ some y → x ≡ y
    the_same x y h = ground arith

    again : t ≡ u → j ≡ k → same (tombstone_key t j) (tombstone_key u k) ≡ true
    again a b = rw (a, b) (same_refl (tombstone_key u k))
