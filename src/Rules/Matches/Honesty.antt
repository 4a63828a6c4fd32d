-- ===== src/Rules/Matches/Honesty.antt =====
-- src/core/rules/engine.ts: the actions of the rules that match an item are those of their effects.
use content_lens.Prelude.{
  Bool, true, false, not, Option, none, some, List, [], ◌∷◌, ◌≡◌, refl, JsString, All, arith,
  All-map-keep, All-append, All-prepend, if-both, ◌||◌, if◌then◌else◌, subst, if-some,
}
use content_lens.Rules.{
  Runtime, promote, reduce, hide, review, IdentityRule, ExactRule, SemanticRule, PreferenceRule,
  IdentityEffect, ExactEffect, SemanticEffect,
}
use content_lens.Rules.Index.{semantic_rule, preference_rules_for}
use content_lens.Rules.Engine.{
  MatchedRule, Input, identity_action, semantic_action, is_identity_allow, is_exact_allow,
  same_action,
}
use content_lens.Rules.Engine.Verdict.{
  identity_hides, exact_hides, semantic_hides, IsHonest, IsShow,
}
use content_lens.Rules.Matches.{
  allow_matches, identity_matches, exact_matches, semantic_match, semantic_candidate,
  semantic_matches_from, preference_match, preference_matches_of, preference_matches_from,
  identity_matched, exact_matched, scoped_identities, scoped_exacts, is_normalized,
}

identity_effect-honest :
    (e : IdentityEffect)
    → (same_action (identity_action e) hide ≡ true → identity_hides e ≡ true)
      × (same_action (identity_action e) review ≡ false)
unfolding identity_action
identity_effect-honest IdentityEffect.allow = ((λ h. h), refl)
identity_effect-honest IdentityEffect.block = ((λ h. h), refl)
identity_effect-honest IdentityEffect.promote = ((λ h. h), refl)

semantic_effect-honest :
    (e : SemanticEffect)
    → (same_action (semantic_action e) hide ≡ true → semantic_hides e ≡ true)
      × (same_action (semantic_action e) review ≡ false)
unfolding semantic_action
semantic_effect-honest SemanticEffect.allow = ((λ h. h), refl)
semantic_effect-honest SemanticEffect.block = ((λ h. h), refl)
semantic_effect-honest SemanticEffect.reduce = ((λ h. h), refl)
semantic_effect-honest SemanticEffect.promote = ((λ h. h), refl)

exact_effect-honest : (e : ExactEffect) → not (is_exact_allow e) ≡ true → (exact_hides e ≡ true)
exact_effect-honest ExactEffect.block h = refl
exact_effect-honest ExactEffect.allow h = h

module _ {N : Type 0} (rt : Runtime N) (i : Input N) where
  pub allow-IsShow : All IsShow (allow_matches rt i)
  unfolding allow_matches exact_matched
  allow-IsShow =
      All-append IsShow _ _
        (All-map-keep IsShow _ (λ (r : IdentityRule). is_identity_allow r.effect) (λ r e. refl)
          (scoped_identities rt i))
        (All-map-keep IsShow _ (λ (r : ExactRule). is_exact_allow r.effect) (λ r e. refl)
          (scoped_exacts rt i))

  pub allow-IsHonest : All IsHonest (allow_matches rt i)
  unfolding allow_matches exact_matched
  allow-IsHonest =
      All-append IsHonest _ _
        (All-map-keep IsHonest _ (λ (r : IdentityRule). is_identity_allow r.effect)
          (λ r e. ((λ h. ground arith), refl)) (scoped_identities rt i))
        (All-map-keep IsHonest _ (λ (r : ExactRule). is_exact_allow r.effect)
          (λ r e. ((λ h. ground arith), refl)) (scoped_exacts rt i))

  pub identity-IsHonest : All IsHonest (identity_matches rt i)
  unfolding identity_matches identity_matched
  identity-IsHonest =
      All-map-keep IsHonest _ (λ (r : IdentityRule). not (is_identity_allow r.effect))
        (λ r e. identity_effect-honest r.effect) (scoped_identities rt i)

  pub exact-IsHonest : All IsHonest (exact_matches rt i)
  unfolding exact_matches exact_matched
  exact-IsHonest =
      All-map-keep IsHonest _ (λ (r : ExactRule). not (is_exact_allow r.effect))
        (λ r e. ((λ h. exact_effect-honest r.effect e), refl)) (scoped_exacts rt i)

  semantic_candidate-IsHonest :
      (id : JsString) (score : N) (o : Option (SemanticRule N)) (m : MatchedRule N)
      → semantic_candidate rt i id score o ≡ some m
      → IsHonest m
  unfolding semantic_candidate
  semantic_candidate-IsHonest id score none m e = cc
  semantic_candidate-IsHonest id score (some r) m e =
      subst IsHonest (if-some _ _ m e) (semantic_effect-honest r.effect)

  semantic_match-IsHonest :
      (s : JsString × N) (m : MatchedRule N) → semantic_match rt i s ≡ some m → IsHonest m
  unfolding semantic_match
  semantic_match-IsHonest (id, score) m e =
      semantic_candidate-IsHonest id score (semantic_rule rt i.index id) m e

  pub semantic-IsHonest : (ss : List (JsString × N)) → All IsHonest (semantic_matches_from rt i ss)
  unfolding semantic_matches_from
  semantic-IsHonest [] = tt
  semantic-IsHonest (s ∷ ss) =
      All-prepend IsHonest (semantic_match rt i s) _ (semantic_match-IsHonest s)
        (semantic-IsHonest ss)

  preference_match-IsHonest :
      (score : N) (r : PreferenceRule N) (m : MatchedRule N)
      → preference_match rt i score r ≡ some m
      → IsHonest m
  unfolding preference_match
  preference_match-IsHonest score r m e =
      subst IsHonest (if-some _ _ m e) (by_sign (rt.less rt.zero (rt.times r.weight score)))
    where
      by_sign :
          (b : Bool)
          → (same_action (if b then promote else reduce) hide ≡ true → false ≡ true)
            × (same_action (if b then promote else reduce) review ≡ false)
      by_sign true = ((λ h. h), refl)
      by_sign false = ((λ h. h), refl)

  preferences_of-IsHonest :
      (score : N) (rs : List (PreferenceRule N))
      → All IsHonest (preference_matches_of rt i score rs)
  unfolding preference_matches_of
  preferences_of-IsHonest score [] = tt
  preferences_of-IsHonest score (r ∷ rs) =
      All-prepend IsHonest (preference_match rt i score r) _ (preference_match-IsHonest score r)
        (preferences_of-IsHonest score rs)

  pub preferences_from-IsHonest :
      (ss : List (JsString × N)) → All IsHonest (preference_matches_from rt i ss)
  unfolding preference_matches_from
  preferences_from-IsHonest [] = tt
  preferences_from-IsHonest ((key, score) ∷ ss) =
      if-both (All IsHonest) (not (is_normalized rt score) || rt.is_zero score) _ _
        (preferences_from-IsHonest ss)
        (All-append IsHonest _ _
          (preferences_of-IsHonest score (preference_rules_for rt i.index key))
          (preferences_from-IsHonest ss))
