-- ===== src/Rules/Matches.antt =====
-- src/core/rules/engine.ts: which rules of an index match an item (the loops of `evaluateRules`).
pub mod Honesty
use content_lens.Prelude.{
  Bool, not, ◌&&◌, ◌||◌, Option, none, some, List, [], ◌∷◌, ◌++◌, map, JsString, keep, prepend,
  if◌then◌else◌,
}
use content_lens.Rules.{
  Runtime, Action, show, promote, reduce, hide, IdentityRule, ExactRule, SemanticRule,
  PreferenceRule, identity, exact, semantic, preference,
}
use content_lens.Rules.Index.{
  identity_rules_for, exact_rules_for, semantic_rule, preference_rules_for,
}
use content_lens.Rules.Engine.{
  Input, MatchedRule, scope_matches, identity_action, semantic_action, is_identity_allow,
  is_exact_allow,
}

module _ {N : Type 0} (rt : Runtime N) where
  unfoldable pub identity_matched : IdentityRule → MatchedRule N
  identity_matched r = record {
    rule = identity r;
    action = identity_action r.effect;
    confidence = rt.one;
    score = none;
  }

  unfoldable pub exact_matched : Action → ExactRule → MatchedRule N
  exact_matched action r = record {
    rule = exact r;
    action = action;
    confidence = rt.one;
    score = none;
  }

  unfoldable pub scoped_identities : Input N → List IdentityRule
  scoped_identities i =
      keep (λ r. scope_matches r.scope i.item) (identity_rules_for rt i.index i.item)

  unfoldable pub scoped_exacts : Input N → List ExactRule
  scoped_exacts i = keep (λ r. scope_matches r.scope i.item) (exact_rules_for rt i.index i.item)

  -- `isNormalizedScore`
  unfoldable pub is_normalized : N → Bool
  is_normalized v = rt.is_finite v && rt.at_most rt.zero v && rt.at_most v rt.one

  unfoldable pub semantic_candidate :
      Input N → JsString → N → Option (SemanticRule N) → Option (MatchedRule N)
  unfolding is_normalized semantic_action
  semantic_candidate i id score none = none
  semantic_candidate i id score (some r) =
      if not (scope_matches r.scope i.item)
        || not (is_normalized score)
        || rt.less score r.threshold
        || i.signals.semantic_exclusions id
      then none
      else some (record {
        rule = semantic r;
        action = semantic_action r.effect;
        confidence = score;
        score = some score;
      })

  -- One turn of the loop over the semantic scores.
  unfoldable pub semantic_match : Input N → JsString × N → Option (MatchedRule N)
  semantic_match i (id, score) = semantic_candidate i id score (semantic_rule rt i.index id)

  unfoldable pub semantic_matches_from : Input N → List (JsString × N) → List (MatchedRule N)
  semantic_matches_from i [] = []
  semantic_matches_from i (s ∷ ss) = prepend (semantic_match i s) (semantic_matches_from i ss)

  unfoldable pub semantic_matches : Input N → List (MatchedRule N)
  unfolding semantic_matches_from semantic_match
  semantic_matches i = semantic_matches_from i i.signals.semantic_scores

  unfoldable pub preference_match : Input N → N → PreferenceRule N → Option (MatchedRule N)
  preference_match i score r =
      let weighted = rt.times r.weight score in
      if not (scope_matches r.scope i.item) || not (rt.is_finite weighted) || rt.is_zero weighted
      then none
      else some (record {
        rule = preference r;
        action = if rt.less rt.zero weighted then promote else reduce;
        confidence = rt.smaller rt.one (rt.absolute score);
        score = none;
      })

  unfoldable pub preference_matches_of :
      Input N → N → List (PreferenceRule N) → List (MatchedRule N)
  preference_matches_of i score [] = []
  preference_matches_of i score (r ∷ rs) =
      prepend (preference_match i score r) (preference_matches_of i score rs)

  unfoldable pub preference_matches_from : Input N → List (JsString × N) → List (MatchedRule N)
  preference_matches_from i [] = []
  preference_matches_from i ((key, score) ∷ ss) =
      let rest = preference_matches_from i ss in
      if not (is_normalized score) || rt.is_zero score
      then rest
      else preference_matches_of i score (preference_rules_for rt i.index key) ++ rest

  unfoldable pub preference_matches : Input N → List (MatchedRule N)
  unfolding preference_matches_from preference_matches_of preference_match is_normalized
  preference_matches i = preference_matches_from i i.signals.preference_scores

  -- `allowRules`
  unfoldable pub allow_matches : Input N → List (MatchedRule N)
  unfolding exact_matched
  allow_matches i =
      map
        (λ (r : IdentityRule). record {
          rule = identity r;
          action = show;
          confidence = rt.one;
          score = none;
        })
        (keep (λ (r : IdentityRule). is_identity_allow r.effect) (scoped_identities i))
      ++ map (exact_matched show)
          (keep (λ (r : ExactRule). is_exact_allow r.effect) (scoped_exacts i))

  -- `identityMatches`
  unfoldable pub identity_matches : Input N → List (MatchedRule N)
  unfolding identity_matched
  identity_matches i =
      map identity_matched
        (keep (λ (r : IdentityRule). not (is_identity_allow r.effect)) (scoped_identities i))

  -- `exactMatches`
  unfoldable pub exact_matches : Input N → List (MatchedRule N)
  unfolding exact_matched
  exact_matches i =
      map (exact_matched hide)
        (keep (λ (r : ExactRule). not (is_exact_allow r.effect)) (scoped_exacts i))
