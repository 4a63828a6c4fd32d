-- ===== src/Rules/Evaluation/Precedence.antt =====
-- src/core/rules/engine.ts, `evaluateRules`: which rule wins.
use content_lens.Prelude.{
  true, false, none, List, [], ◌∷◌, ◌≡◌, refl, ap, ◌∙◌, any, All, is_some, if-both,
  nonempty-map-keep, nonempty-map-keep_alone, ◌||◌, length, ltb, if◌then◌else◌,
}
use content_lens.Rules.{Runtime, show, hide, review, IdentityRule, ExactRule}
use content_lens.Rules.Engine.{
  MatchedRule, Input, Evaluation, Resolution, explicit_allow, is_identity_allow, is_exact_allow,
  same_action, make_decision,
}
use content_lens.Rules.Engine.Verdict.{
  hides, IsHonest, IsShow, hide-resolve_bucket, review-resolve_bucket, show-resolve_bucket,
  resolution-resolve_bucket,
}
use content_lens.Rules.Matches.{
  allow_matches, semantic_matches, preference_matches, scoped_identities, scoped_exacts,
}
use content_lens.Rules.Evaluation.{evaluate_rules, first_bucket, buckets, no_rule, Resolution}
use content_lens.Rules.Matches.Honesty.{
  allow-IsShow, allow-IsHonest, identity-IsHonest, exact-IsHonest, semantic-IsHonest,
  preferences_from-IsHonest,
}

abbrev IsSound : {N : Type 0} → Evaluation N → Type 0
IsSound e =
    (e.decision.action ≡ hide → any hides e.matched_rules ≡ true)
    × (same_action e.decision.action review ≡ is_some e.conflict)

module _ {N : Type 0} (rt : Runtime N) (i : Input N) where
  first_bucket-honest :
      (bs : List (Resolution × List (MatchedRule N)))
      → All (λ b. All IsHonest b.1) bs
      → IsSound (first_bucket rt i bs)
  unfolding first_bucket no_rule make_decision
  first_bucket-honest [] h = ((λ e. cc), refl)
  first_bucket-honest ((r, []) ∷ bs) (_, h) = first_bucket-honest bs h
  first_bucket-honest ((r, m ∷ ms) ∷ bs) (k, h) =
      (hide-resolve_bucket rt i r (m ∷ ms) k, review-resolve_bucket rt i r (m ∷ ms) k)

  buckets-IsHonest : All (λ b. All IsHonest b.1) (buckets rt i)
  unfolding buckets semantic_matches preference_matches
  buckets-IsHonest = (
    (allow-IsHonest rt i),
    (
      (identity-IsHonest rt i),
      (
        (exact-IsHonest rt i),
        (
          semantic-IsHonest rt i i.signals.semantic_scores,
          (preferences_from-IsHonest rt i i.signals.preference_scores, tt),
        ),
      ),
    ),
  )

  evaluate_rules-IsSound : IsSound (evaluate_rules rt i)
  unfolding evaluate_rules no_rule make_decision
  evaluate_rules-IsSound =
      if-both IsSound (i.revealed i.item.id) _ _ ((λ e. cc), refl)
        (first_bucket-honest (buckets rt i) buckets-IsHonest)

  -- Where the engine hides an item, one of the rules that it reports as matching has the effect to block:
  -- whatever the index, the item and the signals, no preference and no conflict hides it.
  pub hidden_by_a_rule :
      (evaluate_rules rt i).decision.action ≡ hide
      → any hides (evaluate_rules rt i).matched_rules ≡ true
  hidden_by_a_rule = evaluate_rules-IsSound.0

  -- The engine's action is a review just where it reports a conflict between rules.
  pub review_iff_conflict :
      same_action (evaluate_rules rt i).decision.action review
      ≡ is_some (evaluate_rules rt i).conflict
  review_iff_conflict = evaluate_rules-IsSound.1

  allow-first :
      (ms : List (MatchedRule N)) (bs : List (Resolution × List (MatchedRule N)))
      → ltb 0 (length ms) ≡ true
      → All IsShow ms
      → ((first_bucket rt i ((explicit_allow, ms) ∷ bs)).decision.action ≡ show)
        × ((first_bucket rt i ((explicit_allow, ms) ∷ bs)).conflict ≡ none)
        × ((first_bucket rt i ((explicit_allow, ms) ∷ bs)).resolution ≡ explicit_allow)
  unfolding first_bucket
  allow-first [] bs q h = cc
  allow-first (m ∷ ms) bs q h =
      let (a, c) = show-resolve_bucket rt i explicit_allow (m ∷ ms) h in
      (a, c, resolution-resolve_bucket rt i explicit_allow (m ∷ ms))

  nonempty-allow_matches : ltb 0 (length (allow_matches rt i)) ≡ (
      any (λ (r : IdentityRule). is_identity_allow r.effect) (scoped_identities rt i)
      || any (λ (r : ExactRule). is_exact_allow r.effect) (scoped_exacts rt i))
  unfolding allow_matches
  nonempty-allow_matches =
      nonempty-map-keep _ (λ (r : IdentityRule). is_identity_allow r.effect)
        (scoped_identities rt i) _
      ∙ ap
          (λ b.
            any (λ (r : IdentityRule). is_identity_allow r.effect) (scoped_identities rt i) || b)
          (nonempty-map-keep_alone _ (λ (r : ExactRule). is_exact_allow r.effect)
            (scoped_exacts rt i))

  -- Where the session does not reveal the item, and a rule by identity or an exact rule that matches it in
  -- scope allows it, the engine shows it, without a conflict, whatever the other rules and the signals say.
  pub allow_wins :
      i.revealed i.item.id ≡ false
      → (any (λ (r : IdentityRule). is_identity_allow r.effect) (scoped_identities rt i)
          || any (λ (r : ExactRule). is_exact_allow r.effect) (scoped_exacts rt i))
        ≡ true
      → ((evaluate_rules rt i).decision.action ≡ show)
        × ((evaluate_rules rt i).conflict ≡ none)
        × ((evaluate_rules rt i).resolution ≡ explicit_allow)
  unfolding evaluate_rules buckets
  allow_wins h a =
      rw (h, if◌then◌else◌)
        (allow-first (allow_matches rt i) _ (nonempty-allow_matches ∙ a) (allow-IsShow rt i))
