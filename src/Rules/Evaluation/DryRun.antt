-- ===== src/Rules/Evaluation/DryRun.antt =====
-- src/core/rules/engine.ts, `dryRunRuleChanges`: what a dry run reports.
use content_lens.Prelude.{
  ℕ, Bool, true, false, List, [], ◌∷◌, ◌++◌, ◌≡◌, refl, sym, ap, ◌∙◌, JsString, same_refl, arith,
  if◌then◌else◌, ◌==◌, sort, prepend,
}
use content_lens.Rules.{Runtime, Action, Item, PreferenceRule}
use content_lens.Rules.Index.{Schema, build_rule_index, preference_rules_for}
use content_lens.Rules.Engine.{
  Input, Evaluation, Resolution, resolve_bucket, resolve_actions, make_decision, actions_of,
  by_rule_id, MatchedRule, action_rank,
}
use content_lens.Rules.Matches.{
  allow_matches, identity_matches, exact_matches, semantic_matches, semantic_matches_from,
  semantic_match, semantic_candidate, preference_matches, preference_match, preference_matches_of,
  preference_matches_from, scoped_identities, scoped_exacts,
}
use content_lens.Rules.Evaluation.{
  DryRunInput, evaluate_rules, no_rule, first_bucket, buckets, same_outcome, resolution_rank, join,
  change, changes_of, dry_run_rule_changes, dry_input,
}

abbrev Outcome : {N : Type 0} → Evaluation N → Action × Resolution × List JsString
Outcome e = (e.decision.action, e.resolution, e.decision.matched_rule_ids)

==-refl : (n : ℕ) → (n == n) ≡ true
==-refl n = ground arith

same_outcome-eq :
    {N : Type 0} (a b : Evaluation N) → Outcome a ≡ Outcome b → same_outcome a b ≡ true
same_outcome-eq a b e =
    rw
      (
        ap (λ o. o.0) e,
        ap (λ o. o.1) e,
        ap (λ o. o.2) e,
        ==-refl (action_rank b.decision.action),
        ==-refl (resolution_rank b.resolution),
        same_refl (join b.decision.matched_rule_ids),
      )
      refl

module _ {N : Type 0} (rt : Runtime N) (i : Input N) (revision : ℕ) where
  abbrev at_revision : Input N
  at_revision = record i { profile_revision = revision }

  semantic_matches-revision :
      (ss : List (JsString × N))
      → semantic_matches_from rt at_revision ss ≡ semantic_matches_from rt i ss
  unfolding semantic_matches_from semantic_match semantic_candidate
  semantic_matches-revision [] = refl
  semantic_matches-revision (s ∷ ss) =
      ap (prepend (semantic_match rt i s)) (semantic_matches-revision ss)

  preferences_of-revision :
      (score : N) (rs : List (PreferenceRule N))
      → preference_matches_of rt at_revision score rs ≡ preference_matches_of rt i score rs
  unfolding preference_matches_of preference_match
  preferences_of-revision score [] = refl
  preferences_of-revision score (r ∷ rs) =
      ap (prepend (preference_match rt i score r)) (preferences_of-revision score rs)

  preferences_from-revision :
      (ss : List (JsString × N))
      → preference_matches_from rt at_revision ss ≡ preference_matches_from rt i ss
  unfolding preference_matches_from
  preferences_from-revision [] = refl
  preferences_from-revision ((key, score) ∷ ss) =
      rw
        (
          preferences_from-revision ss,
          preferences_of-revision score (preference_rules_for rt i.index key),
        )
        refl

  buckets-revision : buckets rt at_revision ≡ buckets rt i
  unfolding buckets semantic_matches preference_matches allow_matches identity_matches exact_matches
      scoped_identities scoped_exacts
  buckets-revision =
      rw
        (
          semantic_matches-revision i.signals.semantic_scores,
          preferences_from-revision i.signals.preference_scores,
        )
        refl

  resolve_actions-revision :
      (r : Resolution) (ms : List (MatchedRule N)) (actions : List Action)
      → Outcome (resolve_actions rt at_revision r ms actions)
        ≡ Outcome (resolve_actions rt i r ms actions)
  unfolding resolve_actions make_decision
  resolve_actions-revision r ms [] = refl
  resolve_actions-revision r ms (a ∷ []) = refl
  resolve_actions-revision r ms (a ∷ b ∷ bs) = refl

  first_bucket-revision :
      (bs : List (Resolution × List (MatchedRule N)))
      → Outcome (first_bucket rt at_revision bs) ≡ Outcome (first_bucket rt i bs)
  unfolding first_bucket no_rule make_decision resolve_bucket
  first_bucket-revision [] = refl
  first_bucket-revision ((r, []) ∷ bs) = first_bucket-revision bs
  first_bucket-revision ((r, m ∷ ms) ∷ bs) =
      resolve_actions-revision r (sort by_rule_id (m ∷ ms))
        (actions_of rt (sort by_rule_id (m ∷ ms)))

  outcome-if :
      (b : Bool) (x y z w : Evaluation N)
      → Outcome x ≡ Outcome y
      → Outcome z ≡ Outcome w
      → Outcome (if b then x else z) ≡ Outcome (if b then y else w)
  outcome-if true x y z w p q = p
  outcome-if false x y z w p q = q

  -- The profile's revision has no say in the action, the resolution and the matching rules.
  pub outcome-revision : Outcome (evaluate_rules rt at_revision) ≡ Outcome (evaluate_rules rt i)
  unfolding evaluate_rules no_rule make_decision
  outcome-revision = outcome-if (i.revealed i.item.id) _ _ _ _ refl (
      ap (λ bs. Outcome (first_bucket rt at_revision bs)) buckets-revision
      ∙ first_bucket-revision (buckets rt i))

module _ {I N : Type 0} (rt : Runtime N) (schema : Schema I N) where
  no_change : (item : Item) (a b : Evaluation N) → Outcome a ≡ Outcome b → change item a b ≡ []
  unfolding change
  no_change item a b e = rw (same_outcome-eq a b e, if◌then◌else◌) refl

  unchanged :
      (d : DryRunInput I N) (items : List Item) → changes_of rt schema d d.current_index items ≡ []
  unfolding changes_of
  unchanged d [] = refl
  unchanged d (item ∷ items) =
      let before = dry_input rt schema d item d.current_index d.current_profile_revision in
      let after = dry_input rt schema d item d.current_index d.candidate_profile_revision in
      ap (λ c. c ++ changes_of rt schema d d.current_index items)
        (no_change item (evaluate_rules rt before) (evaluate_rules rt after)
          (sym (outcome-revision rt before d.candidate_profile_revision)))
      ∙ unchanged d items

  -- Where the candidate rules build the current index, a dry run reports no change, whatever the two
  -- revisions of the profile, the items, the signals and the revealed items.
  pub same_rules-no_changes :
      (d : DryRunInput I N)
      → (build_rule_index schema rt.to_lower d.candidate_rules).0 ≡ d.current_index
      → (dry_run_rule_changes rt schema d).0 ≡ []
  unfolding dry_run_rule_changes
  same_rules-no_changes d e = rw e (unchanged d d.items)
