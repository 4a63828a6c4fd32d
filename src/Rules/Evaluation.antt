-- ===== src/Rules/Evaluation.antt =====
-- src/core/rules/engine.ts: `evaluateRules`, which decides on an item, and `dryRunRuleChanges`.
pub mod Precedence
pub mod DryRun
use content_lens.Prelude.{
  ℕ, Bool, true, false, not, ◌&&◌, ◌||◌, Option, none, some, List, [], ◌∷◌, ◌++◌, map, JsString, js,
  same, ◌==◌, if◌then◌else◌,
}
use content_lens.Rules.{Runtime, Action, show, Item}
use content_lens.Rules.Index.{RuleIndex, Schema, Quarantined, build_rule_index}
use content_lens.Rules.Engine.{
  Input, Signals, Evidence, MatchedRule, Evaluation, Resolution, session_reveal, explicit_allow,
  by_identity, by_exact, by_semantic, by_preference, default_show, same_action, make_decision,
  resolve_bucket,
}
use content_lens.Rules.Matches.{
  allow_matches, identity_matches, exact_matches, semantic_matches, preference_matches,
}

abbrev pub resolution_rank : Resolution → ℕ
resolution_rank session_reveal = 0
resolution_rank explicit_allow = 1
resolution_rank by_identity = 2
resolution_rank by_exact = 3
resolution_rank by_semantic = 4
resolution_rank by_preference = 5
resolution_rank default_show = 6

abbrev pub same_resolution : Resolution → Resolution → Bool
same_resolution a b = resolution_rank a == resolution_rank b

-- `ids.join('\u0000')`
unfoldable pub join : List JsString → JsString
join [] = []
join (x ∷ []) = x
join (x ∷ y ∷ ys) = x ++ 0 ∷ join (y ∷ ys)

module _ {N : Type 0} (rt : Runtime N) where
  revealed_evidence : Evidence N
  revealed_evidence = record {
    source = js "user-feedback";
    label = js "Revealed for this session";
    score = none;
    rule_id = none;
  }

  -- The results with no rule: `session-reveal` and `default-show`.
  unfoldable pub no_rule : Input N → Resolution → List (Evidence N) → Evaluation N
  no_rule i resolution extra = record {
    resolution = resolution;
    decision = make_decision rt i.item i.profile_revision show [] extra;
    matched_rules = [];
    dry_run = i.dry_run;
    conflict = none;
  }

  -- The chain of `if (….length > 0) return resolveBucket(…)`.
  unfoldable pub first_bucket : Input N → List (Resolution × List (MatchedRule N)) → Evaluation N
  first_bucket i [] = no_rule i default_show []
  first_bucket i ((resolution, []) ∷ rest) = first_bucket i rest
  first_bucket i ((resolution, m ∷ ms) ∷ rest) = resolve_bucket rt i resolution (m ∷ ms)

  unfoldable pub buckets : Input N → List (Resolution × List (MatchedRule N))
  buckets i =
      (explicit_allow, allow_matches rt i)
      ∷ (by_identity, identity_matches rt i)
      ∷ (by_exact, exact_matches rt i)
      ∷ (by_semantic, semantic_matches rt i)
      ∷ (by_preference, preference_matches rt i)
      ∷ []

  -- `evaluateRules`
  unfoldable pub evaluate_rules : Input N → Evaluation N
  unfolding revealed_evidence
  evaluate_rules i =
      if i.revealed i.item.id
      then no_rule i session_reveal (revealed_evidence ∷ [])
      else first_bucket i (buckets i)

-- One element of `changes`
pub record Change : Type 0 where
  pub content_id : JsString
  pub before_action : Action
  pub after_action : Action
  pub before_rule_ids : List JsString
  pub after_rule_ids : List JsString

-- `DryRunRuleChangesInput`
pub record DryRunInput (I N : Type 0) : Type 0 where
  pub current_index : RuleIndex N
  pub candidate_rules : List I
  pub items : List Item
  pub current_profile_revision : ℕ
  pub candidate_profile_revision : ℕ
  pub signals_of : JsString → Signals N
  pub revealed : JsString → Bool

module _ {N : Type 0} where
  abbrev pub same_outcome : Evaluation N → Evaluation N → Bool
  same_outcome a b =
      same_action a.decision.action b.decision.action
      && same_resolution a.resolution b.resolution
      && same (join a.decision.matched_rule_ids) (join b.decision.matched_rule_ids)

  unfoldable pub change : Item → Evaluation N → Evaluation N → List Change
  change item a b =
      if same_outcome a b
      then []
      else (record {
        content_id = item.id;
        before_action = a.decision.action;
        after_action = b.decision.action;
        before_rule_ids = a.decision.matched_rule_ids;
        after_rule_ids = b.decision.matched_rule_ids;
      })
        ∷ []

module _ {I N : Type 0} (rt : Runtime N) (schema : Schema I N) where
  unfoldable pub dry_input : DryRunInput I N → Item → RuleIndex N → ℕ → Input N
  dry_input d item index revision = record {
    item = item;
    index = index;
    profile_revision = revision;
    revealed = d.revealed;
    signals = d.signals_of item.id;
    dry_run = true;
  }

  unfoldable pub changes_of : DryRunInput I N → RuleIndex N → List Item → List Change
  unfolding dry_input
  changes_of d candidate [] = []
  changes_of d candidate (item ∷ items) =
      let rest = changes_of d candidate items in
      let before =
        evaluate_rules rt (dry_input d item d.current_index d.current_profile_revision) in
      let after = evaluate_rules rt (dry_input d item candidate d.candidate_profile_revision) in
      change item before after ++ rest

  -- `dryRunRuleChanges`
  unfoldable pub dry_run_rule_changes : DryRunInput I N → List Change × List Quarantined
  unfolding changes_of
  dry_run_rule_changes d =
      let built = build_rule_index schema rt.to_lower d.candidate_rules in
      (changes_of d built.0 d.items, built.1)
