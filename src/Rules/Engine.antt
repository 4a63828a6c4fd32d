-- ===== src/Rules/Engine.antt =====
-- src/core/rules/engine.ts: the decision that a group of matching rules leads to (`resolveBucket`).
pub mod Verdict
use content_lens.Prelude.{
  ℕ, Bool, true, false, not, ◌&&◌, ◌||◌, Option, none, some, List, [], ◌∷◌, ◌++◌, map, JsString, js,
  same, before, ltb, ◌==◌, keep, any, is_some, get_or, if◌then◌else◌, sort,
}
use content_lens.Rules.{
  Runtime, Action, show, promote, reduce, hide, review, Scope, IdentityRule, ExactRule,
  SemanticRule, PreferenceRule, Rule, identity, exact, semantic, preference, base_of, id_of, Item,
  IdentityEffect, ExactEffect, SemanticEffect,
}
use content_lens.Rules.Index.{
  RuleIndex, identity_rules_for, exact_rules_for, semantic_rule, preference_rules_for,
}

-- `RuleResolution`
pub data Resolution : Type 0 where
  session_reveal explicit_allow by_identity by_exact by_semantic by_preference default_show :
      Resolution

-- `RuleSignals`: the scores in the order of `Object.entries`, and the excluded rules.
pub record Signals (N : Type 0) : Type 0 where
  pub semantic_scores : List (JsString × N)
  pub semantic_exclusions : JsString → Bool
  pub preference_scores : List (JsString × N)

pub record Evidence (N : Type 0) : Type 0 where
  pub source : JsString
  pub label : JsString
  pub score : Option N
  pub rule_id : Option JsString

-- `Decision`; the versions are fixed texts but for the profile's revision.
pub record Decision (N : Type 0) : Type 0 where
  pub content_id : JsString
  pub action : Action
  pub score : N
  pub confidence : N
  pub reasons : List (Evidence N)
  pub matched_rule_ids : List JsString
  pub decided_at : JsString
  pub classifier_version : JsString
  pub policy_version : JsString
  pub profile_revision : ℕ

pub record Conflict : Type 0 where
  pub rule_ids : List JsString
  pub actions : List Action

pub record Evaluation (N : Type 0) : Type 0 where
  pub resolution : Resolution
  pub decision : Decision N
  pub matched_rules : List (Rule N)
  pub dry_run : Bool
  pub conflict : Option Conflict

pub record MatchedRule (N : Type 0) : Type 0 where
  pub rule : Rule N
  pub action : Action
  pub confidence : N
  pub score : Option N

pub record Input (N : Type 0) : Type 0 where
  pub item : Item
  pub index : RuleIndex N
  pub profile_revision : ℕ
  pub revealed : JsString → Bool
  pub signals : Signals N
  pub dry_run : Bool

-- The order of `sort()` on the names of actions.
abbrev pub action_rank : Action → ℕ
action_rank hide = 0
action_rank promote = 1
action_rank reduce = 2
action_rank review = 3
action_rank show = 4

abbrev pub same_action : Action → Action → Bool
same_action a b = action_rank a == action_rank b

-- `new Set`: each action once, where it comes first.
unfoldable pub distinct : List Action → List Action
distinct [] = []
distinct (a ∷ bs) = a ∷ keep (λ b. not (same_action a b)) (distinct bs)

abbrev listed : Option (List JsString) → JsString → Bool
listed none name = true
listed (some []) name = true
listed (some (x ∷ xs)) name = any (λ y. same y name) (x ∷ xs)

-- `scopeMatches`
unfoldable pub scope_matches : Scope → Item → Bool
scope_matches scope item =
    listed scope.platforms item.platform && listed scope.surfaces item.surface

-- `ruleAction` on rules by identity and on semantic rules
unfoldable pub identity_action : IdentityEffect → Action
identity_action IdentityEffect.allow = show
identity_action IdentityEffect.block = hide
identity_action IdentityEffect.promote = promote

unfoldable pub semantic_action : SemanticEffect → Action
semantic_action SemanticEffect.allow = show
semantic_action SemanticEffect.block = hide
semantic_action SemanticEffect.reduce = reduce
semantic_action SemanticEffect.promote = promote

abbrev pub is_identity_allow : IdentityEffect → Bool
is_identity_allow IdentityEffect.allow = true
is_identity_allow IdentityEffect.block = false
is_identity_allow IdentityEffect.promote = false

abbrev pub is_exact_allow : ExactEffect → Bool
is_exact_allow ExactEffect.allow = true
is_exact_allow ExactEffect.block = false

module _ {N : Type 0} where
  rule_label : Rule N → JsString
  rule_label (identity r) = js "Explicit identity rule applies"
  rule_label (exact r) = js "Exact content rule applies"
  rule_label (semantic r) = js "Semantic rule applies"
  rule_label (preference r) = js "Preference rule applies"

  -- `evidenceFor`
  unfoldable pub evidence_for : MatchedRule N → Evidence N
  unfolding rule_label
  evidence_for m = record {
    source = js "deterministic-rule";
    label = rule_label m.rule;
    score = m.score;
    rule_id = some (id_of m.rule);
  }

  abbrev pub by_rule_id : MatchedRule N → MatchedRule N → Bool
  by_rule_id a b = before (id_of a.rule) (id_of b.rule)

module _ {N : Type 0} (rt : Runtime N) where
  -- `ACTION_SCORES`
  action_score : Action → N
  action_score show = rt.half
  action_score promote = rt.one
  action_score reduce = rt.quarter
  action_score hide = rt.zero
  action_score review = rt.half

  -- `Math.min` of one number or more
  least : N → List (MatchedRule N) → N
  least c [] = c
  least c (m ∷ ms) = rt.smaller c (least m.confidence ms)

  unfoldable pub confidence_of : Action → List (MatchedRule N) → N
  unfolding least
  confidence_of review [] = rt.zero
  confidence_of _ [] = rt.one
  confidence_of _ (m ∷ ms) = least m.confidence ms

  -- `decision`
  unfoldable pub make_decision :
      Item → ℕ → Action → List (MatchedRule N) → List (Evidence N) → Decision N
  unfolding action_score confidence_of evidence_for
  make_decision item revision action matches extra =
      let ordered = sort by_rule_id matches in
      record {
        content_id = item.id;
        action = action;
        score = action_score action;
        confidence = confidence_of action ordered;
        reasons = map evidence_for ordered ++ extra;
        matched_rule_ids = map (λ m. id_of m.rule) ordered;
        decided_at = item.observed_at;
        classifier_version = js "rule-engine@1;profile=" ++ rt.decimal revision;
        policy_version = js "deterministic-policy@1";
        profile_revision = revision;
      }

  abbrev pub actions_of : List (MatchedRule N) → List Action
  actions_of ordered =
      sort (λ a b. ltb (action_rank a) (action_rank b)) (distinct (map (λ m. m.action) ordered))

  conflict_evidence : Evidence N
  conflict_evidence = record {
    source = js "deterministic-rule";
    label = js "Conflicting explicit rules require review";
    score = none;
    rule_id = none;
  }

  unfoldable pub resolve_actions :
      Input N → Resolution → List (MatchedRule N) → List Action → Evaluation N
  unfolding conflict_evidence
  resolve_actions i resolution ordered [] = record {
    resolution = resolution;
    decision = make_decision i.item i.profile_revision show ordered [];
    matched_rules = map (λ m. m.rule) ordered;
    dry_run = i.dry_run;
    conflict = none;
  }
  resolve_actions i resolution ordered (a ∷ []) = record {
    resolution = resolution;
    decision = make_decision i.item i.profile_revision a ordered [];
    matched_rules = map (λ m. m.rule) ordered;
    dry_run = i.dry_run;
    conflict = none;
  }
  resolve_actions i resolution ordered (a ∷ b ∷ bs) = record {
    resolution = resolution;
    decision = make_decision i.item i.profile_revision review ordered (conflict_evidence ∷ []);
    matched_rules = map (λ m. m.rule) ordered;
    dry_run = i.dry_run;
    conflict = some (record { rule_ids = map (λ m. id_of m.rule) ordered; actions = a ∷ b ∷ bs });
  }

  -- `resolveBucket`
  unfoldable pub resolve_bucket : Input N → Resolution → List (MatchedRule N) → Evaluation N
  unfolding resolve_actions
  resolve_bucket i resolution matches =
      let ordered = sort by_rule_id matches in
      resolve_actions i resolution ordered (actions_of ordered)
