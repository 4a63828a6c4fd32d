-- ===== src/Examples/Rules.antt =====
-- src/core/rules/engine.ts at concrete inputs, with scores in hundredths.
use content_lens.Prelude.{
  arith, ℕ, ◌*◌, ◌/◌, ◌≡◌, refl, true, false, none, some, List, [], ◌∷◌, JsString, js, same, any,
  ltb, leb, ◌==◌, min, sort, insert, before,
}
use content_lens.Prelude.Dict
use content_lens.Rules.{
  Runtime, Rule, identity, exact, semantic, preference, Base, IdentityRule, ExactRule,
  PreferenceRule, Item, Action, show, hide, review, IdentityEffect, ExactEffect, Field,
  IdentityType, author,
}
use content_lens.Rules.Index.{
  RuleIndex, Schema, valid, invalid, index_of, identity_key, lookup_all, build_rule_index,
}
use content_lens.Rules.{id_of}
use content_lens.Rules.Index.{active_rules, parsed}
use content_lens.Rules.Index.Duplicates.{occurrences, repeated_id_is_inactive}
use content_lens.Rules.Index.Lookup.{lookup_is_scan, identities_with, exacts_with, preferences_with}
use content_lens.Rules.Engine.{
  Input, Signals, same_action, explicit_allow, is_identity_allow, is_exact_allow,
}
use content_lens.Rules.Engine.Verdict.{hides}
use content_lens.Rules.Matches.{scoped_identities, scoped_exacts}
use content_lens.Rules.Evaluation.{evaluate_rules, DryRunInput, dry_run_rule_changes}
use content_lens.Rules.Evaluation.Precedence.{hidden_by_a_rule, review_iff_conflict, allow_wins}
use content_lens.Rules.Evaluation.DryRun.{same_rules-no_changes}
use content_lens.Prelude.{is_some}

abbrev rt : Runtime ℕ
rt = record {
  zero = 0;
  quarter = 25;
  half = 50;
  one = 100;
  less = ltb;
  at_most = leb;
  is_zero = λ n. n == 0;
  is_finite = λ n. true;
  times = λ a b. a * b / 100;
  absolute = λ n. n;
  smaller = min;
  hostname = λ u. none;
  to_lower = λ s. s;
  decimal = λ n. js "1";
}

abbrev base : JsString → Base
base id = record { id = id; enabled = true; scope = record { platforms = none; surfaces = none } }

abbrev by_author : JsString → IdentityEffect → Rule ℕ
by_author id effect = identity (record {
  base = base id;
  effect = effect;
  platform = js "x";
  identity_type = author;
  identity_id = js "u";
})

abbrev blocks : Rule ℕ
blocks = by_author (js "r1") IdentityEffect.block

abbrev allows : Rule ℕ
allows = by_author (js "r2") IdentityEffect.allow

abbrev item : Item
item = record {
  id = js "i";
  platform = js "x";
  surface = js "feed";
  title = some (js "t");
  body = none;
  canonical_url = none;
  author_id = some (js "u");
  channel_id = none;
  observed_at = js "now";
}

abbrev signals : Signals ℕ
signals = record { semantic_scores = []; semantic_exclusions = λ r. false; preference_scores = [] }

abbrev input : List (Rule ℕ) → Input ℕ
input rules = record {
  item = item;
  index = index_of rt.to_lower rules;
  profile_revision = 1;
  revealed = λ i. false;
  signals = signals;
  dry_run = false;
}

hidden_by_a_rule_example : any hides (evaluate_rules rt (input (blocks ∷ []))).matched_rules ≡ true
unfolding scoped_identities content_lens.Rules.Index.identity_rules_for Dict.get index_of
    content_lens.Rules.Index.sort_values content_lens.Rules.Index.index_rules
    content_lens.Rules.Index.index_rule content_lens.Rules.Index.append_value Dict.set same
    identity_key sort before content_lens.Rules.Engine.scope_matches insert evaluate_rules
    content_lens.Rules.Evaluation.first_bucket content_lens.Rules.Evaluation.buckets
    content_lens.Rules.Matches.allow_matches content_lens.Rules.Matches.identity_matches
    content_lens.Rules.Matches.identity_matched content_lens.Rules.Matches.exact_matched
    content_lens.Rules.Matches.scoped_exacts content_lens.Rules.Index.exact_rules_for
    content_lens.Rules.Index.exact_key content_lens.Rules.Index.hostname_from_url
    content_lens.Rules.Engine.confidence_of content_lens.Rules.Engine.distinct
    content_lens.Rules.Engine.evidence_for content_lens.Rules.Engine.identity_action
    content_lens.Rules.Engine.make_decision content_lens.Rules.Engine.resolve_actions
    content_lens.Rules.Engine.resolve_bucket content_lens.Rules.Evaluation.no_rule
hidden_by_a_rule_example = hidden_by_a_rule rt (input (blocks ∷ [])) refl

review_iff_conflict_example :
    same_action (evaluate_rules rt (input (blocks ∷ allows ∷ []))).decision.action review
    ≡ is_some (evaluate_rules rt (input (blocks ∷ allows ∷ []))).conflict
review_iff_conflict_example = review_iff_conflict rt (input (blocks ∷ allows ∷ []))

allow_wins_example :
    ((evaluate_rules rt (input (blocks ∷ allows ∷ []))).decision.action ≡ show)
    × ((evaluate_rules rt (input (blocks ∷ allows ∷ []))).conflict ≡ none)
    × ((evaluate_rules rt (input (blocks ∷ allows ∷ []))).resolution ≡ explicit_allow)
unfolding scoped_identities content_lens.Rules.Index.identity_rules_for Dict.get index_of
    content_lens.Rules.Index.sort_values content_lens.Rules.Index.index_rules
    content_lens.Rules.Index.index_rule content_lens.Rules.Index.append_value Dict.set same
    identity_key sort before content_lens.Rules.Engine.scope_matches
allow_wins_example = allow_wins rt (input (blocks ∷ allows ∷ [])) refl refl

lookup_is_scan_example :
    (lookup_all (js "k") (index_of rt.to_lower (blocks ∷ allows ∷ [])).identity_rules
      ≡ sort
          (λ (a b : IdentityRule). before a.id b.id)
          (identities_with (js "k") (blocks ∷ allows ∷ [])))
    × (lookup_all (js "k") (index_of rt.to_lower (blocks ∷ allows ∷ [])).exact_rules
        ≡ sort
            (λ (a b : ExactRule). before a.id b.id)
            (exacts_with rt.to_lower (js "k") (blocks ∷ allows ∷ [])))
    × (lookup_all (js "k") (index_of rt.to_lower (blocks ∷ allows ∷ [])).preference_rules
        ≡ sort
            (λ (a b : PreferenceRule ℕ). before a.id b.id)
            (preferences_with (js "k") (blocks ∷ allows ∷ [])))
lookup_is_scan_example = lookup_is_scan rt.to_lower (js "k") (blocks ∷ allows ∷ [])

abbrev schema : Schema (Rule ℕ) ℕ
schema = record { safe_parse = valid; raw_id = λ r. none }

abbrev dry : DryRunInput (Rule ℕ) ℕ
dry = record {
  current_index = (build_rule_index schema rt.to_lower (blocks ∷ [])).0;
  candidate_rules = blocks ∷ [];
  items = item ∷ [];
  current_profile_revision = 1;
  candidate_profile_revision = 2;
  signals_of = λ i. signals;
  revealed = λ i. false;
}

same_rules-no_changes_example : (dry_run_rule_changes rt schema dry).0 ≡ []
same_rules-no_changes_example = same_rules-no_changes rt schema dry refl

repeated_id_is_inactive_example :
    any
      (λ r. same (id_of r) (js "r1"))
      (active_rules schema (blocks ∷ allows ∷ by_author (js "r1") IdentityEffect.allow ∷ []))
    ≡ false
unfolding occurrences same parsed
repeated_id_is_inactive_example =
    repeated_id_is_inactive schema (blocks ∷ allows ∷ by_author (js "r1") IdentityEffect.allow ∷ [])
      (js "r1") (omega arith)

other_rule_stays :
    any
      (λ r. same (id_of r) (js "r2"))
      (active_rules schema (blocks ∷ allows ∷ by_author (js "r1") IdentityEffect.allow ∷ []))
    ≡ true
unfolding active_rules same parsed content_lens.Rules.Index.active
    content_lens.Rules.Index.count_ids Dict.get Dict.set sort insert before
other_rule_stays = refl
