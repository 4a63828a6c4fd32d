-- ===== src/Rules/Index.antt =====
-- src/core/rules/engine.ts: `buildRuleIndex` and `RuleIndex`.
pub mod Lookup
pub mod Duplicates
use content_lens.Prelude.{
  ℕ, suc, ◌+◌, Bool, true, false, ◌&&◌, ◌||◌, Option, none, some, List, [], ◌∷◌, ◌++◌, map,
  JsString, js, same, before, ltb, keep, get_or, if◌then◌else◌, sort,
}
use content_lens.Prelude.Dict.{Dict}
use content_lens.Prelude.Dict
use content_lens.Rules.{
  Runtime, Base, IdentityType, author, channel, IdentityRule, ExactRule, SemanticRule,
  PreferenceRule, Rule, identity, exact, semantic, preference, base_of, id_of, Item, Field, title,
  body, domain, Target, topic, archetype, quality,
}

identity_type_name : IdentityType → JsString
identity_type_name author = js "author"
identity_type_name channel = js "channel"

field_name : Field → JsString
field_name title = js "title"
field_name body = js "body"
field_name domain = js "domain"

target_name : Target → JsString
target_name topic = js "topic"
target_name archetype = js "archetype"
target_name quality = js "quality"

-- `${platform}\u0000${identityType}\u0000${identityId}`
unfoldable pub identity_key : JsString → IdentityType → JsString → JsString
unfolding identity_type_name
identity_key platform kind id = platform ++ 0 ∷ (identity_type_name kind ++ 0 ∷ id)

-- `${field}\u0000${caseSensitive ? 'case' : 'fold'}\u0000${normalized}`
unfoldable pub exact_key : (JsString → JsString) → Field → Bool → JsString → JsString
unfolding field_name
exact_key to_lower field case_sensitive value =
    field_name field
    ++ 0
      ∷ ((if case_sensitive then js "case" else js "fold")
          ++ 0 ∷ (if case_sensitive then value else to_lower value))

unfoldable pub preference_signal_key : Target → JsString → JsString
unfolding target_name
preference_signal_key target target_id = target_name target ++ 0 ∷ target_id

-- `appendMapValue`
unfoldable pub append_value {ℓ} : {A : Type ℓ} → Dict (List A) → JsString → A → Dict (List A)
append_value m key v = Dict.set key (get_or (Dict.get key m) [] ++ v ∷ []) m

-- `sortMapValues`, by the ids of the rules.
unfoldable pub sort_values {ℓ} : {A : Type ℓ} → (A → JsString) → Dict (List A) → Dict (List A)
sort_values id [] = []
sort_values id ((k, vs) ∷ m) = (k, sort (λ a b. before (id a) (id b)) vs) ∷ sort_values id m

-- `RuleIndex`, which is also `IndexedRules`
pub record RuleIndex (N : Type 0) : Type 0 where
  pub rule_ids : List JsString
  pub identity_rules : Dict (List IdentityRule)
  pub exact_rules : Dict (List ExactRule)
  pub semantic_rules : Dict (SemanticRule N)
  pub preference_rules : Dict (List (PreferenceRule N))

pub record Quarantined : Type 0 where
  pub input_index : ℕ
  pub rule_id : Option JsString
  pub issues : List JsString

-- What `ruleSchema.safeParse` gives: a rule, or the issues as `path:code`.
pub data Parsed (N : Type 0) : Type 0 where
  valid : Rule N → Parsed N
  invalid : List JsString → Parsed N

-- The schema, over inputs of a type `I`, and the non-empty string `id` of an input, if it has one.
pub record Schema (I N : Type 0) : Type 0 where
  pub safe_parse : I → Parsed N
  pub raw_id : I → Option JsString

module _ {N : Type 0} where
  -- One turn of the loop that fills the maps.
  unfoldable pub index_rule : (JsString → JsString) → RuleIndex N → Rule N → RuleIndex N
  index_rule low x (identity r) = record x {
    identity_rules =
        append_value x.identity_rules (identity_key r.platform r.identity_type r.identity_id) r;
  }
  index_rule low x (exact r) = record x {
    exact_rules = append_value x.exact_rules (exact_key low r.field r.case_sensitive r.value) r;
  }
  index_rule low x (semantic r) = record x { semantic_rules = Dict.set r.id r x.semantic_rules }
  index_rule low x (preference r) = record x {
    preference_rules =
        append_value x.preference_rules (preference_signal_key r.target r.target_id) r;
  }

  unfoldable pub index_rules : (JsString → JsString) → RuleIndex N → List (Rule N) → RuleIndex N
  index_rules low x [] = x
  index_rules low x (r ∷ rs) = index_rules low (index_rule low x r) rs

  -- The index of the active rules, which are sorted by id.
  unfoldable pub index_of : (JsString → JsString) → List (Rule N) → RuleIndex N
  index_of low rules =
      let empty : RuleIndex N = record {
        rule_ids = map id_of rules;
        identity_rules = [];
        exact_rules = [];
        semantic_rules = [];
        preference_rules = [];
      } in
      let filled = index_rules low empty rules in
      record filled {
        identity_rules = sort_values (λ (r : IdentityRule). r.id) filled.identity_rules;
        exact_rules = sort_values (λ (r : ExactRule). r.id) filled.exact_rules;
        preference_rules = sort_values (λ (r : PreferenceRule N). r.id) filled.preference_rules;
      }

  -- `idCounts`
  unfoldable pub count_ids : Dict ℕ → List (ℕ × Rule N) → Dict ℕ
  count_ids m [] = m
  count_ids m ((i, r) ∷ rest) =
      count_ids (Dict.set (id_of r) (get_or (Dict.get (id_of r) m) 0 + 1) m) rest

  abbrev pub is_duplicate : Dict ℕ → Rule N → Bool
  is_duplicate counts r = ltb 1 (get_or (Dict.get (id_of r) counts) 0)

  -- The loop over the parsed rules: those with an id of their own that are enabled.
  unfoldable pub active : Dict ℕ → List (ℕ × Rule N) → List (Rule N)
  active counts [] = []
  active counts ((i, r) ∷ rest) =
      let others = active counts rest in
      if is_duplicate counts r then others else if (base_of r).enabled then r ∷ others else others

  -- The same loop: those whose id is not their own.
  unfoldable pub duplicates : Dict ℕ → List (ℕ × Rule N) → List Quarantined
  duplicates counts [] = []
  duplicates counts ((i, r) ∷ rest) =
      let others = duplicates counts rest in
      if is_duplicate counts r
      then (record { input_index = i; rule_id = some (id_of r); issues = js "id:duplicate" ∷ [] })
        ∷ others
      else others

module _ {I N : Type 0} (schema : Schema I N) where
  -- The loop over the inputs: the rules that parse, with their positions.
  unfoldable pub parsed : ℕ → List I → List (ℕ × Rule N)
  parsed i [] = []
  parsed i (x ∷ xs) =
      let rest = parsed (suc i) xs in
      elim (schema.safe_parse x) [ valid r ↦ (i, r) ∷ rest | invalid _ ↦ rest ]

  -- The same loop: the inputs that do not parse.
  unfoldable pub unparsed : ℕ → List I → List Quarantined
  unparsed i [] = []
  unparsed i (x ∷ xs) =
      let rest = unparsed (suc i) xs in
      elim (schema.safe_parse x) [
        | valid _ ↦ rest
        | invalid issues ↦
            (record { input_index = i; rule_id = schema.raw_id x; issues = issues }) ∷ rest
      ]

  -- The active rules of the inputs, sorted by id.
  unfoldable pub active_rules : List I → List (Rule N)
  unfolding parsed active count_ids
  active_rules inputs =
      let rules = parsed 0 inputs in
      sort (λ a b. before (id_of a) (id_of b)) (active (count_ids [] rules) rules)

  unfoldable pub quarantined : List I → List Quarantined
  unfolding parsed unparsed duplicates count_ids
  quarantined inputs =
      let rules = parsed 0 inputs in
      sort (λ (a b : Quarantined). ltb a.input_index b.input_index)
        (unparsed 0 inputs ++ duplicates (count_ids [] rules) rules)

  -- `buildRuleIndex`
  unfoldable pub build_rule_index : (JsString → JsString) → List I → RuleIndex N × List Quarantined
  unfolding active_rules quarantined index_of
  build_rule_index low inputs = (index_of low (active_rules inputs), quarantined inputs)

abbrev pub lookup_all {ℓ} : {A : Type ℓ} → JsString → Dict (List A) → List A
lookup_all key m = get_or (Dict.get key m) []

module _ {N : Type 0} (rt : Runtime N) (x : RuleIndex N) where
  identities_under : IdentityType → JsString → Option JsString → List IdentityRule
  identities_under kind platform none = []
  identities_under kind platform (some id) =
      lookup_all (identity_key platform kind id) x.identity_rules

  -- `identityRules`
  unfoldable pub identity_rules_for : Item → List IdentityRule
  unfolding identities_under
  identity_rules_for item =
      identities_under author item.platform item.author_id
      ++ identities_under channel item.platform item.channel_id

  -- `hostnameFromUrl`
  unfoldable pub hostname_from_url : Option JsString → Option JsString
  hostname_from_url none = none
  hostname_from_url (some url) = if same url [] then none else rt.hostname url

  exact_under : Field → Option JsString → List ExactRule
  exact_under field none = []
  exact_under field (some value) =
      lookup_all (exact_key rt.to_lower field true value) x.exact_rules
      ++ lookup_all (exact_key rt.to_lower field false value) x.exact_rules

  -- `exactRules`
  unfoldable pub exact_rules_for : Item → List ExactRule
  unfolding exact_under hostname_from_url
  exact_rules_for item =
      exact_under title item.title
      ++ (exact_under body item.body ++ exact_under domain (hostname_from_url item.canonical_url))

  -- `semanticRule`
  unfoldable pub semantic_rule : JsString → Option (SemanticRule N)
  semantic_rule id = Dict.get id x.semantic_rules

  -- `preferenceRules`
  unfoldable pub preference_rules_for : JsString → List (PreferenceRule N)
  preference_rules_for key = lookup_all key x.preference_rules
