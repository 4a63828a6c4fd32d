-- ===== src/Rules/Index/Lookup.antt =====
-- src/core/rules/engine.ts: a lookup in the index of `buildRuleIndex` against a scan of its rules.
use content_lens.Prelude.{
  Bool, List, [], ◌∷◌, ◌++◌, ◌≡◌, refl, sym, ap, ◌∙◌, JsString, same, same_iff, before, get_or,
  if◌then◌else◌, sort, sort-empty, Bool-cases, inl, inr,
}
use content_lens.Prelude.Dict.{Dict, get-set}
use content_lens.Prelude.Dict
use content_lens.Rules.{
  IdentityRule, ExactRule, PreferenceRule, Rule, identity, exact, semantic, preference,
}
use content_lens.Rules.Index.{
  RuleIndex, append_value, sort_values, lookup_all, index_rule, index_rules, index_of, identity_key,
  exact_key, preference_signal_key,
}

module _ {ℓ} {A : Type ℓ} where
  abbrev only_if : Bool → A → List A
  only_if b v = if b then v ∷ [] else []

  append_assoc : (xs ys zs : List A) → (xs ++ ys) ++ zs ≡ xs ++ (ys ++ zs)
  append_assoc [] ys zs = refl
  append_assoc (x ∷ xs) ys zs = ap (λ l. x ∷ l) (append_assoc xs ys zs)

  append-empty : (xs : List A) → xs ++ [] ≡ xs
  append-empty [] = refl
  append-empty (x ∷ xs) = ap (λ l. x ∷ l) (append-empty xs)

  lookup-append_value :
      (k key : JsString) (v : A) (m : Dict (List A))
      → lookup_all k (append_value m key v) ≡ lookup_all k m ++ only_if (same key k) v
  unfolding append_value
  lookup-append_value k key v m = elim (Bool-cases (same key k)) [
    | inl q ↦
        rw
          (
            get-set key k (get_or (Dict.get key m) [] ++ v ∷ []) m,
            q,
            if◌then◌else◌,
            (same_iff key k).0 q,
          )
          refl
    | inr q ↦
        rw (get-set key k (get_or (Dict.get key m) [] ++ v ∷ []) m, q, if◌then◌else◌)
          (sym (append-empty (lookup_all k m)))
  ]

  lookup-sort_values :
      (id : A → JsString) (k : JsString) (m : Dict (List A))
      → lookup_all k (sort_values id m) ≡ sort (λ a b. before (id a) (id b)) (lookup_all k m)
  unfolding sort_values Dict.get
  lookup-sort_values id k [] = sym (sort-empty _)
  lookup-sort_values id k ((j, vs) ∷ m) = elim (Bool-cases (same j k)) [
    | inl q ↦ rw (q, if◌then◌else◌) refl
    | inr q ↦ rw (q, if◌then◌else◌) (lookup-sort_values id k m)
  ]

module _ {N : Type 0} where
  -- The rules of a list that a lookup under a key is after, in the order of the list.
  unfoldable pub identities_with : JsString → List (Rule N) → List IdentityRule
  identities_with k [] = []
  identities_with k (identity r ∷ rs) =
      only_if (same (identity_key r.platform r.identity_type r.identity_id) k) r
      ++ identities_with k rs
  identities_with k (_ ∷ rs) = identities_with k rs

  unfoldable pub exacts_with : (JsString → JsString) → JsString → List (Rule N) → List ExactRule
  exacts_with low k [] = []
  exacts_with low k (exact r ∷ rs) =
      only_if (same (exact_key low r.field r.case_sensitive r.value) k) r ++ exacts_with low k rs
  exacts_with low k (_ ∷ rs) = exacts_with low k rs

  unfoldable pub preferences_with : JsString → List (Rule N) → List (PreferenceRule N)
  preferences_with k [] = []
  preferences_with k (preference r ∷ rs) =
      only_if (same (preference_signal_key r.target r.target_id) k) r ++ preferences_with k rs
  preferences_with k (_ ∷ rs) = preferences_with k rs

module _ {N : Type 0} (low : JsString → JsString) (k : JsString) where
  filled-identities :
      (x : RuleIndex N) (rs : List (Rule N))
      → lookup_all k (index_rules low x rs).identity_rules
        ≡ lookup_all k x.identity_rules ++ identities_with k rs
  unfolding index_rules index_rule identities_with
  filled-identities x [] = sym (append-empty _)
  filled-identities x (identity r ∷ rs) =
      let key = identity_key r.platform r.identity_type r.identity_id in
      filled-identities (index_rule low x (identity r)) rs
      ∙ (ap (λ l. l ++ identities_with k rs) (lookup-append_value k key r x.identity_rules)
          ∙ append_assoc _ (only_if (same key k) r) _)
  filled-identities x (exact r ∷ rs) = filled-identities (index_rule low x (exact r)) rs
  filled-identities x (semantic r ∷ rs) = filled-identities (index_rule low x (semantic r)) rs
  filled-identities x (preference r ∷ rs) = filled-identities (index_rule low x (preference r)) rs

  filled-exacts :
      (x : RuleIndex N) (rs : List (Rule N))
      → lookup_all k (index_rules low x rs).exact_rules
        ≡ lookup_all k x.exact_rules ++ exacts_with low k rs
  unfolding index_rules index_rule exacts_with
  filled-exacts x [] = sym (append-empty _)
  filled-exacts x (exact r ∷ rs) =
      let key = exact_key low r.field r.case_sensitive r.value in
      filled-exacts (index_rule low x (exact r)) rs
      ∙ (ap (λ l. l ++ exacts_with low k rs) (lookup-append_value k key r x.exact_rules)
          ∙ append_assoc _ (only_if (same key k) r) _)
  filled-exacts x (identity r ∷ rs) = filled-exacts (index_rule low x (identity r)) rs
  filled-exacts x (semantic r ∷ rs) = filled-exacts (index_rule low x (semantic r)) rs
  filled-exacts x (preference r ∷ rs) = filled-exacts (index_rule low x (preference r)) rs

  filled-preferences :
      (x : RuleIndex N) (rs : List (Rule N))
      → lookup_all k (index_rules low x rs).preference_rules
        ≡ lookup_all k x.preference_rules ++ preferences_with k rs
  unfolding index_rules index_rule preferences_with
  filled-preferences x [] = sym (append-empty _)
  filled-preferences x (preference r ∷ rs) =
      let key = preference_signal_key r.target r.target_id in
      filled-preferences (index_rule low x (preference r)) rs
      ∙ (ap (λ l. l ++ preferences_with k rs) (lookup-append_value k key r x.preference_rules)
          ∙ append_assoc _ (only_if (same key k) r) _)
  filled-preferences x (identity r ∷ rs) = filled-preferences (index_rule low x (identity r)) rs
  filled-preferences x (semantic r ∷ rs) = filled-preferences (index_rule low x (semantic r)) rs
  filled-preferences x (exact r ∷ rs) = filled-preferences (index_rule low x (exact r)) rs

  -- A lookup under a key in the index of a list of rules gives what a scan of the list gives, by the rules'
  -- ids: by identity, by exact value and by preference signal.
  pub lookup_is_scan :
      (rules : List (Rule N))
      → (lookup_all k (index_of low rules).identity_rules
          ≡ sort (λ (a b : IdentityRule). before a.id b.id) (identities_with k rules))
        × (lookup_all k (index_of low rules).exact_rules
            ≡ sort (λ (a b : ExactRule). before a.id b.id) (exacts_with low k rules))
        × (lookup_all k (index_of low rules).preference_rules
            ≡ sort (λ (a b : PreferenceRule N). before a.id b.id) (preferences_with k rules))
  unfolding index_of Dict.get
  lookup_is_scan rules = (
    lookup-sort_values (λ (r : IdentityRule). r.id) k _
        ∙ ap (sort (λ (a b : IdentityRule). before a.id b.id)) (filled-identities _ rules),
    lookup-sort_values (λ (r : ExactRule). r.id) k _
        ∙ ap (sort (λ (a b : ExactRule). before a.id b.id)) (filled-exacts _ rules),
    lookup-sort_values (λ (r : PreferenceRule N). r.id) k _
        ∙ ap (sort (λ (a b : PreferenceRule N). before a.id b.id)) (filled-preferences _ rules),
  )
