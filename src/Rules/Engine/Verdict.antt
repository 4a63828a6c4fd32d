-- ===== src/Rules/Engine/Verdict.antt =====
-- src/core/rules/engine.ts, `resolveBucket`: the action that a group of matches leads to.
use content_lens.Prelude.{
  Bool, true, false, not, none, List, [], ◌∷◌, map, ◌≡◌, refl, sym, ap, ◌∙◌, inl, inr, keep, any,
  All, is_some, sort, arith, any-sort, All-sort, sort-one, sort-empty, any-map, any-All, any-none,
  Bool-cases, ltb,
}
use content_lens.Rules.{
  Runtime, Action, show, hide, review, Rule, identity, exact, semantic, preference, IdentityEffect,
  ExactEffect, SemanticEffect,
}
use content_lens.Rules.Engine.{
  MatchedRule, Input, Resolution, distinct, same_action, actions_of, resolve_actions,
  resolve_bucket, make_decision, by_rule_id, action_rank,
}

abbrev pub identity_hides : IdentityEffect → Bool
identity_hides IdentityEffect.block = true
identity_hides IdentityEffect.allow = false
identity_hides IdentityEffect.promote = false

abbrev pub exact_hides : ExactEffect → Bool
exact_hides ExactEffect.block = true
exact_hides ExactEffect.allow = false

abbrev pub semantic_hides : SemanticEffect → Bool
semantic_hides SemanticEffect.block = true
semantic_hides SemanticEffect.reduce = false
semantic_hides SemanticEffect.allow = false
semantic_hides SemanticEffect.promote = false

-- The rules that ask to hide an item.
abbrev pub hides : {N : Type 0} → Rule N → Bool
hides (identity r) = identity_hides r.effect
hides (exact r) = exact_hides r.effect
hides (semantic r) = semantic_hides r.effect
hides (preference r) = false

-- A match that hides comes from a rule that asks for it, and no match is a review.
abbrev pub IsHonest : {N : Type 0} → MatchedRule N → Type 0
IsHonest m =
    (same_action m.action hide ≡ true → hides m.rule ≡ true) × (same_action m.action review ≡ false)

abbrev pub is_action : Action → Action → Bool
is_action a b = same_action b a

any-keep_other :
    (a b : Action)
    → same_action b a ≡ false
    → (xs : List Action)
    → any (is_action a) (keep (λ c. not (same_action b c)) xs) ≡ any (is_action a) xs
any-keep_other a b h [] = refl
any-keep_other a b h (x ∷ xs) = ground (arith, any-keep_other a b h xs)

any-distinct :
    (a : Action) (xs : List Action) → any (is_action a) (distinct xs) ≡ any (is_action a) xs
unfolding distinct
any-distinct a [] = refl
any-distinct a (x ∷ xs) = elim (Bool-cases (same_action x a)) [
  | inl q ↦ ground arith
  | inr q ↦ ground (arith, any-keep_other a x q (distinct xs), any-distinct a xs)
]

module _ {N : Type 0} (rt : Runtime N) where
  any-actions_of :
      (a : Action) (ms : List (MatchedRule N))
      → any (is_action a) (actions_of rt ms) ≡ any (λ m. is_action a m.action) ms
  any-actions_of a ms =
      any-sort (λ x y. ltb (action_rank x) (action_rank y)) (is_action a)
        (distinct (map (λ m. m.action) ms))
      ∙ (any-distinct a (map (λ m. m.action) ms) ∙ any-map (is_action a) (λ m. m.action) ms)

  hide-resolve_actions :
      (i : Input N) (r : Resolution) (ms : List (MatchedRule N)) (actions : List Action)
      → any (is_action hide) actions ≡ any (λ m. is_action hide m.action) ms
      → All IsHonest ms
      → (resolve_actions rt i r ms actions).decision.action ≡ hide
      → any hides (resolve_actions rt i r ms actions).matched_rules ≡ true
  unfolding resolve_actions make_decision
  hide-resolve_actions i r ms [] e h q = cc
  hide-resolve_actions i r ms (a ∷ []) e h q =
      any-map hides (λ m. m.rule) ms ∙ any-All IsHonest (λ m k. k.0) ms h (sym e ∙ rw q refl)
  hide-resolve_actions i r ms (a ∷ b ∷ bs) e h q = cc

  -- A group of matches hides an item only by a rule that asks for it.
  pub hide-resolve_bucket :
      (i : Input N) (r : Resolution) (ms : List (MatchedRule N))
      → All IsHonest ms
      → (resolve_bucket rt i r ms).decision.action ≡ hide
      → any hides (resolve_bucket rt i r ms).matched_rules ≡ true
  unfolding resolve_bucket
  hide-resolve_bucket i r ms h =
      let ordered = sort by_rule_id ms in
      hide-resolve_actions i r ordered (actions_of rt ordered) (any-actions_of hide ordered)
        (All-sort by_rule_id IsHonest ms h)

  review-resolve_actions :
      (i : Input N) (r : Resolution) (ms : List (MatchedRule N)) (actions : List Action)
      → any (is_action review) actions ≡ any (λ m. is_action review m.action) ms
      → All IsHonest ms
      → same_action (resolve_actions rt i r ms actions).decision.action review
        ≡ is_some (resolve_actions rt i r ms actions).conflict
  unfolding resolve_actions make_decision
  review-resolve_actions i r ms [] e h = refl
  review-resolve_actions i r ms (a ∷ []) e h =
      let none_reviews : any (λ m. is_action review m.action) ms ≡ false =
        any-none IsHonest (λ m k. k.1) ms h in
      ground arith
  review-resolve_actions i r ms (a ∷ b ∷ bs) e h = refl

  -- A group of matches leads to a review just where it has a conflict.
  pub review-resolve_bucket :
      (i : Input N) (r : Resolution) (ms : List (MatchedRule N))
      → All IsHonest ms
      → same_action (resolve_bucket rt i r ms).decision.action review
        ≡ is_some (resolve_bucket rt i r ms).conflict
  unfolding resolve_bucket
  review-resolve_bucket i r ms h =
      let ordered = sort by_rule_id ms in
      review-resolve_actions i r ordered (actions_of rt ordered) (any-actions_of review ordered)
        (All-sort by_rule_id IsHonest ms h)

abbrev pub IsShow : {N : Type 0} → MatchedRule N → Type 0
IsShow m = m.action ≡ show

only-show :
    (a : Action) (xs : List Action)
    → a ≡ show
    → xs ≡ show ∷ []
    → a ∷ keep (λ b. not (same_action a b)) xs ≡ show ∷ []
only-show a xs e q = rw (e, q) refl

distinct-shows :
    {N : Type 0} (m : MatchedRule N) (ms : List (MatchedRule N))
    → All IsShow (m ∷ ms)
    → distinct (map (λ m. m.action) (m ∷ ms)) ≡ show ∷ []
unfolding distinct
distinct-shows m [] (e, _) = rw e refl
distinct-shows m (n ∷ ms) (e, h) =
    only-show m.action (distinct (map (λ m. m.action) (n ∷ ms))) e (distinct-shows n ms h)

module _ {N : Type 0} (rt : Runtime N) where
  one_show :
      (i : Input N) (r : Resolution) (ordered : List (MatchedRule N)) (actions : List Action)
      → actions ≡ show ∷ []
      → ((resolve_actions rt i r ordered actions).decision.action ≡ show)
        × ((resolve_actions rt i r ordered actions).conflict ≡ none)
  unfolding resolve_actions make_decision
  one_show i r ordered actions e = rw e (refl, refl)

  no_action :
      (i : Input N) (r : Resolution)
      → ((resolve_actions rt i r [] (actions_of rt [])).decision.action ≡ show)
        × ((resolve_actions rt i r [] (actions_of rt [])).conflict ≡ none)
  unfolding resolve_actions make_decision distinct
  no_action i r = rw (sort-empty (λ x y. ltb (action_rank x) (action_rank y))) (refl, refl)

  shows-ordered :
      (i : Input N) (r : Resolution) (ordered : List (MatchedRule N))
      → All IsShow ordered
      → ((resolve_actions rt i r ordered (actions_of rt ordered)).decision.action ≡ show)
        × ((resolve_actions rt i r ordered (actions_of rt ordered)).conflict ≡ none)
  shows-ordered i r [] h = no_action i r
  shows-ordered i r (m ∷ ms) h = one_show i r (m ∷ ms) (actions_of rt (m ∷ ms)) (
      ap (sort (λ x y. ltb (action_rank x) (action_rank y))) (distinct-shows m ms h)
      ∙ sort-one (λ x y. ltb (action_rank x) (action_rank y)) show)

  -- A group of matches that all show the item shows it, with no conflict.
  pub show-resolve_bucket :
      (i : Input N) (r : Resolution) (ms : List (MatchedRule N))
      → All IsShow ms
      → ((resolve_bucket rt i r ms).decision.action ≡ show)
        × ((resolve_bucket rt i r ms).conflict ≡ none)
  unfolding resolve_bucket
  show-resolve_bucket i r ms h =
      shows-ordered i r (sort by_rule_id ms) (All-sort by_rule_id IsShow ms h)

  resolution-resolve_actions :
      (i : Input N) (r : Resolution) (ms : List (MatchedRule N)) (actions : List Action)
      → (resolve_actions rt i r ms actions).resolution ≡ r
  unfolding resolve_actions
  resolution-resolve_actions i r ms [] = refl
  resolution-resolve_actions i r ms (a ∷ []) = refl
  resolution-resolve_actions i r ms (a ∷ b ∷ bs) = refl

  -- Its resolution is the one of the group.
  pub resolution-resolve_bucket :
      (i : Input N) (r : Resolution) (ms : List (MatchedRule N))
      → (resolve_bucket rt i r ms).resolution ≡ r
  unfolding resolve_bucket
  resolution-resolve_bucket i r ms =
      resolution-resolve_actions i r (sort by_rule_id ms) (actions_of rt (sort by_rule_id ms))
