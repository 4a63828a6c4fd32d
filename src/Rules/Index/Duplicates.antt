-- ===== src/Rules/Index/Duplicates.antt =====
-- src/core/rules/engine.ts, `buildRuleIndex`: rules that share their id.
use content_lens.Prelude.{
  ℕ, ◌+◌, ◌<◌, Bool, false, List, [], ◌∷◌, ◌≡◌, refl, ◌∙◌, JsString, same, same_iff, get_or,
  if◌then◌else◌, arith, any, any-sort, before,
}
use content_lens.Prelude.Dict.{Dict, get-set, get-empty}
use content_lens.Prelude.Dict
use content_lens.Rules.{Rule, id_of}
use content_lens.Rules.Index.{count_ids, active, active_rules, Schema, parsed}

abbrev counted : JsString → Dict ℕ → ℕ
counted id m = get_or (Dict.get id m) 0

module _ {N : Type 0} where
  -- How many of the rules have an id.
  unfoldable pub occurrences : JsString → List (ℕ × Rule N) → ℕ
  occurrences id [] = 0
  occurrences id ((i, r) ∷ rest) =
      if same (id_of r) id then occurrences id rest + 1 else occurrences id rest

  count_ids-occurrences :
      (id : JsString) (m : Dict ℕ) (rules : List (ℕ × Rule N))
      → counted id (count_ids m rules) ≡ counted id m + occurrences id rules
  unfolding count_ids occurrences
  count_ids-occurrences id m [] = omega arith
  count_ids-occurrences id m ((i, r) ∷ rest) = ground (
    arith,
    get-set (id_of r) id (counted (id_of r) m + 1) m,
    same_iff (id_of r) id,
    count_ids-occurrences id (Dict.set (id_of r) (counted (id_of r) m + 1) m) rest,
  )

  abbrev has_id : JsString → Rule N → Bool
  has_id id r = same (id_of r) id

  active-repeated :
      (id : JsString) (counts : Dict ℕ) (rules : List (ℕ × Rule N))
      → 1 < counted id counts
      → any (has_id id) (active counts rules) ≡ false
  unfolding active
  active-repeated id counts [] h = refl
  active-repeated id counts ((i, r) ∷ rest) h =
      ground (arith, same_iff (id_of r) id, active-repeated id counts rest h)

module _ {I N : Type 0} (schema : Schema I N) where
  -- An id that more than one of the rules that parse has is the id of no active rule, enabled or not:
  -- where two rules clash, neither of them decides.
  pub repeated_id_is_inactive :
      (inputs : List I) (id : JsString)
      → 1 < occurrences id (parsed schema 0 inputs)
      → any (λ r. same (id_of r) id) (active_rules schema inputs) ≡ false
  unfolding active_rules
  repeated_id_is_inactive inputs id h =
      any-sort (λ a b. before (id_of a) (id_of b)) (has_id id) _
      ∙ active-repeated id (count_ids [] (parsed schema 0 inputs)) (parsed schema 0 inputs) (
          ground
            (arith, count_ids-occurrences id [] (parsed schema 0 inputs), get-empty {V = ℕ} id))
