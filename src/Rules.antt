-- ===== src/Rules.antt =====
-- src/core/rules and the types of src/core/content and src/core/decisions that the rules use.
pub mod Index
pub mod Engine
pub mod Matches
pub mod Evaluation
use content_lens.Prelude.{ℕ, Bool, Option, List, JsString}

-- The operations of JavaScript that the rules call: those on numbers, `new URL(…).hostname` where it
-- does not throw, `toLowerCase`, and a number as text.
pub record Runtime (N : Type 0) : Type 0 where
  pub zero : N
  pub quarter : N
  pub half : N
  pub one : N
  pub less : N → N → Bool
  pub at_most : N → N → Bool
  pub is_zero : N → Bool
  pub is_finite : N → Bool
  pub times : N → N → N
  pub absolute : N → N
  pub smaller : N → N → N
  pub hostname : JsString → Option JsString
  pub to_lower : JsString → JsString
  pub decimal : ℕ → JsString

-- `DecisionAction`
pub data Action : Type 0 where
  show promote reduce hide review : Action

-- `RuleScope`; platforms and surfaces go by their names.
pub record Scope : Type 0 where
  pub platforms : Option (List JsString)
  pub surfaces : Option (List JsString)

-- The fields that all rules share, without the two timestamps, which the engine does not read.
pub record Base : Type 0 where
  pub id : JsString
  pub enabled : Bool
  pub scope : Scope

pub data IdentityType : Type 0 where
  author channel : IdentityType

pub data IdentityEffect : Type 0 where
  block allow promote : IdentityEffect

pub data ExactEffect : Type 0 where
  block allow : ExactEffect

pub data SemanticEffect : Type 0 where
  block reduce allow promote : SemanticEffect

pub data Field : Type 0 where
  title body domain : Field

pub data Target : Type 0 where
  topic archetype quality : Target

pub record IdentityRule : Type 0 where
  pub base : Base
  pub open base use *
  pub effect : IdentityEffect
  pub platform : JsString
  pub identity_type : IdentityType
  pub identity_id : JsString

pub record ExactRule : Type 0 where
  pub base : Base
  pub open base use *
  pub effect : ExactEffect
  pub field : Field
  pub value : JsString
  pub case_sensitive : Bool

-- The description, the examples and the exclusions go to the model, not to the engine.
pub record SemanticRule (N : Type 0) : Type 0 where
  pub base : Base
  pub open base use *
  pub effect : SemanticEffect
  pub threshold : N

pub record PreferenceRule (N : Type 0) : Type 0 where
  pub base : Base
  pub open base use *
  pub target : Target
  pub target_id : JsString
  pub weight : N

pub data Rule (N : Type 0) : Type 0 where
  identity : IdentityRule → Rule N
  exact : ExactRule → Rule N
  semantic : SemanticRule N → Rule N
  preference : PreferenceRule N → Rule N

module _ {N : Type 0} where
  abbrev pub base_of : Rule N → Base
  base_of (identity r) = r.base
  base_of (exact r) = r.base
  base_of (semantic r) = r.base
  base_of (preference r) = r.base

  abbrev pub id_of : Rule N → JsString
  id_of r = (base_of r).id

-- `ContentItem`, as far as the engine reads it.
pub record Item : Type 0 where
  pub id : JsString
  pub platform : JsString
  pub surface : JsString
  pub title : Option JsString
  pub body : Option JsString
  pub canonical_url : Option JsString
  pub author_id : Option JsString
  pub channel_id : Option JsString
  pub observed_at : JsString
