-- ===== src/Routing/Catalog.antt =====
-- src/ai/models/contracts.ts and the queries of `ModelCatalog` (src/ai/models/catalog.ts).
use content_lens.Prelude.{
  ℕ, Bool, true, false, ◌&&◌, Option, none, some, List, ◌∷◌, ◌++◌, JsString, any, find,
}
use content_lens.Prelude.Dict.{Dict}
use content_lens.Prelude.Dict
use content_lens.Budget.{ExecutionKind}

pub data Task : Type 0 where
  classification_text classification_vision embedding assistance_draft assistance_explain : Task

abbrev pub same_task : Task → Task → Bool
same_task classification_text classification_text = true
same_task classification_vision classification_vision = true
same_task embedding embedding = true
same_task assistance_draft assistance_draft = true
same_task assistance_explain assistance_explain = true
same_task _ _ = false

pub data Modality : Type 0 where
  text image : Modality

abbrev pub same_modality : Modality → Modality → Bool
same_modality text text = true
same_modality image image = true
same_modality _ _ = false

pub data Evidence : Type 0 where
  declared probe_verified benchmark_accepted : Evidence

pub record ModelRef : Type 0 where
  pub provider_config_id : JsString
  pub model_id : JsString

-- `ModelCapability`, without the fields that nothing here reads.
pub record Capability : Type 0 where
  pub task : Task
  pub modalities : List Modality
  pub languages : List JsString
  pub image_mime_types : List JsString
  pub max_input_bytes : ℕ
  pub structured_output : Bool
  pub evidence : Evidence

pub data Status : Type 0 where
  available unavailable invalid : Status

abbrev pub is_available : Status → Bool
is_available available = true
is_available unavailable = false
is_available invalid = false

pub record Model : Type 0 where
  pub execution_kind : ExecutionKind
  pub status : Status
  pub capabilities : List Capability

-- The models under their keys, `${providerConfigId}\u0000${modelId}`.
abbrev pub Catalog : Type 0
Catalog = Dict Model

unfoldable pub model_key : ModelRef → JsString
model_key r = r.provider_config_id ++ 0 ∷ r.model_id

unfoldable pub get : Catalog → ModelRef → Option Model
get c r = Dict.get (model_key r) c

unfoldable pub capability_of : Model → Task → Option Capability
capability_of m task = find (λ c. same_task c.task task) m.capabilities

unfoldable pub capability : Catalog → ModelRef → Task → Option Capability
unfolding get capability_of
capability c r task = elim (get c r) [ none ↦ none | some m ↦ capability_of m task ]

unfoldable pub supports : Catalog → ModelRef → Task → Bool
unfolding get
supports c r task = elim (get c r) [
  | none ↦ false
  | some m ↦ is_available m.status && any (λ x. same_task x.task task) m.capabilities
]

unfoldable pub supports_modality : Catalog → ModelRef → Modality → Bool
unfolding get
supports_modality c r modality = elim (get c r) [
  | none ↦ false
  | some m ↦
      is_available m.status
      && any (λ x. any (λ y. same_modality y modality) x.modalities) m.capabilities
]
