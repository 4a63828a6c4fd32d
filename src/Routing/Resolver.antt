-- ===== src/Routing/Resolver.antt =====
-- src/ai/routing/resolver.ts: the route that the settings configure for a task on a platform.
use content_lens.Prelude.{
  Bool, true, false, not, ◌&&◌, Option, none, some, List, if◌then◌else◌, get_or,
}
use content_lens.Routing.Catalog.{
  Task, classification_text, classification_vision, same_task, image, ModelRef, Catalog, get,
  supports, supports_modality,
}

pub data Platform : Type 0 where
  youtube linkedin x reddit hacker_news rss : Platform

pub record Route : Type 0 where
  pub primary : ModelRef
  pub fallbacks : List ModelRef
  pub allow_cloud_fallback : Bool
  pub allow_higher_cost_fallback : Bool

-- `RouteSelection`; the schema allows `inherit` to platforms only.
pub data Selection : Type 0 where
  inherit disabled : Selection
  route : Route → Selection

-- `ModelRoutingSettings`: its two partial records.
pub record Settings : Type 0 where
  pub global_routes : Task → Option Selection
  pub platform_overrides : Platform → Task → Option Selection

pub data Source : Type 0 where
  platform global : Source

pub data FailureCategory : Type 0 where
  temporary invalid_output configuration authorization input budget cancelled : FailureCategory

pub data InvalidCode : Type 0 where
  model_not_found task_unsupported : InvalidCode

-- `ConfiguredRouteResolution`; the Boolean of `off` is the reason `text-only-without-vision-route`.
pub data Configured : Type 0 where
  resolved : Source → Route → Configured
  off : Source → Bool → Configured
  wrong : Source → InvalidCode → Configured

global_route : Settings → Task → Selection × Source
global_route s task = (get_or (s.global_routes task) disabled, global)

override_or : Option Selection → Selection × Source → Selection × Source
override_or none rest = rest
override_or (some inherit) rest = rest
override_or (some disabled) rest = (disabled, platform)
override_or (some (route r)) rest = (route r, platform)

-- `routeFor`
unfoldable pub route_for : Settings → Platform → Task → Selection × Source
unfolding global_route override_or
route_for s p task = override_or (s.platform_overrides p task) (global_route s task)

-- Whether the text route is there and its model cannot see images.
text_only : Catalog → Selection → Bool
text_only c inherit = false
text_only c disabled = false
text_only c (route r) =
    supports c r.primary classification_text && not (supports_modality c r.primary image)

unfoldable pub without_route : Settings → Catalog → Platform → Task → Source → Configured
unfolding text_only
without_route s c p task source =
    off source
      (same_task task classification_vision && text_only c (route_for s p classification_text).0)

unfoldable pub with_route : Catalog → Task → Source → Route → Configured
with_route c task source r = elim (get c r.primary) [
  | none ↦ wrong source model_not_found
  | some _ ↦ if supports c r.primary task then resolved source r else wrong source task_unsupported
]

configured_by : Settings → Catalog → Platform → Task → Selection × Source → Configured
configured_by s c p task (inherit, source) = without_route s c p task source
configured_by s c p task (disabled, source) = without_route s c p task source
configured_by s c p task (route r, source) = with_route c task source r

-- `resolveConfiguredRoute`
unfoldable pub resolve_configured_route : Settings → Catalog → Platform → Task → Configured
unfolding configured_by with_route without_route
resolve_configured_route s c p task = configured_by s c p task (route_for s p task)

unfoldable pub can_advance_to_fallback : FailureCategory → Bool
can_advance_to_fallback temporary = true
can_advance_to_fallback invalid_output = true
can_advance_to_fallback _ = false
