-- ===== src/Registry/Lookups.antt =====
-- The lookups of registry/registry.service.ts. `services[id]` is read from the object's own keys.
pub mod Consumers
use Prim.Native.String
use apicenter_hehe.Common.{
  ℕ, String, Bool, true, false, Option, none, some, List, [], ◌++◌, map, ◌==◌, filter, length,
  includes, if◌then◌else◌, get_or,
}
use apicenter_hehe.Common.Dict.{lookup, keys, values}
use apicenter_hehe.Registry.Types.{
  ServiceRegistryEntry, ServiceRegistryMap, ServiceType, tribe, type_eq,
}
use apicenter_hehe.Registry.State.{RegistryService, is_live}

unfoldable pub get : String → RegistryService → Option ServiceRegistryEntry
get id r = lookup id r.services

unfoldable pub get_all : RegistryService → ServiceRegistryMap
get_all r = r.services

unfoldable pub get_by_type : ServiceType → RegistryService → List ServiceRegistryEntry
unfolding type_eq
get_by_type type r = filter (λ e. type_eq (get_or e.service_type tribe) type) (values r.services)

unfoldable pub count : RegistryService → ℕ
count r = length (keys r.services)

abbrev routable_found : Option ServiceRegistryEntry → Bool
routable_found none = false
routable_found (some e) = if get_or e.healthy true then is_live e.status else false

-- `healthy === false` is a flag that is there and false.
unfoldable pub is_routable : String → RegistryService → Bool
unfolding is_live
is_routable id r = routable_found (lookup id r.services)

unfoldable pub get_consumers : String → RegistryService → List String
get_consumers id r =
    map (λ e. e.service_id) (filter (λ e. includes e.consumes id) (values r.services))

abbrev pub consumes_found : Option ServiceRegistryEntry → String → Bool
consumes_found none target = false
consumes_found (some e) target = includes e.consumes target

unfoldable pub can_consume : String → String → RegistryService → Bool
can_consume source target r = consumes_found (lookup source r.services) target

abbrev scopes_found : Option ServiceRegistryEntry → List String
scopes_found none = []
scopes_found (some e) = e.required_scopes

unfoldable pub get_required_scopes : String → RegistryService → List String
get_required_scopes target r = scopes_found (lookup target r.services)

abbrev upstream_found : Option ServiceRegistryEntry → String → Option String
upstream_found none path = none
upstream_found (some e) path = some (String.◌++◌ e.base_url path)

unfoldable pub resolve_upstream : String → String → RegistryService → Option String
resolve_upstream id path r = upstream_found (lookup id r.services) path
