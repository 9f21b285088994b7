-- ===== src/Registry/Health.antt =====
-- `setHealthStatus` and `touchHealthCheck` of registry/registry.service.ts.
use apicenter_hehe.Common.{
  String, Bool, true, false, not, Option, none, some, if◌then◌else◌, get_or,
}
use apicenter_hehe.Common.Dict.{lookup}
use apicenter_hehe.Registry.Types.{ServiceRegistryEntry}
use apicenter_hehe.Registry.State.{RegistryService, persist_to_redis}
use apicenter_hehe.Registry.Lifecycle.{put}

unfoldable pub bool_eq : Bool → Bool → Bool
bool_eq true b = b
bool_eq false b = not b

unfoldable pub checked_entry : String → Bool → ServiceRegistryEntry → ServiceRegistryEntry
checked_entry now healthy e = record e {
  healthy = some healthy;
  last_health_check_at = some now;
  updated_at = now;
}

abbrev set_health_found :
    Option ServiceRegistryEntry → String → String → Bool → RegistryService → Bool × RegistryService
set_health_found none now id healthy r = (false, r)
set_health_found (some e) now id healthy r =
    if bool_eq (get_or e.healthy true) healthy
    then (false, r)
    else (let e' = checked_entry now healthy e in (true, persist_to_redis id e' (put id e' r)))

-- Whether the flag changed. A missing flag counts as healthy.
unfoldable pub set_health_status : String → String → Bool → RegistryService → Bool × RegistryService
unfolding bool_eq checked_entry persist_to_redis
set_health_status now id healthy r = set_health_found (lookup id r.services) now id healthy r

abbrev touch_found :
    Option ServiceRegistryEntry → String → String → RegistryService → RegistryService
touch_found none now id r = r
touch_found (some e) now id r = put id (record e { last_health_check_at = some now }) r

-- Not written to Redis.
unfoldable pub touch_health_check : String → String → RegistryService → RegistryService
touch_health_check now id r = touch_found (lookup id r.services) now id r
