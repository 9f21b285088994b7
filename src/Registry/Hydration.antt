-- ===== src/Registry/Hydration.antt =====
-- `onModuleInit`, `loadFromRedis` and `getRedisEntries` of registry/registry.service.ts. A reply to
-- HGETALL lists the fields of the hash, each with what `JSON.parse` makes of its text: an entry, or
-- nothing where it throws.
pub mod Resync
use apicenter_hehe.Common.{
  String, Bool, true, false, Option, none, some, List, [], ◌∷◌, if◌then◌else◌,
}
use apicenter_hehe.Common.Dict.{Dict, insert}
use apicenter_hehe.Errors.{Error, Result, ok, err}
use apicenter_hehe.Registry.Types.{ServiceRegistryEntry, ServiceRegistryMap}
use apicenter_hehe.Registry.State.{RegistryService}

abbrev pub Hash : Type 0
Hash = Dict (Option ServiceRegistryEntry)

-- The loop of `loadFromRedis`, and that of `getRedisEntries` when it starts from the empty object.
unfoldable pub hydrate : Hash → ServiceRegistryMap → ServiceRegistryMap
hydrate [] services = services
hydrate ((id, none) ∷ h) services = hydrate h services
hydrate ((id, some e) ∷ h) services = hydrate h (insert id e services)

-- HGETALL replies or fails; a failure is thrown.
unfoldable pub load_from_redis : Result Hash → RegistryService → Result (Unit {0}) × RegistryService
unfolding hydrate
load_from_redis (ok h) r =
    if r.connected then (ok tt, record r { services = hydrate h r.services }) else (ok tt, r)
load_from_redis (err e) r = if r.connected then (err e, r) else (ok tt, r)

unfoldable pub get_redis_entries :
    Result Hash → RegistryService → Result (Option ServiceRegistryMap)
unfolding hydrate
get_redis_entries (ok h) r = if r.connected then ok (some (hydrate h [])) else ok none
get_redis_entries (err e) r = if r.connected then err e else ok none

abbrev initialised : Result (Unit {0}) × RegistryService → RegistryService
initialised (ok _, r) = r
initialised (err e, r) = record r { connected = false }

-- A failure to connect, or of the first load, leaves the registry in memory-only mode.
unfoldable pub on_module_init : Result (Unit {0}) → Result Hash → RegistryService → RegistryService
unfolding load_from_redis
on_module_init (ok _) reply r = initialised (load_from_redis reply (record r { connected = true }))
on_module_init (err e) reply r = record r { connected = false }
