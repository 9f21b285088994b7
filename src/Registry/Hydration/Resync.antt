-- ===== src/Registry/Hydration/Resync.antt =====
-- What a load from Redis does to the map in memory.
use apicenter_hehe.Common.{String, ◌≡◌, refl, true, Option, none, some, [], ◌∷◌, arith, eq_iff}
use apicenter_hehe.Common.Dict.{lookup, insert, lookup-insert, Distinct}
use apicenter_hehe.Errors.{ok}
use apicenter_hehe.Registry.Types.{ServiceRegistryEntry, ServiceRegistryMap}
use apicenter_hehe.Registry.State.{RegistryService}
use apicenter_hehe.Registry.Hydration.{Hash, hydrate, load_from_redis}

-- What Redis holds under an id, if it reads as an entry, or else what memory holds.
abbrev pub redis_or :
    Option (Option ServiceRegistryEntry) → Option ServiceRegistryEntry → Option ServiceRegistryEntry
redis_or none o = o
redis_or (some none) o = o
redis_or (some (some e)) o = some e

pub lookup-hydrate :
    (h : Hash) (m : ServiceRegistryMap) (j : String)
    → Distinct h
    → lookup j (hydrate h m) ≡ redis_or (lookup j h) (lookup j m)
unfolding hydrate lookup
lookup-hydrate [] m j d = refl
lookup-hydrate ((id, none) ∷ h) m j d = ground (arith, eq_iff id j, lookup-hydrate h m j d.1)
lookup-hydrate ((id, some e) ∷ h) m j d =
    ground (arith, eq_iff id j, lookup-insert id j e m, lookup-hydrate h (insert id e m) j d.1)

-- After a load every service is what Redis holds for it, if that reads as an entry. A service that
-- Redis does not hold, or holds as a text that does not parse, stays as it was in memory: a load
-- adds and replaces, and never removes.
pub load_overlays :
    (h : Hash) (r : RegistryService) (j : String)
    → r.connected ≡ true
    → Distinct h
    → lookup j (load_from_redis (ok h) r).1.services ≡ redis_or (lookup j h) (lookup j r.services)
unfolding load_from_redis
load_overlays h r j c d = rw c (lookup-hydrate h r.services j d)
