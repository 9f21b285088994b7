-- ===== src/Registry/Registration.antt =====
-- `register`, `deregister` and `seed` of registry/registry.service.ts.
pub mod Parts
pub mod Governance
pub mod Rollback
pub mod Overlap
pub mod Coherence
use Prim.Native.String
use apicenter_hehe.Common.{
  String, ◌≡◌, Bool, true, false, ◌&&◌, not, Option, none, some, List, [], ◌∷◌, ◌==◌, if◌then◌else◌,
  truthy, truthy?, get_or, or_else,
}
use apicenter_hehe.Common.Dict.{lookup, insert, remove}
use apicenter_hehe.Errors.{
  Error, app, plain, not_found, conflict, Result, ok, err, guard, ◌>>=◌, ◌>>◌,
}
use apicenter_hehe.Registry.Types.{
  ServiceManifest, ServiceRegistryEntry, ServiceLifecycleStatus, active, deprecated, retired,
  ServiceType, tribe, status_eq,
}
use apicenter_hehe.Registry.Semver.{validate_version_upgrade}
use apicenter_hehe.Registry.State.{
  RegistryService, KafkaEvent, service_registered, service_version_changed, service_deregistered,
  hset, hdel, RedisReply, acknowledged, refused, sync_metrics_gauge, send, publish,
  notify_cache_invalidation,
}

abbrev pub quoted : String → String → String
quoted id tail = String.◌++◌ "Service '" (String.◌++◌ id tail)

abbrev pub unregistered : String → Error
unregistered id = app (not_found (quoted id "' is not registered"))

-- The version of the existing entry, where both versions are there and not empty.
unfoldable pub previous_version : Option ServiceRegistryEntry → ServiceManifest → Option String
unfolding truthy?
previous_version none m = none
previous_version (some e) m = if truthy? m.version && truthy? e.version then e.version else none

-- Both versions are there and not empty: the upgrade is validated.
abbrev check_versions : Option String → Option String → Result (Unit {0})
check_versions (some current) (some new) =
    if truthy new && truthy current then validate_version_upgrade current new else ok tt
check_versions _ _ = ok tt

abbrev pub retired_conflict : String → Error
retired_conflict id = app (conflict (quoted id "' is retired and cannot be re-registered"))

-- The two checks of `register`, in the order of the code: versions, then retirement.
unfoldable pub admit : Option ServiceRegistryEntry → ServiceManifest → Result (Unit {0})
unfolding status_eq truthy
admit none m = ok tt
admit (some e) m = do
  check_versions e.version m.version
  guard (not (status_eq e.status retired)) (retired_conflict m.service_id)

abbrev kept_time : Option ServiceRegistryEntry → String → String
kept_time none now = now
kept_time (some e) now = or_else (some e.registered_at) now

abbrev kept_status : Option ServiceRegistryEntry → ServiceLifecycleStatus
kept_status none = active
kept_status (some e) = if status_eq e.status deprecated then deprecated else active

-- The entry that is stored. What the manifest does not give (health, the time of its last check)
-- is not carried over from the entry before.
unfoldable pub new_entry :
    String → Option ServiceRegistryEntry → ServiceManifest → ServiceRegistryEntry
unfolding status_eq or_else previous_version
new_entry now existing m = record {
  manifest = record m { service_type = some (get_or m.service_type tribe) };
  registered_at = kept_time existing now;
  updated_at = now;
  status = kept_status existing;
  previous_version = previous_version existing m;
  healthy = none;
  last_health_check_at = none;
}

abbrev pub is_some {ℓ} : {A : Type ℓ} → Option A → Bool
is_some none = false
is_some (some a) = true

-- Up to the `await`: the entry is in memory, and its write is on the way.
unfoldable pub stored : String → ServiceManifest → RegistryService → RegistryService
unfolding sync_metrics_gauge send
stored now m r =
    let entry = new_entry now (lookup m.service_id r.services) m in
    send (hset m.service_id entry)
      (sync_metrics_gauge (record r { services = insert m.service_id entry r.services }))

abbrev announce_version :
    String → Option String → ServiceManifest → RegistryService → RegistryService
announce_version now none m r = r
announce_version now (some previous) m r =
    let new = get_or m.version "" in
    if truthy previous && not (previous == new)
    then publish (service_version_changed m.service_id previous new now) r
    else r

-- After the `await`, if the write was acknowledged or there is no Redis.
unfoldable pub announced :
    String → Option ServiceRegistryEntry → ServiceManifest → RegistryService → RegistryService
unfolding publish notify_cache_invalidation truthy
announced now existing m r =
    let r' = announce_version now (previous_version existing m) m (
      publish
        (service_registered m.service_id m.name m.base_url m.exposes (get_or m.service_type tribe)
          (is_some existing) now)
        r) in
    if is_some existing then notify_cache_invalidation m.service_id r' else r'

-- The `catch` of `persistToRedisStrict`.
unfoldable pub rolled_back : String → RegistryService → RegistryService
unfolding sync_metrics_gauge
rolled_back id r = sync_metrics_gauge (record r { services = remove id r.services })

abbrev pub write_failed : String → String → Error
write_failed id reason = plain (
    String.◌++◌ "Registration for '"
      (String.◌++◌ id (String.◌++◌ "' failed — Redis write error: " reason)))

-- A call of `register` that waits for Redis: its local variables.
pub record Pending : Type 0 where
  pub now : String
  pub existing : Option ServiceRegistryEntry
  pub manifest : ServiceManifest

abbrev begin :
    Result (Unit {0})
    → String
    → ServiceManifest
    → RegistryService
    → Result Pending × RegistryService
begin (err e) now m r = (err e, r)
begin (ok _) now m r = (
  ok (record { now = now; existing = lookup m.service_id r.services; manifest = m }),
  stored now m r,
)

-- The synchronous part of `register`.
unfoldable pub register_begin :
    String → ServiceManifest → RegistryService → Result Pending × RegistryService
register_begin now m r = begin (admit (lookup m.service_id r.services) m) now m r

abbrev finish : Pending → RegistryService → Result ServiceRegistryEntry × RegistryService
finish p r = (ok (new_entry p.now p.existing p.manifest), announced p.now p.existing p.manifest r)

-- From the reply of Redis on. With no client `persistToRedisStrict` returns at once.
unfoldable pub register_settle :
    RedisReply → Pending → RegistryService → Result ServiceRegistryEntry × RegistryService
register_settle acknowledged p r = finish p r
register_settle (refused reason) p r =
    if r.connected
    then (err (write_failed p.manifest.service_id reason), rolled_back p.manifest.service_id r)
    else finish p r

abbrev pub settle :
    Result Pending → RedisReply → RegistryService → Result ServiceRegistryEntry × RegistryService
settle (err e) reply r = (err e, r)
settle (ok p) reply r = register_settle reply p r

-- `register`, with no other operation on the registry during its `await`.
unfoldable pub register :
    String
    → RedisReply
    → ServiceManifest
    → RegistryService
    → Result ServiceRegistryEntry × RegistryService
unfolding register_begin register_settle
register now reply m r = let (p, r') = register_begin now m r in settle p reply r'

-- `removeFromRedisStrict`, which logs what goes wrong and does not throw.
abbrev remove_from_redis_strict : String → RegistryService → RegistryService
remove_from_redis_strict id r = send (hdel id) r

-- `deregister`. A failed delete in Redis is caught and logged by `removeFromRedisStrict`, so the
-- reply changes nothing here. `now` is read after the `await`.
abbrev deregister_found :
    Option ServiceRegistryEntry
    → String
    → String
    → RegistryService
    → Result (Unit {0}) × RegistryService
deregister_found none now id r = (err (unregistered id), r)
deregister_found (some e) now id r = (
  ok tt,
  publish (service_deregistered id now) (
      remove_from_redis_strict id
        (sync_metrics_gauge (record r { services = remove id r.services }))),
)

unfoldable pub deregister : String → String → RegistryService → Result (Unit {0}) × RegistryService
unfolding publish send sync_metrics_gauge
deregister now id r = deregister_found (lookup id r.services) now id r

abbrev collect : Result Pending → List Pending → List Pending
collect (err e) ps = ps
collect (ok p) ps = p ∷ ps

-- `seed`: the loop does not wait, so every registration begins before any is settled. A refused one
-- is only logged. Each manifest comes with the time that its registration reads. The calls that
-- wait are returned, and settle in an order that Redis decides.
unfoldable pub seed :
    List (String × ServiceManifest) → RegistryService → List Pending × RegistryService
unfolding register_begin
seed [] r = ([], r)
seed ((now, m) ∷ ms) r =
    let (p, r') = register_begin now m r in let (ps, r'') = seed ms r' in (collect p ps, r'')
