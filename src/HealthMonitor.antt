-- ===== src/HealthMonitor.antt =====
-- registry/health-monitor.service.ts: the two jobs of `HealthMonitorService`. What `axios.get` and
-- Redis answer is an argument; log lines are left out.
pub mod Answers
pub mod Sweep
pub mod Drift
use apicenter_hehe.Common.{
  String, Bool, true, false, not, ◌&&◌, ◌||◌, Option, none, some, List, [], ◌∷◌, ◌==◌, filter,
  includes, if◌then◌else◌, truthy, truthy?, get_or,
}
use apicenter_hehe.Common.Dict.{Dict, lookup, keys, values}
use apicenter_hehe.Errors.{Error, Result, ok, err}
use apicenter_hehe.Registry.Types.{
  ServiceRegistryEntry, ServiceRegistryMap, proposed, retired, status_eq,
}
use apicenter_hehe.Registry.State.{RegistryService, service_health_changed, publish}
use apicenter_hehe.Registry.Health.{set_health_status, touch_health_check}
use apicenter_hehe.Registry.Hydration.{Hash, get_redis_entries, load_from_redis}

pub record HealthMonitorService : Type 0 where
  pub health_check_running : Bool
  pub reconciliation_running : Bool

-- What a request for a health check settles to: a response whose status the request accepts, or an
-- error with its message.
pub data Probe : Type 0 where
  answered : Probe
  unreachable : String → Probe

-- `svc.healthCheck && svc.status !== 'retired' && svc.status !== 'proposed'`
abbrev pub is_checkable : ServiceRegistryEntry → Bool
is_checkable e =
    truthy? e.health_check
    && (not (status_eq e.status retired) && not (status_eq e.status proposed))

unfoldable pub checkable : ServiceRegistryMap → List ServiceRegistryEntry
unfolding truthy? status_eq
checkable services = filter is_checkable (values services)

-- `emitHealthChanged` is called only where the flag changed.
abbrev report : Bool × RegistryService → String → String → Bool → String → RegistryService
report (true, r) now id healthy reason =
    publish (service_health_changed id healthy (not healthy) reason now) r
report (false, r) now id healthy reason = touch_health_check now id r

-- From the answer of one service on. Nothing is awaited in between, up to the Kafka event.
unfoldable pub settle_check : String → String → Probe → RegistryService → RegistryService
unfolding publish
settle_check now id answered r =
    report (set_health_status now id true r) now id true "Health check succeeded"
settle_check now id (unreachable reason) r =
    report (set_health_status now id false r) now id false
      (if truthy reason then reason else "Unknown error")

-- The answers to one sweep, in the order in which they come in.
unfoldable pub settle_checks : String → Dict Probe → RegistryService → RegistryService
settle_checks now [] r = r
settle_checks now ((id, probe) ∷ later) r = settle_checks now later (settle_check now id probe r)

-- The start of a sweep: nothing while one is running, and otherwise the services to ask.
unfoldable pub begin_sweep :
    HealthMonitorService
    → RegistryService
    → Option (List ServiceRegistryEntry) × HealthMonitorService
begin_sweep h r =
    if h.health_check_running
    then (none, h)
    else (some (checkable r.services), record h { health_check_running = true })

-- The `finally` of a sweep.
unfoldable pub end_sweep : HealthMonitorService → HealthMonitorService
end_sweep h = record h { health_check_running = false }

-- The services that were asked, each with its answer.
unfoldable pub answers_of : (ServiceRegistryEntry → Probe) → List ServiceRegistryEntry → Dict Probe
answers_of probe [] = []
answers_of probe (e ∷ es) = (e.service_id, probe e) ∷ answers_of probe es

abbrev swept :
    Option (List ServiceRegistryEntry) × HealthMonitorService
    → String
    → (ServiceRegistryEntry → Probe)
    → RegistryService
    → HealthMonitorService × RegistryService
swept (none, h) now probe r = (h, r)
swept (some es, h) now probe r = (end_sweep h, settle_checks now (answers_of probe es) r)

-- `handleHealthChecks`, where the answers come in in the order of the requests and nothing else
-- happens meanwhile.
unfoldable pub handle_health_checks :
    String
    → (ServiceRegistryEntry → Probe)
    → HealthMonitorService
    → RegistryService
    → HealthMonitorService × RegistryService
unfolding begin_sweep end_sweep
handle_health_checks now probe h r = swept (begin_sweep h r) now probe r

abbrev pub missing_from : ServiceRegistryMap → ServiceRegistryMap → List String
missing_from there here = filter (λ k. not (includes (keys there) k)) (keys here)

abbrev pub stamps_differ : Option ServiceRegistryEntry → Option ServiceRegistryEntry → Bool
stamps_differ (some a) (some b) = not (a.updated_at == b.updated_at)
stamps_differ _ _ = false

unfoldable pub diverged : ServiceRegistryMap → ServiceRegistryMap → List String
diverged redis memory =
    filter (λ k. includes (keys memory) k && stamps_differ (lookup k redis) (lookup k memory))
      (keys redis)

abbrev pub is_empty : List String → Bool
is_empty [] = true
is_empty (x ∷ xs) = false

unfoldable pub has_drift : ServiceRegistryMap → ServiceRegistryMap → Bool
has_drift redis memory =
    not (is_empty (missing_from memory redis))
    || (not (is_empty (missing_from redis memory)) || not (is_empty (diverged redis memory)))

-- With the entries that Redis holds. `again` is the reply to the read of `loadFromRedis`, whose
-- failure is caught.
abbrev pub resync :
    Result (Option ServiceRegistryMap) → Result Hash → RegistryService → RegistryService
resync (err e) again r = r
resync (ok none) again r = r
resync (ok (some redis)) again r =
    if has_drift redis r.services then (load_from_redis again r).1 else r

-- `handleRedisDriftReconciliation`, with no other operation during its reads. The flag is up only
-- while it runs.
unfoldable pub reconcile :
    Result Hash → Result Hash → HealthMonitorService → RegistryService → RegistryService
unfolding get_redis_entries
reconcile reply again h r =
    if h.reconciliation_running then r else resync (get_redis_entries reply r) again r
