-- ===== src/Registry/State.antt =====
-- The state of `RegistryService`, with the calls that it makes of Redis, Kafka, the metrics and the
-- listeners. `connected` is whether the field `redis` holds a client. Log lines are left out.
use apicenter_hehe.Common.{
  ℕ, String, Bool, true, false, Option, List, [], ◌∷◌, filter, length, if◌then◌else◌,
}
use apicenter_hehe.Common.Dict.{values}
use apicenter_hehe.Registry.Types.{
  ServiceLifecycleStatus, active, deprecated, ServiceType, ServiceRegistryEntry, ServiceRegistryMap,
  status_eq,
}

-- The payloads of the calls of `kafka.publish`, one constructor for each topic. Their failures are
-- caught where they are made and only logged.
pub data KafkaEvent : Type 0 where
  service_registered :
      (service_id name base_url : String)
      → List String
      → ServiceType
      → (is_update : Bool) → (timestamp : String) → KafkaEvent
  service_version_changed : (service_id previous new timestamp : String) → KafkaEvent
  service_deregistered : (service_id timestamp : String) → KafkaEvent
  service_deprecated :
      (service_id : String)
      → (sunset_date replacement : Option String) → (timestamp : String) → KafkaEvent
  service_retired : (service_id timestamp : String) → KafkaEvent
  service_health_changed :
      (service_id : String) → (healthy previous : Bool) → (reason timestamp : String) → KafkaEvent

-- The writes sent to the Redis hash of the registry.
pub data RedisCommand : Type 0 where
  hset : String → ServiceRegistryEntry → RedisCommand
  hdel : String → RedisCommand

-- What the race of a write against its timeout gives.
pub data RedisReply : Type 0 where
  acknowledged : RedisReply
  refused : String → RedisReply

pub record RegistryService : Type 0 where
  pub services : ServiceRegistryMap
  pub connected : Bool
  -- the gauge `registry_services_total`
  pub gauge : ℕ
  -- the calls made, newest first
  pub commands : List RedisCommand
  pub published : List KafkaEvent
  pub invalidated : List String

abbrev pub initial : RegistryService
initial = record {
  services = [];
  connected = false;
  gauge = 0;
  commands = [];
  published = [];
  invalidated = [];
}

-- The filter of `syncMetricsGauge`, which `isRoutable` repeats.
unfoldable pub is_live : ServiceLifecycleStatus → Bool
unfolding status_eq
is_live s = if status_eq s active then true else status_eq s deprecated

unfoldable pub active_count : ServiceRegistryMap → ℕ
active_count services = length (filter (λ e. is_live e.status) (values services))

unfoldable pub sync_metrics_gauge : RegistryService → RegistryService
sync_metrics_gauge r = record r { gauge = active_count r.services }

unfoldable pub send : RedisCommand → RegistryService → RegistryService
send c r = if r.connected then record r { commands = c ∷ r.commands } else r

unfoldable pub publish : KafkaEvent → RegistryService → RegistryService
publish e r = record r { published = e ∷ r.published }

-- Best effort: a failure is caught and only logged.
unfoldable pub persist_to_redis : String → ServiceRegistryEntry → RegistryService → RegistryService
unfolding send
persist_to_redis id entry r = send (hset id entry) r

unfoldable pub notify_cache_invalidation : String → RegistryService → RegistryService
notify_cache_invalidation id r = record r { invalidated = id ∷ r.invalidated }
