-- ===== src/Kafka/Events.antt =====
-- The payloads that the program publishes, each with its topic.
use apicenter_hehe.Common.{
  ℕ, String, Option, none, some, List, [], ◌∷◌, ◌==◌, if◌then◌else◌, truthy?, or_else,
}
use apicenter_hehe.Common.Split.{split_on}
use apicenter_hehe.Registry.Types.{ServiceType, shared, tribe}
use apicenter_hehe.Registry.State.{
  KafkaEvent, service_registered, service_version_changed, service_deregistered, service_deprecated,
  service_retired, service_health_changed,
}
use apicenter_hehe.CircuitBreaker.{state_text}
use apicenter_hehe.External.{GatewayEvent, circuit_breaker_opened, circuit_breaker_closed}
use apicenter_hehe.Kafka.Topics
use apicenter_hehe.Kafka.Schemas.{Payload, text, count, flag, texts, maybe_text}

abbrev type_text : ServiceType → String
type_text shared = "shared"
type_text tribe = "tribe"

-- The calls of `publish` in the registry and the health monitor.
unfoldable pub registry_event : KafkaEvent → String × Payload
registry_event (service_registered id name url exposes type is_update timestamp) = (
  Topics.service_registered,
  ("serviceId", text id)
      ∷ ("name", text name)
      ∷ ("baseUrl", text url)
      ∷ ("exposes", texts exposes)
      ∷ ("serviceType", text (type_text type))
      ∷ ("isUpdate", flag is_update)
      ∷ ("timestamp", text timestamp)
      ∷ [],
)
registry_event (service_version_changed id previous new timestamp) = (
  Topics.service_version_changed,
  ("serviceId", text id)
      ∷ ("previousVersion", text previous)
      ∷ ("newVersion", text new)
      ∷ ("timestamp", text timestamp)
      ∷ [],
)
registry_event (service_deregistered id timestamp) =
    (Topics.service_deregistered, ("serviceId", text id) ∷ ("timestamp", text timestamp) ∷ [])
registry_event (service_deprecated id sunset replacement timestamp) = (
  Topics.service_deprecated,
  ("serviceId", text id)
      ∷ ("sunsetDate", maybe_text sunset)
      ∷ ("replacementService", maybe_text replacement)
      ∷ ("timestamp", text timestamp)
      ∷ [],
)
registry_event (service_retired id timestamp) =
    (Topics.service_retired, ("serviceId", text id) ∷ ("timestamp", text timestamp) ∷ [])
registry_event (service_health_changed id healthy previous reason timestamp) = (
  Topics.service_health_changed,
  ("serviceId", text id)
      ∷ ("healthy", flag healthy)
      ∷ ("previousHealthy", flag previous)
      ∷ ("reason", text reason)
      ∷ ("timestamp", text timestamp)
      ∷ [],
)

-- The events of a circuit breaker of an external API.
unfoldable pub breaker_event : String → String → GatewayEvent → String × Payload
breaker_event name timestamp (circuit_breaker_opened previous) = (
  Topics.gateway_error,
  ("event", text "circuit_breaker_opened")
      ∷ ("apiName", text name)
      ∷ ("previousState", text (state_text previous))
      ∷ ("timestamp", text timestamp)
      ∷ [],
)
breaker_event name timestamp (circuit_breaker_closed previous) = (
  Topics.gateway_response,
  ("event", text "circuit_breaker_closed")
      ∷ ("apiName", text name)
      ∷ ("previousState", text (state_text previous))
      ∷ ("timestamp", text timestamp)
      ∷ [],
)

-- The event of an external request that was answered.
unfoldable pub external_event :
    (api method path : String) (status duration : ℕ) → String → String × Payload
external_event api method path status duration timestamp = (
  Topics.external_request,
  ("api", text api)
      ∷ ("method", text method)
      ∷ ("path", text path)
      ∷ ("status", count status)
      ∷ ("duration", count duration)
      ∷ ("timestamp", text timestamp)
      ∷ [],
)

-- The event of the token endpoint, whose key is the service.
unfoldable pub token_event :
    (tribe_id : String) (scopes permissions : List String)
    → ℕ
    → Option String
    → String
    → String × Payload
token_event tribe_id scopes permissions expires_in correlation_id timestamp = (
  Topics.token_issued,
  ("tribeId", text tribe_id)
      ∷ ("scopes", texts scopes)
      ∷ ("permissions", texts permissions)
      ∷ ("expiresIn", count expires_in)
      ∷ ("correlationId", maybe_text correlation_id)
      ∷ ("timestamp", text timestamp)
      ∷ [],
)

-- shared/interceptors/audit-log.interceptor.ts: the part of the path after `tribes`.
abbrev first_of : List String → Option String
first_of [] = none
first_of (x ∷ xs) = some x

after : String → List String → Option String
after name [] = none
after name (x ∷ xs) = let later = after name xs in if x == name then first_of xs else later

unfoldable pub target_service_id : String → Option String
unfolding after
target_service_id original_url = after "tribes" (split_on b'/' original_url)

abbrev pub audit_target : Option String → Payload
audit_target target = if truthy? target then ("targetServiceId", maybe_text target) ∷ [] else []

-- A request and its response, as the interceptor reads them.
pub record Audited : Type 0 where
  pub tribe_id : Option String
  pub method : String
  pub original_url : String
  pub status_code : ℕ
  pub duration_ms : ℕ
  pub ip : Option String
  pub correlation_id : Option String

unfoldable pub audit_event : Audited → String × Payload
unfolding truthy? or_else target_service_id
audit_event a = (
  Topics.audit_log,
  ("tribeId", text (or_else a.tribe_id "anonymous"))
      ∷ ("method", text a.method)
      ∷ ("path", text a.original_url)
      ∷ ("statusCode", count a.status_code)
      ∷ ("durationMs", count a.duration_ms)
      ∷ ("ip", text (or_else a.ip "unknown"))
      ∷ ("correlationId", maybe_text a.correlation_id)
      ∷ audit_target (target_service_id a.original_url),
)

-- All that the program publishes.
pub data ProgramEvent : Type 0 where
  of_registry : KafkaEvent → ProgramEvent
  of_breaker : (api_name timestamp : String) → GatewayEvent → ProgramEvent
  of_external : (api method path : String) (status duration : ℕ) → String → ProgramEvent
  of_token :
      (tribe_id : String) (scopes permissions : List String)
      → ℕ
      → Option String
      → String
      → ProgramEvent
  of_audit : Audited → ProgramEvent

unfoldable pub payload_of : ProgramEvent → String × Payload
unfolding registry_event breaker_event external_event token_event audit_event
payload_of (of_registry e) = registry_event e
payload_of (of_breaker name timestamp g) = breaker_event name timestamp g
payload_of (of_external api method path status duration timestamp) =
    external_event api method path status duration timestamp
payload_of (of_token id scopes permissions expires correlation timestamp) =
    token_event id scopes permissions expires correlation timestamp
payload_of (of_audit a) = audit_event a
