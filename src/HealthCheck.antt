-- ===== src/HealthCheck.antt =====
-- health/health.controller.ts and external/admin.controller.ts: the readiness probe, and the list
-- and the reset of the circuit breakers. The facts on the process are left out of the probe.
pub mod Recovery
use Prim.Native.String
use apicenter_hehe.Common.{
  ℕ, String, Bool, true, false, ◌&&◌, ◌==◌, Option, none, some, List, [], ◌∷◌, map, ltb,
  if◌then◌else◌, filter, length,
}
use apicenter_hehe.Common.Dict.{Dict, lookup, insert}
use apicenter_hehe.Errors.{Error, app, not_found, Result, ok, err}
use apicenter_hehe.CircuitBreaker.{CircuitState, state_text, CircuitBreaker, Stats, reset}
use apicenter_hehe.External.{ExternalService, get_all_breaker_stats, get_breaker}
use apicenter_hehe.Registry.State.{RegistryService}
use apicenter_hehe.Registry.Lookups.{count}
use apicenter_hehe.Kafka.{KafkaService, is_connected}

pub data Status : Type 0 where
  up down : Status

abbrev pub status_of : Bool → Status
status_of well = if well then up else down

unfoldable pub kafka_check : KafkaService → Status
unfolding is_connected
kafka_check k = status_of (is_connected k)

pub record RegistryCheck : Type 0 where
  pub status : Status
  pub registered_services : ℕ

unfoldable pub registry_check : RegistryService → RegistryCheck
unfolding count
registry_check r = record { status = up; registered_services = count r }

pub record BreakerLine : Type 0 where
  pub name : String
  pub state : CircuitState
  pub failure_count : ℕ

pub record BreakerCheck : Type 0 where
  pub status : Status
  pub total : ℕ
  pub open_count : ℕ
  pub breakers : List BreakerLine

abbrev pub is_open : Stats → Bool
is_open s = state_text s.state == "OPEN"

abbrev line_of : Stats → BreakerLine
line_of s = record { name = s.name; state = s.state; failure_count = s.failure_count }

unfoldable pub circuit_breaker_check : ExternalService → BreakerCheck
unfolding get_all_breaker_stats
circuit_breaker_check s =
    let stats = get_all_breaker_stats s in
    let open_breakers = filter is_open stats in
    record {
      status = if ltb 0 (length open_breakers) then down else up;
      total = length stats;
      open_count = length open_breakers;
      breakers = map line_of stats;
    }

abbrev pub both_up : Status → Status → Status
both_up up s = s
both_up down s = down

-- The probe is up when every check is, as the package terminus documents.
unfoldable pub readiness : KafkaService → RegistryService → ExternalService → Status
unfolding kafka_check registry_check circuit_breaker_check
readiness k r s =
    both_up (kafka_check k) (both_up (registry_check r).status (circuit_breaker_check s).status)

-- The answer of the list, with its total.
unfoldable pub list_breakers : ExternalService → List Stats × ℕ
unfolding get_all_breaker_stats
list_breakers s = let stats = get_all_breaker_stats s in (stats, length stats)

-- The answer to a reset.
pub record ResetData : Type 0 where
  pub api_name : String
  pub previous_state : CircuitState
  pub current_state : CircuitState

abbrev pub unknown_breaker : String → Error
unknown_breaker name =
    app (not_found (String.◌++◌ "Circuit breaker for '" (String.◌++◌ name "' not found")))

abbrev reset_found :
    Option CircuitBreaker → String → ExternalService → Result ResetData × ExternalService
reset_found none name s = (err (unknown_breaker name), s)
reset_found (some b) name s =
    let b' = reset b in
    (
      ok (record { api_name = name; previous_state = b.state; current_state = b'.state }),
      record s { breakers = insert name b' s.breakers },
    )

unfoldable pub reset_breaker : String → ExternalService → Result ResetData × ExternalService
unfolding get_breaker
reset_breaker name s = reset_found (get_breaker name s) name s
