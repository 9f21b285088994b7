-- ===== src/Witnesses/Operations.antt =====
-- Instances for the controllers of the registry and of the breakers, and for the metrics.
use apicenter_hehe.Common.{
  String, ◌≡◌, ◌≢◌, ◌↔◌, refl, true, none, some, List, [], ◌∷◌, arith, includes, eq_iff,
}
use apicenter_hehe.Common.Dict.{lookup}
use apicenter_hehe.Errors.{ok, err}
use apicenter_hehe.Registry.Types.{active}
use apicenter_hehe.Registry.State.{acknowledged}
use apicenter_hehe.Registry.Lookups.{can_consume}
use apicenter_hehe.Registry.Lifecycle.{deprecated_entry}
use apicenter_hehe.Registry.Registration.{unregistered, admit}
use apicenter_hehe.Registry.Controller.{
  ServiceManifestDto, Affected, register, get_service, deregister, deprecate, retire, manifest_of,
}
use apicenter_hehe.Registry.Controller.Consistency.{affected_are_consumers, get_service-register}
use apicenter_hehe.Registry.Controller.Validation.{Validators, is_valid, own_secrets}
use apicenter_hehe.Auth.Secrets.{env_key}
use apicenter_hehe.CircuitBreaker.{
  CircuitBreaker, CircuitBreakerOptions, closed, opened, half_open, create,
}
use apicenter_hehe.CircuitBreaker.Schedule.{Event, failure, run}
use apicenter_hehe.Metrics.{new_metrics}
use apicenter_hehe.Metrics.Gauge.{report, shown, gauge_shows_state}
use apicenter_hehe.External.{ExternalService}
use apicenter_hehe.Kafka.{KafkaService}
use apicenter_hehe.Witnesses.Data.{billing, entry, market}
use apicenter_hehe.Witnesses.Services.{market-IsSettled}

abbrev now : String
now = "2025-01-01T00:00:00.000Z"

abbrev affected : Affected
unfolding deprecated_entry
affected = record {
  entry = deprecated_entry now none none (entry billing active);
  affected_consumers = "orders" ∷ [];
}

affected_are_consumers_example :
    ((deprecate now "billing" none none market).0 ≡ ok affected
      → includes affected.affected_consumers "orders" ≡ can_consume "orders" "billing" market)
    × ((retire now "billing" market).0 ≡ ok affected
        → includes affected.affected_consumers "orders" ≡ can_consume "orders" "billing" market)
affected_are_consumers_example =
    affected_are_consumers now "billing" none none market affected "orders" market-IsSettled

abbrev dto : ServiceManifestDto
dto = record {
  service_id = "stock";
  name = "Stock";
  base_url = "http://stock:3000";
  required_scopes = "stock:read" ∷ [];
  exposes = "/items" ∷ [];
  consumes = none;
  health_check = none;
  version = some "1.0.0";
  description = none;
  tags = none;
  service_type = none;
  owner_team = none;
  contact = none;
  service_tier = none;
  cost_center = none;
  sunset_date = none;
  replacement_service = none;
}

get_service-register_example :
    (get_service "stock" (register now acknowledged dto market).1
      ≡ (register now acknowledged dto market).0)
    × (get_service "stock" (deregister now "stock" (register now acknowledged dto market).1).1
        ≡ err (unregistered "stock"))
unfolding lookup admit
get_service-register_example = get_service-register now now dto market refl

abbrev options : CircuitBreakerOptions
options = record {
  failure_threshold = some 2;
  reset_timeout_ms = some 30000;
  success_threshold = none;
}

abbrev failures : List Event
failures = failure 10 ∷ failure 20 ∷ []

gauge_shows_state_example :
    ((shown "geolocation"
          (report "geolocation" (run failures (create "geolocation" options)).notified new_metrics)
        ≡ 1)
      ↔ ((run failures (create "geolocation" options)).state ≡ opened))
    × ((shown "geolocation" (
            report "geolocation" (run failures (create "geolocation" options)).notified new_metrics)
          ≡ 2)
        ↔ ((run failures (create "geolocation" options)).state ≡ half_open))
    × ((shown "geolocation" (
            report "geolocation" (run failures (create "geolocation" options)).notified new_metrics)
          ≡ 0)
        ↔ ((run failures (create "geolocation" options)).state ≡ closed))
unfolding lookup
gauge_shows_state_example = gauge_shows_state "geolocation" options failures new_metrics refl

abbrev broken : CircuitBreaker
broken = record {
  name = "geolocation";
  state = opened;
  failure_count = 5;
  success_count = 0;
  last_failure_time = 20;
  failure_threshold = 5;
  reset_timeout_ms = 30000;
  success_threshold = 2;
  notified = [];
}

abbrev external : ExternalService
external = record { apis = []; clients = []; breakers = ("geolocation", broken) ∷ [] }

abbrev kafka : KafkaService
kafka = record { client_id = "api-center"; connected = true; sent = []; consumers = [] }

no_others :
    (j : String) (c : CircuitBreaker)
    → lookup j external.breakers ≡ some c
    → "geolocation" ≢ j
    → c.state ≢ opened
unfolding lookup
no_others j c there differ = absurd (ground (arith, eq_iff "geolocation" j))

-- Tests that let every text through.
abbrev validators : Validators
validators = record {
  is_not_empty = λ s. true;
  max_length = λ n s. true;
  is_url = λ s. true;
  is_date_string = λ s. true;
}

abbrev other_dto : ServiceManifestDto
other_dto = record dto { service_id = "stock-2" }

abbrev stock : String
stock = "stock"

abbrev second_stock : String
second_stock = "stock-2"

stocks-differ : stock ≢ second_stock
stocks-differ same = cc same

own_secrets_example : env_key "stock" ≢ env_key "stock-2"
unfolding is_valid manifest_of
own_secrets_example = own_secrets validators dto other_dto refl refl stocks-differ
