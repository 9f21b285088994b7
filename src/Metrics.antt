-- ===== src/Metrics.antt =====
-- metrics/metrics.service.ts and metrics/metrics.interceptor.ts: the gauges, and the observations of
-- requests, newest first. The package prom-client, which keeps and prints them, is outside; a
-- duration is in milliseconds.
pub mod Gauge
use apicenter_hehe.Common.{
  ℕ, String, ◌==◌, Option, none, some, List, [], ◌∷◌, if◌then◌else◌, truthy?, or_else, nat_beq,
}
use apicenter_hehe.Common.Dict.{Dict, insert}

pub record HttpRequest : Type 0 where
  pub method : String
  pub route : String
  pub status_code : ℕ
  pub duration : ℕ

pub record ProxyRequest : Type 0 where
  pub namespace : String
  pub source_tribe : String
  pub target_service : String
  pub method : String
  pub status_code : ℕ
  pub duration : ℕ

pub record MetricsService : Type 0 where
  -- by API name; a label that was never set is not there
  pub circuit_breaker_state : Dict ℕ
  pub registry_services_total : Option ℕ
  pub http_requests : List HttpRequest
  pub proxy_requests : List ProxyRequest

abbrev pub new_metrics : MetricsService
new_metrics = record {
  circuit_breaker_state = [];
  registry_services_total = none;
  http_requests = [];
  proxy_requests = [];
}

unfoldable pub on_module_init : MetricsService → MetricsService
on_module_init m = record m { registry_services_total = some 0 }

unfoldable pub record_http_request : HttpRequest → MetricsService → MetricsService
record_http_request request m = record m { http_requests = request ∷ m.http_requests }

abbrev pub state_value : String → ℕ
state_value state = if state == "OPEN" then 1 else if state == "HALF_OPEN" then 2 else 0

unfoldable pub set_circuit_breaker_state : String → String → MetricsService → MetricsService
unfolding insert
set_circuit_breaker_state api_name state m = record m {
  circuit_breaker_state = insert api_name (state_value state) m.circuit_breaker_state;
}

unfoldable pub set_registry_services_count : ℕ → MetricsService → MetricsService
set_registry_services_count count m = record m { registry_services_total = some count }

unfoldable pub record_proxy_request : ProxyRequest → MetricsService → MetricsService
record_proxy_request request m = record m { proxy_requests = request ∷ m.proxy_requests }

unfoldable pub record_tribe_request :
    (source_tribe target_service method : String) (status_code duration : ℕ)
    → MetricsService
    → MetricsService
unfolding record_proxy_request
record_tribe_request source target method status duration m =
    record_proxy_request
      (record {
        namespace = "tribe";
        source_tribe = source;
        target_service = target;
        method = method;
        status_code = status;
        duration = duration;
      })
      m

-- What the interceptor reads of a request and of its response.
pub record Intercepted : Type 0 where
  pub method : String
  pub route_path : Option String
  pub path : String
  pub status_code : ℕ
  pub duration : ℕ

abbrev route_of : Intercepted → String
route_of i = or_else i.route_path (or_else (some i.path) "unknown")

abbrev observed : ℕ → Intercepted → HttpRequest
observed status i = record {
  method = i.method;
  route = route_of i;
  status_code = status;
  duration = i.duration;
}

unfoldable pub intercept_next : Intercepted → MetricsService → MetricsService
unfolding record_http_request or_else
intercept_next i m = record_http_request (observed i.status_code i) m

-- `response.statusCode || 500`
unfoldable pub intercept_error : Intercepted → MetricsService → MetricsService
unfolding record_http_request or_else
intercept_error i m =
    record_http_request (observed (if nat_beq i.status_code 0 then 500 else i.status_code) i) m
