-- ===== src/External.antt =====
-- external/external.service.ts: the clients of external APIs, each behind a circuit breaker. What a
-- request of a client settles to is an argument; log lines and the gauge are left out.
pub mod Calls
pub mod Controller
pub mod Apis
use Prim.Native.String
use apicenter_hehe.Common.{
  ℕ, String, ◌≡◌, ◌≢◌, ◌∙◌, refl, Bool, true, false, Option, none, some, List, [], ◌∷◌, map, ◌==◌,
  arith, eq_iff, if◌then◌else◌, truthy, truthy?, get_or, or_else, Option-cases, inl, inr,
}
use apicenter_hehe.Common.Dict.{Dict, lookup, insert, lookup-insert, values}
use apicenter_hehe.Errors.{
  Error, app, plain, not_found, service_unavailable, bad_gateway, Result, ok, err,
}
use apicenter_hehe.CircuitBreaker.{
  CircuitState, closed, opened, half_open, Transition, CircuitBreaker, create, Settled, resolved,
  failed, Executed, result, thrown, rejected_open, execute, Stats, get_stats,
}

pub data ExternalAuthType : Type 0 where
  bearer api_key basic api_key_camel : ExternalAuthType

pub record ExternalApiConfig : Type 0 where
  pub display_name : String
  pub base_url : String
  pub auth_type : ExternalAuthType
  pub auth_header : String
  pub auth_value : String
  pub timeout : ℕ

-- The headers that a client sends with every request.
abbrev pub Headers : Type 0
Headers = Dict String

pub record ExternalService : Type 0 where
  pub apis : Dict ExternalApiConfig
  pub clients : Dict Headers
  pub breakers : Dict CircuitBreaker

abbrev user_agent : Headers
user_agent = ("User-Agent", "APICenter/1.0") ∷ []

abbrev pub new_breaker : String → CircuitBreaker
new_breaker name =
    create name (record {
      failure_threshold = some 5;
      reset_timeout_ms = some 30000;
      success_threshold = none;
    })

-- `base64` is the encoding of a text by `Buffer`.
module _ (base64 : String → String) where
  abbrev auth_headers : ExternalAuthType → String → String → Headers
  auth_headers bearer header value = insert header (String.◌++◌ "Bearer " value) user_agent
  auth_headers basic header value = insert header (String.◌++◌ "Basic " (base64 value)) user_agent
  auth_headers api_key_camel header value = insert header value user_agent
  auth_headers api_key header value = user_agent

  unfoldable pub client_headers : ExternalApiConfig → Headers
  unfolding truthy
  client_headers c =
      if truthy c.auth_value
      then auth_headers c.auth_type c.auth_header c.auth_value
      else user_agent

  unfoldable pub init_client : String → ExternalApiConfig → ExternalService → ExternalService
  unfolding client_headers
  init_client name c s = record s {
    clients = insert name (client_headers c) s.clients;
    breakers = insert name (new_breaker name) s.breakers;
  }

  unfoldable pub init_clients : Dict ExternalApiConfig → ExternalService → ExternalService
  init_clients [] s = s
  init_clients ((name, c) ∷ rest) s = init_clients rest (init_client name c s)

  unfoldable pub on_module_init : Dict ExternalApiConfig → ExternalService
  unfolding init_clients
  on_module_init apis = init_clients apis (record { apis = apis; clients = []; breakers = [] })

-- The Kafka events of a change of state; a change to HALF_OPEN has none.
pub data GatewayEvent : Type 0 where
  circuit_breaker_opened circuit_breaker_closed : (previous_state : CircuitState) → GatewayEvent

unfoldable pub event_of : Transition → Option GatewayEvent
event_of t = elim t.to [
  | opened ↦ some (circuit_breaker_opened t.from)
  | closed ↦ some (circuit_breaker_closed t.from)
  | half_open ↦ none
]

abbrev pub failure_of : String → String → Error
failure_of name m = app (
    bad_gateway
      (String.◌++◌ "External API '" (String.◌++◌ name (String.◌++◌ "' returned an error: " m))))

-- The `catch` around the request: the breaker sees the error that it throws.
abbrev pub wrapped {ℓ} : {D : Type ℓ} → String → Settled D String → Settled D Error
wrapped name (resolved d) = resolved d
wrapped name (failed m) = failed (failure_of name m)

abbrev pub open_error : String → Error
open_error name =
    plain (String.◌++◌ "Circuit breaker [" (String.◌++◌ name "] is OPEN — request rejected"))

abbrev pub outcome_of {ℓ} : {D : Type ℓ} → String → Executed D Error → Result D
outcome_of name (result d) = ok d
outcome_of name (thrown e) = err e
outcome_of name rejected_open = err (open_error name)

abbrev pub unconfigured : String → Error
unconfigured name =
    app (not_found (String.◌++◌ "External API '" (String.◌++◌ name "' is not configured")))

abbrev pub uninitialised : String → Error
uninitialised name =
    app (service_unavailable (String.◌++◌ "Client for '" (String.◌++◌ name "' is not initialised")))

module _ {ℓ} {D : Type ℓ} where
  -- With no breaker the code would fail on `breaker.execute`; `External.Calls` shows that there is one.
  abbrev run_call :
      Option CircuitBreaker
      → String
      → ℕ
      → Settled D String
      → ℕ
      → ExternalService
      → Result D × ExternalService
  run_call none name now settled later s = (err (plain "breaker is undefined"), s)
  run_call (some b) name now settled later s =
      let (did, b') = execute now (wrapped name settled) later b in
      (outcome_of b.name did, record s { breakers = insert name b' s.breakers })

  abbrev with_client :
      Option Headers
      → String
      → ℕ
      → Settled D String
      → ℕ
      → ExternalService
      → Result D × ExternalService
  with_client none name now settled later s = (err (uninitialised name), s)
  with_client (some c) name now settled later s =
      run_call (lookup name s.breakers) name now settled later s

  abbrev with_config :
      Option ExternalApiConfig
      → String
      → ℕ
      → Settled D String
      → ℕ
      → ExternalService
      → Result D × ExternalService
  with_config none name now settled later s = (err (unconfigured name), s)
  with_config (some c) name now settled later s =
      with_client (lookup name s.clients) name now settled later s

  -- `settled` is what the request settles to if it is made. Calls of one API do not overlap here.
  unfoldable pub call :
      String → ℕ → Settled D String → ℕ → ExternalService → Result D × ExternalService
  unfolding execute
  call name now settled later s = with_config (lookup name s.apis) name now settled later s

unfoldable pub get_all_breaker_stats : ExternalService → List Stats
unfolding get_stats
get_all_breaker_stats s = map get_stats (values s.breakers)

unfoldable pub get_breaker : String → ExternalService → Option CircuitBreaker
get_breaker name s = lookup name s.breakers
