-- ===== src/Proxy.antt =====
-- shared/proxy-handler.ts: the class `ProxyHandler`, one instance for each namespace. A cached
-- middleware of http-proxy-middleware is known by the target it was created with. Log lines and
-- the metrics of a finished response are left out; the headers added to the outgoing request are in
-- Middleware. The registry is read at its own keys: no id is the name of a member of Object.prototype.
pub mod Gate
pub mod Messages
pub mod Listing
pub mod Conditions
pub mod Access
pub mod Health
pub mod Stale
pub mod Sunset
pub mod Exchange
pub mod Cutoff
use Prim.Native.String
use apicenter_hehe.Common.{
  ℕ, String, Bool, true, false, not, ◌&&◌, ◌||◌, Option, none, some, List, [], ◌∷◌, ◌++◌, map, ◌==◌,
  nat_beq, ltb, length, filter, if◌then◌else◌, truthy, truthy?, get_or,
}
use apicenter_hehe.Common.Dict.{Dict, lookup, insert, remove}
use apicenter_hehe.Errors.{
  Error, app, not_found, gone, forbidden, bad_gateway, service_unavailable, Result, ok, err,
}
use apicenter_hehe.CircuitBreaker.{
  CircuitBreaker, create, try_acquire, record_success, record_failure,
}
use apicenter_hehe.Registry.Types.{
  ServiceRegistryEntry, ServiceLifecycleStatus, deprecated, retired, ServiceType, shared, tribe,
  type_eq, status_eq,
}
use apicenter_hehe.Registry.State.{RegistryService}
use apicenter_hehe.Registry.Lookups.{
  get, get_by_type, can_consume, get_required_scopes, resolve_upstream,
}
use apicenter_hehe.Proxy.Gate.{Header, enforce_lifecycle_gate}
use apicenter_hehe.Proxy.Messages.{
  unknown_service, wrong_namespace, unreachable, breaker_open, not_authorised, insufficient,
}
use apicenter_hehe.Auth.Service.{JwtClaims, check_scopes}
use apicenter_hehe.Auth.Guards.{AuthenticatedRequest}

pub record ProxyHandler : Type 0 where
  pub namespace : ServiceType
  -- the target of each cached middleware
  pub proxy_cache : Dict String
  pub circuit_breakers : Dict CircuitBreaker

abbrev pub create_handler : ServiceType → ProxyHandler
create_handler ns = record { namespace = ns; proxy_cache = []; circuit_breakers = [] }

unfoldable pub destroy : ProxyHandler → ProxyHandler
destroy h = record h { proxy_cache = []; circuit_breakers = [] }

-- The listener that the constructor registers with the registry.
unfoldable pub invalidate_proxy_cache : String → ProxyHandler → ProxyHandler
invalidate_proxy_cache id h = record h { proxy_cache = remove id h.proxy_cache }

-- The calls of the listener, newest first.
unfoldable pub listen : List String → ProxyHandler → ProxyHandler
unfolding invalidate_proxy_cache
listen [] h = h
listen (id ∷ ids) h = invalidate_proxy_cache id (listen ids h)

unfoldable pub new_breaker : String → CircuitBreaker
new_breaker id = create (String.◌++◌ "proxy:" id) (record {
  failure_threshold = some 5;
  reset_timeout_ms = some 30000;
  success_threshold = some 2;
})

-- `getOrCreateCircuitBreaker`; the breaker is put into the map by the caller below.
unfoldable pub breaker_of : String → ProxyHandler → CircuitBreaker
breaker_of id h = get_or (lookup id h.circuit_breakers) (new_breaker id)

abbrev pub put_breaker : String → CircuitBreaker → ProxyHandler → ProxyHandler
put_breaker id b h = record h { circuit_breakers = insert id b h.circuit_breakers }

-- What a request ends in: the headers set so far, and the target to which it is forwarded or the
-- error that is thrown.
pub record Response : Type 0 where
  pub headers : List Header
  pub outcome : Result String

abbrev pub Handled : Type 0
Handled = Response × ProxyHandler

abbrev pub rejected : List Header → Error → ProxyHandler → Handled
rejected headers e h = (record { headers = headers; outcome = err e }, h)

-- `req.tribeId!`: an absent id is the key "undefined".
abbrev pub source_of : AuthenticatedRequest → String
source_of req = get_or req.tribe_id "undefined"

abbrev is_empty {ℓ} : {A : Type ℓ} → List A → Bool
is_empty [] = true
is_empty (x ∷ xs) = false

-- `targetEntry?.serviceType ?? 'tribe'`
abbrev pub type_of : Option ServiceRegistryEntry → ServiceType
type_of none = tribe
type_of (some e) = get_or e.service_type tribe

-- The scopes that are found missing: only a request with claims is checked.
unfoldable pub missing_scopes : AuthenticatedRequest → List String → List String
missing_scopes req required = elim req.user [
  | none ↦ []
  | some claims ↦ if is_empty required then [] else check_scopes (some claims) required
]

-- `middleware` is the call of the proxy that was created for a target: whether it returns, or
-- throws. A throw is answered with 502.
module _ (middleware : String → Bool) where
  abbrev forward : List Header → String → String → ProxyHandler → Handled
  forward headers id target h =
      if middleware target
      then (record { headers = headers; outcome = ok target }, h)
      else rejected headers (unreachable id) h

  -- Step 4: the cached middleware, or a new one for the upstream as it is now.
  abbrev forward_cached : Option String → List Header → String → String → ProxyHandler → Handled
  forward_cached (some target) headers id upstream h = forward headers id target h
  forward_cached none headers id upstream h =
      forward headers id upstream (record h { proxy_cache = insert id upstream h.proxy_cache })

  -- Steps 3 to 5.
  abbrev gate_breaker :
      Bool × CircuitBreaker → List Header → String → String → ProxyHandler → Handled
  gate_breaker (admitted, b) headers id upstream h =
      let h' = put_breaker id b h in
      if admitted
      then forward_cached (lookup id h'.proxy_cache) headers id upstream h'
      else rejected headers (breaker_open id) h'

  -- Step 2 and on.
  abbrev pub check_access :
      ℕ
      → List Header
      → String
      → String
      → AuthenticatedRequest
      → RegistryService
      → ProxyHandler
      → Handled
  check_access now headers id upstream req r h =
      if can_consume (source_of req) id r
      then (let missing = missing_scopes req (get_required_scopes id r) in
          if is_empty missing
          then gate_breaker (try_acquire now (breaker_of id h)) headers id upstream h
          else rejected headers (insufficient id missing) h)
      else rejected headers (not_authorised (source_of req) id) h

  abbrev pub gated :
      Result (List Header)
      → ℕ
      → String
      → String
      → AuthenticatedRequest
      → RegistryService
      → ProxyHandler
      → Handled
  gated (err e) now id upstream req r h = rejected [] e h
  gated (ok headers) now id upstream req r h = check_access now headers id upstream req r h

  -- Steps 1b and 1c.
  abbrev pub check_entry :
      Option ServiceRegistryEntry
      → ℕ
      → String
      → String
      → AuthenticatedRequest
      → RegistryService
      → ProxyHandler
      → Handled
  check_entry o now id upstream req r h =
      if type_eq (type_of o) h.namespace
      then gated (enforce_lifecycle_gate h.namespace id o) now id upstream req r h
      else rejected [] (wrong_namespace (type_of o) id) h

  -- Step 1.
  abbrev pub check_upstream :
      Option String → ℕ → String → AuthenticatedRequest → RegistryService → ProxyHandler → Handled
  check_upstream none now id req r h = rejected [] (unknown_service id) h
  check_upstream (some upstream) now id req r h =
      if truthy upstream
      then check_entry (get id r) now id upstream req r h
      else rejected [] (unknown_service id) h

  unfoldable pub proxy_request :
      ℕ → String → AuthenticatedRequest → RegistryService → ProxyHandler → Handled
  proxy_request now id req r h = check_upstream (resolve_upstream id "" r) now id req r h

abbrev pub is_failure_status : ℕ → Bool
is_failure_status s = nat_beq s 502 || (nat_beq s 503 || nat_beq s 504)

abbrev record_in :
    Option CircuitBreaker → (CircuitBreaker → CircuitBreaker) → String → ProxyHandler → ProxyHandler
record_in none f id h = h
record_in (some b) f id h = put_breaker id (f b) h

-- The hook `proxyRes`, with the status of the upstream's response.
unfoldable pub on_proxy_res : ℕ → ℕ → String → ProxyHandler → ProxyHandler
on_proxy_res now status id h =
    record_in (lookup id h.circuit_breakers)
      (if is_failure_status status then record_failure now else record_success) id h

-- The hook `error`: timeouts, refused connections and the like.
unfoldable pub on_proxy_error : ℕ → String → ProxyHandler → ProxyHandler
on_proxy_error now id h = record_in (lookup id h.circuit_breakers) (record_failure now) id h
