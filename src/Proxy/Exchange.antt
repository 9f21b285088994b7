-- ===== src/Proxy/Exchange.antt =====
-- A request to the handler of shared/proxy-handler.ts together with the upstream's answer, and what
-- both do to the circuit breaker.
use apicenter_hehe.Common.{
  ℕ, suc, String, ◌≡◌, refl, ap, ◌∙◌, ◌⊎◌, Bool, true, false, Option, none, some, List, [], ◌∷◌,
  arith, eq_refl, if◌then◌else◌,
}
use apicenter_hehe.Common.Dict.{lookup, insert, lookup-insert}
use apicenter_hehe.Errors.{Result, ok, err}
use apicenter_hehe.CircuitBreaker.{CircuitBreaker, try_acquire, record_failure}
use apicenter_hehe.Registry.State.{RegistryService}
use apicenter_hehe.Auth.Guards.{AuthenticatedRequest}
use apicenter_hehe.Proxy.{
  ProxyHandler, breaker_of, proxy_request, on_proxy_error, on_proxy_res, is_failure_status,
}

module _ (middleware : String → Bool) (now : ℕ) (id : String) (req : AuthenticatedRequest)
    (r : RegistryService) (h : ProxyHandler) where
  pub acquired_if_forwarded :
      (target : String)
      → (proxy_request middleware now id req r h).0.outcome ≡ ok target
      → ((proxy_request middleware now id req r h).1.circuit_breakers
          ≡ insert id (try_acquire now (breaker_of id h)).1 h.circuit_breakers)
        × ((try_acquire now (breaker_of id h)).0 ≡ true)
  unfolding proxy_request
  acquired_if_forwarded target done = ground arith

  pub asked_or_not :
      ((proxy_request middleware now id req r h).1.circuit_breakers ≡ h.circuit_breakers)
      ⊎ ((proxy_request middleware now id req r h).1.circuit_breakers
          ≡ insert id (try_acquire now (breaker_of id h)).1 h.circuit_breakers)
  unfolding proxy_request
  asked_or_not = ground arith

-- One request for the service: when it is made, with the registry as it is then, and when and how the
-- upstream answers if it is forwarded: with a status, or not at all.
pub record Exchange : Type 0 where
  pub now : ℕ
  pub req : AuthenticatedRequest
  pub registry : RegistryService
  pub later : ℕ
  pub answer : Option ℕ

abbrev pub hook : Option ℕ → ℕ → String → ProxyHandler → ProxyHandler
hook none later id h = on_proxy_error later id h
hook (some status) later id h = on_proxy_res later status id h

abbrev pub IsFailing : Option ℕ → Type 0
IsFailing none = Unit
IsFailing (some status) = is_failure_status status ≡ true

-- Whether the request is forwarded, and the handler after the answer.
abbrev pub settled_by : Result String → Exchange → String → ProxyHandler → Bool × ProxyHandler
settled_by (ok target) x id h = (true, hook x.answer x.later id h)
settled_by (err e) x id h = (false, h)

unfoldable pub exchange : (String → Bool) → String → Exchange → ProxyHandler → Bool × ProxyHandler
unfolding proxy_request on_proxy_error on_proxy_res
exchange middleware id x h =
    let (response, h') = proxy_request middleware x.now id x.req x.registry h in
    settled_by response.outcome x id h'

-- How many of the requests are forwarded.
unfoldable pub forwarded : (String → Bool) → String → List Exchange → ProxyHandler → ℕ
unfolding exchange
forwarded middleware id [] h = 0
forwarded middleware id (x ∷ xs) h =
    let (sent, h') = exchange middleware id x h in
    let rest = forwarded middleware id xs h' in if sent then suc rest else rest

pub breaker_of-same :
    (id : String) (h h' : ProxyHandler)
    → h'.circuit_breakers ≡ h.circuit_breakers
    → breaker_of id h' ≡ breaker_of id h
unfolding breaker_of
breaker_of-same id h h' same = rw same refl

pub lookup-put :
    (id : String) (b : CircuitBreaker) (h h' : ProxyHandler)
    → h'.circuit_breakers ≡ insert id b h.circuit_breakers
    → lookup id h'.circuit_breakers ≡ some b
lookup-put id b h h' same =
    ap (lookup id) same ∙ lookup-insert id id b h.circuit_breakers ∙ rw (eq_refl id) refl

pub breaker_of-found :
    (id : String) (b : CircuitBreaker) (h : ProxyHandler)
    → lookup id h.circuit_breakers ≡ some b
    → breaker_of id h ≡ b
unfolding breaker_of
breaker_of-found id b h found = rw found refl

pub hook-failing :
    (answer : Option ℕ) (later : ℕ) (id : String) (b : CircuitBreaker) (h : ProxyHandler)
    → IsFailing answer
    → lookup id h.circuit_breakers ≡ some b
    → (hook answer later id h).circuit_breakers
      ≡ insert id (record_failure later b) h.circuit_breakers
unfolding on_proxy_error on_proxy_res
hook-failing none later id b h fails found = rw found refl
hook-failing (some status) later id b h fails found = rw (found, fails) refl
