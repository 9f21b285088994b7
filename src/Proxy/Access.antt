-- ===== src/Proxy/Access.antt =====
-- Which requests are forwarded, and where to.
use text.Mathlib.TextLemmas.{append-nil}
use apicenter_hehe.Common.{
  ℕ, String, ◌≡◌, ◌≢◌, ap, inl, inr, Bool, true, none, some, List, [], arith, Option-cases, truthy,
  get_or,
}
use apicenter_hehe.Common.Dict.{lookup}
use apicenter_hehe.Errors.{ok, Result-cases}
use apicenter_hehe.CircuitBreaker.{try_acquire}
use apicenter_hehe.Registry.Types.{ServiceRegistryEntry, retired, tribe, type_eq}
use apicenter_hehe.Registry.State.{RegistryService}
use apicenter_hehe.Registry.Lookups.{get, can_consume, get_required_scopes, resolve_upstream}
use apicenter_hehe.Auth.Service.{JwtClaims, check_scopes}
use apicenter_hehe.Auth.Guards.{AuthenticatedRequest}
use apicenter_hehe.Proxy.Gate.{Header, enforce_lifecycle_gate}
use apicenter_hehe.Proxy.{
  ProxyHandler, breaker_of, source_of, type_of, is_empty, missing_scopes, check_upstream,
  proxy_request,
}
use apicenter_hehe.Proxy.Conditions.{
  type_eq_sound, type_eq_refl, scoped_of_empty, empty_of_scoped, gate-open, gate-closed,
}

-- The conditions of `proxyRequest`, with no order among them. A request with no claims is not asked
-- for scopes.
pub record IsAllowed (now : ℕ) (id : String) (req : AuthenticatedRequest) (r : RegistryService)
    (h : ProxyHandler) (e : ServiceRegistryEntry) : Type 0 where
  pub registered : lookup id r.services ≡ some e
  pub addressed : truthy e.base_url ≡ true
  pub in_namespace : get_or e.service_type tribe ≡ h.namespace
  pub not_retired : e.status ≢ retired
  pub consumes : can_consume (source_of req) id r ≡ true
  pub scoped :
      (claims : JwtClaims)
      → req.user ≡ some claims
      → check_scopes (some claims) e.required_scopes ≡ []
  pub admitted : (try_acquire now (breaker_of id h)).0 ≡ true

-- The same, by the tests of the code.
pub record Passes (now : ℕ) (id : String) (req : AuthenticatedRequest) (r : RegistryService)
    (h : ProxyHandler) (upstream : String) : Type 0 where
  found : resolve_upstream id "" r ≡ some upstream
  named : truthy upstream ≡ true
  typed : type_eq (type_of (get id r)) h.namespace ≡ true
  may : can_consume (source_of req) id r ≡ true
  none_missing : is_empty (missing_scopes req (get_required_scopes id r)) ≡ true
  lets : (try_acquire now (breaker_of id h)).0 ≡ true

module _ (middleware : String → Bool) (now : ℕ) (id : String) (req : AuthenticatedRequest)
    (r : RegistryService) (h : ProxyHandler) where
  resolve :
      (upstream : String)
      → resolve_upstream id "" r ≡ some upstream
      → proxy_request middleware now id req r h
        ≡ check_upstream middleware (some upstream) now id req r h
  unfolding proxy_request
  resolve upstream found = ap (λ o. check_upstream middleware o now id req r h) found

  Passes-of_ok :
      (target upstream : String)
      → resolve_upstream id "" r ≡ some upstream
      → (proxy_request middleware now id req r h).0.outcome ≡ ok target
      → Passes now id req r h upstream × (target ≡ get_or (lookup id h.proxy_cache) upstream)
  unfolding proxy_request
  Passes-of_ok target upstream found done = (
    record {
      found = found;
      named = ground arith;
      typed = ground arith;
      may = ground arith;
      none_missing = ground arith;
      lets = ground arith;
    },
    ground arith,
  )

  pub ok_of_Passes :
      (upstream : String) (headers : List Header)
      → Passes now id req r h upstream
      → enforce_lifecycle_gate h.namespace id (get id r) ≡ ok headers
      → middleware (get_or (lookup id h.proxy_cache) upstream) ≡ true
      → ((proxy_request middleware now id req r h).0.outcome
          ≡ ok (get_or (lookup id h.proxy_cache) upstream))
        × ((proxy_request middleware now id req r h).0.headers ≡ headers)
  unfolding proxy_request
  ok_of_Passes upstream headers p gate works = ground arith

  gate_of_ok :
      (target upstream : String)
      → resolve_upstream id "" r ≡ some upstream
      → (proxy_request middleware now id req r h).0.outcome ≡ ok target
      → (headers : List Header) × (enforce_lifecycle_gate h.namespace id (get id r) ≡ ok headers)
  unfolding proxy_request
  gate_of_ok target upstream found done =
      elim (Result-cases (enforce_lifecycle_gate h.namespace id (get id r))) [
        | inl opened ↦ opened
        | inr (e, refused) ↦ ground arith
      ]

  pub resolved_at :
      (e : ServiceRegistryEntry)
      → lookup id r.services ≡ some e
      → resolve_upstream id "" r ≡ some e.base_url
  unfolding resolve_upstream
  resolved_at e there = ground (arith, append-nil e.base_url)

  IsAllowed-of_ok :
      (e : ServiceRegistryEntry) (target : String)
      → lookup id r.services ≡ some e
      → (proxy_request middleware now id req r h).0.outcome ≡ ok target
      → IsAllowed now id req r h e × (target ≡ get_or (lookup id h.proxy_cache) e.base_url)
  unfolding get get_required_scopes
  IsAllowed-of_ok e target there done =
      let found = resolved_at e there in
      let (p, same) = Passes-of_ok target e.base_url found done in
      let (headers, opened) = gate_of_ok target e.base_url found done in
      (
        record {
          registered = there;
          addressed = p.named;
          in_namespace = type_eq_sound (get_or e.service_type tribe) h.namespace ground arith;
          not_retired = gate-closed h.namespace id e headers ground arith;
          consumes = p.may;
          scoped = scoped_of_empty req e.required_scopes ground arith;
          admitted = p.lets;
        },
        same,
      )

  pub Passes-of_allowed :
      (e : ServiceRegistryEntry) → IsAllowed now id req r h e → Passes now id req r h e.base_url
  unfolding get get_required_scopes
  Passes-of_allowed e p =
      let there = p.registered in
      let in_ns = p.in_namespace in
      let same_type = type_eq_refl h.namespace in
      record {
        found = resolved_at e there;
        named = p.addressed;
        typed = ground arith;
        may = p.consumes;
        none_missing =
            (let none_missing = empty_of_scoped req e.required_scopes p.scoped in ground arith);
        lets = p.admitted;
      }

  unresolved :
      (target : String)
      → lookup id r.services ≡ none
      → (proxy_request middleware now id req r h).0.outcome ≢ ok target
  unfolding resolve_upstream proxy_request
  unresolved target absent done = ground arith

  -- A request is forwarded only to a service that is registered with a base URL, in the namespace
  -- of the handler and not retired, for a caller that may consume it, that lacks none of its scopes
  -- if it has claims, and that the circuit breaker admits. It goes to the target that is cached for
  -- the service, or else to the base URL in the registry.
  pub proxy_sound :
      (target : String)
      → (proxy_request middleware now id req r h).0.outcome ≡ ok target
      → (e : ServiceRegistryEntry) × IsAllowed now id req r h e
        × (target ≡ get_or (lookup id h.proxy_cache) e.base_url)
  proxy_sound target done = elim (Option-cases (lookup id r.services)) [
    | inl absent ↦ absurd (unresolved target absent done)
    | inr (e, there) ↦
        (let (allowed, same) = IsAllowed-of_ok e target there done in (e, allowed, same))
  ]

  -- Whenever these conditions hold and the middleware for the target works, the request is
  -- forwarded to that target: the one that is cached, or else the base URL in the registry.
  pub proxy_complete :
      (e : ServiceRegistryEntry)
      → IsAllowed now id req r h e
      → middleware (get_or (lookup id h.proxy_cache) e.base_url) ≡ true
      → (proxy_request middleware now id req r h).0.outcome
        ≡ ok (get_or (lookup id h.proxy_cache) e.base_url)
  unfolding get
  proxy_complete e allowed works =
      let there = allowed.registered in
      let (headers, opened) = gate-open h.namespace id e allowed.not_retired in
      (ok_of_Passes e.base_url headers (Passes-of_allowed e allowed) ground arith works).0
