-- ===== src/Journey.antt =====
-- From the token endpoint to the upstream: auth/auth.controller.ts with the provider of
-- auth/providers/dev-jwt.provider.ts, the client of sdk/TribeClient.ts, the guard, and the proxy
-- handler, one after the other.
use Prim.Native.String
use apicenter_hehe.Common.{
  ℕ, ◌+◌, ◌<◌, String, ◌≡◌, ◌≢◌, refl, sym, ap, ◌∙◌, Bool, true, some, [], truthy, get_or,
}
use apicenter_hehe.Common.Dict.{lookup}
use apicenter_hehe.Errors.{ok}
use apicenter_hehe.CircuitBreaker.{try_acquire}
use apicenter_hehe.Registry.Types.{ServiceRegistryEntry, retired, tribe}
use apicenter_hehe.Registry.State.{RegistryService}
use apicenter_hehe.Registry.Lookups.{get_required_scopes, can_consume}
use apicenter_hehe.Auth.Service.{JwtClaims, check_scopes}
use apicenter_hehe.Auth.Guards.{AuthenticatedRequest, attach, jwt_can_activate}
use apicenter_hehe.Auth.Guards.Bearer.{NoSpace}
use apicenter_hehe.Auth.Issuance.{TokenRequestDto, TokenData, issue_token}
use apicenter_hehe.Auth.DevJwt.{
  Jose, IsFaithful, DevJwtConfig, ttl_of, access_payload, validate_token,
}
use apicenter_hehe.Auth.DevJwt.Use.{issue, issued_token_is_good}
use apicenter_hehe.Sdk.Session.{TribeClient}
use apicenter_hehe.Sdk.Calls.{bearer}
use apicenter_hehe.Proxy.{ProxyHandler, breaker_of, proxy_request}
use apicenter_hehe.Proxy.Access.{IsAllowed, proxy_complete}

-- The service can be reached by a caller: it is registered with an address in the namespace of the
-- handler, not retired, and its circuit breaker admits a request at the time `ms`.
pub record IsReachable (ms : ℕ) (caller id : String) (r : RegistryService) (h : ProxyHandler)
    (e : ServiceRegistryEntry) : Type 0 where
  pub registered : lookup id r.services ≡ some e
  pub addressed : truthy e.base_url ≡ true
  pub in_namespace : get_or e.service_type tribe ≡ h.namespace
  pub not_retired : e.status ≢ retired
  pub consumes : can_consume caller id r ≡ true
  pub admitted : (try_acquire ms (breaker_of id h)).0 ≡ true

required_scopes_of :
    (id : String) (r : RegistryService) (e : ServiceRegistryEntry)
    → lookup id r.services ≡ some e
    → get_required_scopes id r ≡ e.required_scopes
unfolding get_required_scopes
required_scopes_of id r e there = rw there refl

bearer_of :
    (c : TribeClient) (t : String) → c.access_token ≡ some t → bearer c ≡ String.◌++◌ "Bearer " t
bearer_of c t has = ap (λ o. String.◌++◌ "Bearer " (get_or o "null")) has

module _ (ms : ℕ) (id caller : String) (req : AuthenticatedRequest) (r : RegistryService)
    (h : ProxyHandler) (e : ServiceRegistryEntry) (claims : JwtClaims) where
  IsAllowed-of_claims :
      IsReachable ms caller id r h e
      → claims.tribe_id ≡ some caller
      → check_scopes (some claims) (get_required_scopes id r) ≡ []
      → IsAllowed ms id (attach claims req) r h e
  IsAllowed-of_claims reach named scoped = record {
    registered = reach.registered;
    addressed = reach.addressed;
    in_namespace = reach.in_namespace;
    not_retired = reach.not_retired;
    consumes = ap (λ o. can_consume (get_or o "undefined") id r) named ∙ reach.consumes;
    scoped = λ claims' same.
        ap (λ u. check_scopes u e.required_scopes) (sym same)
        ∙ ap (check_scopes (some claims)) (sym (required_scopes_of id r e reach.registered))
        ∙ scoped;
    admitted = reach.admitted;
  }

module _ (jose : Jose) (config : DevJwtConfig) (valid : String → String → Bool) (now later : ℕ)
    (middleware : String → Bool) (ms : ℕ) (dto : TokenRequestDto) (d : TokenData) (c : TribeClient)
    (req : AuthenticatedRequest) (r : RegistryService) (h : ProxyHandler) (id : String)
    (e : ServiceRegistryEntry) where
  -- The promise of the gateway: a service has got a token for its secret, and its client sends that
  -- token before it expires. A request for a service that it consumes, and that can be reached,
  -- passes the guard with the claims of the token, and the proxy forwards it, whatever scopes the
  -- target requires: to the target that is cached, or else to the base URL in the registry. The
  -- registry is as it was at the time of issue, and the middleware works.
  pub client_reaches_service :
      issue_token valid (issue jose config valid now) dto r ≡ ok d
      → IsFaithful jose config.issuer
          (access_payload config now dto.tribe_id d.permissions d.scopes)
          (now + ttl_of config)
      → later < now + ttl_of config
      → d.token.access_token ≢ ""
      → NoSpace d.token.access_token
      → c.access_token ≡ some d.token.access_token
      → req.authorization ≡ some (bearer c)
      → IsReachable ms dto.tribe_id id r h e
      → middleware (get_or (lookup id h.proxy_cache) e.base_url) ≡ true
      → (claims : JwtClaims) × (jwt_can_activate (validate_token jose config later) req
          ≡ ok (attach claims req))
        × ((proxy_request middleware ms id (attach claims req) r h).0.outcome
            ≡ ok (get_or (lookup id h.proxy_cache) e.base_url))
  client_reaches_service issued law fresh full compact has header reach works =
      let (claims, admitted, named, suffices) =
        issued_token_is_good jose config valid now dto r d later req issued law fresh
          (header ∙ ap some (bearer_of c d.token.access_token has)) full compact in
      let allowed =
        IsAllowed-of_claims ms id dto.tribe_id req r h e claims reach named
          (suffices id reach.consumes) in
      (claims, admitted, proxy_complete middleware ms id (attach claims req) r h e allowed works)
