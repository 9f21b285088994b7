-- ===== src/Auth/DevJwt/Use.antt =====
-- From the token endpoint with this provider to the guard and the scope check of the proxy.
use Prim.Native.String
use apicenter_hehe.Common.{ℕ, ◌+◌, ◌<◌, String, ◌≡◌, ◌≢◌, refl, Bool, true, some, List, [], arith}
use apicenter_hehe.Errors.{Result, ok}
use apicenter_hehe.Registry.State.{RegistryService}
use apicenter_hehe.Registry.Lookups.{get_required_scopes, can_consume}
use apicenter_hehe.Auth.Service.{JwtClaims, check_scopes}
use apicenter_hehe.Auth.Guards.{AuthenticatedRequest, attach, jwt_can_activate}
use apicenter_hehe.Auth.Guards.Bearer.{NoSpace, admits_bearer}
use apicenter_hehe.Auth.Issuance.{IssuedToken, TokenRequestDto, TokenData, issue_token}
use apicenter_hehe.Auth.Issuance.Scopes.{issued_with, issued_token_suffices}
use apicenter_hehe.Auth.DevJwt
use apicenter_hehe.Auth.DevJwt.{
  Jose, IsFaithful, DevJwtConfig, ttl_of, access_payload, validate_token,
}
use apicenter_hehe.Auth.DevJwt.Tokens.{issued_claims, validate_token-issue_token}

module _ (jose : Jose) (config : DevJwtConfig) (valid : String → String → Bool) (now : ℕ) where
  abbrev pub issue : String → List String → List String → Result IssuedToken
  issue id permissions scopes = ok (DevJwt.issue_token jose config now id permissions scopes)

  read_back :
      (t : IssuedToken) (id : String) (permissions scopes : List String) (later : ℕ)
      → IsFaithful jose config.issuer
          (access_payload config now id permissions scopes)
          (now + ttl_of config)
      → later < now + ttl_of config
      → issue id permissions scopes ≡ ok t
      → validate_token jose config later t.access_token
        ≡ ok (issued_claims config now id permissions scopes)
  unfolding DevJwt.issue_token
  read_back t id permissions scopes later law fresh h =
      ground (
        arith,
        (validate_token-issue_token jose config now later id permissions scopes law).0 fresh,
      )

  -- End to end: a service that shows its secret gets a token that, sent as a bearer token before it
  -- expires, the guard accepts under the id of the service and that lacks no scope of any target
  -- that the service consumes, while the registry stays as it was at the time of issue.
  pub issued_token_is_good :
      (dto : TokenRequestDto) (r : RegistryService) (d : TokenData) (later : ℕ)
      (req : AuthenticatedRequest)
      → issue_token valid issue dto r ≡ ok d
      → IsFaithful jose config.issuer
          (access_payload config now dto.tribe_id d.permissions d.scopes)
          (now + ttl_of config)
      → later < now + ttl_of config
      → req.authorization ≡ some (String.◌++◌ "Bearer " d.token.access_token)
      → d.token.access_token ≢ ""
      → NoSpace d.token.access_token
      → (claims : JwtClaims) × (jwt_can_activate (validate_token jose config later) req
          ≡ ok (attach claims req))
        × (claims.tribe_id ≡ some dto.tribe_id)
        × ((target : String)
            → can_consume dto.tribe_id target r ≡ true
            → check_scopes (some claims) (get_required_scopes target r) ≡ [])
  issued_token_is_good dto r d later req h law fresh header full compact =
      let claims = issued_claims config now dto.tribe_id d.permissions d.scopes in
      (
        claims,
        admits_bearer req d.token.access_token header full compact
            (validate_token jose config later) claims
            (read_back d.token dto.tribe_id d.permissions d.scopes later law fresh
              (issued_with valid issue dto r d h)),
        refl,
        λ target may. issued_token_suffices valid issue dto r d claims target h refl may,
      )
