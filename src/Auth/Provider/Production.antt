-- ===== src/Auth/Provider/Production.antt =====
-- Which tokens count in production.
use apicenter_hehe.Common.{
  ℕ, String, ◌≡◌, refl, sym, ap, ◌∙◌, Option, some, List, arith, eq_iff, Option-cases, inl, inr,
}
use apicenter_hehe.Common.Dict.{Dict}
use apicenter_hehe.Errors.{Result, ok, Result-cases}
use apicenter_hehe.Auth.Service.{JwtClaims}
use apicenter_hehe.Auth.Guards.{AuthenticatedRequest, attach, bearer_token, jwt_can_activate}
use apicenter_hehe.Auth.DevJwt.{Jose, DevJwtConfig}
use apicenter_hehe.Auth.Keycloak.{
  KeycloakConfig, VerifyOptions, Payload, TokenResponse, validate_token, verify_options,
  claims_of_payload,
}
use apicenter_hehe.Auth.Provider.{
  AuthProvider, dev_jwt_provider, keycloak_provider, choose, not_served, get_jwks,
}
use apicenter_hehe.Config.{ConfigService, on_module_init}
use apicenter_hehe.Config.Startup.{starts_iff}

-- What the guard lets through, it got from the provider.
admitted_by_provider :
    (validate : String → Result JwtClaims) (req req' : AuthenticatedRequest)
    → jwt_can_activate validate req ≡ ok req'
    → (token : String) × (claims : JwtClaims) × (bearer_token req ≡ some token)
      × (validate token ≡ ok claims)
      × (req' ≡ attach claims req)
unfolding jwt_can_activate
admitted_by_provider validate req req' h = elim (Option-cases (bearer_token req)) [
  | inl missing ↦ ground arith
  | inr (token, found) ↦ elim (Result-cases (validate token)) [
    | inl (claims, valid) ↦ (token, claims, found, valid, ground arith)
    | inr (e, invalid) ↦ ground arith
  ]
]

-- What Keycloak's provider accepts, jose has verified.
verified_by_jose :
    (verify : VerifyOptions → String → Result Payload) (config : KeycloakConfig) (token : String)
    (claims : JwtClaims)
    → validate_token verify config token ≡ ok claims
    → (payload : Payload) × (verify (verify_options config) token ≡ ok payload)
      × (claims ≡ claims_of_payload payload)
unfolding validate_token
verified_by_jose verify config token claims h =
    elim (Result-cases (verify (verify_options config) token)) [
      | inl (payload, valid) ↦ (payload, valid, ground arith)
      | inr (e, invalid) ↦ ground arith
    ]

module _ {J : Type 0} (jose : Jose) (dev : DevJwtConfig) (jwks : J)
    (verify : VerifyOptions → String → Result Payload) (env : List ℕ → Option String)
    (post : String → Dict String → Result TokenResponse) (c : ConfigService) where
  -- The provider that the module makes of the settings.
  abbrev pub provider : AuthProvider J
  provider =
      choose c.auth_provider (keycloak_provider verify env post c.keycloak)
        (dev_jwt_provider jose dev jwks)

  provider-keycloak :
      c.auth_provider ≡ "keycloak" → provider ≡ keycloak_provider verify env post c.keycloak
  unfolding choose
  provider-keycloak same = rw ((eq_iff c.auth_provider "keycloak").1 same) refl

  -- A gateway that has started in production trusts no token but Keycloak's: what the guard lets
  -- through carries a bearer token that jose has verified with the key set of Keycloak and the
  -- configured issuer and audience, and gets the claims of that token. The key of the provider for
  -- development is not served.
  pub production_trusts_keycloak :
      (hostname : String → Option String) (now : ℕ) (address : Option String)
      (req req' : AuthenticatedRequest)
      → on_module_init hostname c ≡ ok tt
      → c.node_env ≡ "production"
      → jwt_can_activate (provider.validate_token now) req ≡ ok req'
      → ((token : String) × (payload : Payload) × (bearer_token req ≡ some token)
          × (verify (verify_options c.keycloak) token ≡ ok payload)
          × (req' ≡ attach (claims_of_payload payload) req))
        × ((message : String) × (get_jwks address provider ≡ not_served message))
  unfolding keycloak_provider get_jwks
  production_trusts_keycloak hostname now address req req' started production admitted =
      let (known, demands) = (starts_iff hostname c).0 started in
      let same = provider-keycloak (demands production).0 in
      let (token, claims, found, valid, attached) =
        admitted_by_provider (provider.validate_token now) req req' admitted in
      let valid' = sym (ap (λ p. p.validate_token now token) same) ∙ valid in
      let (payload, verified, claims_same) =
        verified_by_jose verify c.keycloak token claims valid' in
      (
        (token, payload, found, verified, attached ∙ ap (λ x. attach x req) claims_same),
        (_, ap (get_jwks address) same),
      )
