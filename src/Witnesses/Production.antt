-- ===== src/Witnesses/Production.antt =====
-- An instance for a gateway in production.
use apicenter_hehe.Common.{ℕ, String, ◌≡◌, refl, Option, none, some, List, [], ◌∷◌}
use apicenter_hehe.Common.Dict.{Dict, lookup}
use apicenter_hehe.Errors.{Result, ok, err, plain}
use apicenter_hehe.Auth.Guards.{AuthenticatedRequest, attach, bearer_token, jwt_can_activate}
use apicenter_hehe.Auth.DevJwt.{Jose, DevJwtConfig}
use apicenter_hehe.Auth.Keycloak.{
  Payload, VerifyOptions, TokenResponse, verify_options, claims_of_payload,
}
use apicenter_hehe.Auth.Provider.{not_served, get_jwks, choose, keycloak_provider}
use apicenter_hehe.Auth.Provider.Production.{provider, production_trusts_keycloak}
use apicenter_hehe.Config.{Env, ConfigService, load, on_module_init}
use apicenter_hehe.Witnesses.Data.{request}

abbrev env : Env
env =
    ("NODE_ENV", "production")
    ∷ ("AUTH_PROVIDER", "keycloak")
    ∷ ("KEYCLOAK_BASE_URL", "https://auth.example.com")
    ∷ ("PLATFORM_ADMIN_SECRET", "s3cret")
    ∷ []

abbrev settings : ConfigService
settings = load env

abbrev hostname : String → Option String
hostname url = some "auth.example.com"

abbrev published : String
published = "keys"

abbrev dev_jose : Jose
dev_jose = record {
  sign = λ p. "signed";
  verify = λ now issuer token. err (plain "signature verification failed");
}

abbrev dev : DevJwtConfig
dev = record { issuer = "api-center-dev"; token_ttl_seconds = none; refresh_ttl_multiplier = 24 }

abbrev ada : Payload
ada = record {
  sub = some "ada";
  tribe_id = some "orders";
  exp = some 9000;
  scope = some "openid";
  realm_access = none;
  resource_access = none;
  permissions = none;
  scopes = none;
}

abbrev verify : VerifyOptions → String → Result Payload
verify options token = ok ada

abbrev no_secrets : List ℕ → Option String
no_secrets name = none

abbrev no_answer : String → Dict String → Result TokenResponse
no_answer url form = err (plain "timeout")

abbrev admitted : AuthenticatedRequest
admitted = attach (claims_of_payload ada) request

production_trusts_keycloak_example :
    ((token : String) × (payload : Payload) × (bearer_token request ≡ some token)
      × (verify (verify_options settings.keycloak) token ≡ ok payload)
      × (admitted ≡ attach (claims_of_payload payload) request))
    × ((message : String) × (get_jwks none
            (provider dev_jose dev published verify no_secrets no_answer settings)
          ≡ not_served message))
unfolding on_module_init load lookup jwt_can_activate bearer_token choose keycloak_provider
production_trusts_keycloak_example =
    production_trusts_keycloak dev_jose dev published verify no_secrets no_answer settings hostname
      100 none request admitted refl refl refl
