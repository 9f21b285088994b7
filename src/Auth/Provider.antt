-- ===== src/Auth/Provider.antt =====
-- auth/auth-provider.interface.ts, the choice of the provider in auth/auth.module.ts, the methods of
-- auth/auth.service.ts that pass on to it, and the handlers `refreshToken` and `getJwks` of
-- auth/auth.controller.ts. The key set that a provider publishes is of any type.
pub mod Production
use Prim.Native.String
use apicenter_hehe.Common.{ℕ, String, Option, none, some, List, ◌==◌, if◌then◌else◌, or_else}
use apicenter_hehe.Errors.{Result, ok, err, ◌>>=◌}
use apicenter_hehe.Common.Dict.{Dict}
use apicenter_hehe.Auth.Service.{JwtClaims}
use apicenter_hehe.Auth.Issuance.{IssuedToken}
use apicenter_hehe.Auth.DevJwt.{Jose, DevJwtConfig}
use apicenter_hehe.Auth.Keycloak.{KeycloakConfig, VerifyOptions, Payload, TokenResponse}
use apicenter_hehe.Auth.DevJwt
use apicenter_hehe.Auth.Keycloak

-- The interface. The time, in seconds, is that of the call.
pub record AuthProvider (J : Type 0) : Type 0 where
  pub validate_token : ℕ → String → Result JwtClaims
  pub issue_token : ℕ → String → List String → List String → Result IssuedToken
  pub refresh_token : ℕ → String → Result IssuedToken
  pub get_jwks_json : Option J

module _ {J : Type 0} where
  -- `jwks` is the document with the public key.
  unfoldable pub dev_jwt_provider : Jose → DevJwtConfig → J → AuthProvider J
  unfolding DevJwt.validate_token DevJwt.issue_token DevJwt.refresh_token
  dev_jwt_provider jose config jwks = record {
    validate_token = DevJwt.validate_token jose config;
    issue_token =
        λ now id permissions scopes. ok (DevJwt.issue_token jose config now id permissions scopes);
    refresh_token = DevJwt.refresh_token jose config;
    get_jwks_json = some jwks;
  }

  unfoldable pub keycloak_provider :
      (VerifyOptions → String → Result Payload)
      → (List ℕ → Option String)
      → (String → Dict String → Result TokenResponse)
      → KeycloakConfig
      → AuthProvider J
  unfolding Keycloak.validate_token Keycloak.issue_token Keycloak.refresh_token
  keycloak_provider verify env post config = record {
    validate_token = λ now token. Keycloak.validate_token verify config token;
    issue_token =
        λ now id permissions scopes. Keycloak.issue_token env post config id permissions scopes;
    refresh_token = λ now token. Keycloak.refresh_token env post config token;
    get_jwks_json = none;
  }

  -- `useFactory`, with the setting `authProvider`
  unfoldable pub choose : String → AuthProvider J → AuthProvider J → AuthProvider J
  choose auth_provider keycloak dev_jwt = if auth_provider == "keycloak" then keycloak else dev_jwt

  -- The data of an answer to `refreshToken`.
  unfoldable pub refresh_handler : AuthProvider J → ℕ → String → Result IssuedToken
  refresh_handler provider now token = do
    answer ← provider.refresh_token now token
    ok (record {
      access_token = answer.access_token;
      refresh_token = answer.refresh_token;
      expires_in = answer.expires_in;
    })

-- The document, or the message of the 404; the address is that of the environment.
pub data JwksAnswer (J : Type 0) : Type 0 where
  served : J → JwksAnswer J
  not_served : String → JwksAnswer J

abbrev address_or : Option String → String
address_or address = or_else address "<KEYCLOAK_JWKS_URI not set>"

abbrev answer_with : {J : Type 0} → Option String → Option J → JwksAnswer J
answer_with address (some jwks) = served jwks
answer_with address none = not_served (
    String.◌++◌ "JWKS is not served by this provider. Fetch from your Keycloak server: "
      (address_or address))

unfoldable pub get_jwks : {J : Type 0} → Option String → AuthProvider J → JwksAnswer J
unfolding or_else
get_jwks address provider = answer_with address provider.get_jwks_json
