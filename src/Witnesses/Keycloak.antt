-- ===== src/Witnesses/Keycloak.antt =====
-- Instances for auth/providers/keycloak.provider.ts.
use apicenter_hehe.Common.{String, ◌≡◌, ◌≢◌, refl, none, some, [], ◌∷◌, includes, filter}
use apicenter_hehe.Errors.{ok}
use apicenter_hehe.Auth.Guards.{
  AuthenticatedRequest, unauthorised, admin_message, bearer_token, scoped_admin_can_activate,
}
use apicenter_hehe.Auth.Keycloak.{KeycloakConfig, Payload, validate_token, words}
use apicenter_hehe.Auth.Keycloak.Claims.{roles_are_hidden}
use apicenter_hehe.Witnesses.Data.{request}

abbrev config : KeycloakConfig
config = record {
  base_url = "http://keycloak:8080";
  realm = "api-center";
  jwks_uri = "http://keycloak:8080/certs";
  token_endpoint = "";
  issuer = "";
  audience = "";
  refresh_client_id = "api-center";
  default_client_secret = "shared";
}

abbrev uri : String
uri = "http://keycloak:8080/certs"

uri_is_set : uri ≢ ""
uri_is_set same = cc same

abbrev read_scope : String
read_scope = "billing:read"

abbrev write_scope : String
write_scope = "billing:write"

abbrev admin_payload : Payload
admin_payload = record {
  sub = some "ada";
  tribe_id = none;
  exp = some 9000;
  scope = some "openid";
  realm_access = some (record { roles = some ("platform:admin" ∷ []) });
  resource_access = none;
  permissions = some ("tribe:orders:read" ∷ []);
  scopes = none;
}

abbrev admin_request : AuthenticatedRequest
admin_request = record request { platform_secret = none }

roles_are_hidden_example :
    scoped_admin_can_activate
      (validate_token (λ options token. ok admin_payload) config)
      "secret"
      admin_request
    ≡ unauthorised admin_message
unfolding bearer_token words includes filter
roles_are_hidden_example =
    roles_are_hidden (λ options token. ok admin_payload) config uri_is_set "secret" "token"
      admin_request admin_payload ("tribe:orders:read" ∷ []) refl refl refl refl refl refl
