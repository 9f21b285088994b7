-- ===== src/Auth/Keycloak/Claims.antt =====
-- What the claims of a Keycloak token are worth to the gateway.
use apicenter_hehe.Common.{
  String, ◌≡◌, ◌≢◌, false, ◌||◌, none, some, List, arith, eq_iff, includes, includes-append, truthy,
  get_or,
}
use apicenter_hehe.Errors.{Result, ok}
use apicenter_hehe.Auth.Service.{merge_caller_scopes}
use apicenter_hehe.Auth.Guards.{
  AuthenticatedRequest, admin_scope, admin_message, unauthorised, bearer_token,
  scoped_admin_can_activate,
}
use apicenter_hehe.Auth.Keycloak.{
  KeycloakConfig, Payload, VerifyOptions, verify_options, claims_of_payload, validate_token, words,
  all_roles,
}

merge-claims_of_payload :
    (payload : Payload) (s : String)
    → includes (merge_caller_scopes (some (claims_of_payload payload))) s ≡ (
        includes (get_or payload.scopes (words (get_or payload.scope ""))) s
        || includes (get_or payload.permissions (all_roles payload)) s)
unfolding merge_caller_scopes claims_of_payload
merge-claims_of_payload payload s = includes-append _ _ s

module _ (verify : VerifyOptions → String → Result Payload) (config : KeycloakConfig)
    (reachable : config.jwks_uri ≢ "") where
  validated :
      (token : String) (payload : Payload)
      → verify (verify_options config) token ≡ ok payload
      → validate_token verify config token ≡ ok (claims_of_payload payload)
  unfolding validate_token truthy
  validated token payload h = rw h (ground (arith, eq_iff config.jwks_uri ""))

  -- A role of the realm is worth nothing when the token has a claim `permissions` of its own: a request
  -- without the header of the admin secret, whose token verifies, is refused by the admin guard where
  -- neither that claim nor the scopes (the claim `scopes`, or the words of `scope` where it is absent)
  -- name `platform:admin`, whatever roles the token lists. The address of the key set is set.
  pub roles_are_hidden :
      (secret token : String) (req : AuthenticatedRequest) (payload : Payload) (own : List String)
      → req.platform_secret ≡ none
      → bearer_token req ≡ some token
      → verify (verify_options config) token ≡ ok payload
      → payload.permissions ≡ some own
      → includes own admin_scope ≡ false
      → includes (get_or payload.scopes (words (get_or payload.scope ""))) admin_scope ≡ false
      → scoped_admin_can_activate (validate_token verify config) secret req
        ≡ unauthorised admin_message
  unfolding scoped_admin_can_activate
  roles_are_hidden secret token req payload own no_secret sent read claim not_own not_scope =
      ground (arith, validated token payload read, merge-claims_of_payload payload admin_scope)
