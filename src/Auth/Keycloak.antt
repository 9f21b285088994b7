-- ===== src/Auth/Keycloak.antt =====
-- auth/providers/keycloak.provider.ts: the provider that asks Keycloak for tokens and verifies them
-- with its public keys. `jwtVerify` of the package jose, with the key set and the options, and
-- `axios.post` are parameters; `process.env` is one too, keyed by the code points of a name.
pub mod Words
pub mod Claims
use Prim.Native.Char.{code}
use Prim.Native.String
use apicenter_hehe.Common.{
  ℕ, ◌-◌, String, Bool, true, false, not, ◌&&◌, ◌||◌, Option, none, some, List, [], ◌∷◌, ◌++◌, map,
  ◌==◌, leb, nat_beq, if◌then◌else◌, truthy, get_or, filter,
}
use apicenter_hehe.Common.Split.{split_on}
use apicenter_hehe.Common.Dict.{Dict, values}
use apicenter_hehe.Errors.{Error, plain, Result, ok, err, guard, ◌>>=◌, ◌>>◌}
use apicenter_hehe.Registry.Semver.{codes}
use apicenter_hehe.Auth.Service.{JwtClaims}
use apicenter_hehe.Auth.Issuance.{IssuedToken}

pub record KeycloakConfig : Type 0 where
  pub base_url : String
  pub realm : String
  pub jwks_uri : String
  pub token_endpoint : String
  pub issuer : String
  pub audience : String
  pub refresh_client_id : String
  pub default_client_secret : String

-- An object with an optional field `roles`.
pub record Access : Type 0 where
  pub roles : Option (List String)

-- The claims that the code reads or that its spread passes on under a name of `JwtClaims`.
pub record Payload : Type 0 where
  pub sub : Option String
  pub tribe_id : Option String
  pub exp : Option ℕ
  pub scope : Option String
  pub realm_access : Option Access
  pub resource_access : Option (Dict Access)
  pub permissions : Option (List String)
  pub scopes : Option (List String)

-- `s.split(' ').filter(Boolean)`
unfoldable pub words : String → List String
unfolding split_on truthy
words s = filter truthy (split_on b' ' s)

-- `xs.join(' ')`
unfoldable pub join_spaces : List String → String
join_spaces [] = ""
join_spaces (x ∷ []) = x
join_spaces (x ∷ (y ∷ ys)) = String.◌++◌ x (String.◌∷◌ " " (join_spaces (y ∷ ys)))

abbrev roles_of : Option Access → List String
roles_of none = []
roles_of (some a) = get_or a.roles []

abbrev pub flat_roles : List Access → List String
flat_roles [] = []
flat_roles (a ∷ rest) = get_or a.roles [] ++ flat_roles rest

-- `[...realmRoles, ...resourceRoles]`
unfoldable pub all_roles : Payload → List String
unfolding values
all_roles payload =
    roles_of payload.realm_access ++ flat_roles (values (get_or payload.resource_access []))

-- `...payload` comes last: a claim of the token with the name of a field overrides what was put
-- together for it.
unfoldable pub claims_of_payload : Payload → JwtClaims
unfolding all_roles words
claims_of_payload payload = record {
  sub = get_or payload.sub "";
  tribe_id = payload.tribe_id;
  permissions = some (get_or payload.permissions (all_roles payload));
  scopes = some (get_or payload.scopes (words (get_or payload.scope "")));
  exp = payload.exp;
}

-- The options of `jwtVerify`: an issuer and an audience, each only where it is configured.
pub record VerifyOptions : Type 0 where
  pub issuer : Option String
  pub audience : Option String

abbrev configured : String → Option String
configured s = if truthy s then some s else none

unfoldable pub verify_options : KeycloakConfig → VerifyOptions
unfolding truthy
verify_options config = record {
  issuer = configured config.issuer;
  audience = configured config.audience;
}

-- `verify` is `jwtVerify` with the key set, which `onModuleInit` makes where there is an address.
unfoldable pub validate_token :
    (VerifyOptions → String → Result Payload) → KeycloakConfig → String → Result JwtClaims
unfolding claims_of_payload verify_options truthy
validate_token verify config token = do
  guard (truthy config.jwks_uri)
      (plain "KeycloakProvider not initialised — KEYCLOAK_JWKS_URI missing")
  payload ← verify (verify_options config) token
  ok (claims_of_payload payload)

pub record TokenResponse : Type 0 where
  pub access_token : String
  pub refresh_token : Option String
  pub expires_in : ℕ

abbrev issued : TokenResponse → IssuedToken
issued answer = record {
  access_token = answer.access_token;
  refresh_token = answer.refresh_token;
  expires_in = answer.expires_in;
}

-- `toUpperCase` and then the replacement of what is no capital and no digit, on one ASCII character.
secret_char : ℕ → ℕ
secret_char c =
    if leb b'a' c && leb c b'z'
    then c - 32
    else if (leb b'A' c && leb c b'Z') || (leb b'0' c && leb c b'9')
    then c
    else b'_'

unfoldable pub secret_key : String → List ℕ
unfolding secret_char
secret_key id = codes "KEYCLOAK_CLIENT_SECRET_" ++ map secret_char (codes id)

abbrev pub endpoint : KeycloakConfig → String
endpoint config =
    if truthy config.token_endpoint
    then config.token_endpoint
    else String.◌++◌ config.base_url
        (String.◌++◌ "/realms/" (String.◌++◌ config.realm "/protocol/openid-connect/token"))

-- `post` is `axios.post` with the address and the form, and `response.data` of what it answers. The
-- text of the error also names the variable.
module _ (env : List ℕ → Option String) (post : String → Dict String → Result TokenResponse)
    (config : KeycloakConfig) where
  abbrev pub client_secret : String → String
  unfolding secret_key
  client_secret id = get_or (env (secret_key id)) config.default_client_secret

  unfoldable pub params : String → List String → Dict String
  unfolding secret_key join_spaces
  params id scopes =
      ("grant_type", "client_credentials")
      ∷ ("client_id", id)
      ∷ ("client_secret", client_secret id)
      ∷ ("scope", join_spaces ("openid" ∷ scopes))
      ∷ []

  unfoldable pub issue_token : String → List String → List String → Result IssuedToken
  unfolding secret_key truthy params
  issue_token id permissions scopes = do
    guard (truthy (client_secret id))
        (plain (String.◌++◌ "No Keycloak client secret found for service '" (String.◌++◌ id "'. ")))
    answer ← post (endpoint config) (params id scopes)
    ok (issued answer)

  abbrev secret_param : String → Dict String
  secret_param secret = if truthy secret then ("client_secret", secret) ∷ [] else []

  unfoldable pub refresh_token : String → Result IssuedToken
  unfolding truthy
  refresh_token token = do
    answer ← post (endpoint config) (
        ("grant_type", "refresh_token")
        ∷ ("refresh_token", token)
        ∷ (
          "client_id",
          if truthy config.refresh_client_id then config.refresh_client_id else "api-center",
        )
        ∷ secret_param config.default_client_secret)
    ok (issued answer)
