-- ===== src/Auth/DevJwt.antt =====
-- auth/providers/dev-jwt.provider.ts: the provider that signs tokens with a key pair in memory. The
-- package jose is a parameter: `SignJWT.sign` with the private key and `jwtVerify` with the public
-- key of the process. Times are in seconds.
pub mod Tokens
pub mod Use
use apicenter_hehe.Common.{
  ℕ, ◌+◌, ◌*◌, ◌≤◌, ◌<◌, String, ◌≡◌, Bool, false, Option, none, some, List, [], get_or,
  if◌then◌else◌, ◌==◌,
}
use apicenter_hehe.Errors.{Error, plain, Result, ok, err, guard, ◌>>=◌, ◌>>◌}
use apicenter_hehe.Auth.Service.{JwtClaims}
use apicenter_hehe.Auth.Issuance.{IssuedToken}

-- The claims of a signed token that the code writes or reads.
pub record Payload : Type 0 where
  pub sub : Option String
  pub iss : Option String
  pub iat : Option ℕ
  pub exp : Option ℕ
  pub tribe_id : Option String
  pub permissions : Option (List String)
  pub scopes : Option (List String)
  -- the claim `type`
  pub token_type : Option String

-- `verify now issuer token`: the payload, or the error that jose throws.
pub record Jose : Type 0 where
  pub sign : Payload → String
  pub verify : ℕ → String → String → Result Payload

-- What jose documents, for one payload: a token that it signed is accepted, for the issuer that the
-- token names, until it expires, and no longer.
pub record IsFaithful (jose : Jose) (issuer : String) (p : Payload) (expires : ℕ) : Type 0 where
  pub accepted : (now : ℕ) → now < expires → jose.verify now issuer (jose.sign p) ≡ ok p
  pub expired :
      (now : ℕ) → expires ≤ now → (e : Error) × (jose.verify now issuer (jose.sign p) ≡ err e)

pub record DevJwtConfig : Type 0 where
  pub issuer : String
  pub token_ttl_seconds : Option ℕ
  pub refresh_ttl_multiplier : ℕ

abbrev pub default_ttl_seconds : ℕ
default_ttl_seconds = 3600

abbrev pub ttl_of : DevJwtConfig → ℕ
ttl_of config = get_or config.token_ttl_seconds default_ttl_seconds

-- The claims that a payload is turned into. `...payload` comes last: what the payload has stands,
-- and the defaults fill the rest.
unfoldable pub claims_of_payload : Payload → JwtClaims
claims_of_payload payload = record {
  sub = get_or payload.sub "";
  tribe_id = payload.tribe_id;
  permissions = some (get_or payload.permissions []);
  scopes = some (get_or payload.scopes []);
  exp = payload.exp;
}

-- The two tokens of one `issueToken` call.
unfoldable pub access_payload : DevJwtConfig → ℕ → String → List String → List String → Payload
access_payload config now service_id permissions scopes = record {
  sub = some service_id;
  iss = some config.issuer;
  iat = some now;
  exp = some (now + ttl_of config);
  tribe_id = some service_id;
  permissions = some permissions;
  scopes = some scopes;
  token_type = none;
}

unfoldable pub refresh_payload : DevJwtConfig → ℕ → String → Payload
refresh_payload config now service_id = record {
  sub = some service_id;
  iss = some config.issuer;
  iat = some now;
  exp = some (now + ttl_of config * config.refresh_ttl_multiplier);
  tribe_id = some service_id;
  permissions = none;
  scopes = none;
  token_type = some "refresh";
}

abbrev pub type_is : Option String → String → Bool
type_is none name = false
type_is (some t) name = t == name

module _ (jose : Jose) (config : DevJwtConfig) where
  unfoldable pub validate_token : ℕ → String → Result JwtClaims
  unfolding claims_of_payload
  validate_token now token = do
    payload ← jose.verify now config.issuer token
    ok (claims_of_payload payload)

  unfoldable pub issue_token : ℕ → String → List String → List String → IssuedToken
  issue_token now service_id permissions scopes = record {
    access_token = jose.sign (access_payload config now service_id permissions scopes);
    refresh_token = some (jose.sign (refresh_payload config now service_id));
    expires_in = ttl_of config;
  }

  unfoldable pub refresh_token : ℕ → String → Result IssuedToken
  refresh_token now token = do
    payload ← jose.verify now config.issuer token
    guard (type_is payload.token_type "refresh") (plain "Provided token is not a refresh token")
    let service_id = get_or payload.sub ""
    let permissions = get_or payload.permissions []
    let scopes = get_or payload.scopes []
    ok (issue_token now service_id permissions scopes)
