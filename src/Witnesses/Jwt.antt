-- ===== src/Witnesses/Jwt.antt =====
-- Instances for auth/providers/.
use apicenter_hehe.Common.{
  ℕ, ◌≤◌, ◌<◌, String, ◌≡◌, ◌≢◌, refl, true, Option, none, some, List, [], ◌∷◌, arith, ltb,
  if◌then◌else◌, ◌==◌, includes, truthy,
}
use apicenter_hehe.Common.Dict.{lookup}
use apicenter_hehe.Errors.{Error, plain, Result, ok, err}
use apicenter_hehe.Registry.Types.{active}
use apicenter_hehe.Registry.Lookups.{can_consume}
use apicenter_hehe.Auth.Service.{JwtClaims, check_scopes}
use apicenter_hehe.Auth.Guards.{AuthenticatedRequest, attach, jwt_can_activate}
use apicenter_hehe.Auth.Issuance.{
  IssuedToken, TokenData, token_permissions, token_scopes, consumable_scopes, unique,
}
use apicenter_hehe.Auth.Issuance
use apicenter_hehe.Auth.DevJwt.{
  Payload, Jose, IsFaithful, DevJwtConfig, access_payload, refresh_payload, validate_token,
  issue_token, refresh_token,
}
use apicenter_hehe.Auth.DevJwt.Tokens.{
  issued_claims, validate_token-issue_token, refresh_loses_scopes,
}
use apicenter_hehe.Auth.DevJwt.Use.{issue}
use apicenter_hehe.CircuitBreaker.{try_acquire, create}
use apicenter_hehe.Sdk.Session.{TribeClient}
use apicenter_hehe.Proxy.{proxy_request, breaker_of, new_breaker}
use apicenter_hehe.Journey.{IsReachable, client_reaches_service}
use apicenter_hehe.Witnesses.Data.{handler, entry, billing, market, request}
use apicenter_hehe.Witnesses.Tokens.{valid, dto}

abbrev config : DevJwtConfig
config = record { issuer = "api-center-dev"; token_ttl_seconds = none; refresh_ttl_multiplier = 24 }

-- Three tokens: one issued at 100, the refresh token beside it, and one that a refresh gave at 200.
abbrev live : ℕ → ℕ → Payload → Result Payload
live now expires p = if ltb now expires then ok p else err (plain "\"exp\" check failed")

abbrev scopes : List String
scopes = "billing:read" ∷ []

abbrev first_access : Payload
unfolding access_payload
first_access = access_payload config 100 "orders" (token_permissions "orders") scopes

abbrev second_access : Payload
unfolding access_payload
second_access = access_payload config 200 "orders" [] []

abbrev refresher : Payload
unfolding refresh_payload
refresher = refresh_payload config 100 "orders"

abbrev name_of : Option (List String) → String
name_of none = "e.refresh.s"
name_of (some []) = "e.second.s"
name_of (some (p ∷ ps)) = "e.first.s"

abbrev jose : Jose
jose = record {
  sign = λ p. name_of p.permissions;
  verify = λ now issuer t.
      if t == "e.first.s"
      then live now 3700 first_access
      else if t == "e.second.s"
      then live now 3800 second_access
      else if t == "e.refresh.s"
      then live now 86500 refresher
      else err (plain "JWSInvalid");
}

first-IsFaithful : IsFaithful jose config.issuer first_access 3700
unfolding access_payload
first-IsFaithful = record {
  accepted = λ now h. ground arith;
  expired = λ now h. (plain "\"exp\" check failed", ground arith);
}

second-IsFaithful : IsFaithful jose config.issuer second_access 3800
unfolding access_payload
second-IsFaithful = record {
  accepted = λ now h. ground arith;
  expired = λ now h. (plain "\"exp\" check failed", ground arith);
}

refresher-IsFaithful : IsFaithful jose config.issuer refresher 86500
unfolding refresh_payload
refresher-IsFaithful = record {
  accepted = λ now h. ground arith;
  expired = λ now h. (plain "\"exp\" check failed", ground arith);
}

validate_token-issue_token_example :
    (3699 < 3700
      → validate_token jose config 3699 "e.first.s"
        ≡ ok (issued_claims config 100 "orders" (token_permissions "orders") scopes))
    × (3700 ≤ 3699 → (e : Error) × (validate_token jose config 3699 "e.first.s" ≡ err e))
unfolding issue_token access_payload first_access
validate_token-issue_token_example =
    validate_token-issue_token jose config 100 3699 "orders" (token_permissions "orders") scopes
      first-IsFaithful

refresh_loses_scopes_example :
    (t : String) × (new : IssuedToken) × (claims : JwtClaims) × ((issue_token jose config 100
        "orders" [] scopes).refresh_token
      ≡ some t)
    × (refresh_token jose config 200 t ≡ ok new)
    × (validate_token jose config 300 new.access_token ≡ ok claims)
    × (claims.tribe_id ≡ some "orders")
    × (check_scopes (some claims) scopes ≡ scopes)
unfolding refresh_payload refresher access_payload second_access
refresh_loses_scopes_example =
    refresh_loses_scopes jose config 100 200 300 "orders" [] scopes scopes refresher-IsFaithful
      second-IsFaithful (omega arith) (omega arith)

abbrev data_of_orders : TokenData
data_of_orders = record {
  token = record {
    access_token = "e.first.s";
    refresh_token = some "e.refresh.s";
    expires_in = 3600;
  };
  tribe_id = "orders";
  permissions = token_permissions "orders";
  scopes = scopes;
}

abbrev bearer_request : AuthenticatedRequest
bearer_request = record request { authorization = some "Bearer e.first.s" }

orders_gets_token :
    Issuance.issue_token valid (issue jose config valid 100) dto market ≡ ok data_of_orders
unfolding lookup Issuance.issue_token issue_token token_scopes consumable_scopes includes unique
    access_payload refresh_payload
orders_gets_token = refl

abbrev token : String
token = "e.first.s"

token_is_text : token ≢ ""
token_is_text same = cc same

abbrev signed_in : TribeClient
signed_in = record { access_token = some "e.first.s"; refresh_token = none; token_expiry = 3700000 }

billing-IsReachable : IsReachable 200000 "orders" "billing" market handler (entry billing active)
unfolding lookup truthy can_consume includes try_acquire breaker_of new_breaker create
billing-IsReachable = record {
  registered = refl;
  addressed = refl;
  in_namespace = refl;
  not_retired = λ h. cc h;
  consumes = refl;
  admitted = refl;
}

client_reaches_service_example :
    (claims : JwtClaims) × (jwt_can_activate (validate_token jose config 200) bearer_request
      ≡ ok (attach claims bearer_request))
    × ((proxy_request
          (λ target. true)
          200000
          "billing"
          (attach claims bearer_request)
          market
          handler).0.outcome
        ≡ ok "http://old-billing:3000")
unfolding access_payload first_access lookup
client_reaches_service_example =
    client_reaches_service jose config valid 100 200 (λ target. true) 200000 dto data_of_orders
      signed_in bearer_request market handler "billing" (entry billing active) orders_gets_token
      first-IsFaithful (omega arith) token_is_text (ground arith) refl refl billing-IsReachable refl
