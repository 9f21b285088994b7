-- ===== src/Witnesses/Tokens.antt =====
-- Instances for auth/.
use apicenter_hehe.Common.{
  String, ◌≡◌, ◌≢◌, ◌⊎◌, ◌↔◌, refl, Bool, true, none, some, List, [], ◌∷◌, arith, ◌==◌, includes,
  if◌then◌else◌,
}
use apicenter_hehe.Common.Dict.{lookup}
use apicenter_hehe.Errors.{plain, Result, ok, err}
use apicenter_hehe.Registry.Types.{ServiceRegistryEntry}
use apicenter_hehe.Auth.Service.{JwtClaims, merge_caller_scopes}
use apicenter_hehe.Auth.Guards.{
  AuthenticatedRequest, attach, bearer_token, scoped_admin_can_activate,
}
use apicenter_hehe.Auth.Guards.Admission.{HasSecret, HasAdminToken, admin_sound}
use apicenter_hehe.Auth.Secrets.{IsServiceId}
use apicenter_hehe.Auth.Issuance.{
  IssuedToken, TokenRequestDto, TokenData, consumable_scopes, issue_token, token_scopes,
  token_permissions, unique,
}
use apicenter_hehe.Auth.Issuance.Scopes.{NoRepeats, IsEarned, issued_scopes}
use apicenter_hehe.Witnesses.Data.{market, claims_of, request}

abbrev secret : String
secret = "secret"

-- The provider accepts one token.
abbrev validate : String → Result JwtClaims
validate t = if t == "token" then ok (claims_of ("platform:admin" ∷ [])) else err (plain "invalid")

abbrev admin_request : AuthenticatedRequest
admin_request = record request { platform_secret = none }

abbrev admin_claims : JwtClaims
admin_claims = claims_of ("platform:admin" ∷ [])

admin_sound_example :
    (HasSecret "secret" admin_request × (attach admin_claims admin_request ≡ admin_request))
    ⊎ ((claims : JwtClaims) × HasAdminToken validate "secret" admin_request claims
        × (attach admin_claims admin_request ≡ attach claims admin_request))
unfolding scoped_admin_can_activate bearer_token merge_caller_scopes includes
admin_sound_example =
    admin_sound validate "secret" admin_request (attach admin_claims admin_request) refl

abbrev first_id : String
first_id = "a-1"

abbrev second_id : String
second_id = "a1"

first-IsServiceId : IsServiceId first_id
first-IsServiceId = ground arith

second-IsServiceId : IsServiceId second_id
second-IsServiceId = ground arith

ids-differ : first_id ≢ second_id
ids-differ same = cc same

abbrev pub valid : String → String → Bool
valid id secret = secret == "s3cret"

abbrev issue : String → List String → List String → Result IssuedToken
issue id permissions scopes =
    ok (record { access_token = "jwt"; refresh_token = none; expires_in = 3600 })

abbrev pub dto : TokenRequestDto
dto = record { tribe_id = "orders"; secret = "s3cret" }

abbrev data_of_orders : TokenData
data_of_orders = record {
  token = record { access_token = "jwt"; refresh_token = none; expires_in = 3600 };
  tribe_id = "orders";
  permissions = token_permissions "orders";
  scopes = "billing:read" ∷ [];
}

orders_gets_token : issue_token valid issue dto market ≡ ok data_of_orders
unfolding issue_token token_scopes consumable_scopes includes lookup unique
orders_gets_token = refl

issued_scopes_example :
    (service : ServiceRegistryEntry) × (lookup "orders" market.services ≡ some service)
    × (valid "orders" "s3cret" ≡ true)
    × NoRepeats ("billing:read" ∷ [])
    × ((s : String) → (includes ("billing:read" ∷ []) s ≡ true) ↔ IsEarned service market s)
issued_scopes_example = issued_scopes valid issue dto market data_of_orders orders_gets_token
