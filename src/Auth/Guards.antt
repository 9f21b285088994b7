-- ===== src/Auth/Guards.antt =====
-- auth/guards/: `JwtAuthGuard`, `PlatformAdminGuard` and `ScopedAdminGuard`. A guard that lets a
-- request through returns it, with the claims that it attached; log lines are left out.
pub mod Admission
pub mod Bearer
use Prim.Native.Char.{code}
use Prim.Native.String
use apicenter_hehe.Common.{
  String, Bool, true, false, not, ◌&&◌, ◌||◌, Option, none, some, ◌==◌, nat_beq, if◌then◌else◌,
  includes, truthy, truthy?,
}
use apicenter_hehe.Errors.{Error, app, unauthorized, Result, ok, err}
use apicenter_hehe.Auth.Service.{JwtClaims, merge_caller_scopes}

-- The parts of a request that the guards and the proxy read and write.
pub record AuthenticatedRequest : Type 0 where
  -- the headers `authorization` and `x-platform-secret`
  pub authorization : Option String
  pub platform_secret : Option String
  pub user : Option JwtClaims
  pub tribe_id : Option String
  pub method : String

-- `s.split(' ')[1]`: what stands between the first space and the next.
until_space : String → String
until_space String.[] = String.[]
until_space (String.◌∷◌ c s) =
    if nat_beq (code c) b' ' then String.[] else String.◌∷◌ c (until_space s)

second_part : String → Option String
second_part String.[] = none
second_part (String.◌∷◌ c s) = if nat_beq (code c) b' ' then some (until_space s) else second_part s

-- A missing header and an empty part are both no token.
unfoldable pub bearer_token : AuthenticatedRequest → Option String
unfolding until_space second_part truthy
bearer_token req = elim req.authorization [
  | none ↦ none
  | some h ↦ elim (second_part h) [ none ↦ none | some t ↦ if truthy t then some t else none ]
]

abbrev pub attach : JwtClaims → AuthenticatedRequest → AuthenticatedRequest
attach claims req = record req { user = some claims; tribe_id = claims.tribe_id }

abbrev pub unauthorised : {A : Type 0} → String → Result A
unauthorised m = err (app (unauthorized m))

abbrev pub admin_scope : String
admin_scope = "platform:admin"

abbrev pub admin_message : String
admin_message =
    "Admin access requires a valid X-Platform-Secret header or a JWT with platform:admin scope"

-- The test of path 1: a secret that is given, against one that is configured.
abbrev pub secret_matches : String → Option String → Bool
secret_matches configured none = false
secret_matches configured (some secret) =
    truthy secret && (truthy configured && secret == configured)

-- `validate` is `AuthService.validateToken`, which passes on the provider's answer.
module _ (validate : String → Result JwtClaims) where
  abbrev validated : Result JwtClaims → AuthenticatedRequest → Result AuthenticatedRequest
  validated (ok claims) req = ok (attach claims req)
  validated (err e) req = unauthorised "Invalid or expired token"

  abbrev with_token : Option String → AuthenticatedRequest → Result AuthenticatedRequest
  with_token none req = unauthorised "Missing authorization token"
  with_token (some token) req = validated (validate token) req

  unfoldable pub jwt_can_activate : AuthenticatedRequest → Result AuthenticatedRequest
  jwt_can_activate req = with_token (bearer_token req) req

  -- Path 2 of `ScopedAdminGuard`.
  abbrev admin_claims : Result JwtClaims → AuthenticatedRequest → Result AuthenticatedRequest
  admin_claims (ok claims) req =
      if includes (merge_caller_scopes (some claims)) admin_scope
      then ok (attach claims req)
      else unauthorised admin_message
  admin_claims (err e) req = unauthorised admin_message

  abbrev admin_token : Option String → AuthenticatedRequest → Result AuthenticatedRequest
  admin_token none req = unauthorised admin_message
  admin_token (some token) req = admin_claims (validate token) req

  -- `configured` is `platformAdminSecret`, empty where it is not set. A wrong secret falls through
  -- to the token.
  unfoldable pub scoped_admin_can_activate :
      String → AuthenticatedRequest → Result AuthenticatedRequest
  unfolding truthy
  scoped_admin_can_activate configured req =
      if secret_matches configured req.platform_secret
      then ok req
      else admin_token (bearer_token req) req

abbrev secret_is : Option String → String → Bool
secret_is none configured = false
secret_is (some secret) configured = truthy secret && secret == configured

unfoldable pub platform_admin_can_activate :
    String → AuthenticatedRequest → Result AuthenticatedRequest
unfolding truthy
platform_admin_can_activate configured req =
    if not (truthy configured)
    then unauthorised "Registry management is not configured"
    else if secret_is req.platform_secret configured
    then ok req
    else unauthorised "Invalid or missing X-Platform-Secret header"
