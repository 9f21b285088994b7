-- ===== src/Auth/Guards/Admission.antt =====
-- Whom the guards let through.
use apicenter_hehe.Common.{
  String, ◌≡◌, ◌≢◌, ◌↔◌, ◌⊎◌, inl, inr, refl, true, Option, none, some, arith, eq_iff, includes,
  truthy, Bool-cases,
}
use apicenter_hehe.Errors.{Result, ok, err}
use apicenter_hehe.Auth.Service.{JwtClaims, merge_caller_scopes}
use apicenter_hehe.Auth.Guards.{
  AuthenticatedRequest, secret_is, secret_matches, admin_claims, admin_token, bearer_token, attach,
  admin_scope, scoped_admin_can_activate, platform_admin_can_activate,
}

-- The two ways to be an administrator, without the order in which the guard tries them.
abbrev pub HasSecret : String → AuthenticatedRequest → Type 0
HasSecret configured req = (configured ≢ "") × (req.platform_secret ≡ some configured)

secret_matches_iff :
    (configured : String) (given : Option String)
    → (secret_matches configured given ≡ true) ↔ ((configured ≢ "") × (given ≡ some configured))
unfolding truthy
secret_matches_iff configured none = ground arith
secret_matches_iff configured (some secret) =
    ground (arith, eq_iff secret configured, eq_iff secret "", eq_iff configured "")

admin_claims_sound :
    (validate : String → Result JwtClaims) (req req' : AuthenticatedRequest) (r : Result JwtClaims)
    → admin_claims validate r req ≡ ok req'
    → (claims : JwtClaims) × (r ≡ ok claims)
      × (includes (merge_caller_scopes (some claims)) admin_scope ≡ true)
      × (req' ≡ attach claims req)
admin_claims_sound validate req req' (err e) h = absurd (cc h)
admin_claims_sound validate req req' (ok claims) h = (claims, refl, ground arith, ground arith)

admin_token_sound :
    (validate : String → Result JwtClaims) (req req' : AuthenticatedRequest) (t : Option String)
    → admin_token validate t req ≡ ok req'
    → (claims : JwtClaims) × (token : String) × (t ≡ some token)
      × (validate token ≡ ok claims)
      × (includes (merge_caller_scopes (some claims)) admin_scope ≡ true)
      × (req' ≡ attach claims req)
admin_token_sound validate req req' none h = absurd (cc h)
admin_token_sound validate req req' (some token) h =
    let (claims, valid, scoped, same) = admin_claims_sound validate req req' (validate token) h in
    (claims, token, refl, valid, scoped, same)

secret_is_iff :
    (configured : String) (given : Option String)
    → (secret_is given configured ≡ true) ↔ ((configured ≢ "") × (given ≡ some configured))
unfolding truthy
secret_is_iff configured none = ground arith
secret_is_iff configured (some secret) = ground (arith, eq_iff secret configured, eq_iff secret "")

-- The older guard lets a request through exactly when a secret is configured and the request has
-- it, and it hands on the request as it was.
pub platform_admin_iff :
    (configured : String) (req req' : AuthenticatedRequest)
    → (platform_admin_can_activate configured req ≡ ok req')
      ↔ ((configured ≢ "") × (req.platform_secret ≡ some configured) × (req' ≡ req))
unfolding platform_admin_can_activate
platform_admin_iff configured req req' =
    ground (arith, secret_is_iff configured req.platform_secret, eq_iff configured "")

module _ (validate : String → Result JwtClaims) (configured : String)
    (req : AuthenticatedRequest) where
  abbrev pub HasAdminToken : JwtClaims → Type 0
  HasAdminToken claims =
      (token : String) × (bearer_token req ≡ some token)
      × (validate token ≡ ok claims)
      × (includes (merge_caller_scopes (some claims)) admin_scope ≡ true)

  -- Whatever `ScopedAdminGuard` lets through has the configured secret, which is not empty, or a
  -- token that the provider accepts with the scope `platform:admin`; in the second case the claims
  -- of that token are attached.
  pub admin_sound :
      (req' : AuthenticatedRequest)
      → scoped_admin_can_activate validate configured req ≡ ok req'
      → (HasSecret configured req × (req' ≡ req))
        ⊎ ((claims : JwtClaims) × HasAdminToken claims × (req' ≡ attach claims req))
  unfolding scoped_admin_can_activate
  admin_sound req' h = elim (Bool-cases (secret_matches configured req.platform_secret)) [
    | inl right ↦ inl ((secret_matches_iff configured req.platform_secret).0 right, ground arith)
    | inr wrong ↦
        let (claims, token, there, valid, scoped, same) =
          admin_token_sound validate req req' (bearer_token req) (ground arith) in
        inr (claims, (token, there, valid, scoped), same)
  ]

  -- Either of the two is enough.
  pub admin_complete :
      HasSecret configured req ⊎ ((claims : JwtClaims) × HasAdminToken claims)
      → (req' : AuthenticatedRequest) × (scoped_admin_can_activate validate configured req
          ≡ ok req')
  unfolding scoped_admin_can_activate
  admin_complete (inl secret) =
      (req, rw ((secret_matches_iff configured req.platform_secret).1 secret))
  admin_complete (inr (claims, (token, there, valid, scoped))) =
      elim (Bool-cases (secret_matches configured req.platform_secret)) [
        | inl right ↦ (req, rw right)
        | inr wrong ↦ (attach claims req, rw (wrong, there, valid, scoped))
      ]
