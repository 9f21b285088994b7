-- ===== src/Auth/Guards/Bearer.antt =====
-- The token in the header `authorization`.
use Prim.Native.String
use Prim.Native.Char.{code}
use text.Mathlib.TextLemmas.{cons-append, nil-append}
use apicenter_hehe.Common.{String, ◌≡◌, ◌≢◌, refl, some, arith, eq_iff, truthy}
use apicenter_hehe.Errors.{Result, ok}
use apicenter_hehe.Auth.Service.{JwtClaims}
use apicenter_hehe.Auth.Guards.{
  AuthenticatedRequest, attach, bearer_token, second_part, until_space, jwt_can_activate,
}

-- A token as jose writes it: not empty, and no space in it.
abbrev pub NoSpace : String → Type 0
NoSpace String.[] = Unit
NoSpace (String.◌∷◌ c s) = (code c ≢ b' ') × NoSpace s

until_space-of_NoSpace : (s : String) → NoSpace s → until_space s ≡ s
unfolding until_space
until_space-of_NoSpace String.[] h = refl
until_space-of_NoSpace (String.◌∷◌ c s) (differ, h) = ground (arith, until_space-of_NoSpace s h)

second_part-Bearer : (t : String) → second_part (String.◌++◌ "Bearer " t) ≡ some (until_space t)
unfolding second_part
second_part-Bearer t =
    rw (cons-append, cons-append, cons-append, cons-append, cons-append, cons-append, cons-append)
      (rw nil-append refl)

module _ (req : AuthenticatedRequest) (t : String)
    (header : req.authorization ≡ some (String.◌++◌ "Bearer " t)) (full : t ≢ "")
    (h : NoSpace t) where
  bearer_token-of_header : bearer_token req ≡ some t
  unfolding bearer_token truthy
  bearer_token-of_header =
      rw header (ground (arith, second_part-Bearer t, until_space-of_NoSpace t h, eq_iff t ""))

  -- The guard lets a request through whose bearer token the provider accepts.
  pub admits_bearer :
      (validate : String → Result JwtClaims) (claims : JwtClaims)
      → validate t ≡ ok claims
      → jwt_can_activate validate req ≡ ok (attach claims req)
  unfolding jwt_can_activate
  admits_bearer validate claims accepted = rw (bearer_token-of_header, accepted)
