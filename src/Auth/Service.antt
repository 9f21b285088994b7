-- ===== src/Auth/Service.antt =====
-- auth/auth.service.ts: `mergeCallerScopes`, `authorize` and `checkScopes`, and the claims of
-- auth/auth-provider.interface.ts (without the claims that are only passed through).
use Prim.Native.String
use apicenter_hehe.Common.{
  ℕ, String, ◌≡◌, ◌↔◌, refl, Bool, true, not, Option, none, some, List, [], ◌∷◌, ◌++◌, ◌==◌, arith,
  eq_iff, eq_refl, if◌then◌else◌, filter, includes, get_or, ◌||◌,
}
use apicenter_hehe.Errors.{app, forbidden, Result, ok, err}

pub record JwtClaims : Type 0 where
  pub sub : String
  pub tribe_id : Option String
  pub permissions : Option (List String)
  pub scopes : Option (List String)
  pub exp : Option ℕ

-- The optional fields that the merge reads; no claims stand for the empty object.
unfoldable pub merge_caller_scopes : Option JwtClaims → List String
merge_caller_scopes none = []
merge_caller_scopes (some c) = get_or c.scopes [] ++ get_or c.permissions []

unfoldable pub authorize : Option JwtClaims → String → Result (Unit {0})
authorize user permission =
    if includes (merge_caller_scopes user) permission
    then ok tt
    else err (app (forbidden (String.◌++◌ "Missing permission: '" (String.◌++◌ permission "'"))))

-- The required scopes that the caller lacks.
unfoldable pub check_scopes : Option JwtClaims → List String → List String
check_scopes user required = filter (λ s. not (includes (merge_caller_scopes user) s)) required

module _ (p : String → Bool) where
  missing_none :
      (xs : List String)
      → ((s : String) → includes xs s ≡ true → p s ≡ true)
      → filter (λ s. not (p s)) xs ≡ []
  unfolding filter includes
  missing_none [] h = refl
  missing_none (x ∷ xs) h =
      ground
        (arith, h x, eq_refl x, missing_none xs (λ s q. h s (or_true (x == s) (includes xs s) q)))
    where
      or_true : (a b : Bool) → b ≡ true → (a || b) ≡ true
      or_true a b q = ground arith

  none_missing :
      (xs : List String)
      → filter (λ s. not (p s)) xs ≡ []
      → (s : String) → includes xs s ≡ true
      → p s ≡ true
  unfolding filter includes
  none_missing [] e s h = cc
  none_missing (x ∷ xs) e s h =
      ground (arith, eq_iff x s, none_missing xs, none_missing xs (ground arith) s)

-- No scope is missing exactly when every required scope is among the caller's scopes and
-- permissions.
pub check_scopes-nil_iff :
    (user : Option JwtClaims) (required : List String)
    → (check_scopes user required ≡ [])
      ↔ ((s : String) → includes required s ≡ true → includes (merge_caller_scopes user) s ≡ true)
unfolding check_scopes
check_scopes-nil_iff user required = (
  none_missing (includes (merge_caller_scopes user)) required,
  missing_none (includes (merge_caller_scopes user)) required,
)
