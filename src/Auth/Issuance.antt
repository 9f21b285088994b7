-- ===== src/Auth/Issuance.antt =====
-- auth/auth.controller.ts: `issueToken`. The event and the log line are left out.
pub mod Scopes
use Prim.Native.String
use apicenter_hehe.Common.{
  ℕ, String, Bool, true, false, not, Option, none, some, List, [], ◌∷◌, ◌++◌, ◌==◌, if◌then◌else◌,
  includes,
}
use apicenter_hehe.Common.Dict.{lookup}
use apicenter_hehe.Errors.{Error, app, not_found, unauthorized, Result, ok, err, guard, ◌>>=◌, ◌>>◌}
use apicenter_hehe.Registry.Types.{ServiceRegistryEntry}
use apicenter_hehe.Registry.State.{RegistryService}
use apicenter_hehe.Registry.Lookups.{get}

pub record IssuedToken : Type 0 where
  pub access_token : String
  pub refresh_token : Option String
  pub expires_in : ℕ

pub record TokenRequestDto : Type 0 where
  pub tribe_id : String
  pub secret : String

-- The field `data` of the response.
pub record TokenData : Type 0 where
  pub token : IssuedToken
  pub tribe_id : String
  pub permissions : List String
  pub scopes : List String

-- `[...new Set(xs)]`: the first of each, in order. `seen` is the set so far.
fresh_from : List String → List String → List String
fresh_from seen [] = []
fresh_from seen (x ∷ xs) =
    let skipped = fresh_from seen xs in
    let added = x ∷ fresh_from (x ∷ seen) xs in if includes seen x then skipped else added

unfoldable pub unique : List String → List String
unfolding fresh_from
unique xs = fresh_from [] xs

abbrev target_scopes : Option ServiceRegistryEntry → List String
target_scopes none = []
target_scopes (some target) = target.required_scopes

-- The loop over `service.consumes`.
unfoldable pub consumable_scopes : List String → RegistryService → List String
unfolding get
consumable_scopes [] r = []
consumable_scopes (id ∷ ids) r = target_scopes (get id r) ++ consumable_scopes ids r

unfoldable pub token_scopes : ServiceRegistryEntry → RegistryService → List String
token_scopes service r = unique (service.required_scopes ++ consumable_scopes service.consumes r)

abbrev tribe_permission : String → String → String
tribe_permission id what = String.◌++◌ "tribe:" (String.◌++◌ id (String.◌++◌ ":" what))

abbrev pub token_permissions : String → List String
token_permissions id =
    tribe_permission id "read" ∷ tribe_permission id "write" ∷ "external:read" ∷ []

-- `valid` is `RegistryService.validateSecret` and `issue` the provider's `issueToken`.
module _ (valid : String → String → Bool)
    (issue : String → List String → List String → Result IssuedToken) where
  abbrev issue_for :
      Option ServiceRegistryEntry → TokenRequestDto → RegistryService → Result TokenData
  issue_for none dto r = err (app (not_found (String.◌++◌ "Unknown service: " dto.tribe_id)))
  issue_for (some service) dto r = do
    guard (valid dto.tribe_id dto.secret) (app (unauthorized "Invalid credentials"))
    let scopes = token_scopes service r
    let permissions = token_permissions dto.tribe_id
    token ← issue dto.tribe_id permissions scopes
    ok (record {
      token = token;
      tribe_id = dto.tribe_id;
      permissions = permissions;
      scopes = scopes;
    })

  unfoldable pub issue_token : TokenRequestDto → RegistryService → Result TokenData
  unfolding get
  issue_token dto r = issue_for (get dto.tribe_id r) dto r
