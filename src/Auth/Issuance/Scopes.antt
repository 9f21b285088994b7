-- ===== src/Auth/Issuance/Scopes.antt =====
-- What the issued scopes are good for.
use apicenter_hehe.Common.{
  String, ◌≡◌, refl, sym, ap, ◌∙◌, get_or, Bool, true, false, not, ◌||◌, ◌&&◌, Option, none, some,
  List, [], ◌∷◌, ◌++◌, arith, eq_iff, includes, includes-append, ◌⊎◌, ◌↔◌, inl, inr, Bool-cases,
}
use mathlib.Core.Path.{subst}
use apicenter_hehe.Common.Dict.{lookup}
use apicenter_hehe.Errors.{Result, ok}
use apicenter_hehe.Registry.Types.{ServiceRegistryEntry}
use apicenter_hehe.Registry.State.{RegistryService}
use apicenter_hehe.Registry.Lookups.{get, get_required_scopes, can_consume}
use apicenter_hehe.Auth.Service.{JwtClaims, merge_caller_scopes, check_scopes, check_scopes-nil_iff}
use apicenter_hehe.Auth.Issuance.{
  target_scopes, issue_for, IssuedToken, TokenRequestDto, TokenData, fresh_from, unique,
  consumable_scopes, token_scopes, issue_token,
}

includes-fresh_from :
    (seen xs : List String) (s : String)
    → includes (fresh_from seen xs) s ≡ (not (includes seen s) && includes xs s)
unfolding includes fresh_from
includes-fresh_from seen [] s = ground arith
includes-fresh_from seen (x ∷ xs) s =
    ground (arith, eq_iff x s, includes-fresh_from seen xs s, includes-fresh_from (x ∷ seen) xs s)

includes_head : (x : String) (xs : List String) → includes (x ∷ xs) x ≡ true
unfolding includes
includes_head x xs = ground (arith, eq_iff x x)

pub includes-unique : (xs : List String) (s : String) → includes (unique xs) s ≡ includes xs s
unfolding unique includes
includes-unique xs s = includes-fresh_from [] xs s

-- No text stands twice.
abbrev pub NoRepeats : List String → Type 0
NoRepeats [] = Unit
NoRepeats (x ∷ xs) = (includes xs x ≡ false) × NoRepeats xs

NoRepeats-fresh_from : (seen xs : List String) → NoRepeats (fresh_from seen xs)
unfolding fresh_from
NoRepeats-fresh_from seen [] = tt
NoRepeats-fresh_from seen (x ∷ xs) = ground (
  arith,
  NoRepeats-fresh_from seen xs,
  NoRepeats-fresh_from (x ∷ seen) xs,
  includes-fresh_from (x ∷ seen) xs x,
  includes_head x seen,
)

includes-consumable :
    (ids : List String) (r : RegistryService) (id s : String)
    → includes ids id ≡ true
    → includes (get_required_scopes id r) s ≡ true
    → includes (consumable_scopes ids r) s ≡ true
unfolding includes consumable_scopes get_required_scopes
includes-consumable [] r id s h k = cc h
includes-consumable (i ∷ ids) r id s h k = ground (
  arith,
  eq_iff i id,
  includes-append (target_scopes (get i r)) (consumable_scopes ids r) s,
  includes-consumable ids r id s,
)

-- A target among these services that is registered and requires the scope.
abbrev RequiredBy : List String → RegistryService → String → Type 0
RequiredBy ids r s =
    (target : String) × (e : ServiceRegistryEntry) × (includes ids target ≡ true)
    × (lookup target r.services ≡ some e)
    × (includes e.required_scopes s ≡ true)

-- The ways in which a service earns a scope: it requires the scope itself, or a registered target that
-- it consumes does.
abbrev pub IsEarned : ServiceRegistryEntry → RegistryService → String → Type 0
IsEarned service r s = (includes service.required_scopes s ≡ true) ⊎ RequiredBy service.consumes r s

target-requires :
    (o : Option ServiceRegistryEntry) (s : String)
    → includes (target_scopes o) s ≡ true
    → (e : ServiceRegistryEntry) × (o ≡ some e) × (includes e.required_scopes s ≡ true)
unfolding includes
target-requires none s h = absurd (cc h)
target-requires (some e) s h = (e, refl, h)

consumable-RequiredBy :
    (ids : List String) (r : RegistryService) (s : String)
    → includes (consumable_scopes ids r) s ≡ true
    → RequiredBy ids r s
unfolding includes consumable_scopes get
consumable-RequiredBy [] r s h = absurd (cc h)
consumable-RequiredBy (i ∷ ids) r s h =
    elim (Bool-cases (includes (target_scopes (lookup i r.services)) s)) [
      | inl its ↦
          let (e, there, required) = target-requires (lookup i r.services) s its in
          (i, e, includes_head i ids, there, required)
      | inr other ↦
          let (target, e, among, there, required) = consumable-RequiredBy ids r s (
            ground (
              arith,
              includes-append (target_scopes (lookup i r.services)) (consumable_scopes ids r) s,
            )) in
          (target, e, ground (arith, eq_iff i target), there, required)
    ]

includes-token_scopes :
    (service : ServiceRegistryEntry) (r : RegistryService) (s : String)
    → includes (token_scopes service r) s
      ≡ (includes service.required_scopes s || includes (consumable_scopes service.consumes r) s)
unfolding token_scopes
includes-token_scopes service r s =
    includes-unique (service.required_scopes ++ consumable_scopes service.consumes r) s
    ∙ includes-append service.required_scopes (consumable_scopes service.consumes r) s

or_right : (a b : Bool) → b ≡ true → (a || b) ≡ true
or_right a b h = ground arith

IsEarned-iff :
    (service : ServiceRegistryEntry) (r : RegistryService) (s : String)
    → (includes (token_scopes service r) s ≡ true) ↔ IsEarned service r s
unfolding get_required_scopes
IsEarned-iff service r s = (
  λ h. elim (Bool-cases (includes service.required_scopes s)) [
    | inl own ↦ inl own
    | inr other ↦ inr (
        consumable-RequiredBy service.consumes r s
          (ground (arith, includes-token_scopes service r s)))
  ],
  λ h. includes-token_scopes service r s ∙ elim h [
    | inl own ↦ rw own refl
    | inr (target, e, among, there, required) ↦
        or_right _ _ (includes-consumable service.consumes r target s among (rw there required))
  ],
)

NoRepeats-token_scopes :
    (service : ServiceRegistryEntry) (r : RegistryService) → NoRepeats (token_scopes service r)
unfolding token_scopes unique
NoRepeats-token_scopes service r = NoRepeats-fresh_from [] _

caller_has :
    (claims : JwtClaims) (scopes : List String) (s : String)
    → claims.scopes ≡ some scopes
    → includes scopes s ≡ true
    → includes (merge_caller_scopes (some claims)) s ≡ true
unfolding merge_caller_scopes
caller_has claims scopes s carried h =
    rw carried (ground (arith, includes-append scopes (get_or claims.permissions []) s))

consumes_of_can_consume :
    (source target : String) (r : RegistryService) (service : ServiceRegistryEntry)
    → lookup source r.services ≡ some service
    → can_consume source target r ≡ true
    → includes service.consumes target ≡ true
unfolding can_consume
consumes_of_can_consume source target r service there may = rw there at may

module _ (valid : String → String → Bool)
    (issue : String → List String → List String → Result IssuedToken) where
  issue_for_sound :
      (o : Option ServiceRegistryEntry) (dto : TokenRequestDto) (r : RegistryService)
      (d : TokenData)
      → issue_for valid issue o dto r ≡ ok d
      → (service : ServiceRegistryEntry) × (o ≡ some service)
        × (valid dto.tribe_id dto.secret ≡ true)
        × (d.scopes ≡ token_scopes service r)
        × (d.tribe_id ≡ dto.tribe_id)
  issue_for_sound none dto r d h = absurd (cc h)
  issue_for_sound (some service) dto r d h =
      (service, refl, ground arith, ground arith, ground arith)

  issued_for :
      (dto : TokenRequestDto) (r : RegistryService) (d : TokenData)
      → issue_token valid issue dto r ≡ ok d
      → (service : ServiceRegistryEntry) × (lookup dto.tribe_id r.services ≡ some service)
        × (valid dto.tribe_id dto.secret ≡ true)
        × (d.scopes ≡ token_scopes service r)
  unfolding issue_token
  issued_for dto r d h =
      let (service, there, shown, scopes, same) =
        issue_for_sound (lookup dto.tribe_id r.services) dto r d h in
      (service, there, shown, scopes)

  -- A token is issued only to a registered service that shows its secret, and its scopes hold none
  -- twice: a scope is among them exactly when the service itself requires it or a target that the
  -- service consumes does, as registered at that time.
  pub issued_scopes :
      (dto : TokenRequestDto) (r : RegistryService) (d : TokenData)
      → issue_token valid issue dto r ≡ ok d
      → (service : ServiceRegistryEntry) × (lookup dto.tribe_id r.services ≡ some service)
        × (valid dto.tribe_id dto.secret ≡ true)
        × NoRepeats d.scopes
        × ((s : String) → (includes d.scopes s ≡ true) ↔ IsEarned service r s)
  issued_scopes dto r d h =
      let (service, there, shown, scopes) = issued_for dto r d h in
      (
        service,
        there,
        shown,
        subst NoRepeats (sym scopes) (NoRepeats-token_scopes service r),
        λ s.
            subst (λ xs. (includes xs s ≡ true) ↔ IsEarned service r s) (sym scopes)
              (IsEarned-iff service r s),
      )

  issue_for_issues :
      (o : Option ServiceRegistryEntry) (dto : TokenRequestDto) (r : RegistryService)
      (d : TokenData)
      → issue_for valid issue o dto r ≡ ok d
      → issue dto.tribe_id d.permissions d.scopes ≡ ok d.token
  issue_for_issues none dto r d h = absurd (cc h)
  issue_for_issues (some service) dto r d h = ground arith

  -- The token of the answer is the one that the provider gave for these permissions and scopes.
  pub issued_with :
      (dto : TokenRequestDto) (r : RegistryService) (d : TokenData)
      → issue_token valid issue dto r ≡ ok d
      → issue dto.tribe_id d.permissions d.scopes ≡ ok d.token
  unfolding issue_token
  issued_with dto r d h = issue_for_issues (lookup dto.tribe_id r.services) dto r d h

  -- End to end: a token that was issued to a service passes the proxy's scope check for every
  -- target that the service consumes, while the registry stays as it was at the time of issue.
  pub issued_token_suffices :
      (dto : TokenRequestDto) (r : RegistryService) (d : TokenData) (claims : JwtClaims)
      (target : String)
      → issue_token valid issue dto r ≡ ok d
      → claims.scopes ≡ some d.scopes
      → can_consume dto.tribe_id target r ≡ true
      → check_scopes (some claims) (get_required_scopes target r) ≡ []
  issued_token_suffices dto r d claims target h carried may =
      let (service, there, shown, scopes) = issued_for dto r d h in
      (check_scopes-nil_iff (some claims) (get_required_scopes target r)).1 λ s required.
        caller_has claims d.scopes s carried (
          ap (λ xs. includes xs s) scopes
          ∙ includes-token_scopes service r s
          ∙ or_right _ _ (
              includes-consumable service.consumes r target s
                (consumes_of_can_consume dto.tribe_id target r service there may) required))
