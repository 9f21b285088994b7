-- ===== src/Proxy/Conditions.antt =====
-- What the tests of shared/proxy-handler.ts say: namespaces, scopes and the lifecycle gate.
use apicenter_hehe.Common.{
  String, ◌≡◌, ◌≢◌, refl, inl, inr, true, Option, some, List, [], ◌∷◌, arith, Option-cases, filter,
}
use apicenter_hehe.Errors.{ok, Result-cases}
use apicenter_hehe.Registry.Types.{
  ServiceLifecycleStatus, proposed, active, deprecated, ServiceRegistryEntry, retired, ServiceType,
  shared, tribe, type_eq, status_eq,
}
use apicenter_hehe.Auth.Service.{JwtClaims, check_scopes}
use apicenter_hehe.Auth.Guards.{AuthenticatedRequest}
use apicenter_hehe.Proxy.Gate.{Header, enforce_lifecycle_gate}
use apicenter_hehe.Proxy.{is_empty, missing_scopes}

pub type_eq_sound : (a b : ServiceType) → type_eq a b ≡ true → a ≡ b
unfolding type_eq
type_eq_sound shared shared h = refl
type_eq_sound tribe tribe h = refl
type_eq_sound shared tribe h = ground arith
type_eq_sound tribe shared h = ground arith

pub type_eq_refl : (a : ServiceType) → type_eq a a ≡ true
unfolding type_eq
type_eq_refl shared = refl
type_eq_refl tribe = refl

pub nil_of_is_empty {ℓ} : {A : Type ℓ} (xs : List A) → is_empty xs ≡ true → xs ≡ []
nil_of_is_empty [] h = refl
nil_of_is_empty (x ∷ xs) h = ground arith

pub check_scopes-nil : (user : Option JwtClaims) → check_scopes user [] ≡ []
unfolding check_scopes filter
check_scopes-nil user = refl

-- The scopes that the code asks for are there.
pub scoped_of_empty :
    (req : AuthenticatedRequest) (required : List String)
    → is_empty (missing_scopes req required) ≡ true
    → (claims : JwtClaims) → req.user ≡ some claims
    → check_scopes (some claims) required ≡ []
unfolding missing_scopes
scoped_of_empty req [] none_missing claims user = check_scopes-nil (some claims)
scoped_of_empty req (s ∷ required) none_missing claims user =
    nil_of_is_empty (check_scopes (some claims) (s ∷ required)) (ground arith)

pub empty_of_scoped :
    (req : AuthenticatedRequest) (required : List String)
    → ((claims : JwtClaims) → req.user ≡ some claims → check_scopes (some claims) required ≡ [])
    → is_empty (missing_scopes req required) ≡ true
unfolding missing_scopes
empty_of_scoped req required scoped = elim (Option-cases req.user) [
  | inl anonymous ↦ ground arith
  | inr (claims, user) ↦ ground (arith, scoped claims user)
]

pub retired_of_test : (s : ServiceLifecycleStatus) → status_eq s retired ≡ true → s ≡ retired
unfolding status_eq
retired_of_test proposed h = ground arith
retired_of_test active h = ground arith
retired_of_test deprecated h = ground arith
retired_of_test retired h = refl

-- The gate lets all but a retired service through.
pub gate-open :
    (ns : ServiceType) (id : String) (e : ServiceRegistryEntry)
    → e.status ≢ retired
    → (headers : List Header) × (enforce_lifecycle_gate ns id (some e) ≡ ok headers)
unfolding enforce_lifecycle_gate status_eq
gate-open ns id e alive = elim (Result-cases (enforce_lifecycle_gate ns id (some e))) [
  | inl (headers, opened) ↦ (headers, opened)
  | inr (e', refused) ↦ absurd (alive (retired_of_test e.status ground arith))
]

pub gate-closed :
    (ns : ServiceType) (id : String) (e : ServiceRegistryEntry) (headers : List Header)
    → enforce_lifecycle_gate ns id (some e) ≡ ok headers
    → e.status ≢ retired
unfolding enforce_lifecycle_gate status_eq
gate-closed ns id e headers opened is_retired = ground arith
