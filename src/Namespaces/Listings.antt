-- ===== src/Namespaces/Listings.antt =====
-- What the listings of the two namespaces show of the registry.
use mathlib.Core.Path.{subst}
use apicenter_hehe.Common.{
  ℕ, String, ◌≡◌, ◌≢◌, refl, sym, true, false, not, ◌&&◌, ◌⊎◌, inl, inr, Option, none, some, List,
  [], ◌∷◌, map, arith, eq_iff, length, filter, get_or, if◌then◌else◌, ◌==◌,
}
use apicenter_hehe.Common.Dict.{lookup, values}
use apicenter_hehe.Registry.Types.{
  ServiceRegistryEntry, ServiceRegistryMap, ServiceType, tribe, shared, type_eq, retired, active,
  proposed, deprecated, ServiceLifecycleStatus, status_eq,
}
use apicenter_hehe.Registry.State.{RegistryService}
use apicenter_hehe.Registry.Lookups.{get_by_type}
use apicenter_hehe.Registry.Registration.Coherence.{IsWellFormed, Keyed}
use apicenter_hehe.Common.Dict.{Distinct}
use apicenter_hehe.Auth.Guards.{AuthenticatedRequest}
use apicenter_hehe.Proxy.{ProxyHandler}
use apicenter_hehe.Proxy.Listing.{Listing, list_services}
use apicenter_hehe.Namespaces.{
  tribes_controller, shared_services_controller, list_tribes, list_shared_services,
}

-- How many lines of a listing are about a service.
abbrev pub times : String → List Listing → ℕ
times id lines = length (filter (λ l. l.service_id == id) lines)

abbrev live_of : ServiceType → List ServiceRegistryEntry → List ServiceRegistryEntry
live_of t es =
    filter (λ e. not (status_eq e.status retired))
      (filter (λ e. type_eq (get_or e.service_type tribe) t) es)

abbrev lines_for : ServiceType → Option ServiceRegistryEntry → ℕ
lines_for t none = 0
lines_for t (some e) =
    if type_eq (get_or e.service_type tribe) t && not (status_eq e.status retired) then 1 else 0

module _ (line : ServiceRegistryEntry → Listing) (t : ServiceType) (id : String)
    (same : (e : ServiceRegistryEntry) → (line e).service_id ≡ e.service_id) where
  times-live_of :
      (m : ServiceRegistryMap)
      → Distinct m
      → Keyed m
      → times id (map line (live_of t (values m))) ≡ lines_for t (lookup id m)
  unfolding lookup values filter
  times-live_of [] d k = refl
  times-live_of ((i, e) ∷ m) d k =
      ground (arith, same e, eq_iff i id, eq_iff (line e).service_id id, times-live_of m d.1 k.1)

times-list_services :
    (caller : Option String) (r : RegistryService) (h : ProxyHandler) (id : String)
    → IsWellFormed r.services
    → times id (list_services caller r h) ≡ lines_for h.namespace (lookup id r.services)
unfolding list_services get_by_type
times-list_services caller r h id w =
    times-live_of _ h.namespace id (λ e. refl) r.services w.distinct w.keyed

-- How often a service stands in the listing of the tribes and in that of the shared services. A
-- missing type is that of a tribe.
pub data IsListed : Option ServiceRegistryEntry → ℕ → ℕ → Type 0 where
  unregistered : IsListed none 0 0
  gone : (e : ServiceRegistryEntry) → e.status ≡ retired → IsListed (some e) 0 0
  as_tribe :
      (e : ServiceRegistryEntry)
      → e.status ≢ retired
      → (e.service_type ≡ none) ⊎ (e.service_type ≡ some tribe)
      → IsListed (some e) 1 0
  as_shared :
      (e : ServiceRegistryEntry)
      → e.status ≢ retired
      → e.service_type ≡ some shared
      → IsListed (some e) 0 1

status_cases :
    (s : ServiceLifecycleStatus)
    → ((s ≡ retired) × (status_eq s retired ≡ true))
      ⊎ ((s ≢ retired) × (status_eq s retired ≡ false))
unfolding status_eq
status_cases retired = inl (refl, refl)
status_cases proposed = inr (λ h. cc h, refl)
status_cases active = inr (λ h. cc h, refl)
status_cases deprecated = inr (λ h. cc h, refl)

type_cases :
    (o : Option ServiceType)
    → (((o ≡ none) ⊎ (o ≡ some tribe)) × (get_or o tribe ≡ tribe))
      ⊎ ((o ≡ some shared) × (get_or o tribe ≡ shared))
type_cases none = inl (inl refl, refl)
type_cases (some tribe) = inl (inr refl, refl)
type_cases (some shared) = inr (refl, refl)

lines_for-IsListed :
    (o : Option ServiceRegistryEntry) → IsListed o (lines_for tribe o) (lines_for shared o)
unfolding type_eq
lines_for-IsListed none = unregistered
lines_for-IsListed (some e) = elim (status_cases e.status) [
  | inl (dead, test) ↦ elim (type_cases e.service_type) [
    | inl (its, type) ↦ rw (test, type) (gone e dead)
    | inr (its, type) ↦ rw (test, type) (gone e dead)
  ]
  | inr (live, test) ↦ elim (type_cases e.service_type) [
    | inl (its, type) ↦ rw (test, type) (as_tribe e live its)
    | inr (its, type) ↦ rw (test, type) (as_shared e live its)
  ]
]

-- In a well-formed registry, whoever asks: a registered service that is not retired has one line in
-- the listing of its namespace, that of the tribes where it has no type, and none in the other. A
-- retired service and one that is not registered have none.
pub listings_cover :
    (req req' : AuthenticatedRequest) (r : RegistryService) (id : String)
    → IsWellFormed r.services
    → IsListed
        (lookup id r.services)
        (times id (list_tribes req r tribes_controller).data_listed)
        (times id (list_shared_services req' r shared_services_controller).data_listed)
unfolding list_tribes list_shared_services tribes_controller shared_services_controller
listings_cover req req' r id w =
    subst
      (IsListed (lookup id r.services) (times id (list_services req.tribe_id r tribes_controller)))
      (sym (times-list_services req'.tribe_id r shared_services_controller id w))
      (subst (λ n. IsListed (lookup id r.services) n (lines_for shared (lookup id r.services)))
        (sym (times-list_services req.tribe_id r tribes_controller id w))
        (lines_for-IsListed (lookup id r.services)))
