-- ===== src/Proxy/Sunset.antt =====
-- What shared/proxy-handler.ts answers for a service that is deprecated or retired, and what it lists.
use apicenter_hehe.Common.{
  ℕ, String, ◌≡◌, ◌≢◌, refl, Bool, true, not, Option, some, List, [], ◌∷◌, arith, eq_refl,
  Option-cases, inl, inr, Bool-cases, All, All-map, filter, truthy, truthy?, get_or,
}
use apicenter_hehe.Common.Dict.{lookup, lookup-insert, values}
use apicenter_hehe.Errors.{app, gone, ok}
use apicenter_hehe.Registry.Types.{
  ServiceRegistryEntry, deprecated, retired, ServiceType, tribe, type_eq, status_eq,
}
use apicenter_hehe.Registry.State.{RegistryService}
use apicenter_hehe.Registry.Lifecycle.{
  overwrite, retire, retired_entry, deprecate, deprecated_entry,
}
use apicenter_hehe.Registry.Lookups.{get, get_by_type}
use apicenter_hehe.Auth.Guards.{AuthenticatedRequest}
use apicenter_hehe.Proxy.Gate.{gone_message, enforce_lifecycle_gate, successor, deprecation, sunset}
use apicenter_hehe.Proxy.{ProxyHandler, rejected, proxy_request}
use apicenter_hehe.Proxy.Conditions.{type_eq_sound, type_eq_refl}
use apicenter_hehe.Proxy.Access.{IsAllowed, ok_of_Passes, Passes-of_allowed, resolved_at}
use apicenter_hehe.Proxy.Listing.{list_services}

retired_at :
    (now id : String) (r : RegistryService) (e : ServiceRegistryEntry)
    → lookup id r.services ≡ some e
    → lookup id (retire now id r).1.services ≡ some (retired_entry now e)
unfolding retire
retired_at now id r e there =
    ground (arith, lookup-insert id id (retired_entry now e) r.services, eq_refl id)

gate_of_retired :
    (middleware : String → Bool) (time : ℕ) (id : String) (req : AuthenticatedRequest)
    (r : RegistryService) (h : ProxyHandler) (e : ServiceRegistryEntry)
    → lookup id r.services ≡ some e
    → e.status ≡ retired
    → truthy e.base_url ≡ true
    → get_or e.service_type tribe ≡ h.namespace
    → proxy_request middleware time id req r h
      ≡ rejected [] (app (gone (gone_message id e.replacement_service))) h
unfolding proxy_request get enforce_lifecycle_gate status_eq
gate_of_retired middleware time id req r h e there status named same =
    ground (arith, resolved_at middleware time id req r h e there, type_eq_refl h.namespace)

-- After `retire`, every request for the service through the handler of its namespace is answered
-- with 410 and the replacement, whoever asks, and the handler does not change.
pub retired_is_gone :
    (middleware : String → Bool) (time : ℕ) (now id : String) (req : AuthenticatedRequest)
    (r : RegistryService) (h : ProxyHandler) (e : ServiceRegistryEntry)
    → lookup id r.services ≡ some e
    → truthy e.base_url ≡ true
    → get_or e.service_type tribe ≡ h.namespace
    → proxy_request middleware time id req (retire now id r).1 h
      ≡ rejected [] (app (gone (gone_message id e.replacement_service))) h
unfolding retired_entry
retired_is_gone middleware time now id req r h e there named same =
    gate_of_retired middleware time id req (retire now id r).1 h (retired_entry now e)
      (retired_at now id r e there) refl named same

deprecated-eq :
    (now id date replacement : String) (r : RegistryService) (e : ServiceRegistryEntry)
    → (deprecate now id (some date) (some replacement) r).0 ≡ ok e
    → (e₀ : ServiceRegistryEntry) × (deprecated_entry now (some date) (some replacement) e₀ ≡ e)
unfolding deprecate
deprecated-eq now id date replacement r e done = elim (Option-cases (lookup id r.services)) [
  | inl absent ↦ ground arith
  | inr (e₀, there) ↦ elim (Bool-cases (status_eq e₀.status retired)) [
    | inl dead ↦ ground arith
    | inr alive ↦ (e₀, ground arith)
  ]
]

deprecated-fields :
    (now date replacement : String) (e : ServiceRegistryEntry)
    → truthy date ≡ true
    → truthy replacement ≡ true
    → ((deprecated_entry now (some date) (some replacement) e).status ≡ deprecated)
      × ((deprecated_entry now (some date) (some replacement) e).sunset_date ≡ some date)
      × ((deprecated_entry now (some date) (some replacement) e).replacement_service
          ≡ some replacement)
unfolding deprecated_entry overwrite truthy?
deprecated-fields now date replacement e dated named = (refl, rw dated refl, rw named refl)

deprecated_at :
    (now id date replacement : String) (r : RegistryService) (e : ServiceRegistryEntry)
    → (deprecate now id (some date) (some replacement) r).0 ≡ ok e
    → truthy date ≡ true
    → truthy replacement ≡ true
    → (e.status ≡ deprecated)
      × (e.sunset_date ≡ some date)
      × (e.replacement_service ≡ some replacement)
deprecated_at now id date replacement r e done dated named =
    let (e₀, same) = deprecated-eq now id date replacement r e done in
    let (status, to, by) = deprecated-fields now date replacement e₀ dated named in
    (rw (← same) status, rw (← same) to, rw (← same) by)

-- After a `deprecate` with a sunset date and a replacement, a request that `IsAllowed` lets through is
-- still forwarded if the middleware works, and its response announces the deprecation, the sunset date and the successor
-- in the namespace of the handler.
pub deprecated_is_announced :
    (middleware : String → Bool) (time : ℕ) (now id date replacement : String)
    (req : AuthenticatedRequest) (r : RegistryService) (h : ProxyHandler) (e : ServiceRegistryEntry)
    → (deprecate now id (some date) (some replacement) r).0 ≡ ok e
    → truthy date ≡ true
    → truthy replacement ≡ true
    → IsAllowed time id req (deprecate now id (some date) (some replacement) r).1 h e
    → middleware (get_or (lookup id h.proxy_cache) e.base_url) ≡ true
    → (proxy_request middleware time id req
        (deprecate now id (some date) (some replacement) r).1
        h).0
      ≡ record {
        headers = deprecation ∷ (sunset date ∷ (successor h.namespace replacement ∷ []));
        outcome = ok (get_or (lookup id h.proxy_cache) e.base_url);
      }
unfolding get enforce_lifecycle_gate status_eq
deprecated_is_announced middleware time now id date replacement req r h e done dated named allowed
      works =
    let (status, to, by) = deprecated_at now id date replacement r e done dated named in
    let r' = (deprecate now id (some date) (some replacement) r).1 in
    let there = allowed.registered in
    let headers = deprecation ∷ (sunset date ∷ (successor h.namespace replacement ∷ [])) in
    let opened : enforce_lifecycle_gate h.namespace id (get id r') ≡ ok headers = ground arith in
    let (target, set) =
      ok_of_Passes middleware time id req r' h e.base_url headers
        (Passes-of_allowed middleware time id req r' h e allowed) opened works in
    ground arith

type_eq_of_tests :
    (ns : ServiceType) (xs : List ServiceRegistryEntry)
    → All
        (λ e. (e.status ≢ retired) × (get_or e.service_type tribe ≡ ns))
        (filter
          (λ e. not (status_eq e.status retired))
          (filter (λ e. type_eq (get_or e.service_type tribe) ns) xs))
unfolding filter status_eq
type_eq_of_tests ns [] = tt
type_eq_of_tests ns (e ∷ xs) =
    ground (arith, type_eq_sound (get_or e.service_type tribe) ns, type_eq_of_tests ns xs)

-- `GET` of a namespace lists no retired service and none of the other namespace.
listed_are_live :
    (caller : Option String) (r : RegistryService) (h : ProxyHandler)
    → All (λ l. (l.status ≢ retired) × (l.service_type ≡ h.namespace)) (list_services caller r h)
unfolding list_services get_by_type
listed_are_live caller r h =
    All-map _ _ (λ l. (l.status ≢ retired) × (l.service_type ≡ h.namespace)) (λ e held. held) _
      (type_eq_of_tests h.namespace (values r.services))
