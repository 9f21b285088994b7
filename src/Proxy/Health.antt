-- ===== src/Proxy/Health.antt =====
-- The health flag of the registry and the requests of shared/proxy-handler.ts.
use apicenter_hehe.Common.{
  ℕ, String, ◌≡◌, ◌⊎◌, true, refl, Bool, Option, none, some, arith, eq_iff, Bool-cases, inl, inr,
  List, truthy, ap, ◌∙◌, Option-cases, get_or,
}
use apicenter_hehe.Common.Dict.{lookup, lookup-insert}
use apicenter_hehe.Errors.{Result, ok, err}
use apicenter_hehe.Registry.Types.{ServiceRegistryEntry, ServiceType}
use apicenter_hehe.Registry.State.{RegistryService}
use apicenter_hehe.Registry.Lifecycle.{put}
use apicenter_hehe.Registry.Lookups.{get, can_consume, get_required_scopes, resolve_upstream}
use apicenter_hehe.Registry.Health.{bool_eq, checked_entry, set_health_status}
use apicenter_hehe.Auth.Guards.{AuthenticatedRequest}
use apicenter_hehe.Proxy.Gate.{Header, enforce_lifecycle_gate}
use apicenter_hehe.Proxy.{
  ProxyHandler, type_of, proxy_request, gated, check_entry, check_access, check_upstream,
}

-- What `proxyRequest` reads of the registry.
record SameView (id source : String) (ns : ServiceType) (r r' : RegistryService) : Type 0 where
  upstream : resolve_upstream id "" r' ≡ resolve_upstream id "" r
  typed : type_of (get id r') ≡ type_of (get id r)
  gate : enforce_lifecycle_gate ns id (get id r') ≡ enforce_lifecycle_gate ns id (get id r)
  consumes : can_consume source id r' ≡ can_consume source id r
  scopes : get_required_scopes id r' ≡ get_required_scopes id r

module _ (middleware : String → Bool) (time : ℕ) (id : String) (req : AuthenticatedRequest)
    (h : ProxyHandler) (r r' : RegistryService)
    (v : SameView id (get_or req.tribe_id "undefined") h.namespace r r') where
  check_access-cong :
      (headers : List Header) (upstream : String)
      → check_access middleware time headers id upstream req r' h
        ≡ check_access middleware time headers id upstream req r h
  check_access-cong headers upstream = rw (v.consumes, v.scopes) refl

  gated-cong :
      (g g' : Result (List Header)) (upstream : String)
      → g' ≡ g
      → gated middleware g' time id upstream req r' h ≡ gated middleware g time id upstream req r h
  gated-cong (err e) g' upstream same = rw same refl
  gated-cong (ok headers) g' upstream same = rw same (check_access-cong headers upstream)

  check_entry-cong :
      (upstream : String)
      → check_entry middleware (get id r') time id upstream req r' h
        ≡ check_entry middleware (get id r) time id upstream req r h
  check_entry-cong upstream = ground (
    arith,
    v.typed,
    gated-cong (enforce_lifecycle_gate h.namespace id (get id r))
        (enforce_lifecycle_gate h.namespace id (get id r')) upstream v.gate,
  )

  check_upstream-cong :
      (o : Option String)
      → check_upstream middleware o time id req r' h ≡ check_upstream middleware o time id req r h
  check_upstream-cong none = refl
  check_upstream-cong (some upstream) = elim (Bool-cases (truthy upstream)) [
    | inl named ↦ rw named (check_entry-cong upstream)
    | inr unnamed ↦ rw unnamed refl
  ]

  proxy_request-cong :
      proxy_request middleware time id req r' h ≡ proxy_request middleware time id req r h
  unfolding proxy_request
  proxy_request-cong =
      ap (λ o. check_upstream middleware o time id req r' h) v.upstream
      ∙ check_upstream-cong (resolve_upstream id "" r)

put-SameView :
    (now id : String) (healthy : Bool) (e : ServiceRegistryEntry) (r : RegistryService)
    (id' source : String) (ns : ServiceType)
    → lookup id r.services ≡ some e
    → SameView id' source ns r (put id (checked_entry now healthy e) r)
unfolding resolve_upstream get can_consume get_required_scopes checked_entry enforce_lifecycle_gate
put-SameView now id healthy e r id' source ns there =
    let here = lookup-insert id id' (checked_entry now healthy e) r.services in
    let from = lookup-insert id source (checked_entry now healthy e) r.services in
    record {
      upstream = ground (arith, eq_iff id id');
      typed = ground (arith, eq_iff id id');
      gate = ground (arith, eq_iff id id');
      consumes = ground (arith, eq_iff id source);
      scopes = ground (arith, eq_iff id id');
    }

set_health-cases :
    (now id : String) (healthy : Bool) (r : RegistryService)
    → ((set_health_status now id healthy r).1 ≡ r)
      ⊎ ((e : ServiceRegistryEntry) × (lookup id r.services ≡ some e)
          × ((set_health_status now id healthy r).1.services
              ≡ (put id (checked_entry now healthy e) r).services))
unfolding set_health_status
set_health-cases now id healthy r = elim (Option-cases (lookup id r.services)) [
  | inl absent ↦ inl ground arith
  | inr (e, there) ↦ elim (Bool-cases (bool_eq (get_or e.healthy true) healthy)) [
    | inl same ↦ inl ground arith
    | inr differs ↦ inr (e, there, ground arith)
  ]
]

view-services :
    (id source : String) (ns : ServiceType) (r r' r'' : RegistryService)
    → SameView id source ns r r'
    → r''.services ≡ r'.services
    → SameView id source ns r r''
unfolding resolve_upstream get can_consume get_required_scopes
view-services id source ns r r' r'' v same = record {
  upstream = rw same v.upstream;
  typed = rw same v.typed;
  gate = rw same v.gate;
  consumes = rw same v.consumes;
  scopes = rw same v.scopes;
}

-- The health flag does not matter to a request: whatever a health check reports of any service,
-- `proxyRequest` answers as before, with the same headers, target and error, and leaves its handler
-- in the same state.
pub health_is_ignored :
    (middleware : String → Bool) (time : ℕ) (now checked id : String) (healthy : Bool)
    (req : AuthenticatedRequest) (r : RegistryService) (h : ProxyHandler)
    → proxy_request middleware time id req (set_health_status now checked healthy r).1 h
      ≡ proxy_request middleware time id req r h
health_is_ignored middleware time now checked id healthy req r h =
    elim (set_health-cases now checked healthy r) [
      | inl same ↦ ap (λ r'. proxy_request middleware time id req r' h) same
      | inr (e, there, same) ↦
          proxy_request-cong middleware time id req h r (set_health_status now checked healthy r).1
            (view-services id (get_or req.tribe_id "undefined") h.namespace r
              (put checked (checked_entry now healthy e) r)
              (set_health_status now checked healthy r).1
              (put-SameView now checked healthy e r id (get_or req.tribe_id "undefined") h.namespace
                there)
              same)
    ]
