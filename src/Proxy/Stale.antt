-- ===== src/Proxy/Stale.antt =====
-- When the cached middleware of shared/proxy-handler.ts follows the base URL of the registry.
use apicenter_hehe.Common.{
  ℕ, String, ◌≡◌, ◌∙◌, refl, Bool, Option, none, some, List, ◌∷◌, arith, eq_refl, if◌then◌else◌,
}
use apicenter_hehe.Common.Dict.{lookup, lookup-remove}
use apicenter_hehe.Errors.{ok}
use apicenter_hehe.Registry.Types.{ServiceManifest, ServiceRegistryEntry}
use apicenter_hehe.Registry.State.{RegistryService, acknowledged}
use apicenter_hehe.Registry.Registration.{admit, new_entry, stored, is_some, register, deregister}
use apicenter_hehe.Registry.Registration.Parts.{announced-invalidated, stored-services}
use apicenter_hehe.Registry.Registration.Governance.{register_stores}
use apicenter_hehe.Auth.Guards.{AuthenticatedRequest}
use apicenter_hehe.Proxy.{ProxyHandler, listen, proxy_request}
use apicenter_hehe.Proxy.Access.{proxy_sound}

register-invalidated :
    (now : String) (m : ServiceManifest) (r : RegistryService)
    → admit (lookup m.service_id r.services) m ≡ ok tt
    → (register now acknowledged m r).1.invalidated ≡ (
        if is_some (lookup m.service_id r.services)
        then m.service_id ∷ r.invalidated
        else r.invalidated)
unfolding register
register-invalidated now m r a = rw a (
    ground (
      arith,
      announced-invalidated now (lookup m.service_id r.services) m (stored now m r),
      stored-services now m r,
    ))

registered_at :
    (now : String) (m : ServiceManifest) (r : RegistryService)
    → admit (lookup m.service_id r.services) m ≡ ok tt
    → lookup m.service_id (register now acknowledged m r).1.services
      ≡ some (new_entry now (lookup m.service_id r.services) m)
registered_at now m r a =
    let stores = register_stores now m r a in stores.1 m.service_id ∙ rw (eq_refl m.service_id) refl

base_url-new_entry :
    (now : String) (existing : Option ServiceRegistryEntry) (m : ServiceManifest)
    → (new_entry now existing m).base_url ≡ m.base_url
unfolding new_entry
base_url-new_entry now existing m = refl

invalidated_head :
    (id : String) (ids : List String) (h : ProxyHandler)
    → lookup id (listen (id ∷ ids) h).proxy_cache ≡ none
unfolding listen
invalidated_head id ids h = lookup-remove id id (listen ids h).proxy_cache ∙ rw (eq_refl id) refl

module _ (middleware : String → Bool) (time : ℕ) (id : String) (req : AuthenticatedRequest)
    (r : RegistryService) (h : ProxyHandler) (target : String)
    (done : (proxy_request middleware time id req r h).0.outcome ≡ ok target) where
  target-fresh :
      (e : ServiceRegistryEntry)
      → lookup id r.services ≡ some e
      → lookup id h.proxy_cache ≡ none
      → target ≡ e.base_url
  target-fresh e there cleared =
      let (e', allowed, same) = proxy_sound middleware time id req r h target done in
      let there' = allowed.registered in same ∙ ground arith

  target-cached : (old : String) → lookup id h.proxy_cache ≡ some old → target ≡ old
  target-cached old cached =
      let (e', allowed, same) = proxy_sound middleware time id req r h target done in
      same ∙ rw cached refl

-- A service that is registered again, while it is there and with the checks passed and the write
-- acknowledged, is reached at its new base URL: once the listener has been called, no request goes
-- anywhere else.
pub moved_service_is_followed :
    (middleware : String → Bool) (time : ℕ) (now : String) (m : ServiceManifest)
    (req : AuthenticatedRequest) (r : RegistryService) (h : ProxyHandler) (e : ServiceRegistryEntry)
    (target : String)
    → lookup m.service_id r.services ≡ some e
    → admit (some e) m ≡ ok tt
    → (proxy_request middleware time m.service_id req
        (register now acknowledged m r).1
        (listen (register now acknowledged m r).1.invalidated h)).0.outcome
      ≡ ok target
    → target ≡ m.base_url
moved_service_is_followed middleware time now m req r h e target there a done =
    let passes : admit (lookup m.service_id r.services) m ≡ ok tt = rw there a in
    let called : (register now acknowledged m r).1.invalidated ≡ m.service_id ∷ r.invalidated =
      register-invalidated now m r passes ∙ rw there refl in
    let cleared : lookup m.service_id
          (listen (register now acknowledged m r).1.invalidated h).proxy_cache
        ≡ none =
      rw called (invalidated_head m.service_id r.invalidated h) in
    target-fresh middleware time m.service_id req (register now acknowledged m r).1
      (listen (register now acknowledged m r).1.invalidated h) target done
      (new_entry now (lookup m.service_id r.services) m) (registered_at now m r passes) cleared
    ∙ base_url-new_entry now (lookup m.service_id r.services) m

deregistered :
    (now id : String) (r : RegistryService) (e : ServiceRegistryEntry)
    → lookup id r.services ≡ some e
    → ((deregister now id r).0 ≡ ok tt)
      × (lookup id (deregister now id r).1.services ≡ none)
      × ((deregister now id r).1.invalidated ≡ r.invalidated)
unfolding deregister
deregistered now id r e there = ground (arith, lookup-remove id id r.services, eq_refl id)

-- A service that is deregistered and then registered with another base URL is still reached at the
-- target that a handler has cached for it: the listener is not called, so requests go to the old
-- address while the registry has the new one.
pub moved_service_is_missed :
    (middleware : String → Bool) (time : ℕ) (now later : String) (m : ServiceManifest)
    (req : AuthenticatedRequest) (r : RegistryService) (h : ProxyHandler) (e : ServiceRegistryEntry)
    (target old : String)
    → lookup m.service_id r.services ≡ some e
    → lookup m.service_id h.proxy_cache ≡ some old
    → (proxy_request middleware time m.service_id req
        (register later acknowledged m (deregister now m.service_id r).1).1
        h).0.outcome
      ≡ ok target
    → (target ≡ old)
      × ((register later acknowledged m (deregister now m.service_id r).1).1.invalidated
          ≡ r.invalidated)
      × ((e' : ServiceRegistryEntry) × (lookup m.service_id
              (register later acknowledged m (deregister now m.service_id r).1).1.services
            ≡ some e')
          × (e'.base_url ≡ m.base_url))
unfolding admit
moved_service_is_missed middleware time now later m req r h e target old there cached done =
    let (_, gone, quiet) = deregistered now m.service_id r e there in
    let r' = (deregister now m.service_id r).1 in
    let passes : admit (lookup m.service_id r'.services) m ≡ ok tt = rw gone refl in
    (
      target-cached middleware time m.service_id req (register later acknowledged m r').1 h target
          done old cached,
      register-invalidated later m r' passes ∙ rw gone quiet,
      (
        new_entry later (lookup m.service_id r'.services) m,
        registered_at later m r' passes,
        base_url-new_entry later (lookup m.service_id r'.services) m,
      ),
    )
