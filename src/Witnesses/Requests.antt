-- ===== src/Witnesses/Requests.antt =====
-- Instances for shared/proxy-handler.ts.
use apicenter_hehe.Common.{
  String, ◌≡◌, refl, sym, ap, Bool, true, false, some, [], ◌∷◌, includes, truthy, get_or, filter,
}
use apicenter_hehe.Common.Dict.{lookup, insert, remove}
use apicenter_hehe.Errors.{app, gone, ok}
use apicenter_hehe.CircuitBreaker.{try_acquire, create}
use apicenter_hehe.Registry.Types.{
  ServiceManifest, ServiceRegistryEntry, active, type_eq, status_eq,
}
use apicenter_hehe.Registry.State.{RegistryService, acknowledged}
use apicenter_hehe.Registry.Semver.{validate_version_upgrade, parse_semver}
use apicenter_hehe.Registry.Registration.{
  admit, new_entry, register, deregister, stored, announced, previous_version,
}
use apicenter_hehe.Registry.Lifecycle.{retire, deprecate, deprecated_entry, overwrite}
use apicenter_hehe.Registry.Lookups.{can_consume, resolve_upstream, get, get_required_scopes}
use apicenter_hehe.Registry.Health.{set_health_status}
use apicenter_hehe.Auth.Service.{check_scopes, merge_caller_scopes}
use apicenter_hehe.Proxy.Gate.{enforce_lifecycle_gate}
use apicenter_hehe.Proxy.{rejected, listen, proxy_request, breaker_of, new_breaker, missing_scopes}
use apicenter_hehe.Proxy.Access.{IsAllowed, proxy_sound, proxy_complete}
use apicenter_hehe.Proxy.Stale.{moved_service_is_missed}
use apicenter_hehe.Proxy.Health.{health_is_ignored}
use apicenter_hehe.Proxy.Sunset.{retired_is_gone}
use apicenter_hehe.Witnesses.Data.{billing, entry, market, request, handler}

-- Every target can be reached.
abbrev up : String → Bool
up target = true

forwarded :
    (proxy_request up 0 "billing" request market handler).0.outcome ≡ ok "http://old-billing:3000"
unfolding proxy_request resolve_upstream lookup truthy get type_eq enforce_lifecycle_gate status_eq
    can_consume includes get_required_scopes missing_scopes check_scopes merge_caller_scopes filter
    try_acquire breaker_of new_breaker create
forwarded = refl

proxy_sound_example :
    (e : ServiceRegistryEntry) × IsAllowed 0 "billing" request market handler e
    × ("http://old-billing:3000" ≡ get_or (lookup "billing" handler.proxy_cache) e.base_url)
proxy_sound_example =
    proxy_sound up 0 "billing" request market handler "http://old-billing:3000" forwarded

market_allows : IsAllowed 0 "billing" request market handler (entry billing active)
unfolding lookup truthy can_consume includes check_scopes merge_caller_scopes filter try_acquire
    breaker_of new_breaker create
market_allows = record {
  registered = refl;
  addressed = refl;
  in_namespace = refl;
  not_retired = λ h. cc h;
  consumes = refl;
  scoped = λ claims h. ap (λ u. check_scopes u ("billing:read" ∷ [])) (sym h);
  admitted = refl;
}

proxy_complete_example :
    (proxy_request up 0 "billing" request market handler).0.outcome ≡ ok "http://old-billing:3000"
unfolding lookup
proxy_complete_example =
    proxy_complete up 0 "billing" request market handler (entry billing active) market_allows refl

abbrev now : String
now = "2025-01-01T00:00:00.000Z"

abbrev next : ServiceManifest
next = record billing { version = some "3.0.0"; base_url = "http://billing-v3:3000" }

abbrev moved : RegistryService
moved = (register now acknowledged next market).1

abbrev moved_twice : RegistryService
moved_twice = (register now acknowledged next (deregister now "billing" market).1).1

next-admitted : admit (some (entry billing active)) next ≡ ok tt
unfolding admit validate_version_upgrade parse_semver
next-admitted = refl

health_is_ignored_example :
    proxy_request up 0 "billing" request (set_health_status now "billing" false market).1 handler
    ≡ proxy_request up 0 "billing" request market handler
health_is_ignored_example =
    health_is_ignored up 0 now "billing" "billing" false request market handler

retired_is_gone_example :
    proxy_request up 0 "billing" request (retire now "billing" market).1 handler
    ≡ rejected [] (app (gone "Service 'billing' has been retired")) handler
unfolding lookup truthy
retired_is_gone_example =
    retired_is_gone up 0 now "billing" request market handler (entry billing active) refl refl refl

moved_forwarded :
    (proxy_request up 0 "billing" request moved (listen moved.invalidated handler)).0.outcome
    ≡ ok "http://billing-v3:3000"
unfolding proxy_request resolve_upstream lookup truthy get type_eq enforce_lifecycle_gate status_eq
    can_consume includes get_required_scopes missing_scopes check_scopes merge_caller_scopes filter
    try_acquire breaker_of new_breaker create register admit validate_version_upgrade parse_semver
    announced previous_version stored insert new_entry listen remove
moved_forwarded = refl

abbrev old : String
old = "http://old-billing:3000"

moved_twice_forwarded :
    (proxy_request up 0 "billing" request moved_twice handler).0.outcome
    ≡ ok "http://old-billing:3000"
unfolding proxy_request resolve_upstream lookup truthy get type_eq enforce_lifecycle_gate status_eq
    can_consume includes get_required_scopes missing_scopes check_scopes merge_caller_scopes filter
    try_acquire breaker_of new_breaker create register deregister admit remove announced
    previous_version stored insert new_entry
moved_twice_forwarded = refl

moved_service_is_missed_example :
    (old ≡ old)
    × (moved_twice.invalidated ≡ [])
    × ((e' : ServiceRegistryEntry) × (lookup "billing" moved_twice.services ≡ some e')
        × (e'.base_url ≡ "http://billing-v3:3000"))
unfolding lookup
moved_service_is_missed_example =
    moved_service_is_missed up 0 now now next request market handler (entry billing active) old old
      refl refl moved_twice_forwarded

abbrev sunsetting : ServiceRegistryEntry
sunsetting = deprecated_entry now (some "2025-12-31") (some "invoicing") (entry billing active)

abbrev announced_market : RegistryService
announced_market = (deprecate now "billing" (some "2025-12-31") (some "invoicing") market).1

announced_allows : IsAllowed 0 "billing" request announced_market handler sunsetting
unfolding deprecate deprecated_entry overwrite insert lookup truthy can_consume includes
    check_scopes merge_caller_scopes filter try_acquire breaker_of new_breaker create
announced_allows = record {
  registered = refl;
  addressed = refl;
  in_namespace = refl;
  not_retired = λ h. cc h;
  consumes = refl;
  scoped = λ claims h. ap (λ u. check_scopes u ("billing:read" ∷ [])) (sym h);
  admitted = refl;
}
