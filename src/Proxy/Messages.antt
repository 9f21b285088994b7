-- ===== src/Proxy/Messages.antt =====
-- The errors that `proxyRequest` of shared/proxy-handler.ts throws, with their messages.
use Prim.Native.String
use apicenter_hehe.Common.{String, List, [], ◌∷◌}
use apicenter_hehe.Errors.{Error, app, not_found, forbidden, bad_gateway, service_unavailable}
use apicenter_hehe.Registry.Types.{ServiceType, shared, tribe}

abbrev pub unknown_service : String → Error
unknown_service id =
    app (not_found (String.◌++◌ "Service '" (String.◌++◌ id "' not found or inactive")))

abbrev pub wrong_namespace : ServiceType → String → Error
wrong_namespace shared id = app (
    not_found (
      String.◌++◌ "Service '" (
        String.◌++◌ id
          (String.◌++◌ "' is a shared service. Use /shared/" (String.◌++◌ id " instead.")))))
wrong_namespace tribe id = app (
    not_found (
      String.◌++◌ "Service '" (
        String.◌++◌ id
          (String.◌++◌ "' is a tribe service. Use /tribes/" (String.◌++◌ id " instead.")))))

abbrev pub unreachable : String → Error
unreachable id = app (bad_gateway (String.◌++◌ "Upstream '" (String.◌++◌ id "' unreachable")))

abbrev pub breaker_open : String → Error
breaker_open id = app (
    service_unavailable (
      String.◌++◌ "Upstream '"
        (String.◌++◌ id "' is temporarily unavailable (circuit breaker open)")))

abbrev pub not_authorised : String → String → Error
not_authorised source id = app (
    forbidden (
      String.◌++◌ "Tribe '"
        (String.◌++◌ source (String.◌++◌ "' is not authorised to consume '" (String.◌++◌ id "'")))))

pub join : List String → String
join [] = ""
join (s ∷ []) = s
join (s ∷ t ∷ ss) = String.◌++◌ s (String.◌++◌ ", " (join (t ∷ ss)))

abbrev pub insufficient : String → List String → Error
insufficient id missing = app (
    forbidden (
      String.◌++◌ "Insufficient scopes for '"
        (String.◌++◌ id (String.◌++◌ "'. Missing: " (join missing)))))
