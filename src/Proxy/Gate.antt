-- ===== src/Proxy/Gate.antt =====
-- `enforceLifecycleGate` of shared/proxy-handler.ts, and the response headers that it sets.
use Prim.Native.String
use apicenter_hehe.Common.{String, Option, none, some, List, [], ◌∷◌, ◌++◌, if◌then◌else◌, truthy}
use apicenter_hehe.Errors.{app, gone, Result, ok, err}
use apicenter_hehe.Registry.Types.{
  ServiceRegistryEntry, deprecated, retired, ServiceType, shared, tribe, status_eq,
}

-- The response headers of a deprecated service. `sunset d` stands for the UTC text of the date `d`.
pub data Header : Type 0 where
  deprecation : Header
  sunset : String → Header
  successor_link : String → Header

abbrev header_if : Option String → (String → Header) → List Header
header_if none make = []
header_if (some v) make = if truthy v then make v ∷ [] else []

abbrev prefix_of : ServiceType → String
prefix_of shared = "shared"
prefix_of tribe = "tribes"

abbrev pub successor : ServiceType → String → Header
successor ns id = successor_link (
    String.◌++◌ "</api/v1/" (
      String.◌++◌ (prefix_of ns) (String.◌++◌ "/" (String.◌++◌ id ">; rel=\"successor-version\""))))

abbrev pub gone_message : String → Option String → String
gone_message id none = String.◌++◌ "Service '" (String.◌++◌ id "' has been retired")
gone_message id (some replacement) =
    if truthy replacement
    then String.◌++◌ "Service '" (
        String.◌++◌ id
          (String.◌++◌ "' has been retired. Migrate to '" (String.◌++◌ replacement "'")))
    else String.◌++◌ "Service '" (String.◌++◌ id "' has been retired")

-- `enforceLifecycleGate`: an error, or the headers that it sets.
unfoldable pub enforce_lifecycle_gate :
    ServiceType → String → Option ServiceRegistryEntry → Result (List Header)
unfolding status_eq truthy
enforce_lifecycle_gate ns id none = ok []
enforce_lifecycle_gate ns id (some e) =
    if status_eq e.status retired
    then err (app (gone (gone_message id e.replacement_service)))
    else if status_eq e.status deprecated
    then ok (
        deprecation
        ∷ (header_if e.sunset_date sunset ++ header_if e.replacement_service (successor ns)))
    else ok []
