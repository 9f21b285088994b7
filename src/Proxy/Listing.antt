-- ===== src/Proxy/Listing.antt =====
-- `listServices` of shared/proxy-handler.ts.
use apicenter_hehe.Common.{
  String, Bool, false, not, ◌&&◌, Option, none, some, List, map, filter, if◌then◌else◌, truthy,
  get_or,
}
use apicenter_hehe.Registry.Types.{
  ServiceLifecycleStatus, deprecated, retired, ServiceType, tribe, status_eq,
}
use apicenter_hehe.Registry.State.{RegistryService}
use apicenter_hehe.Registry.Lookups.{get_by_type, can_consume}
use apicenter_hehe.Proxy.{ProxyHandler}

pub record Listing : Type 0 where
  pub service_id : String
  pub name : String
  pub status : ServiceLifecycleStatus
  pub version : Option String
  pub exposes : List String
  pub service_type : ServiceType
  pub can_access : Bool
  -- of a deprecated service: the sunset date and the replacement
  pub deprecation : Option (Option String × Option String)

abbrev pub access : Option String → String → RegistryService → Bool
access none id r = false
access (some source) id r = truthy source && can_consume source id r

unfoldable pub list_services : Option String → RegistryService → ProxyHandler → List Listing
unfolding get_by_type status_eq truthy
list_services caller r h =
    map
      (λ e. record {
        service_id = e.service_id;
        name = e.name;
        status = e.status;
        version = e.version;
        exposes = e.exposes;
        service_type = get_or e.service_type tribe;
        can_access = access caller e.service_id r;
        deprecation =
            if status_eq e.status deprecated
            then some (e.sunset_date, e.replacement_service)
            else none;
      })
      (filter (λ e. not (status_eq e.status retired)) (get_by_type h.namespace r))
