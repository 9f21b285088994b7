-- ===== src/Namespaces.antt =====
-- tribes/tribes.controller.ts and shared-services/shared-services.controller.ts: the two controllers
-- over a proxy handler. The time stamp and the correlation id of `meta` are left out.
pub mod Listings
use apicenter_hehe.Common.{ℕ, String, Bool, Option, List, length}
use apicenter_hehe.Registry.Types.{ServiceType, tribe, shared}
use apicenter_hehe.Registry.State.{RegistryService}
use apicenter_hehe.Auth.Guards.{AuthenticatedRequest}
use apicenter_hehe.Proxy.{ProxyHandler, Handled, create_handler, destroy, proxy_request}
use apicenter_hehe.Proxy.Listing.{Listing, list_services}

-- A controller holds its handler.
unfoldable pub tribes_controller : ProxyHandler
tribes_controller = create_handler tribe

unfoldable pub shared_services_controller : ProxyHandler
shared_services_controller = create_handler shared

unfoldable pub on_module_destroy : ProxyHandler → ProxyHandler
unfolding destroy
on_module_destroy c = destroy c

-- The body of a listing, and the fields of its `meta`.
pub record ListingAnswer : Type 0 where
  pub data_listed : List Listing
  pub total : ℕ
  pub tribe_id : Option String
  pub namespace : ServiceType

-- `listServices`, and `listSharedServices` with the other word for the namespace.
unfoldable pub list_tribes : AuthenticatedRequest → RegistryService → ProxyHandler → ListingAnswer
unfolding list_services
list_tribes req r c =
    let services = list_services req.tribe_id r c in
    record {
      data_listed = services;
      total = length services;
      tribe_id = req.tribe_id;
      namespace = tribe;
    }

unfoldable pub list_shared_services :
    AuthenticatedRequest → RegistryService → ProxyHandler → ListingAnswer
unfolding list_services
list_shared_services req r c =
    let services = list_services req.tribe_id r c in
    record {
      data_listed = services;
      total = length services;
      tribe_id = req.tribe_id;
      namespace = shared;
    }

-- The dynamic proxy, the same in both.
unfoldable pub proxy :
    (String → Bool) → ℕ → String → AuthenticatedRequest → RegistryService → ProxyHandler → Handled
unfolding proxy_request
proxy middleware now id req r c = proxy_request middleware now id req r c
