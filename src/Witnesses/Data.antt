-- ===== src/Witnesses/Data.antt =====
-- A small registry, its services and a caller.
use apicenter_hehe.Common.{String, true, none, some, List, [], ◌∷◌}
use apicenter_hehe.Registry.Types.{
  ServiceManifest, ServiceRegistryEntry, ServiceLifecycleStatus, active, tribe,
}
use apicenter_hehe.Registry.State.{RegistryService, initial}
use apicenter_hehe.Auth.Service.{JwtClaims}
use apicenter_hehe.Auth.Guards.{AuthenticatedRequest}
use apicenter_hehe.Proxy.{ProxyHandler}

abbrev pub billing : ServiceManifest
billing = record {
  service_id = "billing";
  name = "Billing";
  base_url = "http://billing:3000";
  required_scopes = "billing:read" ∷ [];
  exposes = "/invoices" ∷ [];
  consumes = [];
  service_type = some tribe;
  health_check = some "/health";
  version = some "2.0.0";
  description = none;
  tags = none;
  owner_team = none;
  contact = none;
  service_tier = none;
  cost_center = none;
  sunset_date = none;
  replacement_service = none;
}

abbrev pub orders : ServiceManifest
orders = record billing {
  service_id = "orders";
  name = "Orders";
  base_url = "http://orders:3000";
  required_scopes = [];
  consumes = "billing" ∷ [];
}

-- The service as it was registered first, and as it is in a status.
abbrev pub entry : ServiceManifest → ServiceLifecycleStatus → ServiceRegistryEntry
entry m status = record {
  manifest = m;
  registered_at = "2024-01-01T00:00:00.000Z";
  updated_at = "2024-01-01T00:00:00.000Z";
  status = status;
  previous_version = none;
  healthy = some true;
  last_health_check_at = none;
}

abbrev pub market_with : ServiceLifecycleStatus → RegistryService
market_with status = record initial {
  services = ("billing", entry billing status) ∷ (("orders", entry orders active) ∷ []);
  connected = true;
  gauge = 2;
}

abbrev pub market : RegistryService
market = market_with active

abbrev pub claims_of : List String → JwtClaims
claims_of scopes = record {
  sub = "orders";
  tribe_id = some "orders";
  exp = none;
  permissions = none;
  scopes = some scopes;
}

abbrev pub request : AuthenticatedRequest
request = record {
  authorization = some "Bearer token";
  platform_secret = some "secret";
  user = some (claims_of ("billing:read" ∷ []));
  tribe_id = some "orders";
  method = "GET";
}

abbrev pub handler : ProxyHandler
handler = record {
  namespace = tribe;
  proxy_cache = ("billing", "http://old-billing:3000") ∷ [];
  circuit_breakers = [];
}
