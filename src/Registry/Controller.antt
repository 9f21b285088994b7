-- ===== src/Registry/Controller.antt =====
-- registry/registry.controller.ts: the handlers over the registry. The field `meta` of an answer is
-- left out but for its total, and so are the log lines. `now` is the time that the registry reads.
pub mod Consistency
pub mod Validation
use apicenter_hehe.Common.{ℕ, String, Option, none, some, List, [], map, length, get_or}
use apicenter_hehe.Common.Dict.{values}
use apicenter_hehe.Errors.{Error, Result, ok, err, ◌>>=◌}
use apicenter_hehe.Registry.Types.{
  ServiceManifest, ServiceRegistryEntry, ServiceLifecycleStatus, ServiceTier, ServiceType, tribe,
}
use apicenter_hehe.Registry.State.{RegistryService, RedisReply}
use apicenter_hehe.Registry.Registration
use apicenter_hehe.Registry.Registration.{unregistered}
use apicenter_hehe.Registry.Lifecycle
use apicenter_hehe.Registry.Lookups.{get, get_all, count, get_consumers}

-- The body of a registration.
pub record ServiceManifestDto : Type 0 where
  pub service_id : String
  pub name : String
  pub base_url : String
  pub required_scopes : List String
  pub exposes : List String
  pub consumes : Option (List String)
  pub health_check : Option String
  pub version : Option String
  pub description : Option String
  pub tags : Option (List String)
  pub service_type : Option ServiceType
  pub owner_team : Option String
  pub contact : Option String
  pub service_tier : Option ServiceTier
  pub cost_center : Option String
  pub sunset_date : Option String
  pub replacement_service : Option String

-- A field that is absent and one that is null, which `@IsOptional()` lets through, are both `none`.
unfoldable pub manifest_of : ServiceManifestDto → ServiceManifest
manifest_of dto = record {
  service_id = dto.service_id;
  name = dto.name;
  base_url = dto.base_url;
  required_scopes = dto.required_scopes;
  exposes = dto.exposes;
  consumes = get_or dto.consumes [];
  service_type = some (get_or dto.service_type tribe);
  health_check = dto.health_check;
  version = dto.version;
  description = dto.description;
  tags = dto.tags;
  owner_team = dto.owner_team;
  contact = dto.contact;
  service_tier = dto.service_tier;
  cost_center = dto.cost_center;
  sunset_date = dto.sunset_date;
  replacement_service = dto.replacement_service;
}

unfoldable pub register :
    String
    → RedisReply
    → ServiceManifestDto
    → RegistryService
    → Result ServiceRegistryEntry × RegistryService
unfolding manifest_of
register now reply dto r = Registration.register now reply (manifest_of dto) r

-- One line of the list of services.
pub record Summary : Type 0 where
  pub service_id : String
  pub name : String
  pub base_url : String
  pub status : ServiceLifecycleStatus
  pub service_type : ServiceType
  pub exposes : List String
  pub required_scopes : List String
  pub consumes : List String
  pub version : Option String
  pub previous_version : Option String
  pub owner_team : Option String
  pub contact : Option String
  pub service_tier : Option ServiceTier
  pub cost_center : Option String
  pub sunset_date : Option String
  pub replacement_service : Option String
  pub registered_at : String
  pub updated_at : String

abbrev pub summary : ServiceRegistryEntry → Summary
summary svc = record {
  service_id = svc.service_id;
  name = svc.name;
  base_url = svc.base_url;
  status = svc.status;
  service_type = get_or svc.service_type tribe;
  exposes = svc.exposes;
  required_scopes = svc.required_scopes;
  consumes = svc.consumes;
  version = svc.version;
  previous_version = svc.previous_version;
  owner_team = svc.owner_team;
  contact = svc.contact;
  service_tier = svc.service_tier;
  cost_center = svc.cost_center;
  sunset_date = svc.sunset_date;
  replacement_service = svc.replacement_service;
  registered_at = svc.registered_at;
  updated_at = svc.updated_at;
}

-- A list in an answer, and the total beside it.
pub record Page {ℓ} (A : Type ℓ) : Type ℓ where
  pub items : List A
  pub total : ℕ

unfoldable pub list_services : RegistryService → Page Summary
unfolding get_all count
list_services r = record { items = map summary (values (get_all r)); total = count r }

abbrev found_or {ℓ} : {A : Type ℓ} → Option A → Error → Result A
found_or none e = err e
found_or (some a) e = ok a

unfoldable pub get_service : String → RegistryService → Result ServiceRegistryEntry
unfolding get
get_service id r = found_or (get id r) (unregistered id)

unfoldable pub deregister : String → String → RegistryService → Result (Unit {0}) × RegistryService
deregister now id r = Registration.deregister now id r

-- The entry of an answer with the services that its change affects.
pub record Affected : Type 0 where
  pub entry : ServiceRegistryEntry
  pub affected_consumers : List String

abbrev with_consumers : Result ServiceRegistryEntry → List String → Result Affected
with_consumers (err e) consumers = err e
with_consumers (ok entry) consumers = ok (record { entry = entry; affected_consumers = consumers })

-- The consumers are read after the change here, and before it in `retire`.
unfoldable pub deprecate :
    String
    → String
    → Option String
    → Option String
    → RegistryService
    → Result Affected × RegistryService
unfolding get_consumers
deprecate now id sunset replacement r =
    let (entry, r') = Lifecycle.deprecate now id sunset replacement r in
    (with_consumers entry (get_consumers id r'), r')

unfoldable pub retire : String → String → RegistryService → Result Affected × RegistryService
unfolding get_consumers
retire now id r =
    let (entry, r') = Lifecycle.retire now id r in (with_consumers entry (get_consumers id r), r')

unfoldable pub activate :
    String → String → RegistryService → Result ServiceRegistryEntry × RegistryService
activate now id r = Lifecycle.activate now id r

pub record Consumers : Type 0 where
  pub service_id : String
  pub consumers : Page String

unfoldable pub get_service_consumers : String → RegistryService → Result Consumers
unfolding get get_consumers
get_service_consumers id r = do
  entry ← found_or (get id r) (unregistered id)
  let consumers = get_consumers id r
  ok (record {
    service_id = id;
    consumers = record { items = consumers; total = length consumers };
  })
