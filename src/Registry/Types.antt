-- ===== src/Registry/Types.antt =====
-- The registry types of types/index.ts. An optional field is an `Option`; a time is the text that
-- `new Date().toISOString()` gives.
use apicenter_hehe.Common.{String, Bool, true, false, Option, List}
use apicenter_hehe.Common.Dict.{Dict}

pub data ServiceTier : Type 0 where
  critical standard experimental : ServiceTier

pub data ServiceLifecycleStatus : Type 0 where
  proposed active deprecated retired : ServiceLifecycleStatus

pub data ServiceType : Type 0 where
  shared tribe : ServiceType

pub record ServiceManifest : Type 0 where
  pub service_id : String
  pub name : String
  pub base_url : String
  pub required_scopes : List String
  pub exposes : List String
  pub consumes : List String
  pub service_type : Option ServiceType
  pub health_check : Option String
  pub version : Option String
  pub description : Option String
  pub tags : Option (List String)
  pub owner_team : Option String
  pub contact : Option String
  pub service_tier : Option ServiceTier
  pub cost_center : Option String
  pub sunset_date : Option String
  pub replacement_service : Option String

pub record ServiceRegistryEntry : Type 0 where
  pub manifest : ServiceManifest
  pub open manifest use *
  pub registered_at : String
  pub updated_at : String
  pub status : ServiceLifecycleStatus
  pub previous_version : Option String
  pub healthy : Option Bool
  pub last_health_check_at : Option String

abbrev pub ServiceRegistryMap : Type 0
ServiceRegistryMap = Dict ServiceRegistryEntry

unfoldable pub type_eq : ServiceType → ServiceType → Bool
type_eq shared shared = true
type_eq tribe tribe = true
type_eq _ _ = false

unfoldable pub status_eq : ServiceLifecycleStatus → ServiceLifecycleStatus → Bool
status_eq proposed proposed = true
status_eq active active = true
status_eq deprecated deprecated = true
status_eq retired retired = true
status_eq _ _ = false

unfoldable pub status_text : ServiceLifecycleStatus → String
status_text proposed = "proposed"
status_text active = "active"
status_text deprecated = "deprecated"
status_text retired = "retired"
