-- ===== src/Registry/Automaton.antt =====
-- The operations of registry/registry.service.ts that change its map, as one step function, and
-- the specification of it: each service is an automaton of its own. Loads from Redis, which change
-- the map too, and registrations that overlap are in the child Interleaving, beside these operations.
pub mod Connection
pub mod Refinement
pub mod Retirement
pub mod Effects
pub mod Coherence
pub mod Consumption
pub mod Interleaving
use apicenter_hehe.Common.{
  String, Bool, true, false, ◌&&◌, ◌||◌, Option, none, some, List, [], ◌∷◌, ◌==◌, if◌then◌else◌,
  get_or,
}
use apicenter_hehe.Errors.{Result, ok, err}
use apicenter_hehe.Registry.Types.{
  ServiceManifest, ServiceRegistryEntry, ServiceLifecycleStatus, proposed, deprecated, retired,
  status_eq,
}
use apicenter_hehe.Registry.State.{RegistryService, RedisReply, acknowledged, refused}
use apicenter_hehe.Registry.Registration
use apicenter_hehe.Registry.Registration.{admit, new_entry}
use apicenter_hehe.Registry.Lifecycle
use apicenter_hehe.Registry.Lifecycle.{deprecated_entry, retired_entry, activated_entry}
use apicenter_hehe.Registry.Health
use apicenter_hehe.Registry.Health.{bool_eq, checked_entry}

pub data Op : Type 0 where
  register : (now : String) → RedisReply → ServiceManifest → Op
  deregister : (now id : String) → Op
  deprecate : (now id : String) → (sunset_date replacement : Option String) → Op
  retire : (now id : String) → Op
  activate : (now id : String) → Op
  set_health : (now id : String) → (healthy : Bool) → Op
  touch_health : (now id : String) → Op

unfoldable pub step : Op → RegistryService → RegistryService
step (register now reply m) r = (Registration.register now reply m r).1
step (deregister now id) r = (Registration.deregister now id r).1
step (deprecate now id sunset replacement) r = (Lifecycle.deprecate now id sunset replacement r).1
step (retire now id) r = (Lifecycle.retire now id r).1
step (activate now id) r = (Lifecycle.activate now id r).1
step (set_health now id healthy) r = (Health.set_health_status now id healthy r).1
step (touch_health now id) r = Health.touch_health_check now id r

unfoldable pub run : List Op → RegistryService → RegistryService
run [] r = r
run (op ∷ ops) r = run ops (step op r)

abbrev pub target : Op → String
target (register now reply m) = m.service_id
target (deregister now id) = id
target (deprecate now id sunset replacement) = id
target (retire now id) = id
target (activate now id) = id
target (set_health now id healthy) = id
target (touch_health now id) = id

abbrev pub when_there :
    (ServiceRegistryEntry → ServiceRegistryEntry)
    → Option ServiceRegistryEntry
    → Option ServiceRegistryEntry
when_there f none = none
when_there f (some e) = some (f e)

abbrev pub fails : Bool → RedisReply → Bool
fails connected acknowledged = false
fails connected (refused reason) = connected

abbrev pub registered :
    Result (Unit {0})
    → Bool
    → Option ServiceRegistryEntry
    → ServiceRegistryEntry
    → Option ServiceRegistryEntry
registered (err e) failed old new = old
registered (ok _) failed old new = if failed then none else some new

-- The specification: what an operation on a service does to that service alone. It sees no other
-- service, only whether there is a Redis client.
unfoldable pub react : Bool → Op → Option ServiceRegistryEntry → Option ServiceRegistryEntry
react connected (register now reply m) o =
    registered (admit o m) (fails connected reply) o (new_entry now o m)
react connected (deregister now id) o = none
react connected (deprecate now id sunset replacement) o =
    when_there
      (λ e. if status_eq e.status retired then e else deprecated_entry now sunset replacement e) o
react connected (retire now id) o = when_there (retired_entry now) o
react connected (activate now id) o =
    when_there
      (λ e.
        if status_eq e.status proposed || status_eq e.status deprecated
        then activated_entry now e
        else e)
      o
react connected (set_health now id healthy) o =
    when_there
      (λ e. if bool_eq (get_or e.healthy true) healthy then e else checked_entry now healthy e) o
react connected (touch_health now id) o =
    when_there (λ e. record e { last_health_check_at = some now }) o

-- The operations on the service `id`, one after the other.
pub reacts : Bool → String → List Op → Option ServiceRegistryEntry → Option ServiceRegistryEntry
reacts connected id [] o = o
reacts connected id (op ∷ ops) o =
    reacts connected id ops (if target op == id then react connected op o else o)
