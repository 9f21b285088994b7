-- ===== src/Registry/Lifecycle.antt =====
-- `deprecate`, `retire` and `activate` of registry/registry.service.ts. The entry is changed in
-- place, so the map holds what the method returns.
use Prim.Native.String
use apicenter_hehe.Common.{String, ◌&&◌, not, Option, none, some, if◌then◌else◌, truthy?}
use apicenter_hehe.Common.Dict.{lookup, insert}
use apicenter_hehe.Errors.{app, conflict, Result, ok, err}
use apicenter_hehe.Registry.Types.{
  ServiceRegistryEntry, proposed, active, deprecated, retired, status_eq, status_text,
}
use apicenter_hehe.Registry.State.{
  RegistryService, service_deprecated, service_retired, sync_metrics_gauge, publish,
  persist_to_redis,
}
use apicenter_hehe.Registry.Registration.{quoted, unregistered}

-- `if (value) field = value`
unfoldable pub overwrite : Option String → Option String → Option String
unfolding truthy?
overwrite value field = if truthy? value then value else field

unfoldable pub deprecated_entry :
    String → Option String → Option String → ServiceRegistryEntry → ServiceRegistryEntry
unfolding overwrite
deprecated_entry now sunset_date replacement e = record e {
  status = deprecated;
  updated_at = now;
  manifest = record (e.manifest) {
    sunset_date = overwrite sunset_date e.sunset_date;
    replacement_service = overwrite replacement e.replacement_service;
  };
}

abbrev pub Outcome : Type 0
Outcome = Result ServiceRegistryEntry × RegistryService

abbrev pub put : String → ServiceRegistryEntry → RegistryService → RegistryService
put id e r = record r { services = insert id e r.services }

abbrev deprecate_live : String → String → ServiceRegistryEntry → RegistryService → Outcome
deprecate_live now id e r = (
  ok e,
  publish (service_deprecated id e.sunset_date e.replacement_service now)
      (persist_to_redis id e (put id e r)),
)

abbrev deprecate_found :
    Option ServiceRegistryEntry
    → String
    → String
    → Option String
    → Option String
    → RegistryService
    → Outcome
deprecate_found none now id sunset replacement r = (err (unregistered id), r)
deprecate_found (some e) now id sunset replacement r =
    if status_eq e.status retired
    then (err (app (conflict (quoted id "' is already retired"))), r)
    else deprecate_live now id (deprecated_entry now sunset replacement e) r

unfoldable pub deprecate :
    String → String → Option String → Option String → RegistryService → Outcome
unfolding publish persist_to_redis deprecated_entry status_eq
deprecate now id sunset replacement r =
    deprecate_found (lookup id r.services) now id sunset replacement r

unfoldable pub retired_entry : String → ServiceRegistryEntry → ServiceRegistryEntry
retired_entry now e = record e { status = retired; updated_at = now }

abbrev retire_found : Option ServiceRegistryEntry → String → String → RegistryService → Outcome
retire_found none now id r = (err (unregistered id), r)
retire_found (some e) now id r =
    let e' = retired_entry now e in
    (
      ok e',
      publish (service_retired id now) (sync_metrics_gauge (persist_to_redis id e' (put id e' r))),
    )

unfoldable pub retire : String → String → RegistryService → Outcome
unfolding publish persist_to_redis retired_entry sync_metrics_gauge
retire now id r = retire_found (lookup id r.services) now id r

unfoldable pub activated_entry : String → ServiceRegistryEntry → ServiceRegistryEntry
activated_entry now e = record e {
  status = active;
  updated_at = now;
  manifest = record (e.manifest) { sunset_date = none; replacement_service = none };
}

abbrev activate_found : Option ServiceRegistryEntry → String → String → RegistryService → Outcome
activate_found none now id r = (err (unregistered id), r)
activate_found (some e) now id r =
    if not (status_eq e.status proposed) && not (status_eq e.status deprecated)
    then (
      err (
          app (
            conflict (
              quoted id (
                String.◌++◌ "' is '"
                  (String.◌++◌ (status_text e.status) "' and cannot be activated"))))),
      r,
    )
    else (let e' = activated_entry now e in
        (ok e', sync_metrics_gauge (persist_to_redis id e' (put id e' r))))

unfoldable pub activate : String → String → RegistryService → Outcome
unfolding persist_to_redis activated_entry sync_metrics_gauge status_eq
activate now id r = activate_found (lookup id r.services) now id r
