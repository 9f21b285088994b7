-- ===== src/Registry/Registration/Parts.antt =====
-- What the parts of `register` do to the map, the gauge and the listeners.
use apicenter_hehe.Common.{String, ◌≡◌, Option, none, some, ◌∷◌, arith, if◌then◌else◌}
use apicenter_hehe.Common.Dict.{lookup, insert}
use apicenter_hehe.Registry.Types.{ServiceManifest, ServiceRegistryEntry}
use apicenter_hehe.Registry.State.{RegistryService, active_count}
use apicenter_hehe.Registry.Registration.{is_some, new_entry, stored, announced}

pub announced-services :
    (now : String) (existing : Option ServiceRegistryEntry) (m : ServiceManifest)
    (r : RegistryService)
    → ((announced now existing m r).services ≡ r.services)
      × ((announced now existing m r).gauge ≡ r.gauge)
      × ((announced now existing m r).connected ≡ r.connected)
unfolding announced
announced-services now none m r = ground arith
announced-services now (some e) m r = ground arith

pub announced-invalidated :
    (now : String) (existing : Option ServiceRegistryEntry) (m : ServiceManifest)
    (r : RegistryService)
    → (announced now existing m r).invalidated
      ≡ (if is_some existing then m.service_id ∷ r.invalidated else r.invalidated)
unfolding announced
announced-invalidated now none m r = ground arith
announced-invalidated now (some e) m r = ground arith

pub stored-services :
    (now : String) (m : ServiceManifest) (r : RegistryService)
    → ((stored now m r).services
        ≡ insert m.service_id (new_entry now (lookup m.service_id r.services) m) r.services)
      × ((stored now m r).gauge
          ≡ active_count
              (insert m.service_id (new_entry now (lookup m.service_id r.services) m) r.services))
      × ((stored now m r).invalidated ≡ r.invalidated)
      × ((stored now m r).connected ≡ r.connected)
unfolding stored
stored-services now m r = ground arith
