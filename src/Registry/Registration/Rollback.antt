-- ===== src/Registry/Registration/Rollback.antt =====
-- What a failed write to Redis leaves behind.
use apicenter_hehe.Common.{String, ◌≡◌, true, false, inl, inr, none, ◌==◌, arith, if◌then◌else◌}
use apicenter_hehe.Common.Dict.{lookup, insert, lookup-insert, lookup-remove}
use apicenter_hehe.Errors.{ok, err, Result-cases}
use apicenter_hehe.Registry.Types.{ServiceManifest}
use apicenter_hehe.Registry.State.{RegistryService, acknowledged, refused}
use apicenter_hehe.Registry.Registration.{
  admit, new_entry, stored, rolled_back, write_failed, register,
}

-- Where the checks pass and Redis refuses the write, `register` throws and the service is gone
-- from memory, also when it was registered before; every other service is as it was.
pub refused_write_forgets :
    (now reason : String) (m : ServiceManifest) (r : RegistryService)
    → r.connected ≡ true
    → admit (lookup m.service_id r.services) m ≡ ok tt
    → ((register now (refused reason) m r).0 ≡ err (write_failed m.service_id reason))
      × ((j : String)
          → lookup j (register now (refused reason) m r).1.services
            ≡ (if m.service_id == j then none else lookup j r.services))
unfolding register stored rolled_back
refused_write_forgets now reason m r c a = (
  rw (a, c),
  λ j.
      rw (a, c)
        (ground (
          arith,
          lookup-remove m.service_id j
              (insert m.service_id (new_entry now (lookup m.service_id r.services) m) r.services),
          lookup-insert m.service_id j (new_entry now (lookup m.service_id r.services) m)
              r.services,
        )),
)

-- With no Redis client the reply is not asked for.
pub register_offline :
    (now reason : String) (m : ServiceManifest) (r : RegistryService)
    → r.connected ≡ false
    → register now (refused reason) m r ≡ register now acknowledged m r
unfolding register stored
register_offline now reason m r c = elim (Result-cases (admit (lookup m.service_id r.services) m)) [
  | inl (_, passed) ↦ rw (passed, c)
  | inr (error, refusal) ↦ rw refusal
]
