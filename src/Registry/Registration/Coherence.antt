-- ===== src/Registry/Registration/Coherence.antt =====
-- Invariants of the registry's map and gauge, and that registration keeps them.
use apicenter_hehe.Common.{
  String, ◌≡◌, refl, ◌⊎◌, inl, inr, some, [], ◌∷◌, arith, eq_iff, Bool-cases, filter,
}
use apicenter_hehe.Common.Dict.{
  lookup, insert, remove, values, Distinct, Distinct-insert, Distinct-remove,
}
use apicenter_hehe.Registry.Types.{ServiceManifest, ServiceRegistryEntry, ServiceRegistryMap}
use apicenter_hehe.Registry.State.{
  RegistryService, RedisReply, acknowledged, refused, is_live, active_count,
}
use apicenter_hehe.Registry.Registration.Parts.{announced-services, stored-services}
use apicenter_hehe.Registry.Registration.{
  admit, register, new_entry, stored, announced, rolled_back, begin, settle, register_settle,
}
use apicenter_hehe.Errors.{Result, ok, err}

-- Each entry stands under its own id.
abbrev pub Keyed : ServiceRegistryMap → Type 0
Keyed [] = Unit
Keyed ((id, e) ∷ m) = (e.service_id ≡ id) × Keyed m

pub Keyed-insert :
    (id : String) (e : ServiceRegistryEntry) (m : ServiceRegistryMap)
    → e.service_id ≡ id
    → Keyed m
    → Keyed (insert id e m)
unfolding insert
Keyed-insert id e [] h k = (h, tt)
Keyed-insert id e ((j, w) ∷ m) h k = ground (arith, Keyed-insert id e m h k.1)

pub Keyed-remove : (id : String) (m : ServiceRegistryMap) → Keyed m → Keyed (remove id m)
unfolding remove
Keyed-remove id [] k = tt
Keyed-remove id ((j, w) ∷ m) k = ground (arith, Keyed-remove id m k.1)

pub Keyed-lookup :
    (id : String) (e : ServiceRegistryEntry) (m : ServiceRegistryMap)
    → Keyed m
    → lookup id m ≡ some e
    → e.service_id ≡ id
unfolding lookup
Keyed-lookup id e [] k h = cc
Keyed-lookup id e ((j, w) ∷ m) k h = ground (arith, eq_iff j id, Keyed-lookup id e m k.1)

-- No id stands twice, and each entry stands under its own.
pub record IsWellFormed (services : ServiceRegistryMap) : Type 0 where
  pub distinct : Distinct services
  pub keyed : Keyed services

pub IsWellFormed-insert :
    (id : String) (e : ServiceRegistryEntry) (m : ServiceRegistryMap)
    → e.service_id ≡ id
    → IsWellFormed m
    → IsWellFormed (insert id e m)
IsWellFormed-insert id e m h w = record {
  distinct = Distinct-insert id e m w.distinct;
  keyed = Keyed-insert id e m h w.keyed;
}

pub IsWellFormed-remove :
    (id : String) (m : ServiceRegistryMap) → IsWellFormed m → IsWellFormed (remove id m)
IsWellFormed-remove id m w = record {
  distinct = Distinct-remove id m w.distinct;
  keyed = Keyed-remove id m w.keyed;
}

-- The gauge shows the number of services that are active or deprecated.
abbrev pub IsFresh : RegistryService → Type 0
IsFresh r = r.gauge ≡ active_count r.services

-- Writing an entry over one that is as live leaves the count.
pub active_count-insert :
    (id : String) (e e' : ServiceRegistryEntry) (m : ServiceRegistryMap)
    → lookup id m ≡ some e
    → is_live e.status ≡ is_live e'.status
    → active_count (insert id e' m) ≡ active_count m
unfolding active_count lookup insert values filter
active_count-insert id e e' [] h k = cc
active_count-insert id e e' ((j, w) ∷ m) h k =
    ground (arith, active_count-insert id e e' m, Bool-cases (is_live e'.status))

module _ (now : String) (m : ServiceManifest) (r : RegistryService) where
  abbrev pub entry : ServiceRegistryEntry
  entry = new_entry now (lookup m.service_id r.services) m

  -- What `register` can do to the map: nothing, a write, or a write that is taken back.
  abbrev pub Effect : RegistryService → Type 0
  Effect r' =
      (r' ≡ r)
      ⊎ (IsFresh r'
          × (r'.connected ≡ r.connected)
          × ((r'.services ≡ insert m.service_id entry r.services)
              ⊎ (r'.services ≡ remove m.service_id (insert m.service_id entry r.services))))

  kept :
      ((announced now (lookup m.service_id r.services) m (stored now m r)).services
        ≡ (stored now m r).services)
      × ((announced now (lookup m.service_id r.services) m (stored now m r)).gauge
          ≡ (stored now m r).gauge)
      × ((announced now (lookup m.service_id r.services) m (stored now m r)).connected
          ≡ (stored now m r).connected)
  kept = announced-services now (lookup m.service_id r.services) m (stored now m r)

  undone :
      ((rolled_back m.service_id (stored now m r)).services
        ≡ remove m.service_id (stored now m r).services)
      × ((rolled_back m.service_id (stored now m r)).gauge
          ≡ active_count (remove m.service_id (stored now m r).services))
      × ((rolled_back m.service_id (stored now m r)).connected ≡ (stored now m r).connected)
  unfolding rolled_back
  undone = (refl, refl, refl)

  settle-Effect :
      (reply : RedisReply) (a : Result (Unit {0}))
      → Effect (settle (begin a now m r).0 reply (begin a now m r).1).1
  unfolding register_settle
  settle-Effect reply (err e) = inl refl
  settle-Effect acknowledged (ok _) = inr (
    ground (arith, kept, (stored-services now m r)),
    ground (arith, kept, (stored-services now m r)),
    inl (ground (arith, kept, (stored-services now m r))),
  )
  settle-Effect (refused reason) (ok _) = elim (Bool-cases (stored now m r).connected) [
    | inl on ↦ rw on (
        inr (
          ground (arith, (stored-services now m r), undone),
          ground (arith, (stored-services now m r), undone),
          inr (ground (arith, (stored-services now m r), undone)),
        ))
    | inr off ↦ rw off (
        inr (
          ground (arith, kept, (stored-services now m r)),
          ground (arith, kept, (stored-services now m r)),
          inl (ground (arith, kept, (stored-services now m r))),
        ))
  ]

  pub register-Effect : (reply : RedisReply) → Effect (register now reply m r).1
  unfolding register
  register-Effect reply = settle-Effect reply (admit (lookup m.service_id r.services) m)

  service_id-entry : entry.service_id ≡ m.service_id
  unfolding new_entry
  service_id-entry = refl

  -- Whatever Redis answers, `register` keeps the map well formed.
  pub register-IsWellFormed :
      (reply : RedisReply)
      → IsWellFormed r.services
      → IsWellFormed (register now reply m r).1.services
  register-IsWellFormed reply w = ground (
    arith,
    register-Effect reply,
    service_id-entry,
    IsWellFormed-insert m.service_id entry r.services service_id-entry w,
    IsWellFormed-remove m.service_id (insert m.service_id entry r.services),
  )

  -- Whatever Redis answers, and whether or not the checks let it through, `register` leaves the
  -- gauge on the number of live services if it was there before.
  pub register-IsFresh : (reply : RedisReply) → IsFresh r → IsFresh (register now reply m r).1
  register-IsFresh reply w = ground (arith, register-Effect reply)
