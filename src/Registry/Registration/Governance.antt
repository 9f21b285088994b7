-- ===== src/Registry/Registration/Governance.antt =====
-- Who may register again, under which version, and what the new entry keeps of the old one.
use apicenter_hehe.Common.{
  ◌<◌, String, ◌≡◌, ◌≢◌, ◌∙◌, ◌⊎◌, refl, true, none, some, ◌==◌, arith, eq_refl, inl, inr,
  if◌then◌else◌, truthy,
}
use apicenter_hehe.Common.Dict.{lookup, lookup-insert}
use apicenter_hehe.Errors.{Error, app, validation, ok, err, Result-cases}
use apicenter_hehe.Registry.Types.{ServiceManifest, ServiceRegistryEntry, deprecated, retired}
use apicenter_hehe.Registry.Semver.{
  Semver, parse_semver, truthy_of_parse, err_of_major-lt, downgrade_message,
}
use apicenter_hehe.Registry.State.{RegistryService, RedisReply, acknowledged}
use apicenter_hehe.Registry.Registration.Parts.{announced-services, stored-services}
use apicenter_hehe.Registry.Registration.{
  retired_conflict, admit, check_versions, new_entry, stored, register,
}

pub admit_retired :
    (e : ServiceRegistryEntry) (m : ServiceManifest)
    → e.status ≡ retired
    → (error : Error) × (admit (some e) m ≡ err error)
unfolding admit
admit_retired e m h = elim (Result-cases (check_versions e.version m.version)) [
  | inl (_, passed) ↦ (retired_conflict m.service_id, rw (passed, h))
  | inr (error, failed) ↦ (error, rw failed)
]

admit_downgrade :
    (e : ServiceRegistryEntry) (m : ServiceManifest) (old new : String) (c n : Semver)
    → e.version ≡ some old
    → m.version ≡ some new
    → parse_semver old ≡ some c
    → parse_semver new ≡ some n
    → n.major < c.major
    → admit (some e) m ≡ err (app (validation (downgrade_message old new)))
unfolding admit
admit_downgrade e m old new c n vo vn po pn h = rw (
  vo,
  vn,
  truthy_of_parse old c po,
  truthy_of_parse new n pn,
  err_of_major-lt old new c n po pn h,
)

-- A call that the checks refuse changes nothing.
pub register_refused :
    (now : String) (reply : RedisReply) (m : ServiceManifest) (r : RegistryService) (error : Error)
    → admit (lookup m.service_id r.services) m ≡ err error
    → register now reply m r ≡ (err error, r)
unfolding register
register_refused now reply m r error h = rw h

module _ (now : String) (reply : RedisReply) (m : ServiceManifest) (r : RegistryService)
    (e : ServiceRegistryEntry) (there : lookup m.service_id r.services ≡ some e) where
  -- A retired service cannot be registered again: whatever the manifest says and Redis answers,
  -- `register` throws, and the registry does not change.
  retired_blocks : e.status ≡ retired → (error : Error) × (register now reply m r ≡ (err error, r))
  retired_blocks h =
      let (error, refused) = admit_retired e m h in
      (error, register_refused now reply m r error (rw there refused))

  -- Where the version that is registered and the new one both read as semver and the major number
  -- falls, `register` throws a validation error that names both, and the registry does not change.
  pub downgrade_refused :
      (old new : String) (c n : Semver)
      → e.version ≡ some old
      → m.version ≡ some new
      → parse_semver old ≡ some c
      → parse_semver new ≡ some n
      → n.major < c.major
      → register now reply m r ≡ (err (app (validation (downgrade_message old new))), r)
  downgrade_refused old new c n vo vn po pn h =
      register_refused now reply m r _ (rw there (admit_downgrade e m old new c n vo vn po pn h))

-- Where the checks pass and Redis acknowledges the write, `register` returns the new entry, stores
-- it under its id and changes no other service.
pub register_stores :
    (now : String) (m : ServiceManifest) (r : RegistryService)
    → admit (lookup m.service_id r.services) m ≡ ok tt
    → ((register now acknowledged m r).0 ≡ ok (new_entry now (lookup m.service_id r.services) m))
      × ((j : String)
          → lookup j (register now acknowledged m r).1.services ≡ (
              if m.service_id == j
              then some (new_entry now (lookup m.service_id r.services) m)
              else lookup j r.services))
unfolding register
register_stores now m r a = (
  rw a,
  λ j. rw a (
      ground (
        arith,
        announced-services now (lookup m.service_id r.services) m (stored now m r),
        stored-services now m r,
        lookup-insert m.service_id j (new_entry now (lookup m.service_id r.services) m) r.services,
      )),
)

-- A service that is registered again while it is deprecated stays so, keeps the time of its first
-- registration, and is healthy until a check says otherwise; its sunset date and its replacement
-- are those of the new manifest, so a manifest without them drops what the deprecation announced.
pub deprecation_survives :
    (now : String) (m : ServiceManifest) (r : RegistryService) (e : ServiceRegistryEntry)
    → lookup m.service_id r.services ≡ some e
    → e.status ≡ deprecated
    → truthy e.registered_at ≡ true
    → admit (some e) m ≡ ok tt
    → (e' : ServiceRegistryEntry) × (lookup m.service_id (register now acknowledged m r).1.services
        ≡ some e')
      × (e'.status ≡ deprecated)
      × (e'.registered_at ≡ e.registered_at)
      × (e'.healthy ≡ none)
      × (e'.sunset_date ≡ m.sunset_date)
      × (e'.replacement_service ≡ m.replacement_service)
unfolding new_entry
deprecation_survives now m r e there dep timed a =
    let stores = register_stores now m r (rw there a) in
    (
      new_entry now (some e) m,
      stores.1 m.service_id ∙ rw (eq_refl m.service_id, there),
      rw dep,
      rw timed,
      refl,
      refl,
      refl,
    )

admit_unversioned :
    (e : ServiceRegistryEntry) (m : ServiceManifest)
    → e.status ≢ retired
    → (e.version ≡ none) ⊎ (m.version ≡ none)
    → admit (some e) m ≡ ok tt
unfolding admit
admit_unversioned e m live gap = ground arith

new_entry_parts :
    (now : String) (e : ServiceRegistryEntry) (m : ServiceManifest)
    → ((new_entry now (some e) m).version ≡ m.version)
      × ((new_entry now (some e) m).status ≢ retired)
unfolding new_entry
new_entry_parts now e m = ground arith

-- A registration with no version lets any later one through: a service that is not retired can be
-- registered without a version and then with one whose major number is below the first.
pub version_gap :
    (now later : String) (m₁ m₂ : ServiceManifest) (r : RegistryService) (e : ServiceRegistryEntry)
    → lookup m₁.service_id r.services ≡ some e
    → e.status ≢ retired
    → m₁.version ≡ none
    → m₂.service_id ≡ m₁.service_id
    → (e' : ServiceRegistryEntry) × ((register later acknowledged m₂
          (register now acknowledged m₁ r).1).0
        ≡ ok e')
      × (e'.version ≡ m₂.version)
version_gap now later m₁ m₂ r e there live gap same =
    let stores = register_stores now m₁ r (rw there (admit_unversioned e m₁ live (inr gap))) in
    let again : lookup m₂.service_id (register now acknowledged m₁ r).1.services
        ≡ some (new_entry now (some e) m₁) =
      rw same (stores.1 m₁.service_id ∙ rw (eq_refl m₁.service_id, there)) in
    let (version, status) = new_entry_parts now e m₁ in
    let passes = admit_unversioned (new_entry now (some e) m₁) m₂ status (inl (version ∙ gap)) in
    let second = register_stores later m₂ (register now acknowledged m₁ r).1 (rw again passes) in
    (
      new_entry later (some (new_entry now (some e) m₁)) m₂,
      second.0 ∙ rw again,
      (new_entry_parts later (new_entry now (some e) m₁) m₂).0,
    )
