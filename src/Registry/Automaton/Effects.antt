-- ===== src/Registry/Automaton/Effects.antt =====
-- What each operation of registry/registry.service.ts does to the map and the gauge.
use apicenter_hehe.Common.{
  String, ◌≡◌, ◌≢◌, refl, ◌∙◌, ◌⊎◌, inl, inr, Bool, true, false, not, ◌&&◌, get_or, Option, none,
  some, arith, Bool-cases, Option-cases,
}
use apicenter_hehe.Common.Dict.{lookup, insert, remove}
use apicenter_hehe.Registry.Types.{ServiceRegistryEntry, proposed, deprecated, retired, status_eq}
use apicenter_hehe.Registry.State.{RegistryService, is_live, active_count}
use apicenter_hehe.Registry.Registration
use apicenter_hehe.Registry.Registration.{admit, new_entry}
use apicenter_hehe.Registry.Registration.Coherence.{
  IsWellFormed, IsFresh, IsWellFormed-insert, Keyed-lookup, active_count-insert,
}
use apicenter_hehe.Registry.Lifecycle
use apicenter_hehe.Registry.Lifecycle.{deprecated_entry, retired_entry, activated_entry}
use apicenter_hehe.Registry.Health
use apicenter_hehe.Registry.Health.{bool_eq, checked_entry}

abbrev pub Approved : Option ServiceRegistryEntry → Type 0
Approved none = Unit
Approved (some e) = e.status ≢ proposed

-- What an operation on a service that is there may do: write an entry with the same id over it, and
-- then set the gauge, or leave it if the new entry is as live as the old.
pub record Overwrites (id : String) (r r' : RegistryService) : Type 0 where
  pub old : ServiceRegistryEntry
  pub new : ServiceRegistryEntry
  pub found : lookup id r.services ≡ some old
  pub same_id : new.service_id ≡ old.service_id
  pub written : r'.services ≡ insert id new r.services
  pub counted :
      (r'.gauge ≡ active_count r'.services)
      ⊎ ((r'.gauge ≡ r.gauge) × (is_live old.status ≡ is_live new.status))

abbrev pub Effect : String → RegistryService → RegistryService → Type 0
Effect id r r' = (r' ≡ r) ⊎ Overwrites id r r'

module _ (id : String) (r r' : RegistryService) where
  pub Effect-IsWellFormed : Effect id r r' → IsWellFormed r.services → IsWellFormed r'.services
  Effect-IsWellFormed (inl same) w = rw same w
  Effect-IsWellFormed (inr o) w = rw (o.written) (
      IsWellFormed-insert id o.new r.services
        (o.same_id ∙ Keyed-lookup id o.old r.services w.keyed o.found) w)

  pub Effect-IsFresh : Effect id r r' → IsFresh r → IsFresh r'
  Effect-IsFresh (inl same) f = rw same f
  Effect-IsFresh (inr o) f =
      ground (arith, o.counted, o.written, active_count-insert id o.old o.new r.services o.found)

live_before_deprecation :
    (e : ServiceRegistryEntry)
    → e.status ≢ proposed
    → status_eq e.status retired ≡ false
    → is_live e.status ≡ true
unfolding is_live status_eq
live_before_deprecation e approved live = ground arith

module _ (now id : String) (r : RegistryService) where
  pub retire-Effect : Effect id r (Lifecycle.retire now id r).1
  unfolding Lifecycle.retire
  retire-Effect = elim (Option-cases (lookup id r.services)) [
    | inl gone ↦ rw gone (inl refl)
    | inr (e, there) ↦ inr (record {
      old = e;
      new = retired_entry now e;
      found = there;
      same_id = refl;
      written = ground arith;
      counted = inl (ground arith);
    })
  ]

  pub activate-Effect : Effect id r (Lifecycle.activate now id r).1
  unfolding Lifecycle.activate
  activate-Effect = elim (Option-cases (lookup id r.services)) [
    | inl gone ↦ rw gone (inl refl)
    | inr (e, there) ↦
        elim (Bool-cases
          (not (status_eq e.status proposed) && not (status_eq e.status deprecated))) [
            | inl refusal ↦ rw (there, refusal) (inl refl)
            | inr passes ↦ inr (record {
              old = e;
              new = activated_entry now e;
              found = there;
              same_id = refl;
              written = ground arith;
              counted = inl (ground arith);
            })
          ]
  ]

  pub deprecate-Effect :
      (sunset replacement : Option String)
      → Approved (lookup id r.services)
      → Effect id r (Lifecycle.deprecate now id sunset replacement r).1
  unfolding Lifecycle.deprecate is_live
  deprecate-Effect sunset replacement approved = elim (Option-cases (lookup id r.services)) [
    | inl gone ↦ rw gone (inl refl)
    | inr (e, there) ↦ elim (Bool-cases (status_eq e.status retired)) [
      | inl refusal ↦ rw (there, refusal) (inl refl)
      | inr passes ↦ inr (record {
        old = e;
        new = deprecated_entry now sunset replacement e;
        found = there;
        same_id = refl;
        written = ground arith;
        counted = inr (ground arith, live_before_deprecation e (ground arith) passes);
      })
    ]
  ]

  pub set_health-Effect :
      (healthy : Bool) → Effect id r (Health.set_health_status now id healthy r).1
  unfolding Health.set_health_status
  set_health-Effect healthy = elim (Option-cases (lookup id r.services)) [
    | inl gone ↦ rw gone (inl refl)
    | inr (e, there) ↦ elim (Bool-cases (bool_eq (get_or e.healthy true) healthy)) [
      | inl same ↦ rw (there, same) (inl refl)
      | inr changes ↦ inr (record {
        old = e;
        new = checked_entry now healthy e;
        found = there;
        same_id = refl;
        written = ground arith;
        counted = inr (ground arith, refl);
      })
    ]
  ]

  pub touch_health-Effect : Effect id r (Health.touch_health_check now id r)
  unfolding Health.touch_health_check
  touch_health-Effect = elim (Option-cases (lookup id r.services)) [
    | inl gone ↦ rw gone (inl refl)
    | inr (e, there) ↦ inr (record {
      old = e;
      new = record e { last_health_check_at = some now };
      found = there;
      same_id = refl;
      written = ground arith;
      counted = inr (ground arith, refl);
    })
  ]

pub deregister_cases :
    (now id : String) (r : RegistryService)
    → ((Registration.deregister now id r).1 ≡ r)
      ⊎ (((Registration.deregister now id r).1.services ≡ remove id r.services)
          × ((Registration.deregister now id r).1.gauge ≡ active_count (remove id r.services)))
unfolding Registration.deregister
deregister_cases now id r = elim (Option-cases (lookup id r.services)) [
  | inl gone ↦ rw gone (inl refl)
  | inr (e, there) ↦ inr (ground arith, ground arith)
]
