-- ===== src/HealthMonitor/Drift.antt =====
-- What the reconciliation with Redis finds and leaves.
use mathlib.Core.Path.{subst}
use apicenter_hehe.Common.{
  String, ◌≡◌, ◌∙◌, refl, sym, ap, Bool, true, false, not, ◌&&◌, Option, none, some, List, [], ◌∷◌,
  arith, eq_iff, inl, inr, Bool-cases, if◌then◌else◌, includes, includes-filter,
}
use apicenter_hehe.Common.Dict.{lookup, keys, Distinct}
use apicenter_hehe.Errors.{ok}
use apicenter_hehe.Registry.Types.{ServiceRegistryEntry, ServiceRegistryMap}
use apicenter_hehe.Registry.State.{RegistryService}
use apicenter_hehe.Registry.Hydration.{Hash, hydrate, get_redis_entries}
use apicenter_hehe.Registry.Hydration.Resync.{redis_or, load_overlays, lookup-hydrate}
use apicenter_hehe.HealthMonitor.{
  HealthMonitorService, missing_from, stamps_differ, diverged, is_empty, has_drift, resync,
  reconcile,
}

is_there : Option ServiceRegistryEntry → Bool
is_there none = false
is_there (some e) = true

includes-keys : (m : ServiceRegistryMap) (k : String) → includes (keys m) k ≡ is_there (lookup k m)
unfolding includes keys lookup is_there
includes-keys [] k = refl
includes-keys ((j, e) ∷ m) k = ground (arith, includes-keys m k)

none_of_empty : (xs : List String) (k : String) → is_empty xs ≡ true → includes xs k ≡ false
unfolding includes
none_of_empty [] k h = refl
none_of_empty (x ∷ xs) k h = ground arith

-- In step: what Redis holds under an id is held in memory, with the same time of its last change.
abbrev pub InStep : Option ServiceRegistryEntry → Option ServiceRegistryEntry → Type 0
InStep none o = Unit
InStep (some e) none = ⊥
InStep (some e) (some e') = e'.updated_at ≡ e.updated_at

InStep-of_tests :
    (o o' : Option ServiceRegistryEntry)
    → (not (is_there o') && is_there o) ≡ false
    → ((is_there o' && stamps_differ o o') && is_there o) ≡ false
    → InStep o o'
unfolding is_there
InStep-of_tests none o' missing differs = tt
InStep-of_tests (some e) none missing differs = ground arith
InStep-of_tests (some e) (some e') missing differs =
    ground (arith, eq_iff e.updated_at e'.updated_at)

-- A check that finds no drift is right: all that Redis holds is in memory, as it last changed.
InStep-of_no_drift :
    (redis memory : ServiceRegistryMap) (k : String)
    → has_drift redis memory ≡ false
    → InStep (lookup k redis) (lookup k memory)
unfolding has_drift diverged
InStep-of_no_drift redis memory k h =
    InStep-of_tests (lookup k redis) (lookup k memory)
      (rw (← includes-keys memory k, ← includes-keys redis k)
        (sym (includes-filter (λ i. not (includes (keys memory) i)) (keys redis) k)
          ∙ none_of_empty (missing_from memory redis) k ground arith))
      (rw (← includes-keys memory k, ← includes-keys redis k)
        (sym (
            includes-filter
              (λ i. includes (keys memory) i && stamps_differ (lookup i redis) (lookup i memory))
              (keys redis) k)
          ∙ none_of_empty (diverged redis memory) k ground arith))

-- What Redis holds under an id, if it reads as an entry.
abbrev pub held : String → Hash → Option ServiceRegistryEntry
held j h = redis_or (lookup j h) none

held-hydrate : (h : Hash) (j : String) → Distinct h → lookup j (hydrate h []) ≡ held j h
unfolding lookup
held-hydrate h j d = lookup-hydrate h [] j d

overlaid :
    (o : Option (Option ServiceRegistryEntry)) (memory : Option ServiceRegistryEntry)
    → InStep (redis_or o none) (redis_or o memory)
      × (redis_or o none ≡ none → redis_or o memory ≡ memory)
overlaid none memory = (tt, λ h. refl)
overlaid (some none) memory = (tt, λ h. refl)
overlaid (some (some e)) memory = (refl, λ h. cc h)

module _ (h : Hash) (r : RegistryService) (j : String) (distinct : Distinct h)
    (connected : r.connected ≡ true) where
  Synced : RegistryService → Type 0
  Synced r' =
      InStep (held j h) (lookup j r'.services)
      × (held j h ≡ none → lookup j r'.services ≡ lookup j r.services)

  resync-Synced : Synced (resync (ok (some (hydrate h []))) (ok h) r)
  unfolding Synced
  resync-Synced = elim (Bool-cases (has_drift (hydrate h []) r.services)) [
    | inl drift ↦
        rw (drift, load_overlays h r j connected distinct)
          (overlaid (lookup j h) (lookup j r.services))
    | inr none_found ↦ rw none_found (
      rw (← held-hydrate h j distinct) (InStep-of_no_drift (hydrate h []) r.services j none_found),
      λ absent. refl,
    )
  ]

  entries_read : get_redis_entries (ok h) r ≡ ok (some (hydrate h []))
  unfolding get_redis_entries
  entries_read = simp connected

  opened :
      (m : HealthMonitorService)
      → m.reconciliation_running ≡ false
      → reconcile (ok h) (ok h) m r ≡ resync (ok (some (hydrate h []))) (ok h) r
  unfolding reconcile
  opened m idle =
      ap (λ running. if running then r else resync (get_redis_entries (ok h) r) (ok h) r) idle
      ∙ ap (λ entries. resync entries (ok h) r) entries_read

  -- Where Redis answers both reads with one and the same hash, the reconciliation leaves every
  -- service that Redis holds in memory too, with the same time of its last change, whether or not it
  -- found a drift; and one that Redis does not hold stays as it was in memory, so it is still
  -- missing from Redis at the next run.
  pub reconcile_syncs :
      (m : HealthMonitorService)
      → m.reconciliation_running ≡ false
      → InStep (held j h) (lookup j (reconcile (ok h) (ok h) m r).services)
        × (held j h ≡ none → lookup j (reconcile (ok h) (ok h) m r).services ≡ lookup j r.services)
  unfolding Synced
  reconcile_syncs m idle = subst Synced (sym (opened m idle)) resync-Synced
