-- ===== src/Witnesses/Monitoring.antt =====
-- Instances for registry/health-monitor.service.ts.
use apicenter_hehe.Common.{String, ◌≡◌, refl, false, none, some, [], ◌∷◌, ◌==◌, if◌then◌else◌}
use apicenter_hehe.Common.Dict.{Dict, lookup}
use apicenter_hehe.Errors.{ok}
use apicenter_hehe.Registry.Types.{ServiceRegistryEntry, active, retired}
use apicenter_hehe.Registry.Registration.Coherence.{IsWellFormed}
use apicenter_hehe.HealthMonitor.{
  handle_health_checks, HealthMonitorService, Probe, answered, unreachable, reconcile,
}
use apicenter_hehe.HealthMonitor.Sweep.{IsSwept, sweep_checks_all}
use apicenter_hehe.HealthMonitor.Drift.{InStep, reconcile_syncs}
use apicenter_hehe.Registry.Hydration.{Hash}
use apicenter_hehe.Witnesses.Data.{billing, entry, market}

abbrev now : String
now = "2025-01-01T00:00:00.000Z"

abbrev answers : Dict Probe
answers = ("orders", answered) ∷ (("billing", unreachable "timeout") ∷ [])

abbrev idle : HealthMonitorService
idle = record { health_check_running = false; reconciliation_running = false }

-- Redis holds one service anew, and does not hold the other.
abbrev hash : Hash
hash = ("billing", some (record (entry billing retired) { updated_at = now })) ∷ []

reconcile_syncs_example :
    InStep
      (some (record (entry billing retired) { updated_at = now }))
      (lookup "billing" (reconcile (ok hash) (ok hash) idle market).services)
    × (some (record (entry billing retired) { updated_at = now }) ≡ none
        → lookup "billing" (reconcile (ok hash) (ok hash) idle market).services
          ≡ lookup "billing" market.services)
unfolding lookup
reconcile_syncs_example = reconcile_syncs hash market "billing" (refl, tt) refl idle refl

-- One service does not answer.
abbrev probed : ServiceRegistryEntry → Probe
probed e = if e.service_id == "billing" then unreachable "timeout" else answered

market-IsWellFormed : IsWellFormed market.services
unfolding lookup
market-IsWellFormed = record { distinct = (refl, (refl, tt)); keyed = (refl, (refl, tt)) }

sweep_checks_all_example :
    IsSwept now probed
      (some (entry billing active))
      (lookup "billing" (handle_health_checks now probed idle market).1.services)
    × ((handle_health_checks now probed idle market).0 ≡ idle)
unfolding lookup
sweep_checks_all_example =
    sweep_checks_all now probed idle market "billing" market-IsWellFormed refl
