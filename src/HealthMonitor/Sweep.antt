-- ===== src/HealthMonitor/Sweep.antt =====
-- What a sweep of health checks leaves in the registry.
use mathlib.Core.Path.{subst}
use apicenter_hehe.Common.{
  Bool-cases, ap, String, ◌≡◌, ◌∙◌, refl, Bool, true, false, Option, none, some, ◌==◌, arith,
  eq_iff, inl, inr, get_or, ◌≢◌, ◌⊎◌, sym, not, ◌&&◌, truthy, truthy?,
}
use apicenter_hehe.Common.Dict.{lookup}
use apicenter_hehe.Registry.Types.{
  ServiceRegistryEntry, ServiceLifecycleStatus, proposed, active, deprecated, retired, status_eq,
}
use apicenter_hehe.Registry.State.{RegistryService}
use apicenter_hehe.Registry.Health.{bool_eq, checked_entry}
use apicenter_hehe.Registry.Registration.Coherence.{IsWellFormed}
use apicenter_hehe.HealthMonitor.{
  checkable, answers_of, handle_health_checks, HealthMonitorService, Probe,
}
use apicenter_hehe.HealthMonitor.Answers.{
  is_answered, marked_entry, marked, asked, sweep_marks, lookup-answers, Distinct-answers,
}

swept_entry :
    (now : String) (probe : ServiceRegistryEntry → Probe) (h : HealthMonitorService)
    (r : RegistryService) (j : String)
    → IsWellFormed r.services
    → h.health_check_running ≡ false
    → lookup j (handle_health_checks now probe h r).1.services
      ≡ marked now (asked probe (lookup j r.services)) (lookup j r.services)
unfolding handle_health_checks
swept_entry now probe h r j w idle = rw idle (
    sweep_marks now (answers_of probe (checkable r.services)) r j
      (Distinct-answers probe r.services w.distinct w.keyed)
    ∙ ap (λ o. marked now o (lookup j r.services))
        (lookup-answers probe r.services j w.distinct w.keyed))

idle_again :
    (now : String) (probe : ServiceRegistryEntry → Probe) (h : HealthMonitorService)
    (r : RegistryService)
    → h.health_check_running ≡ false
    → (handle_health_checks now probe h r).0 ≡ h
unfolding handle_health_checks
idle_again now probe h r idle = rw idle refl

-- What a sweep asks: a service with a path to ask at, which is neither retired nor proposed.
abbrev AskedBy : Option String → ServiceLifecycleStatus → Type 0
AskedBy health_check status =
    (path : String) × (health_check ≡ some path)
    × (path ≢ "")
    × (status ≢ retired)
    × (status ≢ proposed)

abbrev pub IsAsked : ServiceRegistryEntry → Type 0
IsAsked e = AskedBy e.health_check e.status

-- What a sweep leaves alone.
abbrev SkippedBy : Option String → ServiceLifecycleStatus → Type 0
SkippedBy health_check status =
    (health_check ≡ none) ⊎ ((health_check ≡ some "") ⊎ ((status ≡ retired) ⊎ (status ≡ proposed)))

abbrev pub IsSkipped : ServiceRegistryEntry → Type 0
IsSkipped e = SkippedBy e.health_check e.status

abbrev checkable_by : Option String → ServiceLifecycleStatus → Bool
checkable_by health_check status =
    truthy? health_check && (not (status_eq status retired) && not (status_eq status proposed))

by_status :
    (path : String) (s : ServiceLifecycleStatus)
    → path ≢ ""
    → (AskedBy (some path) s × (checkable_by (some path) s ≡ true))
      ⊎ (SkippedBy (some path) s × (checkable_by (some path) s ≡ false))
unfolding truthy? status_eq truthy
by_status path retired full = inr (inr (inr (inl refl)), ground arith)
by_status path proposed full = inr (inr (inr (inr refl)), ground arith)
by_status path active full =
    inl ((path, refl, full, λ h. cc h, λ h. cc h), ground (arith, eq_iff path ""))
by_status path deprecated full =
    inl ((path, refl, full, λ h. cc h, λ h. cc h), ground (arith, eq_iff path ""))

is_checkable_cases :
    (o : Option String) (s : ServiceLifecycleStatus)
    → (AskedBy o s × (checkable_by o s ≡ true)) ⊎ (SkippedBy o s × (checkable_by o s ≡ false))
unfolding truthy? truthy
is_checkable_cases none s = inr (inl refl, refl)
is_checkable_cases (some path) s = elim (Bool-cases (path == "")) [
  | inl empty ↦ inr (inr (inl (ap some ((eq_iff path "").0 empty))), ground arith)
  | inr full ↦ by_status path s (λ same. absurd (ground (arith, eq_iff path "")))
]

-- What a sweep makes of an entry: nothing of one that it does not ask. Where the flag, which counts as
-- healthy when it is absent, says already whether the service answered, only the time of the check is
-- written, and otherwise the flag and both times.
pub data IsSwept (now : String) (probe : ServiceRegistryEntry → Probe)
    : Option ServiceRegistryEntry → Option ServiceRegistryEntry → Type 0 where
  unregistered : IsSwept now probe none none
  skipped : (e : ServiceRegistryEntry) → IsSkipped e → IsSwept now probe (some e) (some e)
  confirmed :
      (e : ServiceRegistryEntry)
      → IsAsked e
      → get_or e.healthy true ≡ is_answered (probe e)
      → IsSwept now probe (some e) (some (record e { last_health_check_at = some now }))
  changed :
      (e : ServiceRegistryEntry)
      → IsAsked e
      → get_or e.healthy true ≢ is_answered (probe e)
      → IsSwept now probe (some e) (
          some (record e {
            healthy = some (is_answered (probe e));
            last_health_check_at = some now;
            updated_at = now;
          }))

bool_eq_cases : (a b : Bool) → ((a ≡ b) × (bool_eq a b ≡ true)) ⊎ ((a ≢ b) × (bool_eq a b ≡ false))
unfolding bool_eq
bool_eq_cases true true = inl (refl, refl)
bool_eq_cases true false = inr (λ h. cc h, refl)
bool_eq_cases false true = inr (λ h. cc h, refl)
bool_eq_cases false false = inl (refl, refl)

marked_entry-IsSwept :
    (now : String) (probe : ServiceRegistryEntry → Probe) (e : ServiceRegistryEntry)
    → IsAsked e
    → IsSwept now probe (some e) (some (marked_entry now (is_answered (probe e)) e))
unfolding checked_entry
marked_entry-IsSwept now probe e asks =
    elim (bool_eq_cases (get_or e.healthy true) (is_answered (probe e))) [
      | inl (same, test) ↦ rw test (confirmed e asks same)
      | inr (other, test) ↦ rw test (changed e asks other)
    ]

marked-IsSwept :
    (now : String) (probe : ServiceRegistryEntry → Probe) (o : Option ServiceRegistryEntry)
    → IsSwept now probe o (marked now (asked probe o) o)
unfolding asked
marked-IsSwept now probe none = unregistered
marked-IsSwept now probe (some e) = elim (is_checkable_cases e.health_check e.status) [
  | inl (asks, test) ↦ rw test (marked_entry-IsSwept now probe e asks)
  | inr (skips, test) ↦ rw test (skipped e skips)
]

-- A whole sweep over a well-formed registry, while none is running. A service with a path for the
-- check that is neither retired nor proposed is flagged with whether it answered and has the time of
-- the check; its `updatedAt` becomes that time exactly if the flag was another before. Every other
-- service is left alone, and the monitor is idle again.
pub sweep_checks_all :
    (now : String) (probe : ServiceRegistryEntry → Probe) (h : HealthMonitorService)
    (r : RegistryService) (j : String)
    → IsWellFormed r.services
    → h.health_check_running ≡ false
    → IsSwept now probe
        (lookup j r.services)
        (lookup j (handle_health_checks now probe h r).1.services)
      × ((handle_health_checks now probe h r).0 ≡ h)
sweep_checks_all now probe h r j w idle = (
  subst (IsSwept now probe (lookup j r.services)) (sym (swept_entry now probe h r j w idle))
      (marked-IsSwept now probe (lookup j r.services)),
  idle_again now probe h r idle,
)
