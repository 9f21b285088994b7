-- ===== src/HealthMonitor/Answers.antt =====
-- What the answers to a sweep of health checks leave in the registry.
use apicenter_hehe.Common.{
  Bool-cases, String, ◌≡◌, ◌∙◌, refl, Bool, true, false, Option, none, some, [], ◌∷◌, ◌==◌, arith,
  eq_iff, inl, inr, Option-cases, filter, if◌then◌else◌, get_or,
}
use apicenter_hehe.Common.Dict.{Dict, lookup, lookup-insert, Distinct, values}
use apicenter_hehe.Registry.Types.{ServiceRegistryEntry, ServiceRegistryMap}
use apicenter_hehe.Registry.State.{RegistryService}
use apicenter_hehe.Registry.Health.{bool_eq, checked_entry, set_health_status, touch_health_check}
use apicenter_hehe.Registry.Registration.Coherence.{Keyed}
use apicenter_hehe.HealthMonitor.{
  is_checkable, checkable, answers_of, Probe, answered, unreachable, settle_check, settle_checks,
}

abbrev pub is_answered : Probe → Bool
is_answered answered = true
is_answered (unreachable reason) = false

-- What an answer makes of an entry: the flag, and the times.
abbrev pub marked_entry : String → Bool → ServiceRegistryEntry → ServiceRegistryEntry
marked_entry now healthy e =
    if bool_eq (get_or e.healthy true) healthy
    then record e { last_health_check_at = some now }
    else checked_entry now healthy e

abbrev pub marked :
    String → Option Probe → Option ServiceRegistryEntry → Option ServiceRegistryEntry
marked now none o = o
marked now (some probe) none = none
marked now (some probe) (some e) = some (marked_entry now (is_answered probe) e)

settle_check_lem :
    (now id j : String) (probe : Probe) (r : RegistryService)
    → lookup j (settle_check now id probe r).services
      ≡ (if id == j then marked now (some probe) (lookup j r.services) else lookup j r.services)
unfolding settle_check set_health_status touch_health_check
settle_check_lem now id j answered r = elim (Option-cases (lookup id r.services)) [
  | inl gone ↦ ground (arith, eq_iff id j)
  | inr (e, there) ↦ ground (
    arith,
    eq_iff id j,
    lookup-insert id j (checked_entry now true e) r.services,
    lookup-insert id j (record e { last_health_check_at = some now }) r.services,
  )
]
settle_check_lem now id j (unreachable reason) r = elim (Option-cases (lookup id r.services)) [
  | inl gone ↦ ground (arith, eq_iff id j)
  | inr (e, there) ↦ ground (
    arith,
    eq_iff id j,
    lookup-insert id j (checked_entry now false e) r.services,
    lookup-insert id j (record e { last_health_check_at = some now }) r.services,
  )
]

-- Whatever the order in which the answers to a sweep come in, each service that was asked is healthy
-- afterwards exactly if it answered, has the time of the check, and its `updatedAt` moves only with
-- the flag; one that has been deregistered meanwhile stays so, and all others are left alone.
pub sweep_marks :
    (now : String) (answers : Dict Probe) (r : RegistryService) (j : String)
    → Distinct answers
    → lookup j (settle_checks now answers r).services
      ≡ marked now (lookup j answers) (lookup j r.services)
unfolding settle_checks lookup
sweep_marks now [] r j d = refl
sweep_marks now ((id, probe) ∷ later) r j d =
    sweep_marks now later (settle_check now id probe r) j d.1
    ∙ ground (arith, eq_iff id j, settle_check_lem now id j probe r)

unfoldable pub asked : (ServiceRegistryEntry → Probe) → Option ServiceRegistryEntry → Option Probe
asked probe none = none
asked probe (some e) = if is_checkable e then some (probe e) else none

pub lookup-answers :
    (probe : ServiceRegistryEntry → Probe) (m : ServiceRegistryMap) (j : String)
    → Distinct m
    → Keyed m
    → lookup j (answers_of probe (checkable m)) ≡ asked probe (lookup j m)
unfolding answers_of checkable lookup values filter asked
lookup-answers probe [] j d k = refl
lookup-answers probe ((id, e) ∷ m) j d k = ground (
  arith,
  eq_iff id j,
  eq_iff e.service_id j,
  eq_iff e.service_id id,
  lookup-answers probe m j d.1 k.1,
)

pub Distinct-answers :
    (probe : ServiceRegistryEntry → Probe) (m : ServiceRegistryMap)
    → Distinct m
    → Keyed m
    → Distinct (answers_of probe (checkable m))
unfolding answers_of checkable values filter asked
Distinct-answers probe [] d k = tt
Distinct-answers probe ((id, e) ∷ m) d k = ground (
  arith,
  lookup-answers probe m e.service_id d.1 k.1,
  Distinct-answers probe m d.1 k.1,
  Bool-cases (is_checkable e),
)
