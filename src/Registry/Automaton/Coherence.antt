-- ===== src/Registry/Automaton/Coherence.antt =====
-- The invariant of the registry over all its operations: the map is well formed, no entry is
-- waiting for approval, and the gauge shows the number of live services.
use apicenter_hehe.Common.{String, ◌≢◌, inl, inr, Bool, Option, none, some, List, [], ◌∷◌, arith}
use apicenter_hehe.Common.Dict.{lookup}
use apicenter_hehe.Registry.Types.{ServiceRegistryEntry, proposed}
use apicenter_hehe.Registry.State.{RegistryService}
use apicenter_hehe.Registry.Registration.{admit, new_entry}
use apicenter_hehe.Registry.Registration.Coherence.{
  IsWellFormed, IsFresh, IsWellFormed-remove, register-IsWellFormed, register-IsFresh,
}
use apicenter_hehe.Registry.Automaton.{
  Op, register, deregister, deprecate, retire, activate, set_health, touch_health, step, run, react,
}
use apicenter_hehe.Registry.Automaton.Refinement.{step-Refines}
use apicenter_hehe.Registry.Automaton.Retirement.{Changes, react-Edge}
use apicenter_hehe.Registry.Automaton.Effects.{
  Approved, Effect, Effect-IsWellFormed, Effect-IsFresh, retire-Effect, activate-Effect,
  deprecate-Effect, set_health-Effect, touch_health-Effect, deregister_cases,
}

pub record IsSettled (r : RegistryService) : Type 0 where
  pub formed : IsWellFormed r.services
  pub fresh : IsFresh r
  pub approved : (j : String) → Approved (lookup j r.services)

Changes-Approved :
    (op : Op) (e : ServiceRegistryEntry) (o : Option ServiceRegistryEntry)
    → Changes op e o
    → e.status ≢ proposed
    → Approved o
Changes-Approved op e none c h = tt
Changes-Approved op e (some e') (inl same) h = rw same h
Changes-Approved (register now reply m) e (some e') (inr edge) h = ground arith
Changes-Approved (deregister now id) e (some e') (inr edge) h = absurd edge
Changes-Approved (deprecate now id sunset replacement) e (some e') (inr edge) h = ground arith
Changes-Approved (retire now id) e (some e') (inr edge) h = ground arith
Changes-Approved (activate now id) e (some e') (inr edge) h = ground arith
Changes-Approved (set_health now id healthy) e (some e') (inr edge) h = absurd edge
Changes-Approved (touch_health now id) e (some e') (inr edge) h = absurd edge

react-Approved :
    (connected : Bool) (op : Op) (o : Option ServiceRegistryEntry)
    → Approved o
    → Approved (react connected op o)
react-Approved connected op (some e) h =
    Changes-Approved op e (react connected op (some e)) (react-Edge connected op e) h
react-Approved connected (register now reply m) none h =
    unfold react admit new_entry in ground arith
react-Approved connected (deregister now id) none h = unfold react in tt
react-Approved connected (deprecate now id sunset replacement) none h = unfold react in tt
react-Approved connected (retire now id) none h = unfold react in tt
react-Approved connected (activate now id) none h = unfold react in tt
react-Approved connected (set_health now id healthy) none h = unfold react in tt
react-Approved connected (touch_health now id) none h = unfold react in tt

-- The part of the invariant that says nothing of the gauge.
pub record IsStanding (r : RegistryService) : Type 0 where
  pub formed : IsWellFormed r.services
  pub approved : (j : String) → Approved (lookup j r.services)

module _ (r : RegistryService) (s : IsStanding r) where
  step-Approved : (op : Op) (j : String) → Approved (lookup j (step op r).services)
  step-Approved op j = ground (
    arith,
    step-Refines op r j,
    s.approved j,
    react-Approved r.connected op (lookup j r.services),
  )

  -- The map stays well formed, and the gauge fresh if it was.
  Kept : RegistryService → Type 0
  Kept r' = IsWellFormed r'.services × (IsFresh r → IsFresh r')

  kept : (id : String) (r' : RegistryService) → Effect id r r' → Kept r'
  unfolding Kept
  kept id r' effect = (Effect-IsWellFormed id r r' effect s.formed, Effect-IsFresh id r r' effect)

  step-Kept : (op : Op) → Kept (step op r)
  unfolding step Kept
  step-Kept (register now reply m) =
      (register-IsWellFormed now m r reply s.formed, register-IsFresh now m r reply)
  step-Kept (deregister now id) = (
    ground (arith, deregister_cases now id r, IsWellFormed-remove id r.services s.formed, s.formed),
    λ fresh. ground (arith, deregister_cases now id r, fresh),
  )
  step-Kept (deprecate now id sunset replacement) =
      kept id (step (deprecate now id sunset replacement) r)
        (deprecate-Effect now id r sunset replacement (s.approved id))
  step-Kept (retire now id) = kept id (step (retire now id) r) (retire-Effect now id r)
  step-Kept (activate now id) = kept id (step (activate now id) r) (activate-Effect now id r)
  step-Kept (set_health now id healthy) =
      kept id (step (set_health now id healthy) r) (set_health-Effect now id r healthy)
  step-Kept (touch_health now id) =
      kept id (step (touch_health now id) r) (touch_health-Effect now id r)

  pub step-IsStanding : (op : Op) → IsStanding (step op r)
  unfolding Kept
  step-IsStanding op = record { formed = (step-Kept op).0; approved = step-Approved op }

  pub step-IsFresh : (op : Op) → IsFresh r → IsFresh (step op r)
  unfolding Kept
  step-IsFresh op = (step-Kept op).1

step-IsSettled : (r : RegistryService) → IsSettled r → (op : Op) → IsSettled (step op r)
step-IsSettled r s op =
    let standing : IsStanding r = record { formed = s.formed; approved = s.approved } in
    let after = step-IsStanding r standing op in
    record {
      formed = after.formed;
      fresh = step-IsFresh r standing op s.fresh;
      approved = after.approved;
    }

-- A run of operations with no load from Redis among them keeps the invariant.
pub run-IsSettled : (ops : List Op) (r : RegistryService) → IsSettled r → IsSettled (run ops r)
unfolding run
run-IsSettled [] r s = s
run-IsSettled (op ∷ ops) r s = run-IsSettled ops (step op r) (step-IsSettled r s op)
