-- ===== src/Registry/Automaton/Retirement.antt =====
-- The life of one service: which changes of its status there are, and which operations leave a retired
-- service as it is.
use apicenter_hehe.Common.{
  String, ◌≡◌, ◌≢◌, refl, ◌⊎◌, inl, inr, Bool, true, false, Option, none, some, List, [], ◌∷◌, ◌==◌,
  arith, eq_iff, Bool-cases, All,
}
use apicenter_hehe.Common.Dict.{lookup}
use apicenter_hehe.Errors.{Error, Result, ok, err}
use apicenter_hehe.Registry.Types.{
  ServiceManifest, ServiceRegistryEntry, ServiceLifecycleStatus, proposed, active, deprecated,
  retired, status_eq,
}
use apicenter_hehe.Registry.State.{RegistryService, RedisReply, acknowledged, refused}
use apicenter_hehe.Registry.Registration.{admit, new_entry}
use apicenter_hehe.Registry.Registration.Governance.{admit_retired}
use apicenter_hehe.Registry.Lifecycle.{deprecated_entry, retired_entry, activated_entry}
use apicenter_hehe.Registry.Health.{checked_entry}
use apicenter_hehe.Registry.Automaton.{
  Op, register, deregister, deprecate, retire, activate, set_health, touch_health, run, target,
  fails, registered, react, reacts,
}
use apicenter_hehe.Registry.Automaton.Refinement.{run-refines}

-- The changes of status that an operation may make.
abbrev pub Edge : Op → ServiceLifecycleStatus → ServiceLifecycleStatus → Type 0
Edge (register now reply m) from to = (from ≡ proposed) × (to ≡ active)
Edge (deprecate now id sunset replacement) from to = (from ≢ retired) × (to ≡ deprecated)
Edge (retire now id) from to = to ≡ retired
Edge (activate now id) from to = ((from ≡ proposed) ⊎ (from ≡ deprecated)) × (to ≡ active)
Edge _ from to = ⊥

-- Where an operation on a service leaves it registered, its status is the one before, or has
-- changed along an edge of that operation.
abbrev pub Changes : Op → ServiceRegistryEntry → Option ServiceRegistryEntry → Type 0
Changes op e none = Unit
Changes op e (some e') = (e'.status ≡ e.status) ⊎ Edge op e.status e'.status

status_of_new :
    (now : String) (e : ServiceRegistryEntry) (m : ServiceManifest)
    → e.status ≢ retired
    → ((new_entry now (some e) m).status ≡ e.status)
      ⊎ ((e.status ≡ proposed) × ((new_entry now (some e) m).status ≡ active))
unfolding new_entry status_eq
status_of_new now e m live = ground arith

ok-ne-err : {P : Type 0} {u : Unit {0}} → (P → (error : Error) × (ok u ≡ err error)) → P → ⊥
ok-ne-err refuses p = let (error, e) = refuses p in cc e

registered-Changes :
    (now : String) (reply : RedisReply) (m : ServiceManifest) (e : ServiceRegistryEntry)
    (connected : Bool) (a : Result (Unit {0}))
    → (e.status ≡ retired → (error : Error) × (a ≡ err error))
    → Changes
        (register now reply m)
        e
        (registered a (fails connected reply) (some e) (new_entry now (some e) m))
registered-Changes now reply m e connected (err error) refuses = inl refl
registered-Changes now acknowledged m e connected (ok _) refuses =
    status_of_new now e m (λ h. ok-ne-err refuses h)
registered-Changes now (refused reason) m e true (ok _) refuses = tt
registered-Changes now (refused reason) m e false (ok _) refuses =
    status_of_new now e m (λ h. ok-ne-err refuses h)

-- A service changes its status only along the edges: a proposed one becomes active by registering
-- again or by activation, one that is not retired can be deprecated, a deprecated one can be
-- activated, any can be retired, and nothing leads out of retirement or back to proposed.
pub react-Edge :
    (connected : Bool) (op : Op) (e : ServiceRegistryEntry)
    → Changes op e (react connected op (some e))
unfolding react
react-Edge connected (register now reply m) e =
    registered-Changes now reply m e connected (admit (some e) m) (admit_retired e m)
react-Edge connected (deregister now id) e = tt
react-Edge connected (deprecate now id sunset replacement) e =
    unfold deprecated_entry status_eq in ground arith
react-Edge connected (retire now id) e = unfold retired_entry in ground arith
react-Edge connected (activate now id) e = unfold activated_entry status_eq in ground arith
react-Edge connected (set_health now id healthy) e = unfold checked_entry in ground arith
react-Edge connected (touch_health now id) e = inl refl

-- An operation that does not deregister the service `j`.
abbrev pub Spares : String → Op → Type 0
Spares j (deregister now id) = id ≢ j
Spares j _ = Unit

-- The service is registered, and retired.
abbrev pub IsRetired : Option ServiceRegistryEntry → Type 0
IsRetired none = ⊥
IsRetired (some e) = e.status ≡ retired

react-IsRetired :
    (connected : Bool) (op : Op) (o : Option ServiceRegistryEntry)
    → Spares (target op) op
    → IsRetired o
    → IsRetired (react connected op o)
unfolding react
react-IsRetired connected op none s h = absurd h
react-IsRetired connected (register now reply m) (some e) s h =
    let (error, e≡) = admit_retired e m h in rw e≡ h
react-IsRetired connected (deregister now id) (some e) s h = absurd (s refl)
react-IsRetired connected (deprecate now id sunset replacement) (some e) s h =
    unfold status_eq in rw h
react-IsRetired connected (retire now id) (some e) s h = unfold retired_entry in refl
react-IsRetired connected (activate now id) (some e) s h = unfold status_eq in rw h
react-IsRetired connected (set_health now id healthy) (some e) s h =
    unfold checked_entry in ground arith
react-IsRetired connected (touch_health now id) (some e) s h = h

reacts-IsRetired :
    (connected : Bool) (ops : List Op) (j : String) (o : Option ServiceRegistryEntry)
    → All (Spares j) ops
    → IsRetired o
    → IsRetired (reacts connected j ops o)
unfolding reacts
reacts-IsRetired connected [] j o s h = h
reacts-IsRetired connected (op ∷ ops) j o (s, ss) h = elim (Bool-cases (target op == j)) [
  | inl on ↦
      reacts-IsRetired connected ops j _ ss
        (rw on (react-IsRetired connected op o (rw ((eq_iff (target op) j).0 on) s) h))
  | inr off ↦ reacts-IsRetired connected ops j _ ss (rw off h)
]

-- Operations that run one after the other, each registration to its end and with no load from Redis
-- between them, leave a service that is retired registered and retired unless they deregister it.
pub retirement_is_final :
    (ops : List Op) (r : RegistryService) (j : String)
    → All (Spares j) ops
    → IsRetired (lookup j r.services)
    → IsRetired (lookup j (run ops r).services)
retirement_is_final ops r j s h =
    rw (run-refines ops r j) (reacts-IsRetired r.connected ops j (lookup j r.services) s h)
