-- ===== src/Registry/Automaton/Refinement.antt =====
-- The registry refines the automata.
use apicenter_hehe.Common.{
  String, ◌≡◌, refl, ◌∙◌, inl, inr, Bool, Option, some, List, [], ◌∷◌, ◌==◌, arith, eq_iff,
  Bool-cases, Option-cases, if◌then◌else◌,
}
use apicenter_hehe.Common.Dict.{lookup, insert, lookup-insert, lookup-remove}
use apicenter_hehe.Errors.{Error, ok, err, Result-cases}
use apicenter_hehe.Registry.Types.{ServiceManifest, ServiceRegistryEntry}
use apicenter_hehe.Registry.State.{RegistryService, RedisReply, acknowledged, refused}
use apicenter_hehe.Registry.Registration
use apicenter_hehe.Registry.Registration.{admit, new_entry}
use apicenter_hehe.Registry.Registration.Governance.{register_refused, register_stores}
use apicenter_hehe.Registry.Registration.Rollback.{refused_write_forgets, register_offline}
use apicenter_hehe.Registry.Lifecycle
use apicenter_hehe.Registry.Lifecycle.{deprecated_entry, retired_entry, activated_entry}
use apicenter_hehe.Registry.Health
use apicenter_hehe.Registry.Health.{checked_entry}
use apicenter_hehe.Registry.Automaton.Connection.{connected-step}
use apicenter_hehe.Registry.Automaton.{
  Op, register, deregister, deprecate, retire, activate, set_health, touch_health, step, run,
  target, react, reacts,
}

-- After `op`, the service `j` is what its automaton says, if the operation is on it, and is left
-- alone otherwise.
abbrev Refines : Op → RegistryService → String → Type 0
Refines op r j =
    lookup j (step op r).services
    ≡ (if target op == j then react r.connected op (lookup j r.services) else lookup j r.services)

module _ (now id j : String) (r : RegistryService) where
  deregister-Refines : Refines (deregister now id) r j
  unfolding step react Registration.deregister
  deregister-Refines = ground (arith, lookup-remove id j r.services, eq_iff id j)

  -- A write is seen at its key alone.
  written :
      (e : ServiceRegistryEntry)
      → lookup j (insert id e r.services) ≡ (if id == j then some e else lookup j r.services)
  written e = lookup-insert id j e r.services

  retire-Refines : Refines (retire now id) r j
  unfolding step react Lifecycle.retire
  retire-Refines = elim (Option-cases (lookup id r.services)) [
    | inl gone ↦ ground (arith, eq_iff id j)
    | inr (e, found) ↦ ground (arith, eq_iff id j, written (retired_entry now e))
  ]

  deprecate-Refines :
      (sunset replacement : Option String) → Refines (deprecate now id sunset replacement) r j
  unfolding step react Lifecycle.deprecate
  deprecate-Refines sunset replacement = elim (Option-cases (lookup id r.services)) [
    | inl gone ↦ ground (arith, eq_iff id j)
    | inr (e, found) ↦
        ground (arith, eq_iff id j, written (deprecated_entry now sunset replacement e))
  ]

  activate-Refines : Refines (activate now id) r j
  unfolding step react Lifecycle.activate
  activate-Refines = elim (Option-cases (lookup id r.services)) [
    | inl gone ↦ ground (arith, eq_iff id j)
    | inr (e, found) ↦ ground (arith, eq_iff id j, written (activated_entry now e))
  ]

  set_health-Refines : (healthy : Bool) → Refines (set_health now id healthy) r j
  unfolding step react Health.set_health_status
  set_health-Refines healthy = elim (Option-cases (lookup id r.services)) [
    | inl gone ↦ ground (arith, eq_iff id j)
    | inr (e, found) ↦ ground (arith, eq_iff id j, written (checked_entry now healthy e))
  ]

  touch_health-Refines : Refines (touch_health now id) r j
  unfolding step react Health.touch_health_check
  touch_health-Refines = elim (Option-cases (lookup id r.services)) [
    | inl gone ↦ ground (arith, eq_iff id j)
    | inr (e, found) ↦
        ground (arith, eq_iff id j, written (record e { last_health_check_at = some now }))
  ]

module _ (now j : String) (m : ServiceManifest) (r : RegistryService) where
  refused-Refines :
      (reply : RedisReply) (error : Error)
      → admit (lookup m.service_id r.services) m ≡ err error
      → Refines (register now reply m) r j
  unfolding step react
  refused-Refines reply error h =
      ground (arith, eq_iff m.service_id j, register_refused now reply m r error h)

  acknowledged-Refines :
      admit (lookup m.service_id r.services) m ≡ ok tt → Refines (register now acknowledged m) r j
  unfolding step react
  acknowledged-Refines h = ground (arith, eq_iff m.service_id j, (register_stores now m r h).1 j)

  answered :
      (reply : RedisReply)
      → admit (lookup m.service_id r.services) m ≡ ok tt
      → Refines (register now reply m) r j
  answered acknowledged h = acknowledged-Refines h
  answered (refused reason) h = elim (Bool-cases r.connected) [
    | inl on ↦
        unfold step react in
        ground (arith, eq_iff m.service_id j, (refused_write_forgets now reason m r on h).1 j)
    | inr off ↦
        unfold step react in
        ground (
          arith,
          eq_iff m.service_id j,
          register_offline now reason m r off,
          (register_stores now m r h).1 j,
        )
  ]

  register-Refines : (reply : RedisReply) → Refines (register now reply m) r j
  register-Refines reply = elim (Result-cases (admit (lookup m.service_id r.services) m)) [
    | inl (_, passed) ↦ answered reply passed
    | inr (error, refusal) ↦ refused-Refines reply error refusal
  ]

-- One operation acts on its target as the automaton of that service says, and on no other.
pub step-Refines : (op : Op) (r : RegistryService) (j : String) → Refines op r j
step-Refines (register now reply m) r j = register-Refines now j m r reply
step-Refines (deregister now id) r j = deregister-Refines now id j r
step-Refines (deprecate now id sunset replacement) r j =
    deprecate-Refines now id j r sunset replacement
step-Refines (retire now id) r j = retire-Refines now id j r
step-Refines (activate now id) r j = activate-Refines now id j r
step-Refines (set_health now id healthy) r j = set_health-Refines now id j r healthy
step-Refines (touch_health now id) r j = touch_health-Refines now id j r

-- Any run of operations leaves each service where its own automaton goes by the operations on that
-- service alone.
pub run-refines :
    (ops : List Op) (r : RegistryService) (j : String)
    → lookup j (run ops r).services ≡ reacts r.connected j ops (lookup j r.services)
unfolding run reacts
run-refines [] r j = refl
run-refines (op ∷ ops) r j =
    run-refines ops (step op r) j ∙ rw (connected-step op r, step-Refines op r j)
