-- ===== src/Registry/Automaton/Interleaving.antt =====
-- Everything that changes the registry, in any order: the operations that run at one time, the two
-- halves of `register` with anything between them, and a load from Redis, as at the start and in the
-- reconciliation of registry/health-monitor.service.ts.
pub mod Finality
pub mod Invariant
use apicenter_hehe.Common.{
  String, ◌≡◌, refl, ap, ◌⊎◌, inl, inr, Bool, true, false, List, [], ◌∷◌, if◌then◌else◌,
}
use apicenter_hehe.Errors.{Result, ok, err}
use apicenter_hehe.Registry.Types.{ServiceManifest, ServiceRegistryEntry}
use apicenter_hehe.Registry.State.{RegistryService, RedisReply, acknowledged, refused}
use apicenter_hehe.Registry.Registration.{
  Pending, new_entry, write_failed, announced, rolled_back, register_begin, register_settle,
}
use apicenter_hehe.Registry.Hydration.{Hash, load_from_redis}
use apicenter_hehe.Registry.Automaton.{Op}
use apicenter_hehe.Registry.Automaton

pub data Event : Type 0 where
  operation : Op → Event
  begins : (now : String) → ServiceManifest → Event
  settles : RedisReply → Pending → Event
  loads : Result Hash → Event

unfoldable pub handle : Event → RegistryService → RegistryService
unfolding Automaton.step register_begin register_settle load_from_redis
handle (operation op) r = Automaton.step op r
handle (begins now m) r = (register_begin now m r).1
handle (settles reply p) r = (register_settle reply p r).1
handle (loads reply) r = (load_from_redis reply r).1

unfoldable pub play : List Event → RegistryService → RegistryService
unfolding handle
play [] r = r
play (e ∷ es) r = play es (handle e r)

either {ℓ} :
    {A : Type ℓ} (b : Bool) (x y : A) → ((if b then x else y) ≡ x) ⊎ ((if b then x else y) ≡ y)
either true x y = inl refl
either false x y = inr refl

abbrev Answered : Type 0
Answered = Result ServiceRegistryEntry × RegistryService

-- What the second half of `register` does to the registry.
pub settles_cases :
    (reply : RedisReply) (p : Pending) (r : RegistryService)
    → ((register_settle reply p r).1 ≡ announced p.now p.existing p.manifest r)
      ⊎ ((reason : String) × (reply ≡ refused reason)
          × ((register_settle reply p r).1 ≡ rolled_back p.manifest.service_id r))
unfolding register_settle
settles_cases acknowledged p r = inl refl
settles_cases (refused reason) p r =
    let undone : Answered =
      (err (write_failed p.manifest.service_id reason), rolled_back p.manifest.service_id r) in
    let done : Answered =
      (ok (new_entry p.now p.existing p.manifest), announced p.now p.existing p.manifest r) in
    elim (either r.connected undone done) [
      | inl taken ↦ inr (reason, refl, ap (λ x. x.1) taken)
      | inr kept ↦ inl (ap (λ x. x.1) kept)
    ]
