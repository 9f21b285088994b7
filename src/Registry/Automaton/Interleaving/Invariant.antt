-- ===== src/Registry/Automaton/Interleaving/Invariant.antt =====
-- What holds of the registry in between.
use apicenter_hehe.Common.{
  String, ◌≡◌, ◌≢◌, refl, sym, inl, inr, Option, none, some, List, [], ◌∷◌, ◌==◌, arith, Bool-cases,
  All,
}
use mathlib.Core.Path.{subst}
use apicenter_hehe.Common.Dict.{lookup, insert, remove, lookup-insert, lookup-remove}
use apicenter_hehe.Errors.{Result, ok, err, Result-cases}
use apicenter_hehe.Registry.Types.{
  ServiceManifest, ServiceRegistryEntry, ServiceRegistryMap, proposed, status_eq,
}
use apicenter_hehe.Registry.State.{RegistryService, RedisReply}
use apicenter_hehe.Registry.Registration.Parts.{announced-services, stored-services}
use apicenter_hehe.Registry.Registration.{
  Pending, admit, new_entry, stored, announced, rolled_back, register_begin, register_settle,
}
use apicenter_hehe.Registry.Registration.Coherence.{
  IsWellFormed, IsFresh, IsWellFormed-insert, IsWellFormed-remove,
}
use apicenter_hehe.Registry.Hydration.{Hash, hydrate, load_from_redis}
use apicenter_hehe.Registry.Automaton.{Op}
use apicenter_hehe.Registry.Automaton
use apicenter_hehe.Registry.Automaton.Effects.{Approved}
use apicenter_hehe.Registry.Automaton.Coherence.{IsStanding, step-IsStanding, step-IsFresh}
use apicenter_hehe.Registry.Automaton.Interleaving.{
  Event, operation, begins, settles, loads, handle, play, settles_cases,
}

-- The hash holds entries under their own ids, none of them proposed: what this program writes.
abbrev pub HoldsOwn : Hash → Type 0
HoldsOwn [] = Unit
HoldsOwn ((id, none) ∷ h) = HoldsOwn h
HoldsOwn ((id, some e) ∷ h) = (e.service_id ≡ id) × (e.status ≢ proposed) × HoldsOwn h

abbrev pub LoadsOwn : Event → Type 0
LoadsOwn (loads (ok h)) = HoldsOwn h
LoadsOwn _ = Unit

abbrev pub NoLoad : Event → Type 0
NoLoad (loads reply) = ⊥
NoLoad _ = Unit

insert-Approved :
    (id j : String) (e : ServiceRegistryEntry) (m : ServiceRegistryMap)
    → e.status ≢ proposed
    → Approved (lookup j m)
    → Approved (lookup j (insert id e m))
insert-Approved id j e m own h = elim (Bool-cases (id == j)) [
  | inl on ↦ rw (lookup-insert id j e m, on) own
  | inr off ↦ rw (lookup-insert id j e m, off) h
]

remove-Approved :
    (id j : String) (m : ServiceRegistryMap)
    → Approved (lookup j m)
    → Approved (lookup j (remove id m))
remove-Approved id j m h = elim (Bool-cases (id == j)) [
  | inl on ↦ rw (lookup-remove id j m, on) tt
  | inr off ↦ rw (lookup-remove id j m, off) h
]

-- The same, of the map alone.
record Stands (m : ServiceRegistryMap) : Type 0 where
  formed : IsWellFormed m
  approved : (j : String) → Approved (lookup j m)

Stands-insert :
    (id : String) (e : ServiceRegistryEntry) (m : ServiceRegistryMap)
    → e.service_id ≡ id
    → e.status ≢ proposed
    → Stands m
    → Stands (insert id e m)
Stands-insert id e m own approved s = record {
  formed = IsWellFormed-insert id e m own s.formed;
  approved = λ j. insert-Approved id j e m approved (s.approved j);
}

Stands-remove : (id : String) (m : ServiceRegistryMap) → Stands m → Stands (remove id m)
Stands-remove id m s = record {
  formed = IsWellFormed-remove id m s.formed;
  approved = λ j. remove-Approved id j m (s.approved j);
}

Stands-hydrate : (h : Hash) (m : ServiceRegistryMap) → HoldsOwn h → Stands m → Stands (hydrate h m)
unfolding hydrate
Stands-hydrate [] m own s = s
Stands-hydrate ((id, none) ∷ h) m own s = Stands-hydrate h m own s
Stands-hydrate ((id, some e) ∷ h) m (key, approved, own) s =
    Stands-hydrate h (insert id e m) own (Stands-insert id e m key approved s)

new_entry-facts :
    (now : String) (o : Option ServiceRegistryEntry) (m : ServiceManifest)
    → ((new_entry now o m).service_id ≡ m.service_id) × ((new_entry now o m).status ≢ proposed)
unfolding new_entry status_eq
new_entry-facts now none m = (refl, ground arith)
new_entry-facts now (some e) m = (refl, ground arith)

-- What a change does to the invariants.
record Holds (r r' : RegistryService) : Type 0 where
  stands : Stands r.services → Stands r'.services
  fresh : IsFresh r → IsFresh r'

Holds-same : (r : RegistryService) → Holds r r
Holds-same r = record { stands = λ s. s; fresh = λ f. f }

stored-Holds : (now : String) (m : ServiceManifest) (r : RegistryService) → Holds r (stored now m r)
stored-Holds now m r =
    let (services, gauge, listeners, client) = stored-services now m r in
    let entry = new_entry now (lookup m.service_id r.services) m in
    let (own, approved) = new_entry-facts now (lookup m.service_id r.services) m in
    record {
      stands = λ s.
          subst Stands (sym services) (Stands-insert m.service_id entry r.services own approved s);
      fresh = λ f. ground (arith, services, gauge);
    }

announced-Holds :
    (p : Pending) (r : RegistryService) → Holds r (announced p.now p.existing p.manifest r)
announced-Holds p r =
    let (services, gauge, client) = announced-services p.now p.existing p.manifest r in
    record {
      stands = λ s. subst Stands (sym services) s;
      fresh = λ f. ground (arith, services, gauge);
    }

rolled_back-Holds : (id : String) (r : RegistryService) → Holds r (rolled_back id r)
unfolding rolled_back
rolled_back-Holds id r = record { stands = λ s. Stands-remove id r.services s; fresh = λ f. refl }

begins-Holds :
    (now : String) (m : ServiceManifest) (r : RegistryService) → Holds r (register_begin now m r).1
unfolding register_begin
begins-Holds now m r = elim (Result-cases (admit (lookup m.service_id r.services) m)) [
  | inl (u, passed) ↦ rw passed (stored-Holds now m r)
  | inr (error, refused_it) ↦ rw refused_it (Holds-same r)
]

settles-Holds :
    (reply : RedisReply) (p : Pending) (r : RegistryService) → Holds r (register_settle reply p r).1
settles-Holds reply p r = elim (settles_cases reply p r) [
  | inl kept ↦ subst (Holds r) (sym kept) (announced-Holds p r)
  | inr (reason, same, undone) ↦
      subst (Holds r) (sym undone) (rolled_back-Holds p.manifest.service_id r)
]

operation-Holds :
    (op : Op) (r : RegistryService) → Stands r.services → Holds r (Automaton.step op r)
operation-Holds op r s =
    let standing : IsStanding r = record { formed = s.formed; approved = s.approved } in
    let after = step-IsStanding r standing op in
    record {
      stands = λ s'. record { formed = after.formed; approved = after.approved };
      fresh = step-IsFresh r standing op;
    }

loads-Stands :
    (reply : Result Hash) (r : RegistryService)
    → LoadsOwn (loads reply)
    → Stands r.services
    → Stands (load_from_redis reply r).1.services
unfolding load_from_redis
loads-Stands (err e) r own s = elim (Bool-cases r.connected) [
  | inl on ↦ rw on s
  | inr off ↦ rw off s
]
loads-Stands (ok h) r own s = elim (Bool-cases r.connected) [
  | inl on ↦ rw on (Stands-hydrate h r.services own s)
  | inr off ↦ rw off s
]

handle-Stands :
    (e : Event) (r : RegistryService)
    → LoadsOwn e
    → Stands r.services
    → Stands (handle e r).services
unfolding handle
handle-Stands (operation op) r own s = (operation-Holds op r s).stands s
handle-Stands (begins now m) r own s = (begins-Holds now m r).stands s
handle-Stands (settles reply p) r own s = (settles-Holds reply p r).stands s
handle-Stands (loads reply) r own s = loads-Stands reply r own s

handle-IsFresh :
    (e : Event) (r : RegistryService)
    → NoLoad e
    → Stands r.services
    → IsFresh r
    → IsFresh (handle e r)
unfolding handle
handle-IsFresh (operation op) r none_loaded s = (operation-Holds op r s).fresh
handle-IsFresh (begins now m) r none_loaded s = (begins-Holds now m r).fresh
handle-IsFresh (settles reply p) r none_loaded s = (settles-Holds reply p r).fresh
handle-IsFresh (loads reply) r none_loaded s = absurd none_loaded

play-Stands :
    (es : List Event) (r : RegistryService)
    → All LoadsOwn es
    → Stands r.services
    → Stands (play es r).services
unfolding play
play-Stands [] r own s = s
play-Stands (e ∷ es) r (own, later) s = play-Stands es (handle e r) later (handle-Stands e r own s)

play-IsFresh :
    (es : List Event) (r : RegistryService)
    → All LoadsOwn es
    → All NoLoad es
    → Stands r.services
    → IsFresh r
    → IsFresh (play es r)
unfolding play
play-IsFresh [] r own none_loaded s fresh = fresh
play-IsFresh (e ∷ es) r (own, later) (no_load, no_loads) s fresh =
    play-IsFresh es (handle e r) later no_loads (handle-Stands e r own s)
      (handle-IsFresh e r no_load s fresh)

-- Whatever happens to the registry, registrations that overlap included, each service stands once and
-- under its own id, and none is proposed, as long as what is loaded from Redis are entries under
-- their own ids that are not proposed. The gauge goes on showing how many services are active or
-- deprecated as long as nothing is loaded: a load does not set it.
pub play-IsStanding :
    (es : List Event) (r : RegistryService)
    → All LoadsOwn es
    → IsStanding r
    → IsStanding (play es r) × (All NoLoad es → IsFresh r → IsFresh (play es r))
play-IsStanding es r own s =
    let start : Stands r.services = record { formed = s.formed; approved = s.approved } in
    let after = play-Stands es r own start in
    (
      record { formed = after.formed; approved = after.approved },
      λ none_loaded. play-IsFresh es r own none_loaded start,
    )
