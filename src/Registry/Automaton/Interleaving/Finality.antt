-- ===== src/Registry/Automaton/Interleaving/Finality.antt =====
-- What ends a retirement.
use apicenter_hehe.Common.{
  String, ◌≡◌, ◌≢◌, sym, inl, inr, false, Option, none, some, List, [], ◌∷◌, ◌==◌, arith, eq_iff,
  Bool-cases, All,
}
use mathlib.Core.Path.{subst}
use apicenter_hehe.Common.Dict.{lookup, insert, lookup-insert, lookup-remove}
use apicenter_hehe.Errors.{Error, Result, ok, err, Result-cases}
use apicenter_hehe.Registry.Types.{
  ServiceManifest, ServiceRegistryEntry, ServiceRegistryMap, retired,
}
use apicenter_hehe.Registry.State.{RegistryService, RedisReply, acknowledged, refused}
use apicenter_hehe.Registry.Registration.Parts.{announced-services, stored-services}
use apicenter_hehe.Registry.Registration.{
  Pending, admit, new_entry, stored, announced, rolled_back, register_begin, register_settle,
}
use apicenter_hehe.Registry.Registration.Governance.{admit_retired}
use apicenter_hehe.Registry.Hydration.{Hash, hydrate, load_from_redis}
use apicenter_hehe.Registry.Automaton.{Op}
use apicenter_hehe.Registry.Automaton
use apicenter_hehe.Registry.Automaton.Retirement.{Spares, IsRetired, retirement_is_final}
use apicenter_hehe.Registry.Automaton.Interleaving.{
  Event, operation, begins, settles, loads, handle, play, settles_cases,
}

-- No entry of the hash under the id `j` says anything but that the service is retired.
abbrev pub HoldsRetired : String → Hash → Type 0
HoldsRetired j [] = Unit
HoldsRetired j ((id, none) ∷ h) = HoldsRetired j h
HoldsRetired j ((id, some e) ∷ h) = (id ≡ j → e.status ≡ retired) × HoldsRetired j h

-- An event that does not end the retirement of the service `j`.
abbrev pub Preserves : String → Event → Type 0
Preserves j (operation op) = Spares j op
Preserves j (begins now m) = Unit
Preserves j (settles acknowledged p) = Unit
Preserves j (settles (refused reason) p) = p.manifest.service_id ≢ j
Preserves j (loads (ok h)) = HoldsRetired j h
Preserves j (loads (err e)) = Unit

insert-IsRetired :
    (id j : String) (e : ServiceRegistryEntry) (m : ServiceRegistryMap)
    → (id ≡ j → e.status ≡ retired)
    → IsRetired (lookup j m)
    → IsRetired (lookup j (insert id e m))
insert-IsRetired id j e m own h = elim (Bool-cases (id == j)) [
  | inl on ↦ rw (lookup-insert id j e m, on) (own ((eq_iff id j).0 on))
  | inr off ↦ rw (lookup-insert id j e m, off) h
]

hydrate-IsRetired :
    (j : String) (h : Hash) (m : ServiceRegistryMap)
    → HoldsRetired j h
    → IsRetired (lookup j m)
    → IsRetired (lookup j (hydrate h m))
unfolding hydrate
hydrate-IsRetired j [] m held now = now
hydrate-IsRetired j ((id, none) ∷ h) m held now = hydrate-IsRetired j h m held now
hydrate-IsRetired j ((id, some e) ∷ h) m (own, held) now =
    hydrate-IsRetired j h (insert id e m) held (insert-IsRetired id j e m own now)

other_key : (id j : String) → (id == j) ≡ false → id ≢ j
other_key id j off same = ground (arith, eq_iff id j)

stored-IsRetired :
    (now : String) (m : ServiceManifest) (r : RegistryService) (j : String)
    → (m.service_id == j) ≡ false
    → IsRetired (lookup j r.services)
    → IsRetired (lookup j (stored now m r).services)
stored-IsRetired now m r j off h =
    subst (λ s. IsRetired (lookup j s)) (sym (stored-services now m r).0)
      (insert-IsRetired m.service_id j (new_entry now (lookup m.service_id r.services) m) r.services
        (λ same. absurd (other_key m.service_id j off same)) h)

-- The first half of a registration leaves a retired service alone, whatever it registers.
refused_if_retired :
    (m : ServiceManifest) (o : Option ServiceRegistryEntry)
    → IsRetired o
    → (error : Error) × (admit o m ≡ err error)
refused_if_retired m none h = absurd h
refused_if_retired m (some e) h = admit_retired e m h

begins-IsRetired :
    (now : String) (m : ServiceManifest) (r : RegistryService) (j : String)
    → IsRetired (lookup j r.services)
    → IsRetired (lookup j (register_begin now m r).1.services)
unfolding register_begin
begins-IsRetired now m r j h = elim (Bool-cases (m.service_id == j)) [
  | inl on ↦
      let same = (eq_iff m.service_id j).0 on in
      let (error, refused_it) =
        refused_if_retired m (lookup m.service_id r.services)
          (subst (λ k. IsRetired (lookup k r.services)) (sym same) h) in
      rw refused_it h
  | inr off ↦ elim (Result-cases (admit (lookup m.service_id r.services) m)) [
    | inl (u, passed) ↦ rw passed (stored-IsRetired now m r j off h)
    | inr (error, refused_it) ↦ rw refused_it h
  ]
]

announced-IsRetired :
    (p : Pending) (r : RegistryService) (j : String)
    → IsRetired (lookup j r.services)
    → IsRetired (lookup j (announced p.now p.existing p.manifest r).services)
announced-IsRetired p r j h =
    subst (λ s. IsRetired (lookup j s)) (sym (announced-services p.now p.existing p.manifest r).0) h

rolled_back-IsRetired :
    (id j : String) (r : RegistryService)
    → id ≢ j
    → IsRetired (lookup j r.services)
    → IsRetired (lookup j (rolled_back id r).services)
unfolding rolled_back
rolled_back-IsRetired id j r other h = elim (Bool-cases (id == j)) [
  | inl on ↦ absurd (other ((eq_iff id j).0 on))
  | inr off ↦ rw (lookup-remove id j r.services, off) h
]

abbrev Keeps : String → RegistryService → Type 0
Keeps j r = IsRetired (lookup j r.services)

settles-IsRetired :
    (reply : RedisReply) (p : Pending) (r : RegistryService) (j : String)
    → Preserves j (settles reply p)
    → IsRetired (lookup j r.services)
    → IsRetired (lookup j (register_settle reply p r).1.services)
settles-IsRetired reply p r j spared h = elim (settles_cases reply p r) [
  | inl kept ↦ subst (Keeps j) (sym kept) (announced-IsRetired p r j h)
  | inr (reason, same, undone) ↦ subst (Keeps j) (sym undone) (
      rolled_back-IsRetired p.manifest.service_id j r
        (subst (λ a. Preserves j (settles a p)) same spared) h)
]

loads-IsRetired :
    (reply : Result Hash) (r : RegistryService) (j : String)
    → Preserves j (loads reply)
    → IsRetired (lookup j r.services)
    → IsRetired (lookup j (load_from_redis reply r).1.services)
unfolding load_from_redis
loads-IsRetired (err e) r j spared h = elim (Bool-cases r.connected) [
  | inl on ↦ rw on h
  | inr off ↦ rw off h
]
loads-IsRetired (ok hash) r j spared h = elim (Bool-cases r.connected) [
  | inl on ↦ rw on (hydrate-IsRetired j hash r.services spared h)
  | inr off ↦ rw off h
]

handle-IsRetired :
    (e : Event) (r : RegistryService) (j : String)
    → Preserves j e
    → IsRetired (lookup j r.services)
    → IsRetired (lookup j (handle e r).services)
unfolding handle Automaton.run
handle-IsRetired (operation op) r j spared h = retirement_is_final (op ∷ []) r j (spared, tt) h
handle-IsRetired (begins now m) r j spared h = begins-IsRetired now m r j h
handle-IsRetired (settles reply p) r j spared h = settles-IsRetired reply p r j spared h
handle-IsRetired (loads reply) r j spared h = loads-IsRetired reply r j spared h

-- What can end a retirement. Whatever happens to the registry, registrations that overlap and loads
-- from Redis included, and in whatever order, a service that is retired stays registered and retired,
-- as long as none of three things happens: it is deregistered, Redis refuses the write of a
-- registration of it that is waiting, or a load finds an entry of it in Redis that is not retired.
pub retirement_lasts :
    (es : List Event) (r : RegistryService) (j : String)
    → All (Preserves j) es
    → IsRetired (lookup j r.services)
    → IsRetired (lookup j (play es r).services)
unfolding play
retirement_lasts [] r j spared h = h
retirement_lasts (e ∷ es) r j (now, later) h =
    retirement_lasts es (handle e r) j later (handle-IsRetired e r j now h)
