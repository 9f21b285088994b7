-- ===== src/Registry/Controller/Consistency.antt =====
-- What the answers of the controller say of the registry.
use apicenter_hehe.Common.{
  String, ◌≡◌, sym, ap, ◌∙◌, Option, List, [], ◌∷◌, arith, eq_refl, map, length, includes,
}
use apicenter_hehe.Common.Dict.{lookup, keys, values}
use apicenter_hehe.Errors.{Result, ok, err}
use apicenter_hehe.Registry.Types.{ServiceRegistryEntry, ServiceRegistryMap}
use apicenter_hehe.Registry.State.{RegistryService, acknowledged}
use apicenter_hehe.Registry.Lookups.{get_consumers, can_consume, get}
use apicenter_hehe.Registry.Lookups.Consumers.{includes-get_consumers}
use apicenter_hehe.Registry.Registration.{admit, unregistered}
use apicenter_hehe.Registry.Registration.Governance.{register_stores}
use apicenter_hehe.Registry.Lifecycle
use apicenter_hehe.Registry.Automaton.Coherence.{IsSettled}
use apicenter_hehe.Registry.Automaton.Consumption.{
  can_consume-deprecate, deprecate-IsSettled, deregister_removes,
}
use apicenter_hehe.Registry.Controller.{
  ServiceManifestDto, manifest_of, register, get_service, found_or, deregister, deprecate, retire,
  Affected, with_consumers, summary,
}

-- The consumers of an answer are those it was given.
answered_with :
    (entry : Result ServiceRegistryEntry) (consumers : List String) (a : Affected)
    → with_consumers entry consumers ≡ ok a
    → a.affected_consumers ≡ consumers
answered_with (err e) consumers a h = absurd (cc h)
answered_with (ok entry) consumers a h = ground arith

-- A deprecation and a retirement both answer with exactly the services that may consume the target
-- at that time, in a registry that any run of operations can lead to: for a deprecation, though it
-- reads them after the change.
pub affected_are_consumers :
    (now id : String) (sunset replacement : Option String) (r : RegistryService) (a : Affected)
    (source : String)
    → IsSettled r
    → ((deprecate now id sunset replacement r).0 ≡ ok a
        → includes a.affected_consumers source ≡ can_consume source id r)
      × ((retire now id r).0 ≡ ok a
          → includes a.affected_consumers source ≡ can_consume source id r)
unfolding deprecate retire
affected_are_consumers now id sunset replacement r a source settled = (
  λ h.
      let r' = (Lifecycle.deprecate now id sunset replacement r).1 in
      ap (λ xs. includes xs source) (answered_with _ (get_consumers id r') a h)
      ∙ includes-get_consumers id source r'
          (deprecate-IsSettled now id sunset replacement r settled).formed
      ∙ can_consume-deprecate now id sunset replacement r source id,
  λ h.
      ap (λ xs. includes xs source) (answered_with _ (get_consumers id r) a h)
      ∙ includes-get_consumers id source r settled.formed,
)

-- What is registered can be read back, and what is deregistered cannot: once the checks pass and
-- Redis acknowledges the write, `GET` answers with the very entry that the registration answered
-- with, and after a deregistration it answers with 404.
pub get_service-register :
    (now later : String) (dto : ServiceManifestDto) (r : RegistryService)
    → admit (lookup dto.service_id r.services) (manifest_of dto) ≡ ok tt
    → let (answer, r') = register now acknowledged dto r in
      (get_service dto.service_id r' ≡ answer)
      × (get_service dto.service_id (deregister later dto.service_id r').1
          ≡ err (unregistered dto.service_id))
unfolding register get_service get manifest_of deregister
get_service-register now later dto r passed =
    let stores = register_stores now (manifest_of dto) r passed in
    (
      ap (λ o. found_or o (unregistered dto.service_id)) (stores.1 dto.service_id)
          ∙ rw (eq_refl dto.service_id) (sym stores.0),
      ap (λ o. found_or o (unregistered dto.service_id))
          (deregister_removes later dto.service_id (register now acknowledged dto r).1),
    )

length-summaries : (m : ServiceRegistryMap) → length (map summary (values m)) ≡ length (keys m)
unfolding values keys
length-summaries [] = omega arith
length-summaries ((id, e) ∷ m) = omega (arith, length-summaries m)
