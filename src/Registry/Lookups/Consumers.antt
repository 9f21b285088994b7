-- ===== src/Registry/Lookups/Consumers.antt =====
-- How the lookups agree with one another.
use apicenter_hehe.Common.{
  ◌+◌, String, ◌≡◌, refl, [], ◌∷◌, map, arith, eq_iff, filter, includes, length, get_or,
}
use apicenter_hehe.Common.Dict.{lookup, keys, values, Distinct}
use apicenter_hehe.Registry.Types.{ServiceRegistryMap, shared, tribe, type_eq}
use apicenter_hehe.Registry.State.{RegistryService}
use apicenter_hehe.Registry.Registration.Coherence.{Keyed, IsWellFormed}
use apicenter_hehe.Registry.Lookups.{get_by_type, count, get_consumers, consumes_found, can_consume}

consumers_in :
    (target id : String) (m : ServiceRegistryMap)
    → Distinct m
    → Keyed m
    → includes (map (λ e. e.service_id) (filter (λ e. includes e.consumes target) (values m))) id
      ≡ consumes_found (lookup id m) target
unfolding lookup values filter includes
consumers_in target id [] d k = refl
consumers_in target id ((j, e) ∷ m) d k =
    ground (arith, eq_iff j id, eq_iff e.service_id id, consumers_in target id m d.1 k.1)

-- In a well-formed registry, a service is among the consumers of a target exactly when it may
-- consume it: the list that the operators see is the one that the proxy goes by.
pub includes-get_consumers :
    (target id : String) (r : RegistryService)
    → IsWellFormed r.services
    → includes (get_consumers target r) id ≡ can_consume id target r
unfolding get_consumers can_consume
includes-get_consumers target id r w = consumers_in target id r.services w.distinct w.keyed

split_by_type :
    (m : ServiceRegistryMap)
    → length (filter (λ e. type_eq (get_or e.service_type tribe) shared) (values m))
        + length (filter (λ e. type_eq (get_or e.service_type tribe) tribe) (values m))
      ≡ length (keys m)
unfolding filter values keys type_eq
split_by_type [] = omega arith
split_by_type ((j, e) ∷ m) = ground (arith, split_by_type m)

-- Every registered service is in exactly one of the two namespaces: the shared services and the
-- tribe services add up to the count.
pub by_type_partition :
    (r : RegistryService) → length (get_by_type shared r) + length (get_by_type tribe r) ≡ count r
unfolding get_by_type count
by_type_partition r = split_by_type r.services
