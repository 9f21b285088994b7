-- ===== src/Registry/Automaton/Consumption.antt =====
-- What a deprecation leaves alone, and a deregistration does not.
use apicenter_hehe.Common.{
  String, ◌≡◌, refl, ap, ◌∙◌, inl, inr, Option, none, some, [], ◌∷◌, Bool-cases, ◌==◌, eq_refl,
}
use apicenter_hehe.Common.Dict.{lookup}
use apicenter_hehe.Registry.Types.{ServiceRegistryEntry, retired, status_eq}
use apicenter_hehe.Registry.State.{RegistryService}
use apicenter_hehe.Registry.Lookups.{can_consume, consumes_found}
use apicenter_hehe.Registry.Registration
use apicenter_hehe.Registry.Lifecycle
use apicenter_hehe.Registry.Lifecycle.{deprecated_entry}
use apicenter_hehe.Registry.Automaton.{deprecate, deregister, step, run, react}
use apicenter_hehe.Registry.Automaton.Refinement.{step-Refines}
use apicenter_hehe.Registry.Automaton.Coherence.{IsSettled, run-IsSettled}

module _ (now id : String) (sunset replacement : Option String) (r : RegistryService) where
  deprecated_consumes :
      (o : Option ServiceRegistryEntry) (target : String)
      → consumes_found (react r.connected (deprecate now id sunset replacement) o) target
        ≡ consumes_found o target
  unfolding react deprecated_entry
  deprecated_consumes none target = refl
  deprecated_consumes (some e) target = elim (Bool-cases (status_eq e.status retired)) [
    | inl over ↦ rw over refl
    | inr live ↦ rw live refl
  ]

  -- Who may consume what does not change.
  pub can_consume-deprecate :
      (source target : String)
      → can_consume source target (Lifecycle.deprecate now id sunset replacement r).1
        ≡ can_consume source target r
  unfolding can_consume step
  can_consume-deprecate source target = elim (Bool-cases (id == source)) [
    | inl on ↦
        ap (λ o. consumes_found o target)
          (step-Refines (deprecate now id sunset replacement) r source)
        ∙ rw on (deprecated_consumes (lookup source r.services) target)
    | inr off ↦
        ap (λ o. consumes_found o target)
          (step-Refines (deprecate now id sunset replacement) r source)
        ∙ rw off refl
  ]

  pub deprecate-IsSettled :
      IsSettled r → IsSettled (Lifecycle.deprecate now id sunset replacement r).1
  unfolding run step
  deprecate-IsSettled s = run-IsSettled (deprecate now id sunset replacement ∷ []) r s

-- After a deregistration the service is not there, whether it was before or not.
pub deregister_removes :
    (now id : String) (r : RegistryService)
    → lookup id (Registration.deregister now id r).1.services ≡ none
unfolding step react
deregister_removes now id r = step-Refines (deregister now id) r id ∙ rw (eq_refl id) refl
