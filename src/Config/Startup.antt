-- ===== src/Config/Startup.antt =====
-- When the check of the settings at the start, `onModuleInit` of `ConfigService`, passes.
use apicenter_hehe.Common.{
  String, ◌≡◌, ◌≢◌, ◌↔◌, ◌⊎◌, refl, Bool, true, false, not, ◌&&◌, Option, none, some, List, [], ◌∷◌,
  ◌++◌, arith, eq_iff, includes, truthy, ◌==◌,
}
use apicenter_hehe.Errors.{ok}
use apicenter_hehe.Config.{
  ConfigService, is_production, errors, when, fail_on, on_module_init, known_provider,
  keycloak_is_local, host_is,
}

fail_on_iff :
    (hostname : String → Option String) (lines : List String)
    → (fail_on hostname lines ≡ ok tt) ↔ (lines ≡ [])
fail_on_iff hostname [] = (λ h. refl, λ h. refl)
fail_on_iff hostname (e ∷ es) = (λ h. absurd (cc h), λ h. absurd (cc h))

when_nil_iff :
    (test : Bool) (line : String) (rest : List String)
    → ((when test line ++ rest) ≡ []) ↔ ((test ≡ false) × (rest ≡ []))
when_nil_iff true line rest = (λ h. absurd (cc h), λ h. absurd (cc (h.0)))
when_nil_iff false line rest = (λ h. (refl, h), λ h. h.1)

when_last_iff : (test : Bool) (line : String) → (when test line ≡ []) ↔ (test ≡ false)
when_last_iff true line = (λ h. absurd (cc h), λ h. absurd (cc h))
when_last_iff false line = (λ h. refl, λ h. refl)

abbrev pub keycloak_name : String
keycloak_name = "keycloak"

abbrev pub dev_jwt_name : String
dev_jwt_name = "dev-jwt"

pub providers-differ : keycloak_name ≢ dev_jwt_name
providers-differ same = cc same

host_is_iff :
    (host : Option String) (name : String) → (host_is host name ≡ true) ↔ (host ≡ some name)
host_is_iff none name = ground arith
host_is_iff (some h) name = ground (arith, eq_iff h name)

module _ (hostname : String → Option String) (c : ConfigService) where
  -- What the check of the settings means to demand.
  abbrev pub IsStartable : Type 0
  IsStartable =
      ((c.auth_provider ≡ "keycloak") ⊎ (c.auth_provider ≡ "dev-jwt"))
      × (c.node_env ≡ "production"
          → (c.auth_provider ≡ "keycloak")
            × (c.platform_admin_secret ≢ "")
            × (hostname c.keycloak.base_url ≢ some "localhost"))

  abbrev Tests : Type 0
  Tests =
      ((not (truthy c.platform_admin_secret) && is_production c) ≡ false)
      × ((not (known_provider c)) ≡ false)
      × ((keycloak_is_local hostname c && is_production c) ≡ false)
      × ((c.auth_provider == "dev-jwt" && is_production c) ≡ false)

  no_errors_iff : (errors hostname c ≡ []) ↔ Tests
  unfolding errors
  no_errors_iff = ground (
    arith,
    when_nil_iff (not (truthy c.platform_admin_secret) && is_production c),
    when_nil_iff (not (known_provider c)),
    when_nil_iff (keycloak_is_local hostname c && is_production c),
    when_last_iff (c.auth_provider == "dev-jwt" && is_production c),
  )

  tests_iff : Tests ↔ IsStartable
  unfolding is_production truthy includes
  tests_iff = ground (
    arith,
    providers-differ,
    eq_iff c.platform_admin_secret "",
    eq_iff c.node_env "production",
    eq_iff "keycloak" c.auth_provider,
    eq_iff "dev-jwt" c.auth_provider,
    eq_iff c.auth_provider "keycloak",
    eq_iff c.auth_provider "dev-jwt",
    host_is_iff (hostname c.keycloak.base_url) "localhost",
  )

  -- The check of the settings at the start (`onModuleInit` of `ConfigService`) passes exactly with a
  -- known provider and, in production, with Keycloak, an admin secret that is set, and an address of
  -- Keycloak whose host is not localhost, where an address that is no URL passes too.
  pub starts_iff : (on_module_init hostname c ≡ ok tt) ↔ IsStartable
  unfolding on_module_init
  starts_iff = (
    λ h. tests_iff.0 (no_errors_iff.0 ((fail_on_iff hostname (errors hostname c)).0 h)),
    λ h. (fail_on_iff hostname (errors hostname c)).1 (no_errors_iff.1 (tests_iff.1 h)),
  )
