-- ===== src/Config/Secrets.antt =====
-- config/secrets.service.ts: the secrets of AWS are merged into the environment. The answer of the
-- secrets manager is an argument, and `JSON.parse` a parameter. That the constructors run before every
-- `onModuleInit` is the order of NestJS, not of this code; `boot` takes it as documented.
use apicenter_hehe.Common.{
  ℕ, ◌+◌, ◌≤◌, String, ◌≡◌, ◌≢◌, refl, ◌∙◌, Bool, true, false, not, Option, none, some, [], ◌∷◌,
  arith, eq_iff, filter, length, if◌then◌else◌, truthy, truthy?, or_else,
}
use apicenter_hehe.Common.Dict.{Dict, lookup, insert, lookup-insert, Distinct}
use apicenter_hehe.Errors.{Result, ok, err}
use apicenter_hehe.Config.{Env, ConfigService, env_or, load, on_module_init}
use apicenter_hehe.Config.Startup.{starts_iff}

-- The loop over the secrets: how many were set, and the environment after it.
unfoldable pub merge : Dict String → Env → ℕ × Env
unfolding truthy? insert
merge [] env = (0, env)
merge ((key, value) ∷ rest) env =
    let skipped = merge rest env in
    let (count, env') = merge rest (insert key value env) in
    if truthy? (lookup key env) then skipped else (count + 1, env')

-- The response of `GetSecretValueCommand`, or the error it throws.
module _ (parse : String → Result (Dict String)) where
  abbrev pub merge_parsed : Result (Dict String) → Env → Env
  merge_parsed (err e) env = env
  merge_parsed (ok secrets) env = (merge secrets env).1

  abbrev pub merge_response : Result (Option String) → Env → Env
  merge_response (err e) env = env
  merge_response (ok none) env = env
  merge_response (ok (some text)) env = if truthy text then merge_parsed (parse text) env else env

  unfoldable pub load_secrets : Result (Option String) → Env → Env
  unfolding truthy?
  load_secrets response env =
      if truthy? (lookup "AWS_SECRET_NAME" env) then merge_response response env else env

-- What a variable is worth after the merge.
abbrev pub set_or_secret : Option String → Option String → Option String
set_or_secret own none = own
set_or_secret own (some secret) = if truthy? own then own else some secret

-- A variable that is set is never overridden; one that is unset or empty gets its secret, if there
-- is one; all others stay as they are.
pub lookup-merge :
    (name : String) (secrets : Dict String) (env : Env)
    → Distinct secrets
    → lookup name (merge secrets env).1 ≡ set_or_secret (lookup name env) (lookup name secrets)
unfolding merge lookup
lookup-merge name [] env d = refl
lookup-merge name ((key, value) ∷ rest) env (once, d) = ground (
  arith,
  lookup-merge name rest env d,
  lookup-merge name rest (insert key value env) d,
  lookup-insert key name value env,
  eq_iff key name,
)

abbrev unset_in : Env → String × String → Bool
unset_in env s = not (truthy? (lookup (s.0) env))

other_names :
    (key value : String) (secrets : Dict String) (env : Env)
    → lookup key secrets ≡ none
    → length (filter (unset_in (insert key value env)) secrets)
      ≡ length (filter (unset_in env) secrets)
unfolding lookup filter
other_names key value [] env absent = refl
other_names key value ((name, secret) ∷ rest) env absent = ground (
  arith,
  eq_iff name key,
  eq_iff key name,
  lookup-insert key name value env,
  other_names key value rest env,
)

length-filter : (p : String × String → Bool) (xs : Dict String) → length (filter p xs) ≤ length xs
unfolding filter
length-filter p [] = omega arith
length-filter p (x ∷ xs) = ground (arith, length-filter p xs)

count-merge :
    (secrets : Dict String) (env : Env)
    → Distinct secrets
    → (merge secrets env).0 ≡ length (filter (unset_in env) secrets)
unfolding merge filter
count-merge [] env d = refl
count-merge ((key, value) ∷ rest) env (once, d) = ground (
  arith,
  count-merge rest env d,
  count-merge rest (insert key value env) d,
  other_names key value rest env once,
)

-- As many variables are set as there are secrets whose variable was unset or empty, so never more
-- than there are secrets: the number of those skipped, which the log shows, is a true difference.
pub merge-counts :
    (secrets : Dict String) (env : Env)
    → Distinct secrets
    → ((merge secrets env).0 ≡ length (filter (λ s. not (truthy? (lookup (s.0) env))) secrets))
      × ((merge secrets env).0 ≤ length secrets)
merge-counts secrets env d = (
  count-merge secrets env d,
  omega (arith, count-merge secrets env d, length-filter (unset_in env) secrets),
)

or_else-unset : (o : Option String) → truthy? o ≡ false → or_else o "" ≡ ""
unfolding or_else truthy?
or_else-unset none unset = refl
or_else-unset (some s) unset = rw unset refl

no_secret_set :
    (env : Env)
    → truthy? (lookup "PLATFORM_ADMIN_SECRET" env) ≡ false
    → (load env).platform_admin_secret ≡ ""
unfolding load env_or
no_secret_set env unset = or_else-unset (lookup "PLATFORM_ADMIN_SECRET" env) unset

in_production :
    (env : Env) → lookup "NODE_ENV" env ≡ some "production" → (load env).node_env ≡ "production"
unfolding load env_or or_else truthy
in_production env production = rw production refl

-- A start in the order of NestJS: the constructor of `ConfigService` reads the environment, and then
-- `SecretsService.onModuleInit` merges the secrets into it. The settings, and the environment at the
-- end.
unfoldable pub boot :
    (String → Result (Dict String)) → Result (Option String) → Env → ConfigService × Env
unfolding load load_secrets
boot parse response env = (load env, load_secrets parse response env)

-- In production a `PLATFORM_ADMIN_SECRET` that only the secrets manager holds comes too late: the
-- environment has it at the end, but the settings were read before, and their check fails.
pub secrets_come_too_late :
    (hostname : String → Option String) (parse : String → Result (Dict String))
    (secrets : Dict String) (text secret : String) (env : Env)
    → lookup "NODE_ENV" env ≡ some "production"
    → truthy? (lookup "AWS_SECRET_NAME" env) ≡ true
    → truthy? (lookup "PLATFORM_ADMIN_SECRET" env) ≡ false
    → truthy text ≡ true
    → parse text ≡ ok secrets
    → Distinct secrets
    → lookup "PLATFORM_ADMIN_SECRET" secrets ≡ some secret
    → let (config, env') = boot parse (ok (some text)) env in
      (on_module_init hostname config ≢ ok tt) × (lookup "PLATFORM_ADMIN_SECRET" env' ≡ some secret)
unfolding boot load_secrets
secrets_come_too_late hostname parse secrets text secret env production named unset full read once
      held =
    (
      λ started.
          let (known, demands) = (starts_iff hostname (load env)).0 started in
          (demands (in_production env production)).1 (no_secret_set env unset),
      rw (named, full, read)
          (lookup-merge "PLATFORM_ADMIN_SECRET" secrets env once ∙ rw (held, unset) refl),
    )
