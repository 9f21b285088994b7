-- ===== src/Config.antt =====
-- config/config.service.ts: the settings, read from the environment when the object is made, and
-- their check at the start. A number that is `none` is NaN. `new URL(…).hostname` is a parameter,
-- `none` where it throws.
pub mod Startup
pub mod Secrets
use Prim.Native.String
use text.Mathlib.Text.{find?}
use apicenter_hehe.Common.{
  ℕ, String, Bool, true, false, not, ◌&&◌, Option, none, some, List, [], ◌∷◌, ◌++◌, ◌==◌,
  if◌then◌else◌, truthy, truthy?, or_else, includes,
}
use apicenter_hehe.Common.Dict.{Dict, lookup}
use apicenter_hehe.Common.Split.{split_on}
use apicenter_hehe.Common.Int.{ℤ}
use apicenter_hehe.Common.Numbers.{parse_int}
use apicenter_hehe.Errors.{Error, plain, Result, ok, err}
use apicenter_hehe.Auth.Keycloak.{KeycloakConfig}

abbrev pub Env : Type 0
Env = Dict String

pub record KafkaConfig : Type 0 where
  pub client_id : String
  pub brokers : List String
  pub group_id : String

pub record RedisConfig : Type 0 where
  pub rate_limit_url : String
  pub cache_url : String

pub record SupabaseConfig : Type 0 where
  pub url : String
  pub service_role_key : String

pub record ApiConfig : Type 0 where
  pub url : String
  pub key : String

pub record TracingConfig : Type 0 where
  pub jaeger_endpoint : String
  pub service_name : String

-- `*` or a list.
pub data Origins : Type 0 where
  any_origin : Origins
  only_origins : List String → Origins

pub record DevJwtSettings : Type 0 where
  pub issuer : String
  pub token_ttl_seconds : Option ℤ
  pub refresh_ttl_multiplier : Option ℤ

pub record RateLimitConfig : Type 0 where
  pub window_ms : Option ℤ
  pub max : Option ℤ

pub record ConfigService : Type 0 where
  pub port : Option ℤ
  pub node_env : String
  pub cors_origin : Origins
  pub cors_credentials : Bool
  pub auth_provider : String
  pub keycloak : KeycloakConfig
  pub dev_jwt : DevJwtSettings
  pub kafka : KafkaConfig
  pub platform_admin_secret : String
  pub redis : RedisConfig
  pub supabase : SupabaseConfig
  pub rate_limit : RateLimitConfig
  pub external_timeout : ℕ
  pub geolocation : ApiConfig
  pub geofencing : ApiConfig
  pub tracing : TracingConfig
  pub allowed_origins : Origins

-- `process.env[name] || fallback`
unfoldable pub env_or : Env → String → String → String
unfolding or_else
env_or env name fallback = or_else (lookup name env) fallback

abbrev origins_of : Option String → Origins
origins_of none = any_origin
origins_of (some s) = if truthy s then only_origins (split_on b',' s) else any_origin

abbrev certs_of : Env → String
certs_of env = String.◌++◌ (env_or env "KEYCLOAK_BASE_URL" "http://localhost:8080") (
    String.◌++◌ "/realms/"
      (String.◌++◌ (env_or env "KEYCLOAK_REALM" "api-center") "/protocol/openid-connect/certs"))

-- The constructor, which runs before any `onModuleInit`.
unfoldable pub load : Env → ConfigService
unfolding env_or split_on truthy parse_int
load env = record {
  port = parse_int (env_or env "PORT" "3000");
  node_env = env_or env "NODE_ENV" "development";
  cors_origin = origins_of (lookup "ALLOWED_ORIGINS" env);
  cors_credentials = true;
  auth_provider = env_or env "AUTH_PROVIDER" "dev-jwt";
  keycloak = record {
    base_url = env_or env "KEYCLOAK_BASE_URL" "http://localhost:8080";
    realm = env_or env "KEYCLOAK_REALM" "api-center";
    jwks_uri = env_or env "KEYCLOAK_JWKS_URI" (certs_of env);
    token_endpoint = env_or env "KEYCLOAK_TOKEN_ENDPOINT" "";
    issuer = env_or env "KEYCLOAK_ISSUER" "";
    audience = env_or env "KEYCLOAK_AUDIENCE" "";
    refresh_client_id = env_or env "KEYCLOAK_REFRESH_CLIENT_ID" "api-center";
    default_client_secret = env_or env "KEYCLOAK_DEFAULT_CLIENT_SECRET" "";
  };
  dev_jwt = record {
    issuer = env_or env "DEV_JWT_ISSUER" "api-center-dev";
    token_ttl_seconds = parse_int (env_or env "DEV_JWT_TTL_SECONDS" "3600");
    refresh_ttl_multiplier = parse_int (env_or env "DEV_JWT_REFRESH_TTL_MULTIPLIER" "24");
  };
  kafka = record {
    client_id = env_or env "KAFKA_CLIENT_ID" "api-center";
    brokers = split_on b',' (env_or env "KAFKA_BROKERS" "localhost:9092");
    group_id = env_or env "KAFKA_GROUP_ID" "api-center-group";
  };
  platform_admin_secret = env_or env "PLATFORM_ADMIN_SECRET" "";
  redis = record {
    rate_limit_url = env_or env "REDIS_RATE_LIMIT_URL" "redis://localhost:6380";
    cache_url = env_or env "REDIS_CACHE_URL" "redis://localhost:6381";
  };
  supabase = record {
    url = env_or env "SUPABASE_URL" "";
    service_role_key = env_or env "SUPABASE_SERVICE_ROLE_KEY" "";
  };
  rate_limit = record {
    window_ms = parse_int (env_or env "RATE_LIMIT_WINDOW_MS" "60000");
    max = parse_int (env_or env "RATE_LIMIT_MAX" "100");
  };
  external_timeout = 10000;
  geolocation = record {
    url = env_or env "GEOLOCATION_API_URL" "https://api.ipgeolocation.io";
    key = env_or env "GEOLOCATION_API_KEY" "";
  };
  geofencing = record {
    url = env_or env "GEOFENCING_API_URL" "https://api.geofencing.example.com";
    key = env_or env "GEOFENCING_API_KEY" "";
  };
  tracing = record {
    jaeger_endpoint = env_or env "JAEGER_ENDPOINT" "http://localhost:14268/api/traces";
    service_name = env_or env "OTEL_SERVICE_NAME" "api-center";
  };
  allowed_origins = origins_of (lookup "ALLOWED_ORIGINS" env);
}

unfoldable pub is_production : ConfigService → Bool
is_production c = c.node_env == "production"

-- `if (test) list.push(text)`
abbrev pub when : Bool → String → List String
when test line = if test then line ∷ [] else []

abbrev found : Option ℕ → Bool
found none = false
found (some i) = true

-- `url.includes('localhost')`
unfoldable pub names_localhost : String → Bool
names_localhost url = found (find? url "localhost")

abbrev pub host_is : Option String → String → Bool
host_is none name = false
host_is (some host) name = host == name

abbrev pub known_provider : ConfigService → Bool
known_provider c = includes ("keycloak" ∷ "dev-jwt" ∷ []) c.auth_provider

module _ (hostname : String → Option String) where
  -- Keycloak is chosen, and its address is this machine.
  abbrev pub keycloak_is_local : ConfigService → Bool
  keycloak_is_local c =
      c.auth_provider == "keycloak" && host_is (hostname c.keycloak.base_url) "localhost"

  unfoldable pub errors : ConfigService → List String
  unfolding is_production truthy includes
  errors c =
      when (not (truthy c.platform_admin_secret) && is_production c)
        "PLATFORM_ADMIN_SECRET must be set in production"
      ++ when (not (known_provider c)) (
          String.◌++◌ "AUTH_PROVIDER must be one of: keycloak, dev-jwt (got '"
            (String.◌++◌ c.auth_provider "')"))
      ++ when (keycloak_is_local c && is_production c)
          "KEYCLOAK_BASE_URL must be set to a production Keycloak URL"
      ++ when (c.auth_provider == "dev-jwt" && is_production c)
          "AUTH_PROVIDER=dev-jwt must NOT be used in production. Use AUTH_PROVIDER=keycloak"

  unfoldable pub warnings : ConfigService → List String
  unfolding is_production truthy names_localhost includes
  warnings c =
      when (keycloak_is_local c && not (is_production c))
        "KEYCLOAK_BASE_URL still points to localhost"
      ++ when (c.auth_provider == "keycloak" && (not (truthy c.keycloak.issuer) && is_production c))
          "KEYCLOAK_ISSUER is not set — token issuer validation is disabled"
      ++ when (is_production c && includes c.kafka.brokers "localhost:9092")
          "KAFKA_BROKERS still points to localhost in production"
      ++ when (is_production c && names_localhost c.redis.rate_limit_url)
          "REDIS_RATE_LIMIT_URL still points to localhost in production"
      ++ when (is_production c && names_localhost c.redis.cache_url)
          "REDIS_CACHE_URL still points to localhost in production"

  -- The lines of the message, each after a new line and a dash.
  abbrev listed : List String → String
  listed [] = ""
  listed (e ∷ []) = String.◌++◌ "  - " e
  listed (e ∷ (f ∷ es)) = String.◌++◌ "  - " (String.◌++◌ e (String.◌++◌ "\n" (listed (f ∷ es))))

  abbrev fail_on : List String → Result (Unit {0})
  fail_on [] = ok tt
  fail_on (e ∷ es) =
      err (plain (String.◌++◌ "[ConfigService] Fatal configuration errors:\n" (listed (e ∷ es))))

  unfoldable pub on_module_init : ConfigService → Result (Unit {0})
  unfolding errors
  on_module_init c = fail_on (errors c)
