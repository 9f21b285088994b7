-- ===== src/Witnesses/Settings.antt =====
-- Instances for config/ and kafka/.
use apicenter_hehe.Common.{
  String, ◌≡◌, ◌≢◌, ◌↔◌, refl, filter, includes, true, Option, some, [], ◌∷◌, arith, truthy?,
  truthy, if◌then◌else◌, Bool-cases, inl, inr,
}
use apicenter_hehe.Common.Dict.{Dict, lookup}
use apicenter_hehe.Errors.{Result, ok}
use apicenter_hehe.Config.{Env, load, on_module_init}
use apicenter_hehe.Config.Startup.{IsStartable, starts_iff}
use apicenter_hehe.Config.Secrets.{boot, secrets_come_too_late}
use apicenter_hehe.Kafka.Topics.{service_retired}
use apicenter_hehe.Kafka.Delivery.{Publication, handed, publish_all, publish_all-sent}
use apicenter_hehe.Kafka.Schemas.{Schema, Payload, conforms, fits, text}
use apicenter_hehe.Kafka.{KafkaService, ParseResult, success, failure, IsSafeParse}

abbrev env : Env
env =
    ("NODE_ENV", "production")
    ∷ ("AUTH_PROVIDER", "keycloak")
    ∷ ("KEYCLOAK_BASE_URL", "https://auth.example.com")
    ∷ ("AWS_SECRET_NAME", "api-center/prod")
    ∷ []

abbrev secrets : Dict String
secrets = ("PLATFORM_ADMIN_SECRET", "s3cret") ∷ ("NODE_ENV", "development") ∷ []

abbrev hostname : String → Option String
hostname url = some "auth.example.com"

abbrev parse : String → Result (Dict String)
parse body = ok secrets

starts_iff_example : (on_module_init hostname (load env) ≡ ok tt) ↔ IsStartable hostname (load env)
starts_iff_example = starts_iff hostname (load env)

secrets_come_too_late_example :
    (on_module_init hostname (boot parse (ok (some "{…}")) env).0 ≢ ok tt)
    × (lookup "PLATFORM_ADMIN_SECRET" (boot parse (ok (some "{…}")) env).1 ≡ some "s3cret")
unfolding lookup truthy? truthy
secrets_come_too_late_example =
    secrets_come_too_late hostname parse secrets "{…}" "s3cret" env refl refl refl refl refl
      (refl, (refl, tt)) refl

abbrev safe_parse : Schema → Payload → ParseResult
safe_parse schema payload = if conforms schema payload then success else failure "invalid"

safe_parse-IsSafeParse : IsSafeParse safe_parse
safe_parse-IsSafeParse schema payload = elim (Bool-cases (conforms schema payload)) [
  | inl right ↦ (λ passed. right, λ held. rw held refl)
  | inr wrong ↦ (λ passed. absurd (ground arith), λ held. rw held refl)
]

abbrev kafka : KafkaService
kafka = record { client_id = "api-center"; connected = true; sent = []; consumers = [] }

-- A payload that conforms to the schema of its topic, one that lacks a field, and one on a topic
-- without a schema.
abbrev retirement : Payload → Publication
retirement payload = record {
  now = "2024-01-01T00:00:00.000Z";
  topic = service_retired;
  payload = payload;
  key = some "orders";
  reply = ok tt;
}

abbrev complete : Publication
complete = retirement (("serviceId", text "orders") ∷ [])

abbrev incomplete : Publication
incomplete = retirement []

abbrev free : Publication
free = record incomplete { topic = "custom" }

publish_all-sent_example :
    (publish_all safe_parse (complete ∷ incomplete ∷ free ∷ []) kafka).sent
    ≡ handed "api-center" (complete ∷ free ∷ []) []
unfolding conforms fits lookup filter includes
publish_all-sent_example =
    publish_all-sent safe_parse safe_parse-IsSafeParse (complete ∷ incomplete ∷ free ∷ []) kafka
