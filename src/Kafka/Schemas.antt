-- ===== src/Kafka/Schemas.antt =====
-- kafka/schemas/: the declarations of the payloads, as data. A schema gives each field its kind.
use apicenter_hehe.Common.{
  ℕ, String, Bool, true, false, ◌&&◌, Option, none, some, List, [], ◌∷◌, includes, get_or,
}
use apicenter_hehe.Common.Dict.{Dict, lookup}

pub data Kind : Type 0 where
  string_ number_ boolean_ strings_ : Kind
  enum_ : List String → Kind
  optional_ : Kind → Kind

-- The value of a field. `undefined` is also that of a field that is not there.
pub data Value : Type 0 where
  undefined : Value
  text : String → Value
  count : ℕ → Value
  flag : Bool → Value
  texts : List String → Value

abbrev pub Schema : Type 0
Schema = Dict Kind

abbrev pub Payload : Type 0
Payload = Dict Value

-- An optional field of TypeScript.
abbrev pub maybe_text : Option String → Value
maybe_text none = undefined
maybe_text (some s) = text s

-- What zod documents of these kinds.
unfoldable pub fits : Kind → Value → Bool
fits string_ (text s) = true
fits number_ (count n) = true
fits boolean_ (flag b) = true
fits strings_ (texts xs) = true
fits (enum_ names) (text s) = includes names s
fits (optional_ k) undefined = true
fits (optional_ k) (text s) = fits k (text s)
fits (optional_ k) (count n) = fits k (count n)
fits (optional_ k) (flag b) = fits k (flag b)
fits (optional_ k) (texts xs) = fits k (texts xs)
fits _ _ = false

-- `z.object`: every field of the schema fits. Further fields do not matter.
unfoldable pub conforms : Schema → Payload → Bool
unfolding fits
conforms [] p = true
conforms ((name, kind) ∷ fields) p =
    fits kind (get_or (lookup name p) undefined) && conforms fields p

abbrev optional_text : Kind
optional_text = optional_ string_

abbrev namespace : Kind
namespace = optional_ (enum_ ("shared" ∷ "tribe" ∷ []))

abbrev pub gateway_request_event : Schema
gateway_request_event =
    ("method", string_)
    ∷ ("path", string_)
    ∷ ("tribeId", optional_text)
    ∷ ("ip", optional_text)
    ∷ ("correlationId", optional_text)
    ∷ ("timestamp", optional_text)
    ∷ []

abbrev pub gateway_response_event : Schema
gateway_response_event =
    ("method", optional_text)
    ∷ ("path", optional_text)
    ∷ ("statusCode", optional_ number_)
    ∷ ("durationMs", optional_ number_)
    ∷ ("tribeId", optional_text)
    ∷ ("correlationId", optional_text)
    ∷ ("timestamp", optional_text)
    ∷ ("event", optional_text)
    ∷ ("apiName", optional_text)
    ∷ ("previousState", optional_text)
    ∷ []

abbrev pub gateway_error_event : Schema
gateway_error_event =
    ("method", optional_text)
    ∷ ("path", optional_text)
    ∷ ("error", optional_text)
    ∷ ("statusCode", optional_ number_)
    ∷ ("tribeId", optional_text)
    ∷ ("correlationId", optional_text)
    ∷ ("timestamp", optional_text)
    ∷ ("event", optional_text)
    ∷ ("apiName", optional_text)
    ∷ ("previousState", optional_text)
    ∷ []

abbrev pub audit_log_event : Schema
audit_log_event =
    ("tribeId", string_)
    ∷ ("method", string_)
    ∷ ("path", string_)
    ∷ ("statusCode", number_)
    ∷ ("durationMs", number_)
    ∷ ("ip", string_)
    ∷ ("correlationId", optional_text)
    ∷ ("targetServiceId", optional_text)
    ∷ []

abbrev pub external_request_event : Schema
external_request_event =
    ("api", string_)
    ∷ ("method", string_)
    ∷ ("path", string_)
    ∷ ("status", number_)
    ∷ ("duration", number_)
    ∷ ("timestamp", string_)
    ∷ []

abbrev pub service_registered_event : Schema
service_registered_event =
    ("serviceId", string_)
    ∷ ("name", string_)
    ∷ ("baseUrl", string_)
    ∷ ("exposes", strings_)
    ∷ ("serviceType", namespace)
    ∷ ("isUpdate", optional_ boolean_)
    ∷ ("timestamp", optional_text)
    ∷ []

-- The schema of a deregistration, and of a retirement.
abbrev pub service_deregistered_event : Schema
service_deregistered_event = ("serviceId", string_) ∷ ("timestamp", optional_text) ∷ []

abbrev pub service_retired_event : Schema
service_retired_event = ("serviceId", string_) ∷ ("timestamp", optional_text) ∷ []

abbrev pub service_deprecated_event : Schema
service_deprecated_event =
    ("serviceId", string_)
    ∷ ("sunsetDate", optional_text)
    ∷ ("replacementService", optional_text)
    ∷ ("timestamp", optional_text)
    ∷ []

abbrev pub service_version_changed_event : Schema
service_version_changed_event =
    ("serviceId", string_)
    ∷ ("previousVersion", string_)
    ∷ ("newVersion", string_)
    ∷ ("timestamp", optional_text)
    ∷ []

abbrev pub service_health_changed_event : Schema
service_health_changed_event =
    ("serviceId", string_)
    ∷ ("healthy", boolean_)
    ∷ ("previousHealthy", boolean_)
    ∷ ("reason", optional_text)
    ∷ ("timestamp", optional_text)
    ∷ []

abbrev pub tribe_request_event : Schema
tribe_request_event =
    ("sourceTribeId", string_)
    ∷ ("targetServiceId", string_)
    ∷ ("method", string_)
    ∷ ("path", string_)
    ∷ ("namespace", namespace)
    ∷ ("correlationId", optional_text)
    ∷ ("timestamp", optional_text)
    ∷ []

abbrev pub tribe_response_event : Schema
tribe_response_event =
    ("sourceTribeId", string_)
    ∷ ("targetServiceId", string_)
    ∷ ("method", string_)
    ∷ ("path", string_)
    ∷ ("statusCode", number_)
    ∷ ("durationMs", number_)
    ∷ ("namespace", namespace)
    ∷ ("correlationId", optional_text)
    ∷ ("timestamp", optional_text)
    ∷ []

abbrev pub token_issued_event : Schema
token_issued_event =
    ("tribeId", string_)
    ∷ ("scopes", strings_)
    ∷ ("permissions", strings_)
    ∷ ("expiresIn", number_)
    ∷ ("correlationId", optional_text)
    ∷ ("timestamp", string_)
    ∷ []
