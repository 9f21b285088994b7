-- ===== src/Kafka.antt =====
-- kafka/kafka.service.ts: the producer, which checks each payload against the schema of its topic,
-- and the consumers. The client of kafkajs is outside: what it answers is an argument. The check
-- itself, zod's `safeParse`, and `JSON.parse` are parameters.
pub mod Topics
pub mod Schemas
pub mod Events
pub mod Delivery
use Prim.Native.String
use apicenter_hehe.Common.{
  String, ◌≡◌, ◌↔◌, Bool, true, false, Option, none, some, List, [], ◌∷◌, if◌then◌else◌, truthy?,
  or_else,
}
use apicenter_hehe.Common.Dict.{Dict, lookup, insert}
use apicenter_hehe.Errors.{Error, plain, Result, ok, err, ◌>>=◌, ◌>>◌}
use apicenter_hehe.Kafka.Topics
use apicenter_hehe.Kafka.Schemas.*

-- `TOPIC_SCHEMAS`. The topics that are not listed are published without a check.
abbrev pub topic_schemas : Dict Schema
topic_schemas =
    (Topics.gateway_request, gateway_request_event)
    ∷ (Topics.gateway_response, gateway_response_event)
    ∷ (Topics.gateway_error, gateway_error_event)
    ∷ (Topics.audit_log, audit_log_event)
    ∷ (Topics.external_request, external_request_event)
    ∷ (Topics.service_registered, service_registered_event)
    ∷ (Topics.service_deregistered, service_deregistered_event)
    ∷ (Topics.service_deprecated, service_deprecated_event)
    ∷ (Topics.service_retired, service_retired_event)
    ∷ (Topics.service_version_changed, service_version_changed_event)
    ∷ (Topics.service_health_changed, service_health_changed_event)
    ∷ (Topics.tribe_request, tribe_request_event)
    ∷ (Topics.tribe_response, tribe_response_event)
    ∷ (Topics.token_issued, token_issued_event)
    ∷ []

-- The field `_meta` that every message gets.
pub record Meta : Type 0 where
  pub timestamp : String
  pub source : String

pub record Message : Type 0 where
  pub topic : String
  pub key : Option String
  pub payload : Payload
  pub meta : Meta

pub record KafkaService : Type 0 where
  pub client_id : String
  pub connected : Bool
  -- what the producer was given to send, newest first
  pub sent : List Message
  -- the topics that have a consumer
  pub consumers : List String

-- `onModuleInit`: a failure to connect is only logged.
unfoldable pub on_module_init : Result (Unit {0}) → KafkaService → KafkaService
on_module_init (ok _) k = record k { connected = true }
on_module_init (err e) k = k

unfoldable pub on_module_destroy : KafkaService → KafkaService
on_module_destroy k = record k { connected = false }

unfoldable pub is_connected : KafkaService → Bool
is_connected k = k.connected

-- `key ? String(key) : undefined`
abbrev pub message_key : Option String → Option String
message_key key = if truthy? key then key else none

-- `reply` is what `producer.send` settles to.
unfoldable pub deliver :
    String
    → String
    → Payload
    → Option String
    → Result (Unit {0})
    → KafkaService
    → Result (Unit {0}) × KafkaService
unfolding truthy?
deliver now topic payload key reply k = (
  reply,
  record k {
    sent =
        record {
          topic = topic;
          key = message_key key;
          payload = payload;
          meta = record { timestamp = now; source = k.client_id };
        }
        ∷ k.sent;
  },
)

abbrev pub schema_failure : String → String → Error
schema_failure topic reason = plain (
    String.◌++◌ "Kafka schema validation failed for topic '"
      (String.◌++◌ topic (String.◌++◌ "': " reason)))

-- What `safeParse` gives: success, or the message of its error.
pub data ParseResult : Type 0 where
  success : ParseResult
  failure : String → ParseResult

-- The documented behaviour of `safeParse`: it succeeds on what conforms.
abbrev pub IsSafeParse : (Schema → Payload → ParseResult) → Type 0
IsSafeParse parse =
    (schema : Schema) (payload : Payload)
    → (parse schema payload ≡ success) ↔ (conforms schema payload ≡ true)

module _ (parse : Schema → Payload → ParseResult) where
  abbrev checked : ParseResult → String → Result (Unit {0})
  checked success topic = ok tt
  checked (failure reason) topic = err (schema_failure topic reason)

  unfoldable pub check : Option Schema → String → Payload → Result (Unit {0})
  check none topic payload = ok tt
  check (some schema) topic payload = checked (parse schema payload) topic

  abbrev publish_checked :
      Result (Unit {0})
      → String
      → String
      → Payload
      → Option String
      → Result (Unit {0})
      → KafkaService
      → Result (Unit {0}) × KafkaService
  unfolding deliver
  publish_checked (err e) now topic payload key reply k = (err e, k)
  publish_checked (ok _) now topic payload key reply k = deliver now topic payload key reply k

  unfoldable pub publish :
      String
      → String
      → Payload
      → Option String
      → Result (Unit {0})
      → KafkaService
      → Result (Unit {0}) × KafkaService
  unfolding deliver check
  publish now topic payload key reply k =
      publish_checked (check (lookup topic topic_schemas) topic payload) now topic payload key reply
        k

-- `subscribe` and the function that it gives to `consumer.run`. `S` is what the handler changes.
module _ {J S : Type 0} (json_parse : String → Result J)
    (handler : J → S → Result (Unit {0}) × S) where
  abbrev handle : Result J → S → S
  handle (err e) s = s
  handle (ok message) s = (handler message s).1

  -- An error of the parser or of the handler is caught and logged.
  unfoldable pub each_message : Option String → S → S
  unfolding or_else
  each_message value s = handle (json_parse (or_else value "{}")) s

  unfoldable pub consume : List (Option String) → S → S
  unfolding each_message
  consume [] s = s
  consume (value ∷ values) s = consume values (each_message value s)

unfoldable pub subscribe : String → KafkaService → KafkaService
subscribe topic k = record k { consumers = topic ∷ k.consumers }
