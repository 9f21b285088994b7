-- ===== src/Kafka/Delivery.antt =====
-- What reaches the producer.
use apicenter_hehe.Common.{
  String, ◌≡◌, ◌≢◌, refl, ap, ◌∙◌, Bool, Bool-cases, Option-cases, inl, inr, true, false, Option,
  none, some, List, [], ◌∷◌, arith, filter, if◌then◌else◌,
}
use apicenter_hehe.Common.Dict.{lookup}
use apicenter_hehe.Errors.{Result, err}
use apicenter_hehe.Kafka.Schemas.{Schema, Payload, conforms}
use apicenter_hehe.Kafka.{
  Message, message_key, topic_schemas, KafkaService, success, failure, ParseResult, IsSafeParse,
  schema_failure, publish, check, checked, deliver,
}

refusal :
    (parse : Schema → Payload → ParseResult) (topic : String) (r : ParseResult)
    → r ≢ success
    → (reason : String) × (checked parse r topic ≡ err (schema_failure topic reason))
refusal parse topic success wrong = absurd (wrong refl)
refusal parse topic (failure reason) wrong = (reason, refl)

-- A call of `publish`, with what `producer.send` would settle to.
pub record Publication : Type 0 where
  pub now : String
  pub topic : String
  pub payload : Payload
  pub key : Option String
  pub reply : Result (Unit {0})

abbrev conforms_if_listed : Option Schema → Payload → Bool
conforms_if_listed none payload = true
conforms_if_listed (some schema) payload = conforms schema payload

-- The payload conforms to the schema of its topic, if the topic has one.
abbrev pub fits_topic : Publication → Bool
fits_topic c = conforms_if_listed (lookup c.topic topic_schemas) c.payload

abbrev message_of : String → Publication → Message
message_of client c = record {
  topic = c.topic;
  key = message_key c.key;
  payload = c.payload;
  meta = record { timestamp = c.now; source = client };
}

-- What a producer has been sent after these calls, if all of them go through.
abbrev pub handed : String → List Publication → List Message → List Message
handed client [] sent = sent
handed client (c ∷ cs) sent = handed client cs (message_of client c ∷ sent)

abbrev delivered : Publication → KafkaService → KafkaService
delivered c k = record k { sent = message_of k.client_id c ∷ k.sent }

module _ (parse : Schema → Payload → ParseResult) where
  -- Calls of `publish`, one after the other.
  unfoldable pub publish_all : List Publication → KafkaService → KafkaService
  unfolding publish
  publish_all [] k = k
  publish_all (c ∷ cs) k = publish_all cs (publish parse c.now c.topic c.payload c.key c.reply k).1

module _ (parse : Schema → Payload → ParseResult) (documented : IsSafeParse parse) where
  -- On a topic with a schema, a payload that does not conform is refused with an error and nothing
  -- is sent; one that conforms is sent. On a topic without a schema everything is sent.
  pub publish_checks :
      (now topic : String) (payload : Payload) (key : Option String) (reply : Result (Unit {0}))
      (k : KafkaService)
      → ((schema : Schema)
          → lookup topic topic_schemas ≡ some schema
          → conforms schema payload ≡ false
          → (reason : String) × (publish parse now topic payload key reply k
              ≡ (err (schema_failure topic reason), k)))
        × ((schema : Schema)
            → lookup topic topic_schemas ≡ some schema
            → conforms schema payload ≡ true
            → publish parse now topic payload key reply k ≡ deliver now topic payload key reply k)
        × (lookup topic topic_schemas ≡ none
            → publish parse now topic payload key reply k ≡ deliver now topic payload key reply k)
  unfolding publish check
  publish_checks now topic payload key reply k = (
    λ schema listed wrong.
        let (reason, refused) =
          refusal parse topic (parse schema payload)
            (λ passed. absurd (ground (arith, (documented schema payload).0 passed))) in
        (reason, rw (listed, refused)),
    λ schema listed right. rw (listed, (documented schema payload).1 right),
    λ unlisted. rw unlisted,
  )

  delivered_lem :
      (c : Publication) (k : KafkaService)
      → (deliver c.now c.topic c.payload c.key c.reply k).1 ≡ delivered c k
  unfolding deliver
  delivered_lem c k = refl

  publish_step :
      (c : Publication) (k : KafkaService)
      → (publish parse c.now c.topic c.payload c.key c.reply k).1
        ≡ (if fits_topic c then delivered c k else k)
  publish_step c k =
      let (held_back, sent, unlisted) = publish_checks c.now c.topic c.payload c.key c.reply k in
      elim (Option-cases (lookup c.topic topic_schemas)) [
        | inl gone ↦ ap (λ x. x.1) (unlisted gone) ∙ delivered_lem c k ∙ rw gone refl
        | inr (schema, listed) ↦ elim (Bool-cases (conforms schema c.payload)) [
          | inl right ↦
              ap (λ x. x.1) (sent schema listed right) ∙ delivered_lem c k ∙ rw (listed, right) refl
          | inr wrong ↦
              let (reason, refused) = held_back schema listed wrong in
              ap (λ x. x.1) refused ∙ rw (listed, wrong) refl
        ]
      ]

  -- Where safeParse succeeds exactly on what conforms to a schema, what reaches the producer over any
  -- calls of `publish` is exactly the payloads that conform to the schema of their topic and those on
  -- topics without a schema, in the order of the calls, whatever the producer answers.
  pub publish_all-sent :
      (cs : List Publication) (k : KafkaService)
      → (publish_all parse cs k).sent ≡ handed k.client_id (filter fits_topic cs) k.sent
  unfolding publish_all filter
  publish_all-sent [] k = refl
  publish_all-sent (c ∷ cs) k = elim (Bool-cases (fits_topic c)) [
    | inl right ↦
        let taken : (publish parse c.now c.topic c.payload c.key c.reply k).1 ≡ delivered c k =
          publish_step c k ∙ rw right refl in
        rw right
          (ap (λ k'. (publish_all parse cs k').sent) taken ∙ publish_all-sent cs (delivered c k))
    | inr wrong ↦
        let left : (publish parse c.now c.topic c.payload c.key c.reply k).1 ≡ k =
          publish_step c k ∙ rw wrong refl in
        rw wrong (ap (λ k'. (publish_all parse cs k').sent) left ∙ publish_all-sent cs k)
  ]
