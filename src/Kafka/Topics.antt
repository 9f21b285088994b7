-- ===== src/Kafka/Topics.antt =====
-- kafka/topics.ts: the names of the topics.
use apicenter_hehe.Common.{String}

abbrev pub gateway_request : String
gateway_request = "api-center.gateway.request"

abbrev pub gateway_response : String
gateway_response = "api-center.gateway.response"

abbrev pub gateway_error : String
gateway_error = "api-center.gateway.error"

abbrev pub tribe_request : String
tribe_request = "api-center.tribe.request"

abbrev pub tribe_response : String
tribe_response = "api-center.tribe.response"

abbrev pub external_request : String
external_request = "api-center.external.request"

abbrev pub audit_log : String
audit_log = "api-center.audit.log"

abbrev pub service_registered : String
service_registered = "api-center.registry.service-registered"

abbrev pub service_deregistered : String
service_deregistered = "api-center.registry.service-deregistered"

abbrev pub service_deprecated : String
service_deprecated = "api-center.registry.service-deprecated"

abbrev pub service_retired : String
service_retired = "api-center.registry.service-retired"

abbrev pub service_version_changed : String
service_version_changed = "api-center.registry.service-version-changed"

abbrev pub service_health_changed : String
service_health_changed = "api-center.registry.service-health-changed"

abbrev pub tribe_event : String
tribe_event = "api-center.tribe.event"

abbrev pub external_response : String
external_response = "api-center.external.response"

abbrev pub external_webhook : String
external_webhook = "api-center.external.webhook"

abbrev pub token_issued : String
token_issued = "api-center.auth.token-issued"

abbrev pub token_revoked : String
token_revoked = "api-center.auth.token-revoked"
