-- ===== src/Witnesses/Traffic.antt =====
-- Instances for the calls of sdk/TribeClient.ts and for what the gateway makes of requests.
use apicenter_hehe.Common.{
  ℕ, ◌+◌, ◌*◌, ◌^◌, ◌≤◌, ◌<◌, String, ◌≡◌, refl, true, Option, none, some, [], ◌∷◌, arith, truthy,
  includes, leb, if◌then◌else◌,
}
use apicenter_hehe.Common.Dict.{lookup, insert}
use apicenter_hehe.CircuitBreaker.{CircuitBreaker, Settled, resolved, execute}
use apicenter_hehe.Sdk.{reply, axios_error}
use apicenter_hehe.Sdk
use apicenter_hehe.Sdk.Session.{TribeClient, TokenReply}
use apicenter_hehe.Sdk.Backoff.{waited, retries, waits_within}
use apicenter_hehe.Sdk.Calls
use apicenter_hehe.Sdk.Calls.{call_service, call_external, request_of, perform}
use apicenter_hehe.Sdk.Calls.Token.{Carries, calls_carry_token}
use apicenter_hehe.External.{ExternalApiConfig, wrapped, outcome_of}
use apicenter_hehe.External.Apis.{create_geofencing_api, build_external_apis}
use apicenter_hehe.Config.{ConfigService, load}
use apicenter_hehe.External.Controller.{Request, AxiosRequestConfig, is_plain, proxy_call}
use apicenter_hehe.External.Controller.Arrival.{sent, service_after, external_call_arrives}
use apicenter_hehe.Proxy.Exchange.{Exchange, forwarded}
use apicenter_hehe.Proxy.Cutoff.{failing_upstream_gets_five}
use apicenter_hehe.Namespaces.{
  tribes_controller, shared_services_controller, list_tribes, list_shared_services,
}
use apicenter_hehe.Namespaces.Listings.{times, IsListed, listings_cover}
use apicenter_hehe.Witnesses.Services.{market-IsSettled}
use apicenter_hehe.Witnesses.Data.{market, request, handler}

abbrev unavailable : Sdk.AxiosError
unavailable = record { response = none; code = some "ECONNRESET"; message = "socket hang up" }

-- A gateway that answers at the third attempt.
abbrev slow : ℕ → Sdk.Settled String
slow n = if leb n 1 then axios_error unavailable else reply "data"

abbrev even_random : ℕ → ℕ
even_random i = 4503599627370496

waits_within_example :
    (retries slow 3 ≤ 3)
    × (3 * (500 * 2 ^ retries slow 3)
        ≤ 4 * waited 500 even_random (retries slow 3) + 2 * retries slow 3 + 3 * 500)
    × (4 * waited 500 even_random (retries slow 3) + 5 * 500
        ≤ 5 * (500 * 2 ^ retries slow 3) + 2 * retries slow 3)
waits_within_example = waits_within slow 3 500 even_random (λ i. omega arith)

abbrev expired : TribeClient
expired = record { access_token = some "old"; refresh_token = some "refresh"; token_expiry = 1000 }

abbrev renewed : Sdk.Settled TokenReply
renewed = reply (record { access_token = "new"; refresh_token = none; expires_in = some 3600 })

abbrev gateway : Calls.AxiosRequestConfig String → ℕ → Sdk.Settled String
gateway config n = slow n

abbrev invoices : Calls.Method String
invoices = call_service "billing" "/invoices" none

abbrev invoices_sent : Calls.AxiosRequestConfig String
invoices_sent = record {
  method = some "GET";
  url = some "/api/v1/tribes/billing/invoices";
  headers = some (("Authorization", "Bearer new") ∷ []);
  rest = none;
}

abbrev after_invoices : TribeClient
after_invoices = (perform gateway 3 2000 2001 renewed renewed invoices expired).1

calls_carry_token_example :
    (invoices_sent ≡ request_of invoices after_invoices)
    × (3 ≤ 3 + 1)
    × (2000 + 30000 < after_invoices.token_expiry)
    × Carries after_invoices invoices_sent
unfolding truthy perform request_of Sdk.is_retryable insert includes
calls_carry_token_example =
    calls_carry_token gateway 3 2000 invoices 2001 renewed renewed expired invoices_sent 3
      (omega arith) (refl, omega arith) (refl, omega arith) refl

abbrev settings : ConfigService
settings = load []

abbrev geofencing : ExternalApiConfig
unfolding load
geofencing = create_geofencing_api settings

abbrev no_regexp : String → String → Option String
no_regexp api full = none

abbrev as_is : String → String
as_is s = s

abbrev answering : String → AxiosRequestConfig String → Settled (ℕ × String) String
answering api config = resolved (200, config.url)

abbrev lookup_request : Request String
lookup_request = record {
  method = "GET";
  original_url = "/api/v1/external/geofencing/lookup";
  query = [];
  body = none;
  correlation_id = none;
  tribe_id = some "orders";
}

external_call_arrives_example :
    ((sent geofencing lookup_request "lookup").url ≡ "/lookup")
    × (b : CircuitBreaker) × (lookup "geofencing"
          (service_after {D = ℕ × String} as_is (build_external_apis settings) []).breakers
        ≡ some b)
    × ((proxy_call no_regexp answering "geofencing" lookup_request 1 2
          (service_after {D = ℕ × String} as_is (build_external_apis settings) [])).0
        ≡ outcome_of b.name
            (execute 1
              (wrapped "geofencing"
                (answering "geofencing" (sent geofencing lookup_request "lookup")))
              2
              b).0)
unfolding is_plain lookup request_of load
external_call_arrives_example =
    external_call_arrives no_regexp answering as_is (build_external_apis settings) [] "geofencing"
      "lookup" geofencing none expired lookup_request 1 2 refl refl refl

abbrev refused_connection : Exchange
refused_connection = record {
  now = 1000;
  req = request;
  registry = market;
  later = 1001;
  answer = none;
}

failing_upstream_gets_five_example :
    forwarded (λ target. true) "billing" (refused_connection ∷ (refused_connection ∷ [])) handler
    ≤ 5
unfolding lookup
failing_upstream_gets_five_example =
    failing_upstream_gets_five 1001 (λ target. true) "billing"
      (refused_connection ∷ (refused_connection ∷ [])) handler refl
      (
        record { before = omega arith; after = omega arith; fails = tt },
        (record { before = omega arith; after = omega arith; fails = tt }, tt),
      )

listings_cover_example :
    IsListed
      (lookup "billing" market.services)
      (times "billing" (list_tribes request market tribes_controller).data_listed)
      (times "billing" (list_shared_services request market shared_services_controller).data_listed)
listings_cover_example = listings_cover request request market "billing" (market-IsSettled.formed)
