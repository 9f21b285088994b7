-- ===== src/External/Controller/Arrival.antt =====
-- From `callExternal` of the client to the request that the gateway makes.
use Prim.Native.String
use Prim.Native.String.{String}
use text.Mathlib.TextLemmas.{cons-append, nil-append, append_assoc}
use apicenter_hehe.Common.{
  ℕ, ◌≡◌, refl, sym, ap, ◌∙◌, true, Option, some, List, get_or, or_else, truthy,
}
use apicenter_hehe.Common.Dict.{Dict, lookup}
use apicenter_hehe.Common.Prefix.{after_prefix, after_prefix-append}
use apicenter_hehe.Sdk.Session.{TribeClient}
use apicenter_hehe.Sdk.Calls
use apicenter_hehe.Sdk.Calls.{request_of, call_external}
use apicenter_hehe.CircuitBreaker.{CircuitBreaker, Settled, execute}
use apicenter_hehe.External.{
  ExternalApiConfig, ExternalService, on_module_init, wrapped, outcome_of, call,
}
use apicenter_hehe.External.Calls.{ApiCall, performed, apis-performed, configured_calls_run}
use apicenter_hehe.External.Controller.{
  AxiosRequestConfig, Request, is_plain, left_over, stripped, drop_slash, downstream, axios_config,
  options_of, settles, answered, proxy_call,
}

drop_slash-slash : (rest : String) → drop_slash (String.◌++◌ "/" rest) ≡ rest
unfolding drop_slash
drop_slash-slash rest = rw cons-append (rw nil-append refl)

stripped-joined :
    (api rest : String)
    → stripped api (String.◌++◌ "/api/v1/external/" (String.◌++◌ api (String.◌++◌ "/" rest))) ≡ rest
unfolding stripped
stripped-joined api rest =
    let prefix = String.◌++◌ "/api/v1/external/" api in
    let address = append_assoc "/api/v1/external/" api (String.◌++◌ "/" rest) in
    ap (λ full. left_over full (after_prefix prefix full)) (sym address)
    ∙ ap (left_over (String.◌++◌ prefix (String.◌++◌ "/" rest)))
        (after_prefix-append prefix (String.◌++◌ "/" rest))
    ∙ drop_slash-slash rest

downstream-joined :
    (regexp : String → String → Option String) (api rest : String)
    → is_plain api ≡ true
    → downstream regexp api
        (String.◌++◌ "/api/v1/external/" (String.◌++◌ api (String.◌++◌ "/" rest)))
      ≡ some rest
unfolding downstream
downstream-joined regexp api rest plain = rw plain (ap some (stripped-joined api rest))

or_else-slash : (rest : String) → or_else (some (String.◌++◌ "/" rest)) "/" ≡ String.◌++◌ "/" rest
unfolding or_else truthy
or_else-slash rest = rw (cons-append, String.compare.cons-nil) refl

-- The request that the gateway makes.
abbrev pub sent : {B : Type 0} → ExternalApiConfig → Request B → String → AxiosRequestConfig B
sent cfg req rest = axios_config cfg (options_of req rest)

-- The address that the client asks for.
abbrev pub asked :
    {B : Type 0}
    → String
    → String
    → Option (Calls.AxiosRequestConfig B)
    → TribeClient
    → Option String
asked api rest options c = (request_of (call_external api (String.◌++◌ "/" rest) options) c).url

-- The service after it has set up its clients and after some calls.
abbrev pub service_after :
    {D : Type 0} → (String → String) → Dict ExternalApiConfig → List (ApiCall D) → ExternalService
service_after base64 apis before = performed before (on_module_init base64 apis)

module _ {B D : Type 0} (regexp : String → String → Option String)
    (send : String → AxiosRequestConfig B → Settled (ℕ × D) String) (base64 : String → String)
    (apis : Dict ExternalApiConfig) (before : List (ApiCall (ℕ × D))) (api rest : String)
    (cfg : ExternalApiConfig) (options : Option (Calls.AxiosRequestConfig B)) (c : TribeClient)
    (req : Request B) (now later : ℕ) where
  abbrev service : ExternalService
  service = service_after base64 apis before

  abbrev this_call : Settled (ℕ × D) String → ApiCall (ℕ × D)
  this_call settled = record { name = api; now = now; settled = settled; later = later }

  proxy_call-sent :
      is_plain api ≡ true
      → lookup api apis ≡ some cfg
      → asked api rest options c ≡ some req.original_url
      → proxy_call regexp send api req now later service
        ≡ call api now (send api (sent cfg req rest)) later service
  unfolding proxy_call request_of
  proxy_call-sent plain configured same =
      let address = ap (λ o. get_or o req.original_url) same in
      let path =
        ap (downstream regexp api) (sym address) ∙ downstream-joined regexp api rest plain in
      let found =
        ap (lookup api) (apis-performed base64 apis before api cfg configured) ∙ configured in
      ap (λ o. answered regexp send o api req now later service) path
      ∙ ap (λ o. call api now (settles regexp send o api (options_of req rest)) later service) found

  -- A call of `callExternal` with a path that begins with a slash, for an API that is configured and
  -- whose name has no special characters: the controller, given a request with the client's address,
  -- has the circuit breaker of that API run one request whose path is that of the caller, and answers
  -- what the breaker makes of it. This holds after any calls.
  pub external_call_arrives :
      is_plain api ≡ true
      → lookup api apis ≡ some cfg
      → asked api rest options c ≡ some req.original_url
      → ((sent cfg req rest).url ≡ String.◌++◌ "/" rest)
        × (b : CircuitBreaker) × (lookup api (service_after base64 apis before).breakers ≡ some b)
        × ((proxy_call regexp send api req now later (service_after base64 apis before)).0
            ≡ outcome_of b.name
                (execute now (wrapped api (send api (sent cfg req rest))) later b).0)
  unfolding axios_config or_else
  external_call_arrives plain configured same =
      let (b, there, answer) =
        configured_calls_run base64 apis before (this_call (send api (sent cfg req rest))) cfg
          configured in
      (or_else-slash rest, b, there, ap (λ x. x.0) (proxy_call-sent plain configured same) ∙ answer)
