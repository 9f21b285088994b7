-- ===== src/External/Controller.antt =====
-- external/external.controller.ts, and in external/external.service.ts the catalogue and the request
-- that `call` makes. `regexp` is what `replace` with the pattern of a name that has special
-- characters makes of a path, or none where the pattern is malformed. Log lines and the field `meta`
-- are left out.
pub mod Arrival
use Prim.Native.Char.{code}
use Prim.Native.String
use Prim.Native.String.{String}
use apicenter_hehe.Common.{
  ℕ, Bool, true, false, not, ◌&&◌, ◌||◌, Option, none, some, List, [], ◌∷◌, map, ◌==◌, nat_beq, leb,
  length, if◌then◌else◌, get_or, or_else, truthy,
}
use apicenter_hehe.Common.Dict.{Dict, lookup, insert}
use apicenter_hehe.Common.Prefix.{after_prefix}
use apicenter_hehe.Errors.{Error, plain, Result, ok, err}
use apicenter_hehe.CircuitBreaker.{CircuitState, Settled, resolved, failed}
use apicenter_hehe.External.{ExternalAuthType, ExternalApiConfig, ExternalService, call}

-- The state of its breaker, or none for 'unknown'.
pub record Api : Type 0 where
  pub name : String
  pub display_name : String
  pub base_url : String
  pub auth_type : ExternalAuthType
  pub timeout : ℕ
  pub circuit_breaker_state : Option CircuitState

abbrev state_of : String → ExternalService → Option CircuitState
state_of name s = elim (lookup name s.breakers) [ none ↦ none | some b ↦ some b.state ]

unfoldable pub list_apis : ExternalService → List Api
list_apis s =
    map
      (λ x. record {
        name = x.0;
        display_name = x.1.display_name;
        base_url = x.1.base_url;
        auth_type = x.1.auth_type;
        timeout = x.1.timeout;
        circuit_breaker_state = state_of (x.0) s;
      })
      s.apis

unfoldable pub get_api_config : String → ExternalService → Option ExternalApiConfig
get_api_config name s = lookup name s.apis

-- The handler `listApis`: the data, and the total in `meta`.
unfoldable pub list_handler : ExternalService → List Api × ℕ
unfolding list_apis
list_handler s = (list_apis s, length (list_apis s))

-- The fields of the options that the code reads.
pub record ExternalCallOptions (B : Type 0) : Type 0 where
  pub method : Option String
  pub path : Option String
  pub query : Option (Dict String)
  pub body : Option B
  pub headers : Dict String
  pub timeout : Option ℕ

-- Its field `data` is `content` here.
pub record AxiosRequestConfig (B : Type 0) : Type 0 where
  pub method : String
  pub url : String
  pub params : Option (Dict String)
  pub content : Option B
  pub headers : Dict String
  pub timeout : ℕ

-- `options.timeout || cfg.timeout`
abbrev timeout_or : Option ℕ → ℕ → ℕ
timeout_or none d = d
timeout_or (some t) d = if nat_beq t 0 then d else t

-- The characters that stand for themselves in a regular expression.
abbrev is_plain_char : ℕ → Bool
is_plain_char c =
    (leb b'a' c && leb c b'z')
    || ((leb b'A' c && leb c b'Z')
        || ((leb b'0' c && leb c b'9') || (nat_beq c b'-' || nat_beq c b'_')))

unfoldable pub is_plain : String → Bool
is_plain String.[] = true
is_plain (String.◌∷◌ c s) = let rest = is_plain s in is_plain_char (code c) && rest

-- `/?` after the prefix
unfoldable pub drop_slash : String → String
drop_slash String.[] = String.[]
drop_slash (String.◌∷◌ c s) = if nat_beq (code c) b'/' then s else String.◌∷◌ c s

abbrev pub left_over : String → Option String → String
left_over full none = full
left_over full (some rest) = drop_slash rest

-- `fullPath.replace(prefixPattern, '')` for a name without special characters
unfoldable pub stripped : String → String → String
unfolding after_prefix drop_slash
stripped api full = left_over full (after_prefix (String.◌++◌ "/api/v1/external/" api) full)

-- The request as the controller reads it.
pub record Request (B : Type 0) : Type 0 where
  pub method : String
  pub original_url : String
  pub query : Dict String
  pub body : Option B
  pub correlation_id : Option String
  pub tribe_id : Option String

module _ {B : Type 0} where
  -- What the breaker's action passes to `client.request`.
  unfoldable pub axios_config : ExternalApiConfig → ExternalCallOptions B → AxiosRequestConfig B
  unfolding or_else
  axios_config cfg o = record {
    method = or_else o.method "GET";
    url = or_else o.path "/";
    params = o.query;
    content = o.body;
    headers = insert "X-Forwarded-By" "apicenter-gateway" o.headers;
    timeout = timeout_or o.timeout cfg.timeout;
  }

  -- The options of the call, for the path that is left of the address.
  abbrev pub options_of : Request B → String → ExternalCallOptions B
  options_of req rest = record {
    method = some req.method;
    path = some (String.◌++◌ "/" rest);
    query = some req.query;
    body = req.body;
    headers =
        ("X-Correlation-ID", or_else req.correlation_id "")
        ∷ (("X-Tribe-Id", or_else req.tribe_id "") ∷ []);
    timeout = none;
  }

-- What is left of the address, or none where the pattern throws.
unfoldable pub downstream : (String → String → Option String) → String → String → Option String
unfolding is_plain stripped
downstream regexp api full = if is_plain api then some (stripped api full) else regexp api full

module _ {B : Type 0} (regexp : String → String → Option String) where
  module _ {D : Type 0} (send : String → AxiosRequestConfig B → Settled (ℕ × D) String) where
    -- What the request settles to, if it is made; without a configuration, `call` makes none.
    abbrev pub settles :
        Option ExternalApiConfig → String → ExternalCallOptions B → Settled (ℕ × D) String
    settles none api o = failed ""
    settles (some cfg) api o = send api (axios_config cfg o)

    abbrev pub answered :
        Option String
        → String
        → Request B
        → ℕ
        → ℕ
        → ExternalService
        → Result (ℕ × D) × ExternalService
    answered none api req now later s = (err (plain "Invalid regular expression"), s)
    answered (some rest) api req now later s =
        call api now (settles (lookup api s.apis) api (options_of req rest)) later s

    -- The handler `proxyCall`: the status and the data of the answer.
    unfoldable pub proxy_call :
        String → Request B → ℕ → ℕ → ExternalService → Result (ℕ × D) × ExternalService
    unfolding downstream
    proxy_call api req now later s =
        answered (downstream regexp api req.original_url) api req now later s
