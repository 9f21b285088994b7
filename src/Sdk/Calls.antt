-- ===== src/Sdk/Calls.antt =====
-- The methods of sdk/TribeClient.ts that call the gateway. The fields of the options that the client
-- neither reads nor replaces are of a type of their own.
pub mod Token
use Prim.Native.String
use mathlib.Core.Path.{subst}
use apicenter_hehe.Common.{
  ℕ, ◌+◌, ◌≤◌, String, ◌≡◌, refl, ap, ◌∙◌, ◌⊎◌, inl, inr, Bool, true, false, not, ◌&&◌, Option,
  none, some, List, [], ◌∷◌, ◌==◌, arith, eq_refl, if◌then◌else◌, get_or, truthy, truthy?,
  Option-cases,
}
use apicenter_hehe.Common.Dict.{Dict, lookup, insert, lookup-insert}
use apicenter_hehe.Sdk.{Settled, Outcome, returned, thrown, rethrown, request_with_retry}
use apicenter_hehe.Sdk.Session.{
  TribeClient, TokenReply, ensure_auth, is_stale, IsLasting, ensured_is_fresh,
}

pub record AxiosRequestConfig (B : Type 0) : Type 0 where
  pub method : Option String
  pub url : Option String
  pub headers : Option (Dict String)
  pub rest : Option B

-- `Bearer ${this.accessToken}`
abbrev pub bearer : TribeClient → String
bearer c = String.◌++◌ "Bearer " (get_or c.access_token "null")

abbrev tribes_path : String → String → String
tribes_path id path = String.◌++◌ "/api/v1/tribes/" (String.◌++◌ id path)

abbrev shared_path : String → String → String
shared_path id path = String.◌++◌ "/api/v1/shared/" (String.◌++◌ id path)

abbrev pub external_path : String → String → String
external_path api path = String.◌++◌ "/api/v1/external/" (String.◌++◌ api path)

-- The methods, with their arguments.
pub data Method (B : Type 0) : Type 0 where
  call_service call_shared_service call_external :
      (name : String) → (path : String) → Option (AxiosRequestConfig B) → Method B
  list_services list_shared_services : Method B

-- The request that was sent, if any, and how many times.
abbrev pub Sent : Type 0 → Type 0
Sent B = Option (AxiosRequestConfig B × ℕ)

module _ {B : Type 0} where
  -- `...options` where there are none
  abbrev no_options : AxiosRequestConfig B
  no_options = record { method = none; url = none; headers = none; rest = none }

  -- The request of the three methods that take options.
  abbrev pub with_options :
      String → Option (AxiosRequestConfig B) → TribeClient → AxiosRequestConfig B
  with_options url options c =
      let o = get_or options no_options in
      record o {
        method = some (get_or o.method "GET");
        url = some url;
        headers = some (insert "Authorization" (bearer c) (get_or o.headers []));
      }

  -- The request of the two methods that list.
  abbrev listing : String → TribeClient → AxiosRequestConfig B
  listing url c = record {
    method = some "GET";
    url = some url;
    headers = some (("Authorization", bearer c) ∷ []);
    rest = none;
  }

  -- What a method sends, after `ensureAuth`.
  unfoldable pub request_of : Method B → TribeClient → AxiosRequestConfig B
  request_of (call_service id path options) c = with_options (tribes_path id path) options c
  request_of (call_shared_service id path options) c = with_options (shared_path id path) options c
  request_of (call_external api path options) c = with_options (external_path api path) options c
  request_of list_services c = listing "/api/v1/tribes" c
  request_of list_shared_services c = listing "/api/v1/shared" c

  module _ {D : Type 0} where
    abbrev request :
        (AxiosRequestConfig B → ℕ → Settled D) → ℕ → AxiosRequestConfig B → Outcome D × Sent B
    request send max_retries config =
        let (outcome, made) = request_with_retry (send config) max_retries in
        (outcome, some (config, made))

    -- What `ensureAuth` throws, the method throws.
    abbrev pub after_auth :
        (AxiosRequestConfig B → ℕ → Settled D)
        → ℕ
        → Method B
        → Outcome (Unit {0}) × TribeClient
        → (Outcome D × Sent B) × TribeClient
    after_auth send max_retries m (returned _, c) = (request send max_retries (request_of m c), c)
    after_auth send max_retries m (thrown e, c) = ((thrown e, none), c)
    after_auth send max_retries m (rethrown e, c) = ((rethrown e, none), c)

    -- `send config n` is what the attempt n of a request settles to; the other arguments are those of
    -- `ensure_auth`.
    unfoldable pub perform :
        (AxiosRequestConfig B → ℕ → Settled D)
        → ℕ
        → ℕ
        → ℕ
        → Settled TokenReply
        → Settled TokenReply
        → Method B
        → TribeClient
        → (Outcome D × Sent B) × TribeClient
    unfolding ensure_auth request_with_retry
    perform send max_retries now later answer again m c =
        after_auth send max_retries m (ensure_auth now later answer again c)
