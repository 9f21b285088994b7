-- ===== src/Sdk.antt =====
-- sdk/TribeClient.ts: the errors of the client and its loop of retries. What `http.request` settles
-- to is an argument, by the number of the attempt; the delays between attempts are in
-- Backoff.
pub mod Retries
pub mod Session
pub mod Backoff
pub mod Calls
use apicenter_hehe.Common.{
  ℕ, zero, suc, ◌+◌, ◌*◌, String, Bool, true, false, not, ◌||◌, Option, none, some, List, [], ◌∷◌,
  ◌==◌, nat_beq, leb, includes, if◌then◌else◌, get_or, truthy?,
}

-- The subclasses of `TribeClientError`, each with its message, and the class itself with a status.
pub data TribeClientError : Type 0 where
  authentication authorization network : String → TribeClientError
  gateway_timeout bad_gateway service_unavailable : String → TribeClientError
  service_not_found : TribeClientError
  rate_limit : (retry_after_ms : Option ℕ) → TribeClientError
  gateway_error : String → (status : ℕ) → TribeClientError

-- An error response: its status, the messages in its body, and the header `retry-after`, if it
-- reads as a number.
pub record ErrorResponse : Type 0 where
  pub status : ℕ
  pub error_message : Option String
  pub body_message : Option String
  pub retry_after : Option ℕ

pub record AxiosError : Type 0 where
  pub response : Option ErrorResponse
  pub code : Option String
  pub message : String

abbrev is_retryable_status : ℕ → Bool
is_retryable_status s = nat_beq s 502 || (nat_beq s 503 || nat_beq s 504)

abbrev retryable_error_codes : List String
retryable_error_codes =
    "ECONNABORTED"
    ∷ ("ETIMEDOUT" ∷ ("ECONNRESET" ∷ ("ECONNREFUSED" ∷ ("ENETUNREACH" ∷ ("ERR_NETWORK" ∷ [])))))

abbrev status_retryable : Option ErrorResponse → Bool
status_retryable none = false
status_retryable (some r) = is_retryable_status r.status

abbrev code_retryable : Option String → Bool
code_retryable none = false
code_retryable (some c) = includes retryable_error_codes c

unfoldable pub is_retryable : AxiosError → Bool
is_retryable e = status_retryable e.response || code_retryable e.code

-- `body?.error?.message ?? body?.message ?? err.message`
abbrev detail_of : Option ErrorResponse → String → String
detail_of none m = m
detail_of (some r) m = get_or r.error_message (get_or r.body_message m)

-- A header of zero is no header.
abbrev retry_ms : Option ℕ → Option ℕ
retry_ms none = none
retry_ms (some s) = if nat_beq s 0 then none else some (s * 1000)

abbrev by_code : Option String → String → TribeClientError
by_code none m = network m
by_code (some c) m =
    if c == "ECONNABORTED" || c == "ETIMEDOUT" then gateway_timeout m else network m

abbrev by_status : ErrorResponse → String → TribeClientError
by_status r m =
    if nat_beq r.status 401
    then authentication m
    else if nat_beq r.status 403
    then authorization m
    else if nat_beq r.status 404
    then service_not_found
    else if nat_beq r.status 429
    then rate_limit (retry_ms r.retry_after)
    else if nat_beq r.status 502
    then bad_gateway m
    else if nat_beq r.status 503
    then service_unavailable m
    else if nat_beq r.status 504
    then gateway_timeout m
    else gateway_error m r.status

unfoldable pub wrap_axios_error : AxiosError → TribeClientError
wrap_axios_error e = elim e.response [
  | none ↦ by_code e.code (detail_of none e.message)
  | some r ↦ by_status r (detail_of (some r) e.message)
]

-- What a request settles to: data, an error of axios, or another error, which is passed on. A reply
-- to `authenticate` without data is of the last kind: reading it throws.
pub data Settled {ℓ} (D : Type ℓ) : Type ℓ where
  reply : D → Settled D
  axios_error : AxiosError → Settled D
  other_error : String → Settled D

-- What a method of the client does.
pub data Outcome {ℓ} (D : Type ℓ) : Type ℓ where
  returned : D → Outcome D
  thrown : TribeClientError → Outcome D
  rethrown : String → Outcome D

abbrev after_loop {ℓ} : {D : Type ℓ} → Option AxiosError → Outcome D
after_loop none = thrown (network "Network error — could not reach the gateway")
after_loop (some e) = thrown (wrap_axios_error e)

module _ {ℓ} {D : Type ℓ} where
  -- The body of the loop: `next` is the rest of it, after an error that is tried again.
  abbrev pub attempted : Settled D → Bool → ℕ → (AxiosError → Outcome D × ℕ) → Outcome D × ℕ
  attempted (reply d) final made next = (returned d, made)
  attempted (other_error m) final made next = (rethrown m, made)
  attempted (axios_error e) final made next =
      if not (is_retryable e) || final then (thrown (wrap_axios_error e), made) else next e

  -- The loop from `attempt` on, with `left` rounds to go. With the outcome, the number of requests.
  unfoldable pub retry_loop : (ℕ → Settled D) → ℕ → ℕ → ℕ → Option AxiosError → Outcome D × ℕ
  retry_loop send max_retries zero attempt last = (after_loop last, attempt)
  retry_loop send max_retries (suc left) attempt last =
      attempted (send attempt) (nat_beq attempt max_retries) (attempt + 1)
        λ e. retry_loop send max_retries left (attempt + 1) (some e)

  unfoldable pub request_with_retry : (ℕ → Settled D) → ℕ → Outcome D × ℕ
  unfolding retry_loop
  request_with_retry send max_retries = retry_loop send max_retries (suc max_retries) 0 none
