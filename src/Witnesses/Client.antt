-- ===== src/Witnesses/Client.antt =====
-- Instances for sdk/TribeClient.ts and shared/filters/all-exceptions.filter.ts.
use apicenter_hehe.Common.{
  ℕ, ◌+◌, ◌≤◌, ◌<◌, String, ◌≡◌, refl, true, false, none, some, leb, if◌then◌else◌,
}
use apicenter_hehe.Sdk.{
  AxiosError, Settled, reply, axios_error, returned, request_with_retry, is_retryable,
}
use apicenter_hehe.Sdk.Retries.{decisive, verdict, first_decisive}
use apicenter_hehe.Sdk.Session.{TribeClient, TokenReply}

abbrev unavailable : AxiosError
unavailable = record {
  response =
      some (record { status = 503; error_message = none; body_message = none; retry_after = none });
  code = none;
  message = "Request failed";
}

-- The gateway answers at the third attempt.
abbrev send : ℕ → Settled String
send n = if leb n 1 then axios_error unavailable else reply "data"

test_retries : request_with_retry send 3 ≡ (returned "data", 3)
unfolding request_with_retry is_retryable
test_retries = refl

first_decisive_example :
    (k : ℕ) × (k ≤ 3)
    × (decisive send 3 k ≡ true)
    × ((i : ℕ) → i < k → decisive send 3 i ≡ false)
    × (request_with_retry send 3 ≡ (verdict (send k), k + 1))
first_decisive_example = first_decisive send 3

abbrev expired : TribeClient
expired = record { access_token = some "old"; refresh_token = some "refresh"; token_expiry = 1000 }

abbrev renewed : Settled TokenReply
renewed = reply (record { access_token = "new"; refresh_token = none; expires_in = some 3600 })
