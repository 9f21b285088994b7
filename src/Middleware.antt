-- ===== src/Middleware.antt =====
-- shared/middleware/security.middleware.ts and shared/interceptors/correlation-id.interceptor.ts,
-- and the headers that the hook `proxyReq` of shared/proxy-handler.ts sets on the request to the
-- upstream. Log lines and the attributes of a span are left out. Node compares the names of headers
-- without regard to case; here they all stand in lower case.
use apicenter_hehe.Common.{
  ℕ, ◌*◌, String, Bool, false, Option, none, some, ltb, if◌then◌else◌, or_else,
}
use apicenter_hehe.Common.Dict.{Dict, insert, remove}
use apicenter_hehe.Common.Int.{ℤ, pos, negsuc}
use apicenter_hehe.Common.Numbers.{parse_int}

abbrev max_size_bytes : ℕ
max_size_bytes = 5 * 1024 * 1024

-- A length that is not a number is not larger.
abbrev is_larger : Option ℤ → ℕ → Bool
is_larger none n = false
is_larger (some (pos m)) n = ltb n m
is_larger (some (negsuc m)) n = false

-- The headers of a request or a response, by their names in lower case.
abbrev pub Headers : Type 0
Headers = Dict String

-- What the middleware does: it answers with a status and a code, or calls `next`.
pub data Decision : Type 0 where
  answered : (status : ℕ) → (error_code : String) → Decision
  passed_on : Headers → Decision

abbrev security_headers : Headers → Headers
security_headers h = insert "x-frame-options" "DENY" (
    insert "x-content-type-options" "nosniff" (
      insert "expires" "0" (
        insert "pragma" "no-cache" (
          insert "cache-control" "no-store, no-cache, must-revalidate, proxy-revalidate"
            (remove "server" (remove "x-powered-by" h))))))

-- `SecurityMiddleware.use`, with the request's header `content-length`
unfoldable pub security : Option String → Headers → Decision
unfolding parse_int or_else
security content_length h =
    if is_larger (parse_int (or_else content_length "0")) max_size_bytes
    then answered 413 "PAYLOAD_TOO_LARGE"
    else passed_on (security_headers h)

-- `CorrelationIdInterceptor.intercept`: the id that it attaches to the request, and the headers of
-- the response. `uuid` is the text that `randomUUID` gives.
unfoldable pub intercept : String → Option String → Headers → String × Headers
unfolding or_else
intercept uuid given h = let id = or_else given uuid in (id, insert "x-correlation-id" id h)

-- The hook `proxyReq`, with the caller and the correlation id that the request has.
unfoldable pub on_proxy_req : Option String → Option String → Headers → Headers
unfolding or_else
on_proxy_req tribe_id correlation_id h = insert "x-forwarded-by" "apicenter-gateway" (
    insert "x-correlation-id" (or_else correlation_id "")
      (insert "x-tribe-id" (or_else tribe_id "") h))
