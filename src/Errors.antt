-- ===== src/Errors.antt =====
-- shared/errors.ts and the class `GoneError` of shared/proxy-handler.ts: the errors that the
-- gateway throws. Each class is a constructor that carries its message; `plain` is a bare `Error`.
use apicenter_hehe.Common.{ℕ, String, ◌≡◌, refl, ◌⊎◌, inl, inr, Bool, if◌then◌else◌}

pub data AppError : Type 0 where
  validation unauthorized forbidden not_found conflict rate_limit : String → AppError
  bad_gateway service_unavailable gone : String → AppError

pub data Error : Type 0 where
  app : AppError → Error
  plain : String → Error

-- The status of the response. `GoneError` is a `NotFoundError` whose status is written over.
unfoldable pub status_code : AppError → ℕ
status_code (validation m) = 400
status_code (unauthorized m) = 401
status_code (forbidden m) = 403
status_code (not_found m) = 404
status_code (conflict m) = 409
status_code (rate_limit m) = 429
status_code (bad_gateway m) = 502
status_code (service_unavailable m) = 503
status_code (gone m) = 410

unfoldable pub error_code : AppError → String
error_code (validation m) = "VALIDATION_ERROR"
error_code (unauthorized m) = "UNAUTHORIZED"
error_code (forbidden m) = "FORBIDDEN"
error_code (not_found m) = "NOT_FOUND"
error_code (conflict m) = "CONFLICT"
error_code (rate_limit m) = "RATE_LIMIT_EXCEEDED"
error_code (bad_gateway m) = "BAD_GATEWAY"
error_code (service_unavailable m) = "SERVICE_UNAVAILABLE"
error_code (gone m) = "NOT_FOUND"

unfoldable pub message : AppError → String
message (validation m) = m
message (unauthorized m) = m
message (forbidden m) = m
message (not_found m) = m
message (conflict m) = m
message (rate_limit m) = m
message (bad_gateway m) = m
message (service_unavailable m) = m
message (gone m) = m

-- A function that may throw returns a `Result`.
pub data Result {ℓ} (T : Type ℓ) : Type ℓ where
  err : Error → Result T
  ok : T → Result T

-- `if (!test) throw e`
abbrev pub guard : Bool → Error → Result (Unit {0})
guard test e = if test then ok tt else err e

infixl 5 ◌>>=◌
infixl 5 ◌>>◌
abbrev pub ◌>>=◌ {ℓ κ} : {T : Type ℓ} {U : Type κ} → Result T → (T → Result U) → Result U
err thrown >>= next = err thrown
ok value >>= next = next value

abbrev pub ◌>>◌ {κ} : {U : Type κ} → Result (Unit {0}) → Result U → Result U
err thrown >> next = err thrown
ok _ >> next = next

pub Result-cases {ℓ} :
    {A : Type ℓ} (r : Result A) → ((a : A) × (r ≡ ok a)) ⊎ ((e : Error) × (r ≡ err e))
Result-cases (ok a) = inl (a, refl)
Result-cases (err e) = inr (e, refl)
