-- ===== src/ExceptionFilter.antt =====
-- shared/filters/all-exceptions.filter.ts: the answer to an exception. `meta`, which holds the time
-- and the id of the request, and log lines are left out.
use apicenter_hehe.Common.{
  ℕ, String, ◌≡◌, refl, Bool, true, false, Option, none, some, List, [], ◌∷◌, if◌then◌else◌,
  or_else,
}
use apicenter_hehe.Errors.{Error, app, plain, status_code, error_code, message}

-- The messages of a response object of NestJS: one, or an array of them.
pub data Messages : Type 0 where
  single : String → Messages
  several : List String → Messages

-- What is caught. `http_object` is an `HttpException` of NestJS whose response is an object with a
-- `message` and perhaps an `error`; `http_other` has any other response; `thrown` is an error of the
-- gateway, and `nothing` a value without a message.
pub data Exception : Type 0 where
  http_object : (status : ℕ) → Messages → (error : Option String) → Exception
  http_other : (status : ℕ) → (message : String) → Exception
  thrown : Error → Exception
  nothing : Exception

-- The body of the response: `details` where there is more than one message, and whether the stack
-- is shown.
pub record ErrorBody : Type 0 where
  pub status : ℕ
  pub code : String
  pub message : String
  pub details : Option (List String)
  pub shows_stack : Bool

abbrev with_messages : ℕ → String → Messages → ErrorBody
with_messages status code (single m) = record {
  status = status;
  code = code;
  message = m;
  details = none;
  shows_stack = false;
}
with_messages status code (several (m ∷ [])) = record {
  status = status;
  code = code;
  message = m;
  details = none;
  shows_stack = false;
}
with_messages status code (several []) = record {
  status = status;
  code = code;
  message = "Validation failed";
  details = none;
  shows_stack = false;
}
with_messages status code (several (m ∷ (m' ∷ ms))) = record {
  status = status;
  code = code;
  message = "Validation failed";
  details = some (m ∷ (m' ∷ ms));
  shows_stack = false;
}

-- A bug: 500, and the message only outside production.
abbrev unexpected : Bool → Option String → ErrorBody
unexpected is_production m = record {
  status = 500;
  code = "INTERNAL_ERROR";
  message =
      if is_production then "An unexpected error occurred" else or_else m "Internal server error";
  details = none;
  shows_stack = if is_production then false else true;
}

-- `catch`. An error of the gateway is an `HttpException` whose response is `{ message, code }`; a
-- bare `Error` is a bug. An empty `error` counts as none.
unfoldable pub catch_exception : Bool → Exception → ErrorBody
unfolding status_code error_code message or_else
catch_exception is_production (http_object status ms error) =
    with_messages status (or_else error "HTTP_ERROR") ms
catch_exception is_production (http_other status m) = record {
  status = status;
  code = "HTTP_ERROR";
  message = m;
  details = none;
  shows_stack = false;
}
catch_exception is_production (thrown (app e)) =
    with_messages (status_code e) (error_code e) (single (message e))
catch_exception is_production (thrown (plain m)) = unexpected is_production (some m)
catch_exception is_production nothing = unexpected is_production none

-- Errors that the gateway does not expect.
abbrev pub IsBug : Exception → Type 0
IsBug (thrown (plain m)) = Unit
IsBug nothing = Unit
IsBug _ = ⊥

-- In production all bugs look the same from outside: the answer to one does not depend on what was
-- thrown, is 500, and shows no stack.
pub bugs_alike :
    (x y : Exception)
    → IsBug x
    → IsBug y
    → (catch_exception true x ≡ catch_exception true y)
      × ((catch_exception true x).status ≡ 500)
      × ((catch_exception true x).shows_stack ≡ false)
unfolding catch_exception
bugs_alike (thrown (plain m)) (thrown (plain m')) hx hy = (refl, refl, refl)
bugs_alike (thrown (plain m)) nothing hx hy = (refl, refl, refl)
bugs_alike nothing (thrown (plain m)) hx hy = (refl, refl, refl)
bugs_alike nothing nothing hx hy = (refl, refl, refl)
bugs_alike (thrown (plain m)) (thrown (app e)) hx hy = absurd hy
bugs_alike (thrown (plain m)) (http_object s ms e) hx hy = absurd hy
bugs_alike (thrown (plain m)) (http_other s m') hx hy = absurd hy
bugs_alike nothing (thrown (app e)) hx hy = absurd hy
bugs_alike nothing (http_object s ms e) hx hy = absurd hy
bugs_alike nothing (http_other s m) hx hy = absurd hy
bugs_alike (thrown (app e)) y hx hy = absurd hx
bugs_alike (http_object s ms e) y hx hy = absurd hx
bugs_alike (http_other s m) y hx hy = absurd hx
