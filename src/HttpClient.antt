-- ===== src/HttpClient.antt =====
-- src/lib/HttpClient.ts: the retry policy and the attempts of a request. A text is its UTF-16 code
-- units, a time a whole number of milliseconds.
pub mod Delay
pub mod Attempt
pub mod Execute
pub mod Bound
pub mod Merge
pub mod Promise
mod Tests
use camunda_8_js_sdk.Base.{
  Text, eq_text, ℕ, Bool, true, false, ◌&&◌, ◌||◌, Option, none, some, List, [], ◌∷◌, ◌==◌, leb,
  ltb,
}

-- The parts of a response that the client looks at.
pub record Response : Type 0 where
  pub status_code : ℕ
  pub retry_after : Option Text  -- the header
  pub body : Text

-- `RequestError` and its children: an `HTTPError` and a `ParseError` carry the response.
pub record RequestError : Type 0 where
  pub is_http_error : Bool  -- `instanceof HTTPError`
  pub code : Text
  pub message : Text
  pub response : Option Response

-- The codes of the source's own errors.
abbrev err_got_request_error : Text
err_got_request_error =
    69 ∷ 82 ∷ 82 ∷ 95 ∷ 71 ∷ 79 ∷ 84 ∷ 95 ∷ 82 ∷ 69 ∷ 81 ∷ 85 ∷ 69 ∷ 83 ∷ 84 ∷ 95 ∷ 69 ∷ 82 ∷ 82
    ∷ 79 ∷ 82 ∷ []

abbrev pub err_reading_response_stream : Text
err_reading_response_stream =
    69 ∷ 82 ∷ 82 ∷ 95 ∷ 82 ∷ 69 ∷ 65 ∷ 68 ∷ 73 ∷ 78 ∷ 71 ∷ 95 ∷ 82 ∷ 69 ∷ 83 ∷ 80 ∷ 79 ∷ 78 ∷ 83
    ∷ 69 ∷ 95 ∷ 83 ∷ 84 ∷ 82 ∷ 69 ∷ 65 ∷ 77 ∷ []

abbrev err_non_2xx_3xx_response : Text
err_non_2xx_3xx_response =
    69 ∷ 82 ∷ 82 ∷ 95 ∷ 78 ∷ 79 ∷ 78 ∷ 95 ∷ 50 ∷ 88 ∷ 88 ∷ 95 ∷ 51 ∷ 88 ∷ 88 ∷ 95 ∷ 82 ∷ 69 ∷ 83
    ∷ 80 ∷ 79 ∷ 78 ∷ 83 ∷ 69 ∷ []

abbrev etimedout : Text
etimedout = 69 ∷ 84 ∷ 73 ∷ 77 ∷ 69 ∷ 68 ∷ 79 ∷ 85 ∷ 84 ∷ []

-- The constructors of `RequestError`, `HTTPError` and `TimeoutError`.
abbrev or_default : Option Text → Text
or_default none = err_got_request_error
or_default (some code) = code

unfoldable pub new_request_error : Option Text → Text → RequestError
new_request_error code message = record {
  is_http_error = false;
  code = or_default code;
  message = message;
  response = none;
}

unfoldable pub new_http_error : Text → Response → RequestError
new_http_error message response = record {
  is_http_error = true;
  code = err_non_2xx_3xx_response;
  message = message;
  response = some response;
}

unfoldable pub new_timeout_error : Text → RequestError
new_timeout_error message = record {
  is_http_error = false;
  code = etimedout;
  message = message;
  response = none;
}

-- What can be thrown: a `CancelError`, a `RequestError`, or an error of another class.
pub data Failure : Type 0 where
  cancel_error : Failure
  request_error : RequestError → Failure
  other_error : (message : Text) → Failure

pub data Result (A : Type 0) : Type 0 where
  ok : A → Result A
  thrown : Failure → Result A

-- `RequiredRetryOptions` less `calculateDelay`.
pub record RetryOptions : Type 0 where
  pub limit : ℕ
  pub methods : List Text
  pub status_codes : List ℕ
  pub error_codes : List Text
  pub max_retry_after : Option ℕ

-- `includes` of the source's arrays.
abbrev pub includes_text : Text → List Text → Bool
includes_text x [] = false
includes_text x (y ∷ ys) = eq_text y x || includes_text x ys

abbrev pub includes : ℕ → List ℕ → Bool
includes x [] = false
includes x (y ∷ ys) = y == x || includes x ys
