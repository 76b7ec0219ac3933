-- ===== src/HttpClient/Promise.antt =====
-- `createResponsePromise` of src/lib/HttpClient.ts: the handlers, the attempts, the `beforeError` hooks and the body.
pub mod Settles
use camunda_8_js_sdk.Base.{Text, ℕ, Bool, true, false, Option, none, some, List, [], ◌∷◌}
use camunda_8_js_sdk.HttpClient.{
  Response, RequestError, Failure, cancel_error, request_error, other_error, Result, ok, thrown,
}
use camunda_8_js_sdk.HttpClient.Delay.{Platform}
use camunda_8_js_sdk.HttpClient.Attempt.{Surroundings}
use camunda_8_js_sdk.HttpClient.Execute.{Options, Outcome, as_request_error, execute_with_retry}

-- What each handler throws, the `beforeError` hooks, `parseJson`, and the message of a `ParseError`.
pub record PromiseOptions (J : Type 0) : Type 0 where
  pub handlers : List (Option Failure)
  pub before_error : List (RequestError → Result RequestError)
  pub parse_json : Text → Result J
  pub parse_message : Failure → Response → Text

-- `ERR_BODY_PARSE_FAILURE`.
abbrev err_body_parse_failure : Text
err_body_parse_failure =
    69 ∷ 82 ∷ 82 ∷ 95 ∷ 66 ∷ 79 ∷ 68 ∷ 89 ∷ 95 ∷ 80 ∷ 65 ∷ 82 ∷ 83 ∷ 69 ∷ 95 ∷ 70 ∷ 65 ∷ 73 ∷ 76
    ∷ 85 ∷ 82 ∷ 69 ∷ []

unfoldable pub new_parse_error : Text → Response → RequestError
new_parse_error message response = record {
  is_http_error = false;
  code = err_body_parse_failure;
  message = message;
  response = some response;
}

-- `applyBeforeError`: what is thrown in the end.
unfoldable pub apply_before_error :
    List (RequestError → Result RequestError) → RequestError → Failure
apply_before_error [] e = request_error e
apply_before_error (hook ∷ hooks) e = elim (hook e) [
  | ok changed ↦ apply_before_error hooks changed
  | thrown failure ↦ failure
]

unfoldable pub run_handlers : List (Option Failure) → Option Failure
run_handlers [] = none
run_handlers (none ∷ rest) = run_handlers rest
run_handlers (some failure ∷ rest) = some failure

module _ {J : Type 0} (promise : PromiseOptions J) where
  -- The `catch` block of the promise.
  unfoldable pub reject_with : Failure → Failure
  unfolding apply_before_error as_request_error
  reject_with cancel_error = cancel_error
  reject_with (request_error e) =
      apply_before_error promise.before_error (as_request_error (request_error e))
  reject_with (other_error message) =
      apply_before_error promise.before_error (as_request_error (other_error message))

  unfoldable pub core_result : Result Response → Result Response
  unfolding reject_with
  core_result (ok response) = ok response
  core_result (thrown failure) = thrown (reject_with failure)

  unfoldable pub core_outcome : Option Outcome → Option (Result Response)
  unfolding core_result
  core_outcome none = none
  core_outcome (some outcome) = some (core_result outcome.result)

  -- `promise.json()`: `none` is the empty text of an empty body.
  unfoldable pub parsed_body : Response → Result J → Result (Option J)
  unfolding apply_before_error new_parse_error
  parsed_body response (ok j) = ok (some j)
  parsed_body response (thrown failure) = thrown (
      apply_before_error promise.before_error
        (new_parse_error (promise.parse_message failure response) response))

  unfoldable pub parse_body : Response → Text → Result (Option J)
  unfolding parsed_body
  parse_body response [] = ok none
  parse_body response (c ∷ body) = parsed_body response (promise.parse_json (c ∷ body))

  unfoldable pub parse : Result Response → Result (Option J)
  unfolding parse_body
  parse (thrown failure) = thrown failure
  parse (ok response) = parse_body response response.body

  module _ (platform : Platform) (around : Surroundings) (options : Options) where
    unfoldable pub core_after : ℕ → Option Failure → Option (Result Response)
    unfolding core_result core_outcome execute_with_retry
    core_after fuel (some failure) = some (core_result (thrown failure))
    core_after fuel none = core_outcome (execute_with_retry platform around options fuel)

    -- `none` where the fuel does not suffice.
    unfoldable pub create_response_promise : ℕ → Option (Result Response)
    unfolding core_after run_handlers
    create_response_promise fuel = core_after fuel (run_handlers promise.handlers)

    unfoldable pub parse_when_done : Option (Result Response) → Option (Result (Option J))
    unfolding parse
    parse_when_done none = none
    parse_when_done (some r) = some (parse r)

    unfoldable pub json : ℕ → Option (Result (Option J))
    unfolding parse_when_done create_response_promise
    json fuel = parse_when_done (create_response_promise fuel)
