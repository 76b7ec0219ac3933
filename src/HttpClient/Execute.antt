-- ===== src/HttpClient/Execute.antt =====
-- `executeWithRetry` of src/lib/HttpClient.ts, on fuel for the attempts.
use camunda_8_js_sdk.Base.{
  Text, ℕ, zero, suc, ◌+◌, Bool, true, false, not, ◌&&◌, Option, none, some, List, [], ◌∷◌,
  if◌then◌else◌, ◌==◌,
}
use camunda_8_js_sdk.HttpClient.{
  Response, RequestError, RetryOptions, Failure, cancel_error, request_error, other_error, Result,
  ok, thrown, new_request_error,
}
use camunda_8_js_sdk.HttpClient.Delay.{Platform, default_calculate_delay}
use camunda_8_js_sdk.HttpClient.Attempt.{Surroundings, try_attempt}

-- `NormalizedOptions`, as far as the loop reads them. A `calculateDelay` of the user's gets the
-- attempt count, the error and the default delay, and may throw.
pub record Options : Type 0 where
  pub method : Text
  pub retry : RetryOptions
  pub calculate_delay :
      Option ((attempt_count : ℕ) → RequestError → (computed_value : ℕ) → Result ℕ)
  pub throw_http_errors : Bool
  pub before_retry : List (ℕ → RequestError → Option Failure)  -- what a hook throws
  pub sleep_cancelled : ℕ → Bool

-- The response or the error of a request, after how many attempts.
pub record Outcome : Type 0 where
  pub attempts : ℕ
  pub result : Result Response

unfoldable pub run_before_retry :
    ℕ → RequestError → List (ℕ → RequestError → Option Failure) → Option Failure
run_before_retry attempt error [] = none
run_before_retry attempt error (hook ∷ hooks) =
    let rest = run_before_retry attempt error hooks in
    elim (hook attempt error) [ none ↦ rest | some failure ↦ some failure ]

-- What the `catch` block makes of an error: the end, or another attempt.
pub data Next : Type 0 where
  again : Next
  finish : Result Response → Next

-- `throwHttpErrors: false` hands back the response of an `HTTPError`.
unfoldable pub give_up : Bool → RequestError → Option Response → Result Response
give_up throw_http_errors error none = thrown (request_error error)
give_up throw_http_errors error (some response) =
    if not throw_http_errors && error.is_http_error
    then ok response
    else thrown (request_error error)

-- Any other error is wrapped.
unfoldable pub as_request_error : Failure → RequestError
unfolding new_request_error
as_request_error (request_error error) = error
as_request_error (other_error message) = new_request_error none message
as_request_error cancel_error = new_request_error none []

abbrev pub is_cancel_error : Failure → Bool
is_cancel_error cancel_error = true
is_cancel_error _ = false

module _ (platform : Platform) (around : Surroundings) (options : Options) where
  unfoldable pub chosen_delay :
      ℕ → RequestError → ℕ → Option (ℕ → RequestError → ℕ → Result ℕ) → Result ℕ
  chosen_delay attempt error computed none = ok computed
  chosen_delay attempt error computed (some calculate_delay) =
      calculate_delay attempt error computed

  unfoldable pub after_sleep : ℕ → Option Failure → Next
  after_sleep attempt (some failure) = finish (thrown failure)
  after_sleep attempt none =
      if options.sleep_cancelled attempt then finish (thrown cancel_error) else again

  unfoldable pub retry_after_delay : ℕ → RequestError → Result ℕ → Next
  unfolding after_sleep give_up run_before_retry
  retry_after_delay attempt error (thrown failure) = finish (thrown failure)
  retry_after_delay attempt error (ok delay) =
      if delay == 0
      then finish (give_up options.throw_http_errors error error.response)
      else after_sleep attempt (run_before_retry attempt error options.before_retry)

  -- The `catch` block after the attempt with this number, the first being 0.
  unfoldable pub handle_failure : ℕ → Failure → Next
  unfolding retry_after_delay chosen_delay as_request_error
  handle_failure attempt failure =
      if is_cancel_error failure
      then finish (thrown cancel_error)
      else if around.cancelled attempt
      then finish (thrown cancel_error)
      else let error = as_request_error failure in
        retry_after_delay (attempt + 1) error (
          chosen_delay (attempt + 1) error
            (default_calculate_delay platform options.retry options.method (attempt + 1) error)
            options.calculate_delay)

  unfoldable pub next_of : ℕ → Result Response → Next
  unfolding handle_failure
  next_of attempt (ok response) = finish (ok response)
  next_of attempt (thrown failure) = handle_failure attempt failure

  -- `none` where the fuel does not suffice.
  unfoldable pub execute_from : ℕ → ℕ → Option Outcome
  unfolding next_of try_attempt
  execute_from zero attempt = none
  execute_from (suc fuel) attempt =
      let rest = execute_from fuel (attempt + 1) in
      elim (next_of attempt (try_attempt around attempt)) [
        | again ↦ rest
        | finish result ↦ some (record { attempts = attempt + 1; result = result })
      ]

  unfoldable pub execute_with_retry : ℕ → Option Outcome
  unfolding execute_from
  execute_with_retry fuel = execute_from fuel 0
