-- ===== src/HttpClient/Attempt.antt =====
-- One attempt: the `beforeRequest` hooks and `executeOnce` of src/lib/HttpClient.ts. The network, the
-- timer, the caller's cancellation and the hooks are parameters, each a function of the attempt.
use camunda_8_js_sdk.Base.{
  Text, ℕ, zero, suc, ◌+◌, ◌≤◌, ◌≡◌, Bool, true, false, ◌&&◌, ◌||◌, Option, none, some, List, [],
  ◌∷◌, if◌then◌else◌, ◌==◌, leb, ltb, arith,
}
use camunda_8_js_sdk.HttpClient.{
  Response, RequestError, Failure, cancel_error, request_error, Result, ok, thrown,
  err_reading_response_stream, new_request_error, new_http_error, new_timeout_error,
}

-- What a `beforeRequest` hook does: nothing, respond in place of the network, or throw.
pub data HookResult : Type 0 where
  nothing : HookResult
  respond : Response → HookResult
  throws : Failure → HookResult

-- What the network gives: a response, or an error of it or of the reading of its body, with its
-- code and message.
pub data Reply : Type 0 where
  replied : Response → Reply
  request_failed : (code : Option Text) → (message : Text) → Reply
  body_failed : (code : Option Text) → (message : Text) → Reply

-- The attempts' surroundings: `timed_out` tells whether the timer aborted the request, and
-- `cancelled` whether the caller's signal did by the end of the attempt.
pub record Surroundings : Type 0 where
  pub before_request : List (ℕ → HookResult)
  pub reply : ℕ → Reply
  pub after_response : List (ℕ → Response → Result Response)
  pub timed_out : ℕ → Bool
  pub timeout_message : Text
  pub cancelled : ℕ → Bool
  pub http_error_message : Response → Text

-- The hooks up to the first that responds or throws.
unfoldable pub run_before_request : ℕ → List (ℕ → HookResult) → HookResult
run_before_request attempt [] = nothing
run_before_request attempt (hook ∷ hooks) =
    let rest = run_before_request attempt hooks in
    elim (hook attempt) [
      | nothing ↦ rest
      | respond response ↦ respond response
      | throws failure ↦ throws failure
    ]

unfoldable pub run_after_response :
    ℕ → List (ℕ → Response → Result Response) → Response → Result Response
run_after_response attempt [] response = ok response
run_after_response attempt (hook ∷ hooks) response = elim (hook attempt response) [
  | ok changed ↦ run_after_response attempt hooks changed
  | thrown failure ↦ thrown failure
]

abbrev pub is_ok : Response → Bool
is_ok response =
    (leb 200 response.status_code && ltb response.status_code 300) || response.status_code == 304

-- Whether an attempt asks the network: no `beforeRequest` hook answered or threw.
abbrev asks_network : HookResult → Bool
asks_network nothing = true
asks_network (respond response) = false
asks_network (throws failure) = false

module _ (around : Surroundings) where
  -- `rethrowAbort`, and the error it leaves alone: the timer's abort comes first.
  unfoldable pub abort_or : ℕ → RequestError → Result Response
  unfolding new_timeout_error
  abort_or attempt error =
      if around.timed_out attempt
      then thrown (request_error (new_timeout_error around.timeout_message))
      else if around.cancelled attempt
      then thrown cancel_error
      else thrown (request_error error)

  abbrev code_or : Option Text → Text → Option Text
  code_or none fallback = some fallback
  code_or (some code) fallback = some code

  unfoldable pub received : ℕ → Reply → Result Response
  unfolding abort_or new_request_error
  received attempt (replied response) = ok response
  received attempt (request_failed code message) = abort_or attempt (new_request_error code message)
  received attempt (body_failed code message) =
      abort_or attempt (new_request_error (code_or code err_reading_response_stream) message)

  unfoldable pub check_status : Result Response → Result Response
  unfolding new_http_error
  check_status (thrown failure) = thrown failure
  check_status (ok response) =
      if is_ok response
      then ok response
      else thrown (request_error (new_http_error (around.http_error_message response) response))

  unfoldable pub after_hooks : ℕ → Result Response → Result Response
  unfolding run_after_response check_status
  after_hooks attempt (thrown failure) = thrown failure
  after_hooks attempt (ok response) =
      check_status (run_after_response attempt around.after_response response)

  unfoldable pub execute_once : ℕ → Option Response → Result Response
  unfolding after_hooks received
  execute_once attempt none = after_hooks attempt (received attempt (around.reply attempt))
  execute_once attempt (some short_circuit) = after_hooks attempt (ok short_circuit)

  unfoldable pub attempt_with : ℕ → HookResult → Result Response
  unfolding execute_once
  attempt_with attempt nothing = execute_once attempt none
  attempt_with attempt (respond response) = execute_once attempt (some response)
  attempt_with attempt (throws failure) = thrown failure

  -- The `try` block of `executeWithRetry`.
  unfoldable pub try_attempt : ℕ → Result Response
  unfolding attempt_with run_before_request
  try_attempt attempt = attempt_with attempt (run_before_request attempt around.before_request)

  abbrev pub sends_request : ℕ → Bool
  sends_request attempt = asks_network (run_before_request attempt around.before_request)

  -- How many of the first attempts ask it.
  abbrev pub sent : ℕ → ℕ
  sent zero = 0
  sent (suc n) = (if sends_request n then 1 else 0) + sent n

  pub sent_le : (n : ℕ) → sent n ≤ n
  sent_le zero = omega arith
  sent_le (suc n) = ground (arith, sent_le n)

  check_status-ok :
      (r : Result Response) (response : Response)
      → check_status r ≡ ok response
      → is_ok response ≡ true
  unfolding check_status
  check_status-ok (thrown failure) response e = ground arith
  check_status-ok (ok given) response e = ground arith

  after_hooks-ok :
      (attempt : ℕ) (r : Result Response) (response : Response)
      → after_hooks attempt r ≡ ok response
      → is_ok response ≡ true
  unfolding after_hooks
  after_hooks-ok attempt (thrown failure) response e = ground arith
  after_hooks-ok attempt (ok received) response e =
      check_status-ok (run_after_response attempt around.after_response received) response e

  attempt_with-ok :
      (attempt : ℕ) (hooked : HookResult) (response : Response)
      → attempt_with attempt hooked ≡ ok response
      → is_ok response ≡ true
  unfolding attempt_with execute_once
  attempt_with-ok attempt nothing response e =
      after_hooks-ok attempt (received attempt (around.reply attempt)) response e
  attempt_with-ok attempt (respond given) response e = after_hooks-ok attempt (ok given) response e
  attempt_with-ok attempt (throws failure) response e = ground arith

  -- Whatever the hooks and the network do, an attempt that gives a response gives one whose status
  -- is 2xx or 304, also where a hook answered in place of the network or changed the response.
  pub try_attempt-ok :
      (attempt : ℕ) (response : Response)
      → try_attempt attempt ≡ ok response
      → is_ok response ≡ true
  unfolding try_attempt
  try_attempt-ok attempt response e =
      attempt_with-ok attempt (run_before_request attempt around.before_request) response e
