-- ===== src/HttpClient/Bound.antt =====
-- How often a request is tried, and what it ends with.
use camunda_8_js_sdk.Base.{
  ℕ, zero, suc, ◌+◌, ◌≤◌, ◌<◌, ◌≡◌, ◌≢◌, refl, sym, ap, ◌∙◌, true, false, ◌⊎◌, inl, inr, Option,
  none, some, arith,
}
use camunda_8_js_sdk.HttpClient.{Response, RequestError, Failure, Result, ok, thrown}
use camunda_8_js_sdk.HttpClient.Delay.{
  Platform, default_calculate_delay, default_calculate_delay-again, has_method, is_retriable,
}
use camunda_8_js_sdk.HttpClient.Attempt.{
  Surroundings, sent, sent_le, try_attempt, try_attempt-ok, is_ok,
}
use camunda_8_js_sdk.HttpClient.Execute.{
  Options, Outcome, Next, again, finish, give_up, as_request_error, chosen_delay, after_sleep,
  retry_after_delay, handle_failure, next_of, execute_from, execute_with_retry,
}

true_ne_false : true ≢ false
true_ne_false e = cc

outcome_result : (o p : Outcome) → some o ≡ some p → o.result ≡ p.result
outcome_result o p e = cc

Next-cases : (n : Next) → (n ≡ again) ⊎ ((r : Result Response) × (n ≡ finish r))
Next-cases again = inl refl
Next-cases (finish r) = inr (r, refl)

module _ (platform : Platform) (around : Surroundings) (options : Options) where
  chosen_delay-again :
      (attempt : ℕ) (error : RequestError) (delay : ℕ)
      (calculate_delay : Option (ℕ → RequestError → ℕ → Result ℕ))
      → calculate_delay ≡ none
      → retry_after_delay platform around options attempt error
          (chosen_delay platform around options attempt error delay calculate_delay)
        ≡ again
      → delay ≢ 0
  unfolding retry_after_delay chosen_delay
  chosen_delay-again attempt error delay none d e = ground arith
  chosen_delay-again attempt error delay (some calculate_delay) d e = cc

  retry_after_delay-finish :
      (attempt : ℕ) (error : RequestError) (r : Result ℕ) (response : Response)
      → retry_after_delay platform around options attempt error r ≡ finish (ok response)
      → options.throw_http_errors ≡ false
  unfolding retry_after_delay after_sleep give_up
  retry_after_delay-finish attempt error r response e = ground arith

  -- Another attempt with the default delay is made only within the limit and for a method of the
  -- options.
  handle_failure-again :
      (attempt : ℕ) (failure : Failure)
      → options.calculate_delay ≡ none
      → handle_failure platform around options attempt failure ≡ again
      → (attempt < options.retry.limit) × (has_method platform options.retry options.method ≡ true)
  unfolding handle_failure chosen_delay is_retriable
  handle_failure-again attempt failure default_delay e =
      let error = as_request_error failure in
      let delay =
        default_calculate_delay platform options.retry options.method (attempt + 1) error in
      let permitted =
        default_calculate_delay-again platform options.retry options.method (attempt + 1) error in
      let positive =
        chosen_delay-again (attempt + 1) error delay options.calculate_delay default_delay in
      ground arith

  next_of-again :
      (attempt : ℕ) (r : Result Response)
      → options.calculate_delay ≡ none
      → next_of platform around options attempt r ≡ again
      → (attempt < options.retry.limit) × (has_method platform options.retry options.method ≡ true)
  unfolding next_of
  next_of-again attempt (ok response) d e = ground arith
  next_of-again attempt (thrown failure) d e = handle_failure-again attempt failure d e

  handle_failure-finish :
      (attempt : ℕ) (failure : Failure) (response : Response)
      → handle_failure platform around options attempt failure ≡ finish (ok response)
      → options.throw_http_errors ≡ false
  unfolding handle_failure
  handle_failure-finish attempt failure response e =
      let error = as_request_error failure in
      let computed =
        default_calculate_delay platform options.retry options.method (attempt + 1) error in
      let chosen =
        chosen_delay platform around options (attempt + 1) error computed options.calculate_delay in
      let given_up = retry_after_delay-finish (attempt + 1) error chosen response in ground arith

  next_of-finish :
      (attempt : ℕ) (r : Result Response) (response : Response)
      → r ≡ try_attempt around attempt
      → next_of platform around options attempt r ≡ finish (ok response)
      → (is_ok response ≡ true) ⊎ (options.throw_http_errors ≡ false)
  unfolding next_of
  next_of-finish attempt (ok given) response same e =
      inl (try_attempt-ok around attempt response (sym same ∙ ground arith))
  next_of-finish attempt (thrown failure) response same e =
      inr (handle_failure-finish attempt failure response e)

  -- One turn of the loop, as an equation in each case.
  execute_from-again :
      (fuel attempt : ℕ)
      → next_of platform around options attempt (try_attempt around attempt) ≡ again
      → execute_from platform around options (suc fuel) attempt
        ≡ execute_from platform around options fuel (attempt + 1)
  unfolding execute_from
  execute_from-again fuel attempt e = rw (e, execute_from) refl

  execute_from-finish :
      (fuel attempt : ℕ) (r : Result Response)
      → next_of platform around options attempt (try_attempt around attempt) ≡ finish r
      → execute_from platform around options (suc fuel) attempt
        ≡ some (record { attempts = attempt + 1; result = r })
  unfolding execute_from
  execute_from-finish fuel attempt r e = rw (e, execute_from) refl

  -- The loop ends with an outcome, after at least one attempt and at most this many, and as many requests sent at
  -- most.
  abbrev pub EndsWithin : ℕ → Option Outcome → Type 0
  EndsWithin most none = ⊥
  EndsWithin most (some outcome) =
      (0 < outcome.attempts) × (outcome.attempts ≤ most) × (sent around outcome.attempts ≤ most)

  execute_from-EndsWithin :
      (fuel attempt : ℕ)
      → options.calculate_delay ≡ none
      → attempt ≤ options.retry.limit
      → options.retry.limit < fuel + attempt
      → EndsWithin (options.retry.limit + 1) (execute_from platform around options fuel attempt)
  execute_from-EndsWithin zero attempt d le lt = absurd (omega arith)
  execute_from-EndsWithin (suc fuel) attempt d le lt =
      elim (Next-cases (next_of platform around options attempt (try_attempt around attempt))) [
        | inl more ↦
            let (below, permitted) = next_of-again attempt (try_attempt around attempt) d more in
            rw (execute_from-again fuel attempt more)
              (execute_from-EndsWithin fuel (attempt + 1) d (omega arith) (omega arith))
        | inr (r, done) ↦
            let few = sent_le around (attempt + 1) in
            rw (execute_from-finish fuel attempt r done) (omega arith, omega arith, omega arith)
      ]

  -- With the default delay, whatever the network, the hooks and the caller answer, the request ends after at least
  -- one and at most `limit + 1` attempts, and fuel above `limit` suffices. The network is asked at most as often: an
  -- attempt whose `beforeRequest` hook answers or throws does not ask it. That each reply and each hook comes to an
  -- end is assumed, since they are functions.
  pub execute_with_retry-EndsWithin :
      (fuel : ℕ)
      → options.calculate_delay ≡ none
      → options.retry.limit < fuel
      → EndsWithin (options.retry.limit + 1) (execute_with_retry platform around options fuel)
  unfolding execute_with_retry
  execute_with_retry-EndsWithin fuel d lt =
      execute_from-EndsWithin fuel 0 d (omega arith) (omega arith)

  -- With the default delay, a request whose method is not among the retriable ones of its options ends after exactly
  -- one attempt, whatever error that meets: it is never tried again.
  pub execute_with_retry-once :
      (fuel : ℕ)
      → options.calculate_delay ≡ none
      → has_method platform options.retry options.method ≡ false
      → (r : Result Response) × (execute_with_retry platform around options (suc fuel)
          ≡ some (record { attempts = 1; result = r }))
  unfolding execute_with_retry
  execute_with_retry-once fuel d other =
      elim (Next-cases (next_of platform around options 0 (try_attempt around 0))) [
        | inl more ↦
            absurd (true_ne_false (sym (next_of-again 0 (try_attempt around 0) d more).1 ∙ other))
        | inr (r, done) ↦ (r, execute_from-finish fuel 0 r done)
      ]

  execute_from-ok :
      (fuel attempt : ℕ) (attempts : ℕ) (response : Response)
      → execute_from platform around options fuel attempt
        ≡ some (record { attempts = attempts; result = ok response })
      → (is_ok response ≡ true) ⊎ (options.throw_http_errors ≡ false)
  unfolding execute_from
  execute_from-ok zero attempt attempts response e = cc
  execute_from-ok (suc fuel) attempt attempts response e =
      elim (Next-cases (next_of platform around options attempt (try_attempt around attempt))) [
        | inl more ↦
            execute_from-ok fuel (attempt + 1) attempts response
              (sym (execute_from-again fuel attempt more) ∙ e)
        | inr (r, done) ↦
            let same =
              outcome_result (record { attempts = attempt + 1; result = r })
                (record { attempts = attempts; result = ok response })
                (sym (execute_from-finish fuel attempt r done) ∙ e) in
            next_of-finish attempt (try_attempt around attempt) response refl
              (done ∙ ap finish same)
      ]

  -- A response that a request resolves to has the status 2xx or 304, unless the options say
  -- `throwHttpErrors: false`; every other response is thrown as an error, or tried again.
  pub execute_with_retry-ok :
      (fuel attempts : ℕ) (response : Response)
      → execute_with_retry platform around options fuel
        ≡ some (record { attempts = attempts; result = ok response })
      → (is_ok response ≡ true) ⊎ (options.throw_http_errors ≡ false)
  unfolding execute_with_retry
  execute_with_retry-ok fuel attempts response e = execute_from-ok fuel 0 attempts response e
