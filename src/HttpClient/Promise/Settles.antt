-- ===== src/HttpClient/Promise/Settles.antt =====
-- How the promise of a request settles.
use camunda_8_js_sdk.Base.{
  Text, ℕ, ◌+◌, ◌<◌, ◌≡◌, ◌≢◌, refl, sym, ap, ◌∙◌, subst, true, false, ◌⊎◌, inl, inr, Option, none,
  some, [], ◌∷◌,
}
use camunda_8_js_sdk.HttpClient.{
  Response, RequestError, Failure, cancel_error, request_error, other_error, Result, ok, thrown,
}
use camunda_8_js_sdk.HttpClient.Delay.{Platform}
use camunda_8_js_sdk.HttpClient.Attempt.{Surroundings, is_ok}
use camunda_8_js_sdk.HttpClient.Execute.{Options, Outcome, as_request_error, execute_with_retry}
use camunda_8_js_sdk.HttpClient.Bound.{
  EndsWithin, execute_with_retry-EndsWithin, execute_with_retry-ok,
}
use camunda_8_js_sdk.HttpClient.Promise.{
  PromiseOptions, apply_before_error, run_handlers, reject_with, core_result, core_outcome,
  parsed_body, parse_body, parse, core_after, create_response_promise, parse_when_done, json,
  new_parse_error,
}

module _ {J : Type 0} (promise : PromiseOptions J) where
  -- A cancellation, or what the `beforeError` hooks made of an error.
  abbrev pub IsHooked : Failure → Type 0
  IsHooked f =
      (f ≡ cancel_error) ⊎ ((e : RequestError) × (f ≡ apply_before_error promise.before_error e))

  reject_with-IsHooked : (f : Failure) → IsHooked (reject_with promise f)
  unfolding reject_with
  reject_with-IsHooked cancel_error = inl refl
  reject_with-IsHooked (request_error e) = inr (as_request_error (request_error e), refl)
  reject_with-IsHooked (other_error message) = inr (as_request_error (other_error message), refl)

  module _ (platform : Platform) (around : Surroundings) (options : Options) where
    abbrev pub Accepted : Response → Type 0
    Accepted response = (is_ok response ≡ true) ⊎ (options.throw_http_errors ≡ false)

    -- No handler threw, and the attempts ended with this response.
    abbrev pub Received : ℕ → Response → Type 0
    Received fuel response =
        (attempts : ℕ) × (run_handlers promise.handlers ≡ none)
        × (execute_with_retry platform around options fuel
            ≡ some (record { attempts = attempts; result = ok response }))
        × Accepted response

    -- A handler threw this, or the attempts ended with it.
    abbrev pub Met : ℕ → Failure → Type 0
    Met fuel f =
        (run_handlers promise.handlers ≡ some f)
        ⊎ ((attempts : ℕ) × (run_handlers promise.handlers ≡ none)
            × (execute_with_retry platform around options fuel
                ≡ some (record { attempts = attempts; result = thrown f })))

    abbrev pub Rejects : ℕ → Failure → Type 0
    Rejects fuel failure = (f : Failure) × (failure ≡ reject_with promise f) × Met fuel f

    abbrev CoreSettles : ℕ → Result Response → Type 0
    CoreSettles fuel (ok response) = Received fuel response
    CoreSettles fuel (thrown failure) = Rejects fuel failure

    core_result-CoreSettles :
        (fuel attempts : ℕ) (r : Result Response)
        → run_handlers promise.handlers ≡ none
        → execute_with_retry platform around options fuel
          ≡ some (record { attempts = attempts; result = r })
        → CoreSettles fuel (core_result promise r)
    unfolding core_result
    core_result-CoreSettles fuel attempts (ok response) u e =
        (attempts, u, e, execute_with_retry-ok platform around options fuel attempts response e)
    core_result-CoreSettles fuel attempts (thrown failure) u e =
        (failure, refl, inr (attempts, u, e))

    core_outcome-CoreSettles :
        (fuel most : ℕ) (o : Option Outcome)
        → run_handlers promise.handlers ≡ none
        → execute_with_retry platform around options fuel ≡ o
        → EndsWithin platform around options most o
        → (r : Result Response) × (core_outcome promise o ≡ some r) × CoreSettles fuel r
    unfolding core_outcome
    core_outcome-CoreSettles fuel most none u e h = absurd h
    core_outcome-CoreSettles fuel most (some outcome) u e h = (
      core_result promise outcome.result,
      refl,
      core_result-CoreSettles fuel outcome.attempts outcome.result u e,
    )

    core_after-CoreSettles :
        (fuel : ℕ) (handled : Option Failure)
        → run_handlers promise.handlers ≡ handled
        → options.calculate_delay ≡ none
        → options.retry.limit < fuel
        → (r : Result Response) × (core_after promise platform around options fuel handled ≡ some r)
          × CoreSettles fuel r
    unfolding core_after core_result
    core_after-CoreSettles fuel (some failure) u d enough =
        (thrown (reject_with promise failure), refl, (failure, refl, inl u))
    core_after-CoreSettles fuel none u d enough =
        core_outcome-CoreSettles fuel (options.retry.limit + 1)
          (execute_with_retry platform around options fuel) u refl
          (execute_with_retry-EndsWithin platform around options fuel d enough)

    -- `parseJson` threw on the body of the response, and the `beforeError` hooks got a `ParseError`.
    abbrev pub Unparsed : ℕ → Failure → Type 0
    Unparsed fuel failure =
        (response : Response) × (f : Failure) × (promise.parse_json response.body ≡ thrown f)
        × (failure
            ≡ apply_before_error promise.before_error
                (new_parse_error (promise.parse_message f response) response))
        × Received fuel response

    -- What `json()` gives: the empty text for the response when it has no body, or what `parseJson` reads in its body,
    -- or an error.
    abbrev pub Settles : ℕ → Result (Option J) → Type 0
    Settles fuel (ok none) = (response : Response) × (response.body ≡ []) × Received fuel response
    Settles fuel (ok (some j)) =
        (response : Response) × (response.body ≢ [])
        × (promise.parse_json response.body ≡ ok j)
        × Received fuel response
    Settles fuel (thrown failure) =
        IsHooked failure × (Rejects fuel failure ⊎ Unparsed fuel failure)

    parsed_body-Settles :
        (fuel : ℕ) (response : Response) (r : Result J)
        → Received fuel response
        → response.body ≢ []
        → promise.parse_json response.body ≡ r
        → Settles fuel (parsed_body promise response r)
    unfolding parsed_body
    parsed_body-Settles fuel response (ok j) received filled read =
        (response, filled, read, received)
    parsed_body-Settles fuel response (thrown f) received filled read = (
      inr (new_parse_error (promise.parse_message f response) response, refl),
      inr (response, f, read, refl, received),
    )

    parse_body-Settles :
        (fuel : ℕ) (response : Response) (body : Text)
        → Received fuel response
        → response.body ≡ body
        → Settles fuel (parse_body promise response body)
    unfolding parse_body
    parse_body-Settles fuel response [] received same = (response, same, received)
    parse_body-Settles fuel response (c ∷ body) received same =
        parsed_body-Settles fuel response (promise.parse_json (c ∷ body)) received (λ e. cc)
          (ap promise.parse_json same)

    rejected-IsHooked : (fuel : ℕ) (failure : Failure) → Rejects fuel failure → IsHooked failure
    rejected-IsHooked fuel failure (f, e, met) =
        subst (λ (g : Failure). IsHooked g) (sym e) (reject_with-IsHooked f)

    parse-Settles :
        (fuel : ℕ) (r : Result Response) → CoreSettles fuel r → Settles fuel (parse promise r)
    unfolding parse
    parse-Settles fuel (ok response) h = parse_body-Settles fuel response response.body h refl
    parse-Settles fuel (thrown failure) h = (rejected-IsHooked fuel failure h, inl h)

    -- With the default delay, whatever the network, the hooks, the handlers and the caller answer, the promise of
    -- `json()` settles, and fuel above the limit of retries suffices. It resolves only where no handler threw and the
    -- attempts ended with a response that has the status 2xx or 304, or with any where the options say
    -- `throwHttpErrors: false`: to the empty text when that response has no body, and else to what `parseJson` reads
    -- in its body. It rejects only with what a handler threw or the attempts ended with, or with the `ParseError` of
    -- that response's body, after the `beforeError` hooks, which only a `CancelError` passes by.
    pub json-Settles :
        (fuel : ℕ) (default_delay : options.calculate_delay ≡ none)
        (enough : options.retry.limit < fuel)
        → (r : Result (Option J)) × (json promise platform around options fuel ≡ some r)
          × Settles fuel r
    unfolding json create_response_promise
    json-Settles fuel default_delay enough =
        let (r, e, h) =
          core_after-CoreSettles fuel (run_handlers promise.handlers) refl default_delay enough in
        (
          parse promise r,
          ap (parse_when_done promise platform around options) e ∙ refl,
          parse-Settles fuel r h,
        )
