-- ===== src/HttpClient/Delay.antt =====
-- `parseRetryAfter` and `defaultCalculateDelay` of src/lib/HttpClient.ts.
use camunda_8_js_sdk.Base.{
  Text, ℕ, ◌+◌, ◌-◌, ◌*◌, ◌^◌, ◌≤◌, ◌≡◌, ◌≢◌, refl, ◌⊎◌, Bool, true, false, not, ◌&&◌, ◌||◌, Option,
  none, some, List, [], ◌∷◌, if◌then◌else◌, ◌==◌, ltb, max, map, arith,
}
use camunda_8_js_sdk.Base.Int.{ℤ, pos, negsuc, ◌-ℤ◌}
use camunda_8_js_sdk.HttpClient.{Response, RequestError, RetryOptions, includes_text, includes}

abbrev pub retry_after_status_codes : List ℕ
retry_after_status_codes = 413 ∷ 429 ∷ 503 ∷ []

-- JavaScript's own functions: `toUpperCase`, `Number` on a text and `Date.parse`, which are `none`
-- where they give NaN, and `Date.now()` and `Math.random() * 100` at the time of the call.
pub record Platform : Type 0 where
  pub to_upper_case : Text → Text
  pub number : Text → Option ℤ
  pub date_parse : Text → Option ℤ
  pub date_now : ℤ
  pub noise : ℕ

times_1000 : ℤ → ℤ
times_1000 (pos n) = pos (n * 1000)
times_1000 (negsuc n) = negsuc (n * 1000 + 999)

-- `Math.max(1, after)`.
at_least_1 : ℤ → ℕ
at_least_1 (pos n) = max 1 n
at_least_1 (negsuc n) = 1

exceeds : ℤ → Option ℕ → Bool
exceeds after none = false
exceeds (pos n) (some limit) = ltb limit n
exceeds (negsuc n) (some limit) = false

module _ (platform : Platform) where
  date_delay : Option ℤ → Option ℤ
  date_delay none = none
  date_delay (some date) = some (date -ℤ platform.date_now)

  header_delay : Text → Option ℤ → Option ℤ
  unfolding times_1000 date_delay
  header_delay value (some seconds) = some (times_1000 seconds)
  header_delay value none = date_delay (platform.date_parse value)

  -- An empty header counts as none.
  header_value : Option Text → Option ℤ
  unfolding header_delay
  header_value none = none
  header_value (some []) = none
  header_value (some (c ∷ value)) = header_delay (c ∷ value) (platform.number (c ∷ value))

  unfoldable pub parse_retry_after : Option Response → Option ℤ
  unfolding header_value
  parse_retry_after none = none
  parse_retry_after (some response) =
      if includes response.status_code retry_after_status_codes
      then header_value response.retry_after
      else none

  exponential : ℕ → ℕ
  exponential attempt_count = 2 ^ (attempt_count - 1) * 1000 + platform.noise

  -- The delay after an error that may be retried.
  retriable_delay : RetryOptions → ℕ → Option Response → Option ℤ → ℕ
  unfolding exponential at_least_1 exceeds
  retriable_delay retry attempt_count none after = exponential attempt_count
  retriable_delay retry attempt_count (some response) none =
      if response.status_code == 413 then 0 else exponential attempt_count
  retriable_delay retry attempt_count (some response) (some after) =
      if not (includes response.status_code retry_after_status_codes)
      then exponential attempt_count
      else if exceeds after retry.max_retry_after
      then 0
      else at_least_1 after

  unfoldable pub has_method : RetryOptions → Text → Bool
  has_method retry method =
      includes_text (platform.to_upper_case method) (map platform.to_upper_case retry.methods)

  has_code : RetryOptions → Text → Bool
  has_code retry code = includes_text code retry.error_codes

  has_status : RetryOptions → Option Response → Bool
  has_status retry none = false
  has_status retry (some response) = includes response.status_code retry.status_codes

  -- Whether `defaultCalculateDelay` passes its first guards.
  unfoldable pub is_retriable : RetryOptions → Text → RequestError → Bool
  unfolding has_method has_code has_status
  is_retriable retry method error =
      has_method retry method && (has_code retry error.code || has_status retry error.response)

  -- 0 means that the request is not tried again.
  unfoldable pub default_calculate_delay : RetryOptions → Text → ℕ → RequestError → ℕ
  unfolding is_retriable retriable_delay parse_retry_after
  default_calculate_delay retry method attempt_count error =
      if ltb retry.limit attempt_count
      then 0
      else if not (is_retriable retry method error)
      then 0
      else retriable_delay retry attempt_count error.response (parse_retry_after error.response)

  pub default_calculate_delay-again :
      (retry : RetryOptions) (method : Text) (attempt_count : ℕ) (error : RequestError)
      → default_calculate_delay retry method attempt_count error ≢ 0
      → (attempt_count ≤ retry.limit) × (is_retriable retry method error ≡ true)
  unfolding default_calculate_delay
  default_calculate_delay-again retry method attempt_count error positive = ground arith

  -- The status of the response that an error carries is one that the options name.
  abbrev pub NamesStatus : RetryOptions → Option Response → Type 0
  NamesStatus retry o =
      (response : Response) × (o ≡ some response)
      × (includes response.status_code retry.status_codes ≡ true)

  has_status-NamesStatus :
      (retry : RetryOptions) (o : Option Response) → has_status retry o ≡ true → NamesStatus retry o
  unfolding has_status
  has_status-NamesStatus retry none e = cc
  has_status-NamesStatus retry (some response) e = (response, refl, e)

  is_retriable-names :
      (retry : RetryOptions) (method : Text) (error : RequestError)
      → is_retriable retry method error ≡ true
      → (includes_text (platform.to_upper_case method) (map platform.to_upper_case retry.methods)
          ≡ true)
        × ((includes_text error.code retry.error_codes ≡ true) ⊎ NamesStatus retry error.response)
  unfolding is_retriable has_method has_code
  is_retriable-names retry method error e =
      let named = has_status-NamesStatus retry error.response in ground arith

  -- A delay other than 0 is given only up to the limit, only for a method that the options name in any case of
  -- letters, and only for an error whose code the options name or that has a response with a status that they name.
  pub default_calculate_delay-Permitted :
      (retry : RetryOptions) (method : Text) (attempt_count : ℕ) (error : RequestError)
      → default_calculate_delay retry method attempt_count error ≢ 0
      → (attempt_count ≤ retry.limit)
        × (includes_text (platform.to_upper_case method) (map platform.to_upper_case retry.methods)
            ≡ true)
        × ((includes_text error.code retry.error_codes ≡ true) ⊎ NamesStatus retry error.response)
  default_calculate_delay-Permitted retry method attempt_count error positive =
      let (within, retriable) =
        default_calculate_delay-again retry method attempt_count error positive in
      let (named, met) = is_retriable-names retry method error retriable in (within, named, met)

  retriable_delay-bound :
      (retry : RetryOptions) (attempt_count bound : ℕ) (after : ℤ) (response : Option Response)
      → parse_retry_after response ≡ some after
      → retry.max_retry_after ≡ some bound
      → retriable_delay retry attempt_count response (some after) ≤ max 1 bound
  unfolding retriable_delay parse_retry_after exceeds at_least_1
  retriable_delay-bound retry n bound after none e b = cc
  retriable_delay-bound retry n bound (pos after) (some response) e b = ground arith
  retriable_delay-bound retry n bound (negsuc after) (some response) e b = ground arith

  -- Where the server asks to wait (413, 429 or 503 with a `Retry-After` header) and the options
  -- bound the wait by `maxRetryAfter`, the delay is at most the bound, or 1 for "retry now".
  pub default_calculate_delay-bound :
      (retry : RetryOptions) (method : Text) (attempt_count bound : ℕ) (error : RequestError)
      (after : ℤ)
      → parse_retry_after error.response ≡ some after
      → retry.max_retry_after ≡ some bound
      → default_calculate_delay retry method attempt_count error ≤ max 1 bound
  unfolding default_calculate_delay
  default_calculate_delay-bound retry method n bound error after e b =
      rw e (ground (arith, retriable_delay-bound retry n bound after error.response e b))
