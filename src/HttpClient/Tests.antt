-- ===== src/HttpClient/Tests.antt =====
-- Requests that fail and are tried again, and instances of the theorems on them.
use camunda_8_js_sdk.Base.{
  Text, ℕ, ◌+◌, ◌-◌, ◌*◌, ◌≤◌, ◌≡◌, refl, true, false, ◌&&◌, ◌⊎◌, map, Option, none, some, [], ◌∷◌,
  ◌++◌, or_else, if◌then◌else◌, leb, max, arith,
}
use camunda_8_js_sdk.Base.Int.{ℤ, pos}
use camunda_8_js_sdk.HttpClient.{
  Response, RequestError, RetryOptions, Result, ok, thrown, cancel_error, new_request_error,
  includes_text,
}
use camunda_8_js_sdk.HttpClient.Delay.{
  Platform, parse_retry_after, is_retriable, has_method, default_calculate_delay,
  default_calculate_delay-Permitted, default_calculate_delay-bound, NamesStatus,
}
use camunda_8_js_sdk.HttpClient.Attempt.{
  Surroundings, replied, run_before_request, run_after_response, abort_or, received, check_status,
  after_hooks, execute_once, attempt_with, try_attempt,
}
use camunda_8_js_sdk.HttpClient.Execute.{
  Options, run_before_retry, give_up, as_request_error, chosen_delay, after_sleep,
  retry_after_delay, handle_failure, next_of, execute_from, execute_with_retry,
}
use camunda_8_js_sdk.HttpClient.Merge.{
  MergeOptions, number, merge_options, merge_search_params, delete_keys, delete_key, get_all,
  lookup, prefer, has_key, limit_of,
}
use camunda_8_js_sdk.HttpClient.Merge.Overrides.{merge_options-overrides}
use camunda_8_js_sdk.HttpClient.Bound.{
  EndsWithin, execute_with_retry-EndsWithin, execute_with_retry-once,
}
use camunda_8_js_sdk.HttpClient.Promise.{
  PromiseOptions, json, parse_when_done, parse, parse_body, create_response_promise, core_after,
  core_outcome, core_result, run_handlers,
}
use camunda_8_js_sdk.HttpClient.Promise.Settles.{Settles, json-Settles}

everything : Unit {0}
unfolding parse_retry_after is_retriable has_method default_calculate_delay run_before_request
    run_after_response abort_or received check_status after_hooks execute_once attempt_with
    try_attempt run_before_retry give_up as_request_error chosen_delay after_sleep retry_after_delay
    handle_failure next_of execute_from execute_with_retry
everything = tt

digits : ℕ → Text → Option ℤ
digits n [] = some (pos n)
digits n (c ∷ s) =
    let rest = digits (10 * n + (c - 48)) s in if leb 48 c && leb c 57 then rest else none

abbrev platform : Platform
platform = record {
  to_upper_case = λ s. s;
  number = digits 0;
  date_parse = λ s. none;
  date_now = pos 0;
  noise = 7;
}

-- `GET`, `POST`, and a code.
abbrev get_method : Text
get_method = 71 ∷ 69 ∷ 84 ∷ []

abbrev post_method : Text
post_method = 80 ∷ 79 ∷ 83 ∷ 84 ∷ []

abbrev non_2xx : Text
non_2xx = 69 ∷ 82 ∷ 82 ∷ []

abbrev retry : RetryOptions
retry = record {
  limit = 2;
  methods = get_method ∷ [];
  status_codes = 429 ∷ 503 ∷ [];
  error_codes = [];
  max_retry_after = some 9000;
}

-- 503, to be tried again in 2 seconds.
abbrev busy : Response
busy = record { status_code = 503; retry_after = some (50 ∷ []); body = [] }

abbrev fine : Response
fine = record { status_code = 200; retry_after = none; body = [] }

abbrev failure_of : Response → RequestError
failure_of response = record {
  is_http_error = true;
  code = non_2xx;
  message = [];
  response = some response;
}

-- The server is busy at the first attempt.
abbrev around : Surroundings
around = record {
  before_request = [];
  reply = λ attempt. if leb attempt 0 then replied busy else replied fine;
  after_response = [];
  timed_out = λ attempt. false;
  timeout_message = [];
  cancelled = λ attempt. false;
  http_error_message = λ response. [];
}

abbrev with_method : Text → Options
with_method method = record {
  method = method;
  retry = retry;
  calculate_delay = none;
  throw_http_errors = true;
  before_retry = [];
  sleep_cancelled = λ attempt. false;
}

retried :
    execute_with_retry platform around (with_method get_method) 3
    ≡ some (record { attempts = 2; result = ok fine })
unfolding everything digits
retried = refl

default_calculate_delay-Permitted_example :
    (1 ≤ retry.limit)
    × (includes_text (platform.to_upper_case get_method) (map platform.to_upper_case retry.methods)
        ≡ true)
    × ((includes_text (failure_of busy).code retry.error_codes ≡ true)
        ⊎ NamesStatus platform retry (failure_of busy).response)
unfolding everything digits
default_calculate_delay-Permitted_example =
    default_calculate_delay-Permitted platform retry get_method 1 (failure_of busy) (omega arith)

default_calculate_delay-bound_example :
    default_calculate_delay platform retry get_method 1 (failure_of busy) ≤ max 1 9000
unfolding everything digits
default_calculate_delay-bound_example =
    default_calculate_delay-bound platform retry get_method 1 9000 (failure_of busy) (pos 2000) refl
      refl

execute_with_retry-EndsWithin_example :
    EndsWithin platform around
      (with_method get_method)
      (retry.limit + 1)
      (execute_with_retry platform around (with_method get_method) 3)
execute_with_retry-EndsWithin_example =
    execute_with_retry-EndsWithin platform around (with_method get_method) 3 refl (omega arith)

execute_with_retry-once_example :
    (r : Result Response) × (execute_with_retry platform around (with_method post_method) 3
      ≡ some (record { attempts = 1; result = r }))
unfolding everything
execute_with_retry-once_example =
    execute_with_retry-once platform around (with_method post_method) 2 refl refl

-- A body of one character is read as a number; the hook renames each error.
abbrev promise : PromiseOptions ℕ
promise = record {
  handlers = none ∷ [];
  before_error = (λ e. ok (new_request_error (some non_2xx) e.message)) ∷ [];
  parse_json = λ t. elim t [ [] ↦ thrown cancel_error | c ∷ s ↦ ok c ];
  parse_message = λ failure response. [];
}

settled : json promise platform around (with_method get_method) 3 ≡ some (ok none)
unfolding everything digits json parse_when_done parse parse_body create_response_promise core_after
    core_outcome core_result run_handlers
settled = refl

json-Settles_example :
    (r : Result (Option ℕ)) × (json promise platform around (with_method get_method) 3 ≡ some r)
    × Settles promise platform around (with_method get_method) 3 r
json-Settles_example =
    json-Settles promise platform around (with_method get_method) 3 refl (omega arith)

-- `tag=a&tag=b` over `tag=c&page=1`.
abbrev tag : Text
tag = 116 ∷ []

abbrev base_options : MergeOptions ℕ
base_options = record {
  prefix_url = none;
  headers = (tag, 1 ∷ []) ∷ [];
  search_params = some ((tag, 99 ∷ []) ∷ (112 ∷ [], 49 ∷ []) ∷ []);
  retry = some (number 2);
  hooks = 1 ∷ [];
  handlers = [];
}

abbrev call_options : MergeOptions ℕ
call_options = record {
  prefix_url = none;
  headers = (tag, 2 ∷ []) ∷ [];
  search_params = some ((tag, 97 ∷ []) ∷ (tag, 98 ∷ []) ∷ []);
  retry = none;
  hooks = 2 ∷ [];
  handlers = [];
}

merged_tags :
    get_all tag (or_else (merge_options base_options call_options).search_params [])
    ≡ (97 ∷ []) ∷ (98 ∷ []) ∷ []
unfolding everything merge_options merge_search_params delete_keys delete_key get_all
merged_tags = refl

merge_options-overrides_example :
    (lookup tag (merge_options base_options call_options).headers
      ≡ prefer (lookup tag call_options.headers) (lookup tag base_options.headers))
    × (get_all tag (or_else (merge_options base_options call_options).search_params []) ≡ (
        if has_key tag (or_else call_options.search_params [])
        then get_all tag (or_else call_options.search_params [])
        else get_all tag (or_else base_options.search_params [])))
    × (limit_of (merge_options base_options call_options).retry
        ≡ prefer (limit_of call_options.retry) (limit_of base_options.retry))
    × ((merge_options base_options call_options).hooks ≡ base_options.hooks ++ call_options.hooks)
merge_options-overrides_example = merge_options-overrides base_options call_options tag (refl, tt)
