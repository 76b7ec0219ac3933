-- ===== src/PollingOperation/Tests.antt =====
-- Polling at concrete results.
use camunda_8_js_sdk.Base.{ℕ, zero, suc, ◌+◌, ◌≡◌, refl, none, some, arith}
use camunda_8_js_sdk.PollingOperation.{
  items, Call, returned, failed, pending, predicate_error, resolved, rejected, unsettled, Options,
  Surroundings, default_predicate, chosen_predicate, or_default, interval_of, timeout_of, catch,
  judged, settled, poll, polling_operation,
}
use camunda_8_js_sdk.PollingOperation.Ends.{EndsBetween, polling_operation-EndsBetween}

-- The first call fails, the second finds nothing, and later ones find as many items as they are old.
unfoldable calls : ℕ → Call ℕ ℕ
calls zero = failed 500 20
calls (suc zero) = returned 0 30
calls (suc (suc n)) = returned (n + 1) 10

unfoldable search : Surroundings ℕ ℕ
unfolding calls
search = record { operation = calls; late = λ n. 1; view = items }

unfoldable empty_search : Surroundings ℕ ℕ
empty_search = record { operation = λ n. returned 0 10; late = λ n. 1; view = items }

unfoldable stuck_search : Surroundings ℕ ℕ
stuck_search = record { operation = λ n. pending; late = λ n. 1; view = items }

unfoldable options : Options ℕ ℕ
options = record { interval = 100; timeout = 250; predicate = none }

-- A timeout of zero is the default one.
unfoldable no_timeout : Options ℕ ℕ
no_timeout = record { interval = 20000; timeout = 0; predicate = none }

everything : Unit {0}
unfolding search empty_search stuck_search options no_timeout default_predicate chosen_predicate
    or_default interval_of timeout_of catch judged settled poll polling_operation calls
everything =
    let found : polling_operation search options 5
        ≡ some (record { ending = resolved 1; call = 2; time = 262 }) =
      refl in
    let refused_last : polling_operation empty_search options 5
        ≡ some (record { ending = rejected (predicate_error 0); call = 3; time = 343 }) =
      refl in
    let hangs : polling_operation stuck_search options 5
        ≡ some (record { ending = unsettled; call = 0; time = 0 }) =
      refl in
    let defaulted : polling_operation empty_search no_timeout 5
        ≡ some (record { ending = rejected (predicate_error 0); call = 2; time = 40032 }) =
      refl in
    tt

polling_operation-EndsBetween_example :
    EndsBetween search options 0 3 (polling_operation search options 4)
unfolding options interval_of timeout_of or_default
polling_operation-EndsBetween_example =
    polling_operation-EndsBetween search options 3 (ground arith)
