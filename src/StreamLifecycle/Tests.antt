-- ===== src/StreamLifecycle/Tests.antt =====
-- Runs and instances of the theorems on the stream lifecycle.
use camunda_8_js_sdk.Base.{
  ℕ, ◌+◌, ◌*◌, ◌≤◌, ◌≡◌, refl, Option, none, some, List, [], ◌∷◌, false, if◌then◌else◌, ltb, min,
  arith,
}
use camunda_8_js_sdk.StreamLifecycle.{
  ErrorValue, open_state, reconnecting, closed, end, client_closed, closed_by_caller,
  create_stream_state_machine, backoff_delay_ms, StreamState,
}
use camunda_8_js_sdk.StreamLifecycle.Attach.{
  StreamEvent, data_event, end_event, close_event, dispose, on_data, on_error, on_close,
  cancel_stream, attach_step, attach_run,
}
use camunda_8_js_sdk.StreamLifecycle.Attach.Protocol.{
  handler_calls, closes, Follows, stops, attach_run-Follows,
}
use camunda_8_js_sdk.StreamLifecycle.Machine.{
  run_transitions, first_reason, last_state, run_transitions-first,
}
use camunda_8_js_sdk.StreamLifecycle.Backoff.{backoff_delay_ms-doubles}

abbrev fails_on_big : ℕ → Option ErrorValue
fails_on_big n = if ltb 9 n then some "too big" else none

abbrev events : List (StreamEvent ℕ)
events = data_event 1 ∷ data_event 12 ∷ end_event ∷ close_event ∷ dispose ∷ []

events_run :
    attach_run fails_on_big false events
    ≡ on_data 1 ∷ on_data 12 ∷ cancel_stream ∷ on_error "too big" ∷ on_close ∷ cancel_stream ∷ []
unfolding attach_run attach_step
events_run = refl

attach_run-Follows_example :
    Follows (handler_calls (attach_run fails_on_big false events))
    × (closes (attach_run fails_on_big false events) ≡ (if stops fails_on_big events then 1 else 0))
attach_run-Follows_example = attach_run-Follows fails_on_big events

abbrev states : List StreamState
states = reconnecting 1 end ∷ closed closed_by_caller ∷ open_state ∷ closed client_closed ∷ []

run_transitions-first_example :
    ((run_transitions (create_stream_state_machine open_state) states).state
      ≡ last_state open_state states)
    × ((run_transitions (create_stream_state_machine open_state) states).done ≡ first_reason states)
run_transitions-first_example = run_transitions-first states

backoff_delay_ms-doubles_example :
    (backoff_delay_ms 1 1000 30000 ≡ 1000)
    × (backoff_delay_ms (5 + 1) 1000 30000 ≡ min (2 * backoff_delay_ms 5 1000 30000) 30000)
    × (backoff_delay_ms 5 1000 30000 ≤ 30000)
backoff_delay_ms-doubles_example = backoff_delay_ms-doubles 5 1000 30000 (omega arith) (omega arith)
