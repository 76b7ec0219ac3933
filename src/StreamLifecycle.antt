-- ===== src/StreamLifecycle.antt =====
-- src/zeebe/lib/StreamLifecycle.ts: why a stream stops, the observable state of a handle, the
-- adapter that attaches handlers to a raw stream, and the reconnect delay.
-- An `Error` is its message.
pub mod Attach
pub mod Machine
pub mod Backoff
mod Tests
use Prim.Native.String.{String}
use camunda_8_js_sdk.Base.{ℕ, ◌-◌, ◌*◌, ◌^◌, ◌≤◌, Bool, true, false, Option, none, some, List, min}

abbrev pub ErrorValue : Type 0
ErrorValue = String

pub data StreamFailure : Type 0 where
  error : ErrorValue → StreamFailure
  end : StreamFailure
  open_failed : ErrorValue → StreamFailure

pub data StreamClosedReason : Type 0 where
  closed_by_caller : StreamClosedReason
  client_closed : StreamClosedReason
  stream_failed : StreamFailure → StreamClosedReason

pub data StreamState : Type 0 where
  open_state : StreamState
  reconnecting : (attempt : ℕ) → (cause : StreamFailure) → StreamState
  closed : StreamClosedReason → StreamState

-- `done` holds the reason that the promise was first resolved with.
pub record StreamStateMachine : Type 0 where
  pub state : StreamState
  pub done : Option StreamClosedReason

unfoldable pub create_stream_state_machine : StreamState → StreamStateMachine
create_stream_state_machine initial = record { state = initial; done = none }

-- A promise keeps the value of its first `resolve`.
resolve_done : StreamClosedReason → Option StreamClosedReason → Option StreamClosedReason
resolve_done reason none = some reason
resolve_done reason (some first) = some first

enter : StreamState → StreamStateMachine → StreamStateMachine
unfolding resolve_done
enter (closed reason) m = record { state = closed reason; done = resolve_done reason m.done }
enter next m = record m { state = next }

transition_from : StreamState → StreamState → StreamStateMachine → StreamStateMachine × Bool
unfolding enter
transition_from (closed _) next m = (m, false)
transition_from _ next m = (enter next m, true)

unfoldable pub transition : StreamStateMachine → StreamState → StreamStateMachine × Bool
unfolding transition_from
transition m next = transition_from m.state next m

-- What `streamActivatedJobsStream` resolved to: nothing, `{ error }`, or a stream.
pub data Opened : Type 0 where
  no_result : Opened
  failed : ErrorValue → Opened
  stream : Opened

unfoldable pub get_open_error : Opened → Option ErrorValue
get_open_error no_result = some "Stream could not be opened"
get_open_error (failed e) = some e
get_open_error stream = none

unfoldable pub backoff_delay_ms : (attempt initial_delay_ms max_delay_ms : ℕ) → ℕ
backoff_delay_ms attempt initial_delay_ms max_delay_ms =
    min (initial_delay_ms * 2 ^ (attempt - 1)) max_delay_ms
