-- ===== src/StreamWorker/Session.antt =====
-- The options of a `streamJobs` call, the variables of its closure, and what it waits for.
-- One worker with one call: the worker's own sets hold what belongs to this call.
use camunda_8_js_sdk.Base.{ℕ, Bool, true, ◌||◌, Option, none, some, List, ◌∷◌, or_else, max}
use camunda_8_js_sdk.Base.Int.{ℤ}
use camunda_8_js_sdk.StreamLifecycle.{
  ErrorValue, StreamFailure, StreamState, StreamStateMachine, transition,
}

-- The `streamReconnect` option.
pub data StreamReconnect : Type 0 where
  flag : Bool → StreamReconnect
  tuned : (initial_delay_ms max_delay_ms : Option ℕ) → StreamReconnect

pub record Options : Type 0 where
  pub reconnect_enabled : Bool
  pub initial_delay_ms : ℕ
  pub max_delay_ms : ℕ
  pub poll_max_jobs_to_activate : ℕ
  pub poll_interval : ℕ  -- 0 also for a negative interval

abbrev default_reconnect_initial_delay_ms : ℕ
default_reconnect_initial_delay_ms = 1000

abbrev default_reconnect_max_delay_ms : ℕ
default_reconnect_max_delay_ms = 30000

with_delays : Bool → Option ℕ → Option ℕ → Option ℕ → Option ℕ → Options
with_delays enabled initial_delay max_delay jobs interval =
    let initial = or_else initial_delay default_reconnect_initial_delay_ms in
    record {
      reconnect_enabled = enabled;
      initial_delay_ms = initial;
      max_delay_ms = max (or_else max_delay default_reconnect_max_delay_ms) initial;
      poll_max_jobs_to_activate = or_else jobs 32;
      poll_interval = or_else interval 30000;
    }

-- The defaults at the head of `streamJobs`.
unfoldable pub options_of : Option StreamReconnect → Option ℕ → Option ℕ → Options
unfolding with_delays
options_of none jobs interval = with_delays true none none jobs interval
options_of (some (flag enabled)) jobs interval = with_delays enabled none none jobs interval
options_of (some (tuned initial_delay max_delay)) jobs interval =
    with_delays true initial_delay max_delay jobs interval

-- A job on the stream, and whether its variables and headers parse.
pub record StreamedJob : Type 0 where
  pub key : ℕ
  pub retries : ℕ
  pub parses : Bool

-- A stream with the adapter attached to it, and the variables that its handlers close over.
pub record Attachment : Type 0 where
  pub id : ℕ
  pub settled : Bool
  pub opened_at : ℕ
  pub received_data : Bool
  pub cause : StreamFailure

-- Who called `backfill`: the first run of `pollAndStream`, `reconnect`, or the `finally` of a drain
-- that a backfill was deferred to.
pub data Origin : Type 0 where
  initial reopened deferred : Origin

-- A pending `await`: of the jitter, or of the stream that `pollAndStream` or `reconnect` opens.
pub data Opening : Type 0 where
  jittering first_request reopen_request : Opening

-- An `await` of `backfill`, of the sidecar poll, or of a drain that is pending.
pub data Activity : Type 0 where
  backfilling : Origin → Activity
  sidecar_polling : Activity
  handling : (batch : ℕ) → (from_sidecar : Bool) → Activity
  draining : (consumed_deferral : Bool) → (from_sidecar : Bool) → Activity

-- The promise that `streamJobs` returned.
pub data CallResult : Type 0 where
  pending returned : CallResult
  rejected : ErrorValue → CallResult

-- What the call asks of the world outside it.
pub data WorkerCall : Type 0 where
  request_stream activate_jobs close_grpc_client : WorkerCall
  cancel_raw_stream : WorkerCall
  set_reconnect_timer : (delay : ℕ) → WorkerCall
  on_stream_error : ErrorValue → WorkerCall
  on_stream_end : WorkerCall
  on_stream_reconnect : (attempt : ℕ) → WorkerCall
  handle_job : (key : ℕ) → WorkerCall
  fail_job : (key : ℕ) → (retries : ℤ) → WorkerCall

pub record Session : Type 0 where
  pub worker_closed : Bool
  pub handle_closed : Bool
  pub machine : StreamStateMachine
  pub streams : List Attachment
  pub current_stream : Option ℕ
  pub next_id : ℕ
  pub reconnect_timer : Option ℕ  -- the attempt that it will make
  pub sidecar_timer : Bool
  pub consecutive_failures : ℕ
  pub activation_reserved : Bool
  pub backfill_requested : Bool
  pub opening : List Opening
  pub activity : List Activity
  pub result : CallResult
  pub calls : List WorkerCall  -- newest first

abbrev pub is_closed : Session → Bool
is_closed s = s.worker_closed || s.handle_closed

unfoldable pub note : WorkerCall → Session → Session
note c s = record s { calls = c ∷ s.calls }

unfoldable pub move_to : StreamState → Session → Session
move_to next s = record s { machine = (transition s.machine next).0 }
