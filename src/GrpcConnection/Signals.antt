-- ===== src/GrpcConnection/Signals.antt =====
-- The readiness of src/zeebe/lib/GrpcClient.ts, what src/zeebe/lib/GrpcMiddleware.ts passes on of it, and the events
-- that src/zeebe/zb/ZeebeGrpcClient.ts emits to the application. Log lines are left out.
pub mod Latch
pub mod Debounce
pub mod Startup
use camunda_8_js_sdk.Base.{
  ℕ, ◌+◌, Bool, true, false, Option, none, some, List, [], ◌∷◌, if◌then◌else◌, ltb, leb,
}
use camunda_8_js_sdk.GrpcConnection.{State, error, connected, unknown}

pub data Event : Type 0 where
  connection_error is_ready is_unknown : Event

pub record Config : Type 0 where
  pub connection_tolerance : ℕ
  pub startup_time : ℕ

-- A timer is the time at which it is due. `emitted` and `events` are what the gRPC client and the Zeebe client emitted,
-- the newest first.
pub record Connection : Type 0 where
  pub ready_timer : Option ℕ
  pub fail_timer : Option ℕ
  pub channel_connected : Bool
  pub blocking : Bool
  pub blocking_timer : Option ℕ
  pub state : State
  pub emitted : List Event
  pub is_connected : Option Bool
  pub readied : Bool
  pub events : List Event

-- The listeners of the Zeebe client.
unfoldable pub lose_connection : Option Bool → Connection → Connection
lose_connection (some false) s = s
lose_connection _ s = record s { is_connected = some false; events = connection_error ∷ s.events }

unfoldable pub on_connection_error : Connection → Connection
unfolding lose_connection
on_connection_error s = let t = record s { readied = false } in lose_connection s.is_connected t

unfoldable pub on_ready : Connection → Connection
on_ready s =
    let t = record s { is_connected = some true; readied = true } in
    if s.readied then t else record t { events = is_ready ∷ t.events }

unfoldable pub emit_error : Connection → Connection
unfolding on_connection_error
emit_error s = on_connection_error (record s { emitted = connection_error ∷ s.emitted })

unfoldable pub emit_ready : Connection → Connection
unfolding on_ready
emit_ready s = on_ready (record s { emitted = is_ready ∷ s.emitted })

-- The listeners of the middleware.
unfoldable pub signal_error : Connection → Connection
unfolding emit_error
signal_error s = let t = record s { state = error } in if t.blocking then t else emit_error t

unfoldable pub signal_ready : Connection → Connection
unfolding emit_ready
signal_ready s = let t = record s { state = connected } in if t.blocking then t else emit_ready t

unfoldable pub report_state : State → Connection → Connection
unfolding emit_error emit_ready
report_state error s = emit_error s
report_state connected s = emit_ready s
report_state unknown s = record s { emitted = is_unknown ∷ s.emitted }

unfoldable pub is_due : ℕ → Option ℕ → Bool
is_due now none = false
is_due now (some at) = leb at now

-- The timer of the middleware's constructor.
unfoldable pub startup_over : ℕ → Connection → Connection
unfolding report_state is_due
startup_over now s =
    if is_due now s.blocking_timer
    then report_state s.state (record s { blocking = false; blocking_timer = none })
    else s

-- What the gRPC channel answers to `waitForReady`, to streams and to calls, the timers, and `close`. A call that is
-- refused since the client closes is no turn.
pub data Turn : Type 0 where
  channel_ready channel_failed stream_opened stream_refused stream_failed call_done : Turn
  call_failed : (is_network_error : Bool) → Turn
  ready_over fail_over deadline_over closed : Turn

module _ (config : Config) where
  unfoldable pub set_ready : ℕ → Connection → Connection
  set_ready now s = record s { ready_timer = some (now + config.connection_tolerance) }

  unfoldable pub start_fail_timer : ℕ → Option ℕ → Connection → Connection
  start_fail_timer now none s = record s { fail_timer = some (now + config.connection_tolerance) }
  start_fail_timer now (some at) s = s

  unfoldable pub set_not_ready : ℕ → Connection → Connection
  unfolding start_fail_timer
  set_not_ready now s =
      start_fail_timer now s.fail_timer (record s { ready_timer = none; channel_connected = false })

  unfoldable pub ready_timer_over : ℕ → Connection → Connection
  unfolding signal_ready is_due
  ready_timer_over now s =
      if is_due now s.ready_timer
      then signal_ready
          (record s { fail_timer = none; ready_timer = none; channel_connected = true })
      else s

  unfoldable pub fail_channel : Option ℕ → Connection → Connection
  unfolding signal_error
  fail_channel (some at) s = record s { fail_timer = none }
  fail_channel none s = signal_error (record s { fail_timer = none; channel_connected = false })

  unfoldable pub fail_timer_over : ℕ → Connection → Connection
  unfolding fail_channel is_due
  fail_timer_over now s = if is_due now s.fail_timer then fail_channel s.ready_timer s else s

  unfoldable pub new_connection : Connection
  new_connection =
      let waits = ltb 0 config.startup_time in
      record {
        ready_timer = none;
        fail_timer = none;
        channel_connected = false;
        blocking = waits;
        blocking_timer = if waits then some config.startup_time else none;
        state = unknown;
        emitted = [];
        is_connected = none;
        readied = false;
        events = [];
      }

  -- A call of a stream method that throws, and a stream that emits an error.
  unfoldable pub refuse_stream : ℕ → Connection → Connection
  unfolding signal_error set_not_ready
  refuse_stream now s = set_not_ready now (signal_error s)

  unfoldable pub fail_stream : ℕ → Connection → Connection
  unfolding signal_error set_not_ready
  fail_stream now s = set_not_ready now (signal_error s)

  -- The answer to a call: an error, and whether it is one of the network, or none.
  unfoldable pub answer_call : ℕ → Option Bool → Connection → Connection
  unfolding signal_ready set_ready set_not_ready
  answer_call now (some true) s = set_not_ready now s
  answer_call now (some false) s = set_ready now s
  answer_call now none s = set_ready now (signal_ready s)

  unfoldable pub close : Connection → Connection
  close s = record s { blocking_timer = none }

  unfoldable pub step : ℕ → Turn → Connection → Connection
  unfolding signal_ready signal_error set_ready refuse_stream fail_stream answer_call
      ready_timer_over fail_timer_over startup_over close
  step now channel_ready s = signal_ready s
  step now channel_failed s = signal_error s
  step now stream_opened s = set_ready now s
  step now stream_refused s = refuse_stream now s
  step now stream_failed s = fail_stream now s
  step now call_done s = answer_call now none s
  step now (call_failed is_network_error) s = answer_call now (some is_network_error) s
  step now ready_over s = ready_timer_over now s
  step now fail_over s = fail_timer_over now s
  step now deadline_over s = startup_over now s
  step now closed s = close s

  unfoldable pub run : List (ℕ × Turn) → Connection → Connection
  unfolding step
  run [] s = s
  run ((now, t) ∷ ts) s = run ts (step now t s)
