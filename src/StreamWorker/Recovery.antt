-- ===== src/StreamWorker/Recovery.antt =====
-- `onStreamDown`, `scheduleReconnect` and `handleOpenFailure` of src/zeebe/lib/ZBStreamWorker.ts.
use camunda_8_js_sdk.Base.{◌+◌, not, ◌||◌, some, if◌then◌else◌, is_some}
use camunda_8_js_sdk.StreamLifecycle.{
  ErrorValue, StreamFailure, open_failed, reconnecting, closed, stream_failed, backoff_delay_ms,
}
use camunda_8_js_sdk.StreamWorker.Session.{
  Options, Session, is_closed, note, move_to, set_reconnect_timer, on_stream_error,
}

start_timer : Options → StreamFailure → Session → Session
unfolding note move_to
start_timer o cause s =
    let attempt = s.consecutive_failures + 1 in
    let delay = backoff_delay_ms attempt o.initial_delay_ms o.max_delay_ms in
    let down = move_to (reconnecting attempt cause) (record s { consecutive_failures = attempt }) in
    note (set_reconnect_timer delay) (record down { reconnect_timer = some attempt })

unfoldable pub schedule_reconnect : Options → StreamFailure → Session → Session
unfolding start_timer
schedule_reconnect o cause s =
    if not o.reconnect_enabled || is_closed s || is_some s.reconnect_timer
    then s
    else start_timer o cause s

unfoldable pub on_stream_down : Options → StreamFailure → Session → Session
unfolding schedule_reconnect move_to
on_stream_down o cause s =
    if is_closed s
    then s
    else if not o.reconnect_enabled
    then move_to (closed (stream_failed cause)) s
    else schedule_reconnect o cause s

unfoldable pub handle_open_failure : Options → ErrorValue → Session → Session
unfolding on_stream_down note
handle_open_failure o e s = on_stream_down o (open_failed e) (note (on_stream_error e) s)
