-- ===== src/StreamWorker/Step.antt =====
-- `pollAndStream`, `reconnect`, the two `close` methods, and one turn of the event loop.
-- At most one opening and one activity ever wait (`StreamWorker.Invariant`), so the answer that a
-- turn brings is the answer to the head of the list.
use camunda_8_js_sdk.Base.{
  ℕ, Bool, true, false, Option, none, some, List, [], ◌∷◌, ◌++◌, if◌then◌else◌,
}
use camunda_8_js_sdk.StreamLifecycle.{
  ErrorValue, open_state, closed, closed_by_caller, client_closed, Opened,
  create_stream_state_machine,
}
use camunda_8_js_sdk.StreamLifecycle.Attach.{data_event, error_event, end_event, close_event}
use camunda_8_js_sdk.StreamWorker.Session.{
  Options, StreamedJob, Attachment, initial, reopened, Opening, jittering, first_request,
  reopen_request, Activity, handling, pending, returned, rejected, Session, is_closed, note,
  move_to, WorkerCall, request_stream, close_grpc_client, cancel_raw_stream, on_stream_reconnect,
}
use camunda_8_js_sdk.StreamWorker.Recovery.{handle_open_failure}
use camunda_8_js_sdk.StreamWorker.Activation.{
  return_handle, backfill, jobs_activated, activation_failed, batch_handled, sidecar_fired,
}
use camunda_8_js_sdk.StreamWorker.Stream.{open_stream, discard, stream_event}

unfoldable pub request : Opening → Session → Session
unfolding note
request waiting s = note request_stream (record s { opening = s.opening ++ waiting ∷ [] })

fresh : Bool → Session
unfolding create_stream_state_machine
fresh worker_closed = record {
  worker_closed = worker_closed;
  handle_closed = false;
  machine = create_stream_state_machine open_state;
  streams = [];
  current_stream = none;
  next_id = 0;
  reconnect_timer = none;
  sidecar_timer = false;
  consecutive_failures = 0;
  activation_reserved = false;
  backfill_requested = false;
  opening = [];
  activity = [];
  result = pending;
  calls = [];
}

-- `streamJobs`, up to its first `await`.
unfoldable pub stream_jobs : (worker_closed jitter : Bool) → Session
unfolding fresh request move_to
stream_jobs true jitter = record (move_to (closed client_closed) (fresh true)) { result = returned }
stream_jobs false true = record (fresh false) { opening = jittering ∷ [] }
stream_jobs false false = request first_request (fresh false)

-- `pollAndStream` after `openStream`.
unfoldable pub first_opened : Options → Session × Option ErrorValue → Session
first_opened o (s, none) =
    if is_closed s then record s { result = returned } else backfill o initial s
first_opened o (s, some e) =
    if is_closed s
    then record s { result = returned }
    else if o.reconnect_enabled
    then return_handle o (handle_open_failure o e s)
    else record (handle_open_failure o e s) { result = rejected e }

-- `reconnect` after `openStream`.
unfoldable pub reconnected : Options → Session × Option ErrorValue → Session
reconnected o (s, none) = if is_closed s then s else backfill o reopened s
reconnected o (s, some e) = if is_closed s then s else handle_open_failure o e s

unfoldable pub stream_answered : Options → Opening → Opened → ℕ → Session → Session
stream_answered o jittering opened now s = s
stream_answered o first_request opened now s = first_opened o (open_stream opened now s)
stream_answered o reopen_request opened now s = reconnected o (open_stream opened now s)

unfoldable pub reconnect_fired : Session → Option ℕ → Session
unfolding note request
reconnect_fired s none = s
reconnect_fired s (some attempt) =
    let fired = record s { reconnect_timer = none } in
    if is_closed s then fired else request reopen_request (note (on_stream_reconnect attempt) fired)

-- `dispose()` of each attachment: the raw stream is cancelled.
dispose_all : List Attachment → List WorkerCall → List WorkerCall
dispose_all [] calls = calls
dispose_all (a ∷ rest) calls = dispose_all rest (cancel_raw_stream ∷ calls)

dispose_current : Option ℕ → Session → Session
unfolding note discard
dispose_current none s = s
dispose_current (some id) s =
    note cancel_raw_stream (record s { streams = discard id s.streams; current_stream = none })

-- `close()` of the handle, and of the worker.
unfoldable pub close_handle : Session → Session
unfolding move_to dispose_current
close_handle s =
    let ended = move_to (closed closed_by_caller) (record s { handle_closed = true }) in
    dispose_current s.current_stream
      (record ended { sidecar_timer = false; reconnect_timer = none })

unfoldable pub close_worker : Session → Session
unfolding move_to dispose_all note
close_worker s =
    let ended = move_to (closed client_closed) (record s { worker_closed = true }) in
    let quiet = record ended { sidecar_timer = false; reconnect_timer = none } in
    note close_grpc_client (record quiet { streams = []; calls = dispose_all s.streams s.calls })

pub data Turn : Type 0 where
  jitter_over : Turn
  stream_settled : Opened → (now : ℕ) → Turn
  raw_data : (id now : ℕ) → StreamedJob → Turn
  raw_error : (id now : ℕ) → ErrorValue → Turn
  raw_end raw_close : (id now : ℕ) → Turn
  reconnect_due : Turn
  jobs : (batch : ℕ) → Turn
  no_jobs : ErrorValue → Turn
  handlers_settled : Turn
  sidecar_due : Turn
  handle_close : Turn
  worker_close : Turn

unfoldable pub opening_turn : Options → Opened → ℕ → Session → List Opening → Session
opening_turn o opened now s [] = s
opening_turn o opened now s (jittering ∷ rest) = s
opening_turn o opened now s (waiting ∷ rest) =
    stream_answered o waiting opened now (record s { opening = rest })

unfoldable pub jitter_turn : Session → List Opening → Session
unfolding request
jitter_turn s (jittering ∷ rest) = request first_request (record s { opening = rest })
jitter_turn s _ = s

unfoldable pub jobs_turn : Options → ℕ → Session → List Activity → Session
jobs_turn o batch s [] = s
jobs_turn o batch s (handling n from_sidecar ∷ rest) = s
jobs_turn o batch s (a ∷ rest) = jobs_activated o a batch (record s { activity = rest })

unfoldable pub no_jobs_turn : Options → ErrorValue → Session → List Activity → Session
no_jobs_turn o e s [] = s
no_jobs_turn o e s (handling n from_sidecar ∷ rest) = s
no_jobs_turn o e s (a ∷ rest) = activation_failed o a e (record s { activity = rest })

unfoldable pub handled_turn : Options → Session → List Activity → Session
handled_turn o s (handling n from_sidecar ∷ rest) =
    batch_handled o n from_sidecar (record s { activity = rest })
handled_turn o s _ = s

-- A turn that nothing waits for changes nothing.
unfoldable pub step : Options → Session → Turn → Session
step o s jitter_over = jitter_turn s s.opening
step o s (stream_settled opened now) = opening_turn o opened now s s.opening
step o s (raw_data id now job) = stream_event o now id (data_event job) s
step o s (raw_error id now e) = stream_event o now id (error_event e) s
step o s (raw_end id now) = stream_event o now id end_event s
step o s (raw_close id now) = stream_event o now id close_event s
step o s reconnect_due = reconnect_fired s s.reconnect_timer
step o s (jobs batch) = jobs_turn o batch s s.activity
step o s (no_jobs e) = no_jobs_turn o e s s.activity
step o s handlers_settled = handled_turn o s s.activity
step o s sidecar_due = if s.sidecar_timer then sidecar_fired s else s
step o s handle_close = close_handle s
step o s worker_close = close_worker s

unfoldable pub run : Options → Session → List Turn → Session
run o s [] = s
run o s (t ∷ ts) = run o (step o s t) ts
