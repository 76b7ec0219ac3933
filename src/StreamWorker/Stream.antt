-- ===== src/StreamWorker/Stream.antt =====
-- `openStream` and its handlers of src/zeebe/lib/ZBStreamWorker.ts.
use camunda_8_js_sdk.Base.{
  ℕ, ◌+◌, true, false, ◌||◌, Option, none, some, List, [], ◌∷◌, ◌++◌, if◌then◌else◌, leb, ◌==◌,
}
use camunda_8_js_sdk.Base.Int.{pos, ◌-ℤ◌}
use camunda_8_js_sdk.StreamLifecycle.{
  ErrorValue, StreamFailure, error, end, open_state, Opened, get_open_error,
}
use camunda_8_js_sdk.StreamLifecycle.Attach.{
  StreamEvent, Call, on_data, on_error, on_end, on_close, cancel_stream, attach_step,
}
use camunda_8_js_sdk.StreamWorker.Session.{
  Options, StreamedJob, Attachment, Session, is_closed, note, move_to, cancel_raw_stream,
  on_stream_error, on_stream_end, handle_job, fail_job,
}
use camunda_8_js_sdk.StreamWorker.Recovery.{on_stream_down}

attach : ℕ → Session → Session
unfolding move_to
attach now s = move_to open_state (record s {
  streams = s.streams ++ fresh ∷ [];
  current_stream = some s.next_id;
  next_id = s.next_id + 1;
})
  where
    fresh : Attachment
    fresh = record {
      id = s.next_id;
      settled = false;
      opened_at = now;
      received_data = false;
      cause = end;
    }

-- After the request for a stream has settled, at the time `now`.
unfoldable pub open_stream : Opened → ℕ → Session → Session × Option ErrorValue
unfolding get_open_error attach note
open_stream opened now s = elim (get_open_error opened) [
  | some e ↦ (s, some e)
  | none ↦ (if is_closed s then note cancel_raw_stream s else attach now s, none)
]

-- `discardStream`.
unfoldable pub discard : ℕ → List Attachment → List Attachment
discard id [] = []
discard id (a ∷ rest) = let others = discard id rest in if a.id == id then rest else a ∷ others

unfoldable pub find_attachment : ℕ → List Attachment → Option Attachment
find_attachment id [] = none
find_attachment id (a ∷ rest) = if a.id == id then some a else find_attachment id rest

unfoldable pub update_attachment : Attachment → List Attachment → List Attachment
update_attachment b [] = []
update_attachment b (a ∷ rest) = if a.id == b.id then b ∷ rest else a ∷ update_attachment b rest

unset_current : ℕ → Option ℕ → Option ℕ
unset_current id none = none
unset_current id (some current) = if current == id then none else some current

reset_backoff_if_healthy : Options → Attachment → ℕ → Session → Session
reset_backoff_if_healthy o a now s =
    if a.received_data || leb (a.opened_at + o.max_delay_ms) now
    then record s { consecutive_failures = 0 }
    else s

receive : Attachment → Session → Session
receive a s = if a.received_data then s else record s {
  consecutive_failures = 0;
  streams = update_attachment (record a { received_data = true }) s.streams;
}

start_handler : StreamedJob → Session → Session
unfolding note
start_handler job s =
    if job.parses
    then note (handle_job job.key) s
    else note (fail_job job.key (pos job.retries -ℤ pos 1)) s

-- The handlers given to `attachStream`. `cause` is the variable that `error` and `end` set.
handler :
    Options → ℕ → Attachment → Call StreamedJob → StreamFailure → Session → StreamFailure × Session
unfolding receive start_handler reset_backoff_if_healthy note discard unset_current on_stream_down
handler o now a (on_data job) cause s = (cause, start_handler job (receive a s))
handler o now a (on_error e) cause s = (
  error e,
  if is_closed s then s else note (on_stream_error e) (reset_backoff_if_healthy o a now s),
)
handler o now a on_end cause s =
    (end, if is_closed s then s else note on_stream_end (reset_backoff_if_healthy o a now s))
handler o now a on_close cause s = (
  cause,
  on_stream_down o cause (record s {
    streams = discard a.id s.streams;
    current_stream = unset_current a.id s.current_stream;
  }),
)
handler o now a cancel_stream cause s = (cause, note cancel_raw_stream s)

handlers : Options → ℕ → Attachment → List (Call StreamedJob) → StreamFailure → Session → Session
unfolding handler
handlers o now a [] cause s = s
handlers o now a (c ∷ cs) cause s =
    let (cause', s') = handler o now a c cause s in handlers o now a cs cause' s'

-- An event of the raw stream of an attachment. The data handler throws on no item.
stream_event_of : Options → ℕ → StreamEvent StreamedJob → Session → Option Attachment → Session
unfolding handlers update_attachment attach_step
stream_event_of o now ev s none = s
stream_event_of o now ev s (some a) =
    let (settled, calls) = attach_step (λ _. none) a.settled ev in
    let a' = record a { settled = settled } in
    handlers o now a' calls a.cause (record s { streams = update_attachment a' s.streams })

-- An attachment that is not in `streams` is settled, and its events are ignored.
unfoldable pub stream_event : Options → ℕ → ℕ → StreamEvent StreamedJob → Session → Session
unfolding stream_event_of find_attachment
stream_event o now id ev s = stream_event_of o now ev s (find_attachment id s.streams)
