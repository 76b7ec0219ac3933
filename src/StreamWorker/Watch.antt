-- ===== src/StreamWorker/Watch.antt =====
-- A job stream is never lost sight of: it is open, or a re-open is under way, or the handle says
-- that it is closed.
pub mod Frames
pub mod Openings
pub mod Events
pub mod Always
use camunda_8_js_sdk.Base.{
  ℕ, suc, ◌+◌, ◌≤◌, ◌≡◌, ◌≢◌, refl, Bool, true, false, Option, none, some, List, [], ◌∷◌, ◌++◌,
  arith, if◌then◌else◌, length, length-append, ==_self, if_rule, Bool-cases, inl, inr,
}
use camunda_8_js_sdk.StreamLifecycle.{
  ErrorValue, StreamFailure, StreamState, open_state, reconnecting, closed, stream_failed, Opened,
  create_stream_state_machine, no_result, failed, stream, transition,
}
use camunda_8_js_sdk.StreamLifecycle.Attach.{
  StreamEvent, data_event, error_event, end_event, close_event, dispose,
}
use camunda_8_js_sdk.StreamWorker.Session.{
  Options, StreamedJob, Attachment, Session, is_closed, Opening, jittering, first_request,
  reopen_request, initial, reopened, deferred, Origin, CallResult, returned, rejected, Activity,
  backfilling, sidecar_polling, handling, draining, move_to, note,
}
use camunda_8_js_sdk.StreamWorker.Recovery.{handle_open_failure, on_stream_down}
use camunda_8_js_sdk.StreamWorker.Activation.{
  return_handle, backfill, jobs_activated, activation_failed, batch_handled, sidecar_fired,
}
use camunda_8_js_sdk.StreamWorker.Stream.{
  stream_event, open_stream, find_attachment, update_attachment, discard,
}
use camunda_8_js_sdk.StreamWorker.Step.{
  first_opened, reconnected, stream_answered, opening_turn, jobs_turn, no_jobs_turn, handled_turn,
  step, run, stream_jobs, Turn, jitter_over, stream_settled, raw_data, raw_error, raw_end,
  raw_close, reconnect_due, jobs, no_jobs, handlers_settled, sidecar_due, handle_close,
  worker_close, close_handle, close_worker, reconnect_fired, jitter_turn,
}

abbrev pub holds {ℓ} : {A : Type ℓ} → Option A → ℕ
holds none = 0
holds (some a) = 1

-- The requests for a stream, the streams and the reconnect timers that there are.
abbrev pub channels : Session → ℕ
channels s = length s.opening + holds s.current_stream + holds s.reconnect_timer

-- The current stream is the one attachment, and its handlers still listen.
abbrev pub Attached : Option ℕ → List Attachment → Type 0
Attached none [] = Unit
Attached none (a ∷ rest) = ⊥
Attached (some id) [] = ⊥
Attached (some id) (a ∷ []) = (a.id ≡ id) × (a.settled ≡ false)
Attached (some id) (a ∷ b ∷ rest) = ⊥

abbrev pub attempt_of : StreamState → Option ℕ
attempt_of (reconnecting attempt cause) = some attempt
attempt_of open_state = none
attempt_of (closed reason) = none

abbrev pub says_closed : StreamState → Bool
says_closed (closed reason) = true
says_closed open_state = false
says_closed (reconnecting attempt cause) = false

abbrev pub says_failed : StreamState → Bool
says_failed (closed (stream_failed cause)) = true
says_failed _ = false

pub record IsWatched (o : Options) (s : Session) : Type 0 where
  pub one_channel : channels s ≤ 1
  pub recovered :
      is_closed s ≡ false
      → o.reconnect_enabled ≡ true
      → (channels s ≡ 1) × (says_closed s.machine.state ≡ false)
  pub told : is_closed s ≡ false → channels s ≡ 0 → says_failed s.machine.state ≡ true
  pub untold : is_closed s ≡ false → channels s ≡ 1 → says_closed s.machine.state ≡ false
  pub attached : is_closed s ≡ false → Attached s.current_stream s.streams
  pub stopped :
      is_closed s ≡ true
      → (s.streams ≡ [])
        × (s.reconnect_timer ≡ none)
        × (s.sidecar_timer ≡ false)
        × (says_closed s.machine.state ≡ true)
  pub timed :
      holds s.reconnect_timer ≡ 1
      → (attempt_of s.machine.state ≡ s.reconnect_timer)
        × (s.reconnect_timer ≡ some s.consecutive_failures)
  pub shown_open : is_closed s ≡ false → holds s.current_stream ≡ 1 → s.machine.state ≡ open_state
