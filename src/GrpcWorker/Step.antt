-- ===== src/GrpcWorker/Step.antt =====
-- Runs of the gRPC job worker. A stream that has ended may still emit an error; responses on it are left out.
use camunda_8_js_sdk.Base.{ℕ, ◌-◌, Bool, List, [], ◌∷◌, if◌then◌else◌, length}
use camunda_8_js_sdk.GrpcWorker.{
  Config, Stream, no_stream, live, broken, Worker, poll, stream_opened, open_failed,
  handle_stream_end, stream_error, late_error, stream_backoff_over, backoff_timeout_over,
  handle_job_response, close, Ending, handler_ended,
}

pub data Turn : Type 0 where
  poll_interval opened stream_ended stream_backoff_due backoff_due close_called : Turn
  open_refused stream_failed stream_failed_late : (backs_off : Bool) → Turn
  response : (seed : ℕ) → Turn
  job_ended : Ending → Turn

-- The jobs that the server sends on a stream that may still bring `outstanding` jobs.
module _ (served : (outstanding seed : ℕ) → List Bool) where
  unfoldable pub respond : ℕ → Stream → Worker → Worker
  unfolding handle_job_response
  respond seed no_stream w = w
  respond seed broken w = w
  respond seed (live n) w = record (handle_job_response (served n seed) w) {
    job_stream = live (n - length (served n seed));
  }

  unfoldable pub step : Config → Worker → Turn → Worker
  unfolding poll stream_opened handle_stream_end stream_backoff_over backoff_timeout_over close
      open_failed stream_error late_error respond handler_ended
  step config w poll_interval = if w.poll_loop then poll config w else w
  step config w opened = stream_opened w.opening w
  step config w stream_ended = handle_stream_end w
  step config w stream_backoff_due = stream_backoff_over w
  step config w backoff_due = backoff_timeout_over w
  step config w close_called = close w
  step config w (open_refused backs_off) = open_failed config backs_off w.opening w
  step config w (stream_failed backs_off) = stream_error config backs_off w.job_stream w
  step config w (stream_failed_late backs_off) = late_error config backs_off w
  step config w (response seed) = respond seed w.job_stream w
  step config w (job_ended ending) = handler_ended config ending w

  unfoldable pub run : Config → Worker → List Turn → Worker
  run config w [] = w
  run config w (t ∷ ts) = run config (step config w t) ts
