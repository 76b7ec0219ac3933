-- ===== src/StreamWorker/Watch/Always.antt =====
-- Every turn keeps the stream watched.
use camunda_8_js_sdk.Base.{refl, Bool, true, false, List, [], ◌∷◌, arith, if_rule}
use camunda_8_js_sdk.StreamLifecycle.{create_stream_state_machine, transition}
use camunda_8_js_sdk.StreamLifecycle.Attach.{data_event, error_event, end_event, close_event}
use camunda_8_js_sdk.StreamWorker.Session.{Options, Session}
use camunda_8_js_sdk.StreamWorker.Step.{
  step, run, stream_jobs, Turn, jitter_over, stream_settled, raw_data, raw_error, raw_end,
  raw_close, reconnect_due, jobs, no_jobs, handlers_settled, sidecar_due, handle_close,
  worker_close,
}
use camunda_8_js_sdk.StreamWorker.Watch.{IsWatched}
use camunda_8_js_sdk.StreamWorker.Watch.Frames.{
  SameChannels-IsWatched, jobs_turn-SameChannels, no_jobs_turn-SameChannels,
  handled_turn-SameChannels, sidecar_fired-SameChannels,
}
use camunda_8_js_sdk.StreamWorker.Watch.Openings.{
  close_handle-IsWatched, close_worker-IsWatched, reconnect_fired-IsWatched, jitter_turn-IsWatched,
  opening_turn-IsWatched,
}
use camunda_8_js_sdk.StreamWorker.Watch.Events.{stream_event-IsWatched}

module _ (o : Options) where
  pub step-IsWatched : (s : Session) (t : Turn) → IsWatched o s → IsWatched o (step o s t)
  unfolding step
  step-IsWatched s jitter_over h = jitter_turn-IsWatched o s s.opening refl h
  step-IsWatched s (stream_settled opened now) h =
      opening_turn-IsWatched o opened now s s.opening refl h
  step-IsWatched s (raw_data id now job) h =
      stream_event-IsWatched o now id (data_event job) s s.streams tt refl h
  step-IsWatched s (raw_error id now e) h =
      stream_event-IsWatched o now id (error_event e) s s.streams tt refl h
  step-IsWatched s (raw_end id now) h =
      stream_event-IsWatched o now id end_event s s.streams tt refl h
  step-IsWatched s (raw_close id now) h =
      stream_event-IsWatched o now id close_event s s.streams tt refl h
  step-IsWatched s reconnect_due h = reconnect_fired-IsWatched o s h
  step-IsWatched s (jobs batch) h =
      SameChannels-IsWatched o s _ (jobs_turn-SameChannels o batch s s.activity) h
  step-IsWatched s (no_jobs e) h =
      SameChannels-IsWatched o s _ (no_jobs_turn-SameChannels o e s s.activity) h
  step-IsWatched s handlers_settled h =
      SameChannels-IsWatched o s _ (handled_turn-SameChannels o s s.activity) h
  step-IsWatched s sidecar_due h =
      if_rule (IsWatched o) s.sidecar_timer
        (λ on. SameChannels-IsWatched o s _ (sidecar_fired-SameChannels o s) h) (λ off. h)
  step-IsWatched s handle_close h = close_handle-IsWatched o s h
  step-IsWatched s worker_close h = close_worker-IsWatched o s h

  run_from-IsWatched : (s : Session) (ts : List Turn) → IsWatched o s → IsWatched o (run o s ts)
  unfolding run
  run_from-IsWatched s [] h = h
  run_from-IsWatched s (t ∷ ts) h = run_from-IsWatched (step o s t) ts (step-IsWatched s t h)

  stream_jobs-IsWatched :
      (worker_closed jitter : Bool) → IsWatched o (stream_jobs worker_closed jitter)
  unfolding stream_jobs transition create_stream_state_machine
  stream_jobs-IsWatched true jitter = ground arith
  stream_jobs-IsWatched false true = ground arith
  stream_jobs-IsWatched false false = ground arith

-- In every state that a `streamJobs` call reaches: a request for a stream, a stream and a reconnect
-- timer never exist side by side. While the call is open and reconnection is on, there is exactly
-- one of the three, and the handle is not `closed`; where there is none, reconnection is off and
-- the handle is `closed` with the failure of the stream. The current stream is the one attachment
-- whose handlers listen, and the handle then is `open`; a pending timer shows as `reconnecting`
-- with the count of consecutive failures. Once the call is closed there is no attachment and no
-- timer, and the handle is `closed`.
pub run-IsWatched :
    (o : Options) (worker_closed jitter : Bool) (ts : List Turn)
    → IsWatched o (run o (stream_jobs worker_closed jitter) ts)
run-IsWatched o worker_closed jitter ts =
    run_from-IsWatched o _ ts (stream_jobs-IsWatched o worker_closed jitter)
