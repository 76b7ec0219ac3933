-- ===== src/StreamWorker/SingleActivation.antt =====
-- Only one activation, or the drain that it feeds, is ever in flight.
use camunda_8_js_sdk.Base.{
  ℕ, ◌≡◌, refl, Bool, true, Option, none, some, List, [], ◌∷◌, arith, if◌then◌else◌, length,
  length-append,
}
use camunda_8_js_sdk.StreamLifecycle.{ErrorValue, Opened}
use camunda_8_js_sdk.StreamLifecycle.Attach.{
  StreamEvent, data_event, error_event, end_event, close_event,
}
use camunda_8_js_sdk.StreamWorker.Session.{
  Options, StreamedJob, Origin, initial, reopened, deferred, Activity, backfilling, sidecar_polling,
  handling, draining, Session, Opening, jittering, first_request, reopen_request,
}
use camunda_8_js_sdk.StreamWorker.Activation.{
  return_handle, backfill, jobs_activated, activation_failed, batch_handled, sidecar_fired,
}
use camunda_8_js_sdk.StreamWorker.Recovery.{handle_open_failure}
use camunda_8_js_sdk.StreamWorker.Stream.{stream_event, open_stream}
use camunda_8_js_sdk.StreamWorker.Step.{
  first_opened, reconnected, stream_answered, opening_turn, jobs_turn, no_jobs_turn, handled_turn,
  jitter_turn, reconnect_fired, close_handle, close_worker, step, run, stream_jobs, Turn,
  jitter_over, stream_settled, raw_data, raw_error, raw_end, raw_close, reconnect_due, jobs,
  no_jobs, handlers_settled, sidecar_due, handle_close, worker_close,
}

abbrev pub OneActivation : Session → Type 0
OneActivation s = length s.activity ≡ (if s.activation_reserved then 1 else 0)

-- The same of a session whose reservation is held and whose activity has just been answered.
abbrev Answered : Session → Type 0
Answered s = (s.activity ≡ []) × (s.activation_reserved ≡ true)

module _ (o : Options) where
  backfill-OneActivation :
      (origin : Origin) (s : Session) → OneActivation s → OneActivation (backfill o origin s)
  unfolding backfill
  backfill-OneActivation initial s h =
      ground (arith, length-append s.activity (backfilling initial ∷ []))
  backfill-OneActivation reopened s h =
      ground (arith, length-append s.activity (backfilling reopened ∷ []))
  backfill-OneActivation deferred s h =
      ground (arith, length-append s.activity (backfilling deferred ∷ []))

  abbrev IsActivation : Activity → Type 0
  IsActivation (handling n from_sidecar) = ⊥
  IsActivation (backfilling origin) = Unit
  IsActivation sidecar_polling = Unit
  IsActivation (draining consumed from_sidecar) = Unit

  jobs_activated-OneActivation :
      (a : Activity) (batch : ℕ) (s : Session)
      → IsActivation a
      → Answered s
      → OneActivation (jobs_activated o a batch s)
  unfolding jobs_activated
  jobs_activated-OneActivation (handling n c) batch s i h = absurd i
  jobs_activated-OneActivation (backfilling initial) batch s i h = ground arith
  jobs_activated-OneActivation (backfilling reopened) batch s i h = ground arith
  jobs_activated-OneActivation (backfilling deferred) batch s i h = ground arith
  jobs_activated-OneActivation sidecar_polling batch s i h = ground arith
  jobs_activated-OneActivation (draining d c) batch s i h = ground arith

  activation_failed-OneActivation :
      (a : Activity) (e : ErrorValue) (s : Session)
      → IsActivation a
      → Answered s
      → OneActivation (activation_failed o a e s)
  unfolding activation_failed
  activation_failed-OneActivation (handling n c) e s i h = absurd i
  activation_failed-OneActivation (backfilling initial) e s i h = ground arith
  activation_failed-OneActivation (backfilling reopened) e s i h = ground arith
  activation_failed-OneActivation (backfilling deferred) e s i h = ground arith
  activation_failed-OneActivation sidecar_polling e s i h = ground arith
  activation_failed-OneActivation (draining d c) e s i h = ground arith

  batch_handled-OneActivation :
      (batch : ℕ) (c : Bool) (s : Session) → Answered s → OneActivation (batch_handled o batch c s)
  unfolding batch_handled
  batch_handled-OneActivation batch c s h = ground arith

  sidecar_fired-OneActivation : (s : Session) → OneActivation s → OneActivation (sidecar_fired s)
  unfolding sidecar_fired
  sidecar_fired-OneActivation s h = ground (arith, length-append s.activity (sidecar_polling ∷ []))

  -- What the opening and losing of streams leaves alone.
  abbrev SameActivity : Session → Session → Type 0
  SameActivity s t =
      (t.activity ≡ s.activity)
      × (t.activation_reserved ≡ s.activation_reserved)
      × (t.backfill_requested ≡ s.backfill_requested)

  handle_open_failure-SameActivity :
      (e : ErrorValue) (s : Session) → SameActivity s (handle_open_failure o e s)
  unfolding handle_open_failure
  handle_open_failure-SameActivity e s = ground arith

  return_handle-SameActivity : (s : Session) → SameActivity s (return_handle o s)
  unfolding return_handle
  return_handle-SameActivity s = ground arith

  open_stream-SameActivity :
      (opened : Opened) (now : ℕ) (s : Session) → SameActivity s (open_stream opened now s).0
  unfolding open_stream
  open_stream-SameActivity opened now s = ground arith

  stream_event-SameActivity :
      (now id : ℕ) (ev : StreamEvent StreamedJob) (s : Session)
      → SameActivity s (stream_event o now id ev s)
  unfolding stream_event
  stream_event-SameActivity now id ev s = ground arith

  first_opened-OneActivation :
      (s : Session) (e : Option ErrorValue)
      → OneActivation s
      → OneActivation (first_opened o (s, e))
  unfolding first_opened
  first_opened-OneActivation s none h = ground (arith, backfill-OneActivation initial s h)
  first_opened-OneActivation s (some e) h = ground (
    arith,
    handle_open_failure-SameActivity e s,
    return_handle-SameActivity (handle_open_failure o e s),
  )

  reconnected-OneActivation :
      (s : Session) (e : Option ErrorValue) → OneActivation s → OneActivation (reconnected o (s, e))
  unfolding reconnected
  reconnected-OneActivation s none h = ground (arith, backfill-OneActivation reopened s h)
  reconnected-OneActivation s (some e) h = ground (arith, handle_open_failure-SameActivity e s)

  opening_turn-OneActivation :
      (opened : Opened) (now : ℕ) (s : Session) (l : List Opening)
      → OneActivation s
      → OneActivation (opening_turn o opened now s l)
  unfolding opening_turn stream_answered
  opening_turn-OneActivation opened now s [] h = h
  opening_turn-OneActivation opened now s (jittering ∷ rest) h = h
  opening_turn-OneActivation opened now s (first_request ∷ rest) h =
      let t = record s { opening = rest } in
      first_opened-OneActivation (open_stream opened now t).0 (open_stream opened now t).1
        (ground (arith, open_stream-SameActivity opened now t))
  opening_turn-OneActivation opened now s (reopen_request ∷ rest) h =
      let t = record s { opening = rest } in
      reconnected-OneActivation (open_stream opened now t).0 (open_stream opened now t).1
        (ground (arith, open_stream-SameActivity opened now t))

  jobs_turn-OneActivation :
      (batch : ℕ) (s : Session) (l : List Activity)
      → s.activity ≡ l
      → OneActivation s
      → OneActivation (jobs_turn o batch s l)
  unfolding jobs_turn
  jobs_turn-OneActivation batch s [] e h = h
  jobs_turn-OneActivation batch s (handling n c ∷ rest) e h = h
  jobs_turn-OneActivation batch s (backfilling origin ∷ rest) e h =
      jobs_activated-OneActivation (backfilling origin) batch (record s { activity = rest }) tt
        (ground arith)
  jobs_turn-OneActivation batch s (sidecar_polling ∷ rest) e h =
      jobs_activated-OneActivation sidecar_polling batch (record s { activity = rest }) tt
        (ground arith)
  jobs_turn-OneActivation batch s (draining d c ∷ rest) e h =
      jobs_activated-OneActivation (draining d c) batch (record s { activity = rest }) tt
        (ground arith)

  no_jobs_turn-OneActivation :
      (e : ErrorValue) (s : Session) (l : List Activity)
      → s.activity ≡ l
      → OneActivation s
      → OneActivation (no_jobs_turn o e s l)
  unfolding no_jobs_turn
  no_jobs_turn-OneActivation e s [] q h = h
  no_jobs_turn-OneActivation e s (handling n c ∷ rest) q h = h
  no_jobs_turn-OneActivation e s (backfilling origin ∷ rest) q h =
      activation_failed-OneActivation (backfilling origin) e (record s { activity = rest }) tt
        (ground arith)
  no_jobs_turn-OneActivation e s (sidecar_polling ∷ rest) q h =
      activation_failed-OneActivation sidecar_polling e (record s { activity = rest }) tt
        (ground arith)
  no_jobs_turn-OneActivation e s (draining d c ∷ rest) q h =
      activation_failed-OneActivation (draining d c) e (record s { activity = rest }) tt
        (ground arith)

  handled_turn-OneActivation :
      (s : Session) (l : List Activity)
      → s.activity ≡ l
      → OneActivation s
      → OneActivation (handled_turn o s l)
  unfolding handled_turn
  handled_turn-OneActivation s (handling n c ∷ rest) q h =
      batch_handled-OneActivation n c (record s { activity = rest }) (ground arith)
  handled_turn-OneActivation s _ q h = h

  pub step-OneActivation : (s : Session) (t : Turn) → OneActivation s → OneActivation (step o s t)
  unfolding step jitter_turn reconnect_fired close_handle close_worker
  step-OneActivation s jitter_over h = ground arith
  step-OneActivation s (stream_settled opened now) h =
      opening_turn-OneActivation opened now s s.opening h
  step-OneActivation s (raw_data id now job) h =
      ground (arith, stream_event-SameActivity now id (data_event job) s)
  step-OneActivation s (raw_error id now e) h =
      ground (arith, stream_event-SameActivity now id (error_event e) s)
  step-OneActivation s (raw_end id now) h =
      ground (arith, stream_event-SameActivity now id end_event s)
  step-OneActivation s (raw_close id now) h =
      ground (arith, stream_event-SameActivity now id close_event s)
  step-OneActivation s reconnect_due h = ground arith
  step-OneActivation s (jobs batch) h = jobs_turn-OneActivation batch s s.activity refl h
  step-OneActivation s (no_jobs e) h = no_jobs_turn-OneActivation e s s.activity refl h
  step-OneActivation s handlers_settled h = handled_turn-OneActivation s s.activity refl h
  step-OneActivation s sidecar_due h = ground (arith, sidecar_fired-OneActivation s h)
  step-OneActivation s handle_close h = ground arith
  step-OneActivation s worker_close h = ground arith

  run_from-OneActivation :
      (s : Session) (ts : List Turn) → OneActivation s → OneActivation (run o s ts)
  unfolding run
  run_from-OneActivation s [] h = h
  run_from-OneActivation s (t ∷ ts) h =
      run_from-OneActivation (step o s t) ts (step-OneActivation s t h)

stream_jobs-OneActivation :
    (worker_closed jitter : Bool) → OneActivation (stream_jobs worker_closed jitter)
unfolding stream_jobs
stream_jobs-OneActivation worker_closed jitter = ground arith

-- Whatever happens to a `streamJobs` call, its reservation flag is set exactly while one
-- activation, or the drain that one feeds, is in flight; and there is never more than one.
pub run-OneActivation :
    (o : Options) (worker_closed jitter : Bool) (ts : List Turn)
    → OneActivation (run o (stream_jobs worker_closed jitter) ts)
run-OneActivation o worker_closed jitter ts =
    run_from-OneActivation o _ ts (stream_jobs-OneActivation worker_closed jitter)
