-- ===== src/StreamWorker/Tests.antt =====
-- Runs of a `streamJobs` call and instances of the theorems on it.
use camunda_8_js_sdk.Base.{◌≡◌, refl, List, [], ◌∷◌, true, false}
use camunda_8_js_sdk.StreamLifecycle.{
  stream, transition, create_stream_state_machine, backoff_delay_ms, get_open_error,
}
use camunda_8_js_sdk.StreamLifecycle.Attach.{attach_step}
use camunda_8_js_sdk.StreamWorker.Session.{
  Options, options_of, Session, note, move_to, draining, backfilling, deferred, activate_jobs,
  request_stream, set_reconnect_timer, on_stream_end, on_stream_reconnect,
}
use camunda_8_js_sdk.StreamWorker.Recovery.{handle_open_failure, on_stream_down, schedule_reconnect}
use camunda_8_js_sdk.StreamWorker.Activation.{
  return_handle, schedule_poll, backfill, jobs_activated, activation_failed, batch_handled,
  sidecar_fired,
}
use camunda_8_js_sdk.StreamWorker.Stream.{
  stream_event, open_stream, find_attachment, update_attachment, discard,
}
use camunda_8_js_sdk.StreamWorker.Step.{
  first_opened, reconnected, stream_answered, opening_turn, jobs_turn, no_jobs_turn, handled_turn,
  jitter_turn, reconnect_fired, close_handle, close_worker, request, step, run, stream_jobs, Turn,
  stream_settled, raw_end, reconnect_due, jobs, no_jobs, handlers_settled, sidecar_due,
}
use camunda_8_js_sdk.StreamWorker.SingleActivation.{OneActivation, run-OneActivation}
use camunda_8_js_sdk.StreamWorker.Deferral.{deferred_backfill_runs}
use camunda_8_js_sdk.StreamWorker.Stranded.{activations, IsStranded, deferred_backfill-IsStranded}
use camunda_8_js_sdk.StreamWorker.Watch.{IsWatched}
use camunda_8_js_sdk.StreamWorker.Watch.Always.{run-IsWatched}

-- All that a run computes with.
everything : Unit {0}
unfolding run step stream_jobs jitter_turn opening_turn stream_answered first_opened reconnected
    reconnect_fired jobs_turn no_jobs_turn handled_turn sidecar_fired close_handle close_worker
    stream_event open_stream find_attachment update_attachment discard attach_step transition
    create_stream_state_machine backoff_delay_ms get_open_error handle_open_failure on_stream_down
    schedule_reconnect return_handle schedule_poll backfill jobs_activated activation_failed
    batch_handled note move_to request options_of
everything = tt

-- Recurring polls are off.
abbrev quiet : Options
quiet = record {
  reconnect_enabled = true;
  initial_delay_ms = 1000;
  max_delay_ms = 30000;
  poll_max_jobs_to_activate = 2;
  poll_interval = 0;
}

-- A backlog of two jobs is being handled when the stream ends; the stream comes back and its
-- backfill is deferred.
abbrev deferred_turns : List Turn
deferred_turns =
    stream_settled stream 0 ∷ jobs 2 ∷ raw_end 0 5 ∷ reconnect_due ∷ stream_settled stream 1006 ∷ []

abbrev deferred_session : Session
deferred_session = run quiet (stream_jobs false false) deferred_turns

deferred_calls :
    deferred_session.calls
    ≡ request_stream
      ∷ on_stream_reconnect 1
      ∷ set_reconnect_timer 1000
      ∷ on_stream_end
      ∷ activate_jobs
      ∷ request_stream
      ∷ []
unfolding everything
deferred_calls = refl

-- The same with the backfill of a first reconnect still unanswered.
abbrev stranded_turns : List Turn
stranded_turns =
    stream_settled stream 0
    ∷ jobs 0
    ∷ handlers_settled
    ∷ raw_end 0 5
    ∷ reconnect_due
    ∷ stream_settled stream 1006
    ∷ raw_end 1 1010
    ∷ reconnect_due
    ∷ stream_settled stream 3011
    ∷ []

abbrev stranded_session : Session
stranded_session = run quiet (stream_jobs false false) stranded_turns

run-OneActivation_example : OneActivation deferred_session
run-OneActivation_example = run-OneActivation quiet false false deferred_turns

-- The same before the new stream is there.
abbrev reopening_session : Session
reopening_session =
    run quiet (stream_jobs false false)
      (stream_settled stream 0 ∷ jobs 2 ∷ raw_end 0 5 ∷ reconnect_due ∷ [])

abbrev waiting_session : Session
waiting_session =
    run quiet (step quiet reopening_session (stream_settled stream 1006)) (raw_end 1 1010 ∷ [])

abbrev asked_session : Session
asked_session = step quiet waiting_session handlers_settled

abbrev later_session : Session
later_session = run quiet asked_session (reconnect_due ∷ [])

deferred_backfill_runs_example :
    (asked_session.activity ≡ draining true false ∷ [])
    × (asked_session.calls ≡ activate_jobs ∷ waiting_session.calls)
    × ((step quiet later_session (no_jobs "late")).activity ≡ backfilling deferred ∷ [])
    × ((step quiet later_session (no_jobs "late")).calls ≡ activate_jobs ∷ later_session.calls)
unfolding everything
deferred_backfill_runs_example =
    deferred_backfill_runs quiet reopening_session 2 false stream 1006 [] "late"
      (raw_end 1 1010 ∷ []) (reconnect_due ∷ []) refl refl refl refl refl (tt, tt) (tt, tt)

deferred_backfill-IsStranded_example :
    IsStranded
      (activations stranded_session.calls)
      (run quiet (step quiet stranded_session (no_jobs "busy")) (sidecar_due ∷ jobs 2 ∷ []))
unfolding everything
deferred_backfill-IsStranded_example =
    deferred_backfill-IsStranded quiet stranded_session "busy" (sidecar_due ∷ jobs 2 ∷ []) refl refl
      refl refl refl (tt, (tt, tt))

run-IsWatched_example : IsWatched quiet stranded_session
run-IsWatched_example = run-IsWatched quiet false false stranded_turns
