-- ===== src/StreamWorker/Watch/Frames.antt =====
-- Activations, drains and the sidecar poll leave the stream and its recovery alone.
use camunda_8_js_sdk.Base.{ℕ, ◌≡◌, true, false, List, [], ◌∷◌, arith}
use camunda_8_js_sdk.StreamLifecycle.{ErrorValue}
use camunda_8_js_sdk.StreamWorker.Session.{
  Options, Session, is_closed, initial, reopened, deferred, Origin, CallResult, Activity,
  backfilling, sidecar_polling, handling, draining,
}
use camunda_8_js_sdk.StreamWorker.Activation.{
  return_handle, backfill, jobs_activated, activation_failed, batch_handled, sidecar_fired,
}
use camunda_8_js_sdk.StreamWorker.Step.{jobs_turn, no_jobs_turn, handled_turn}
use camunda_8_js_sdk.StreamWorker.Watch.{IsWatched}

module _ (o : Options) where
  -- What activations and drains leave alone.
  pub record SameChannels (s t : Session) : Type 0 where
    pub worker : t.worker_closed ≡ s.worker_closed
    pub handle : t.handle_closed ≡ s.handle_closed
    pub machine : t.machine ≡ s.machine
    pub streams : t.streams ≡ s.streams
    pub current : t.current_stream ≡ s.current_stream
    pub timer : t.reconnect_timer ≡ s.reconnect_timer
    pub failures : t.consecutive_failures ≡ s.consecutive_failures
    pub opening : t.opening ≡ s.opening
    pub sidecar : is_closed s ≡ true → s.sidecar_timer ≡ false → t.sidecar_timer ≡ false

  pub SameChannels-IsWatched : (s t : Session) → SameChannels s t → IsWatched o s → IsWatched o t
  SameChannels-IsWatched s t f h = ground arith

  pub backfill-SameChannels : (origin : Origin) (s : Session) → SameChannels s (backfill o origin s)
  unfolding backfill
  backfill-SameChannels initial s = ground arith
  backfill-SameChannels reopened s = ground arith
  backfill-SameChannels deferred s = ground arith

  pub return_handle-SameChannels : (s : Session) → SameChannels s (return_handle o s)
  unfolding return_handle
  return_handle-SameChannels s = ground arith

  pub sidecar_fired-SameChannels : (s : Session) → SameChannels s (sidecar_fired s)
  unfolding sidecar_fired
  sidecar_fired-SameChannels s = ground arith

  pub jobs_turn-SameChannels :
      (batch : ℕ) (s : Session) (l : List Activity) → SameChannels s (jobs_turn o batch s l)
  unfolding jobs_turn jobs_activated
  jobs_turn-SameChannels batch s [] = ground arith
  jobs_turn-SameChannels batch s (handling n c ∷ rest) = ground arith
  jobs_turn-SameChannels batch s (backfilling initial ∷ rest) = ground arith
  jobs_turn-SameChannels batch s (backfilling reopened ∷ rest) = ground arith
  jobs_turn-SameChannels batch s (backfilling deferred ∷ rest) = ground arith
  jobs_turn-SameChannels batch s (sidecar_polling ∷ rest) = ground arith
  jobs_turn-SameChannels batch s (draining d c ∷ rest) = ground arith

  pub no_jobs_turn-SameChannels :
      (e : ErrorValue) (s : Session) (l : List Activity) → SameChannels s (no_jobs_turn o e s l)
  unfolding no_jobs_turn activation_failed
  no_jobs_turn-SameChannels e s [] = ground arith
  no_jobs_turn-SameChannels e s (handling n c ∷ rest) = ground arith
  no_jobs_turn-SameChannels e s (backfilling initial ∷ rest) = ground arith
  no_jobs_turn-SameChannels e s (backfilling reopened ∷ rest) = ground arith
  no_jobs_turn-SameChannels e s (backfilling deferred ∷ rest) = ground arith
  no_jobs_turn-SameChannels e s (sidecar_polling ∷ rest) = ground arith
  no_jobs_turn-SameChannels e s (draining d c ∷ rest) = ground arith

  pub handled_turn-SameChannels :
      (s : Session) (l : List Activity) → SameChannels s (handled_turn o s l)
  unfolding handled_turn batch_handled
  handled_turn-SameChannels s (handling n c ∷ rest) = ground arith
  handled_turn-SameChannels s _ = ground arith

  pub result-SameChannels :
      (r : CallResult) (s : Session) → SameChannels s (record s { result = r })
  result-SameChannels r s = ground arith
