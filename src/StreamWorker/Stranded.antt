-- ===== src/StreamWorker/Stranded.antt =====
-- Where a deferred backfill is left undone.
use camunda_8_js_sdk.Base.{ℕ, suc, ◌≡◌, true, false, none, List, [], ◌∷◌, arith, All}
use camunda_8_js_sdk.StreamLifecycle.{ErrorValue, Opened}
use camunda_8_js_sdk.StreamLifecycle.Attach.{data_event}
use camunda_8_js_sdk.StreamWorker.Session.{
  Options, StreamedJob, reopened, Opening, backfilling, Session, WorkerCall, activate_jobs,
}
use camunda_8_js_sdk.StreamWorker.Activation.{activation_failed}
use camunda_8_js_sdk.StreamWorker.Stream.{stream_event}
use camunda_8_js_sdk.StreamWorker.Step.{
  opening_turn, jobs_turn, no_jobs_turn, handled_turn, jitter_turn, reconnect_fired, step, run,
  Turn, jitter_over, stream_settled, raw_data, raw_error, raw_end, raw_close, reconnect_due, jobs,
  no_jobs, handlers_settled, sidecar_due, handle_close, worker_close,
}

-- How many activations were asked for.
abbrev pub activations : List WorkerCall → ℕ
activations [] = 0
activations (activate_jobs ∷ calls) = suc (activations calls)
activations (_ ∷ calls) = activations calls

-- A backfill is wanted, and nothing is pending that would run it.
abbrev pub IsStranded : ℕ → Session → Type 0
IsStranded asked s =
    (s.backfill_requested ≡ true)
    × (s.activity ≡ [])
    × (s.sidecar_timer ≡ false)
    × (s.reconnect_timer ≡ none)
    × (s.opening ≡ [])
    × (activations s.calls ≡ asked)

-- The turns that bring no failure or end of a stream, and no close of the call.
abbrev pub IsCalm : Turn → Type 0
IsCalm (raw_error id now e) = ⊥
IsCalm (raw_end id now) = ⊥
IsCalm (raw_close id now) = ⊥
IsCalm handle_close = ⊥
IsCalm worker_close = ⊥
IsCalm _ = Unit

module _ (o : Options) where
  data_event-IsStranded :
      (asked now id : ℕ) (job : StreamedJob) (s : Session)
      → IsStranded asked s
      → IsStranded asked (stream_event o now id (data_event job) s)
  unfolding stream_event
  data_event-IsStranded asked now id job s h = ground arith

  opening_turn-IsStranded :
      (asked : ℕ) (opened : Opened) (now : ℕ) (s : Session) (l : List Opening)
      → l ≡ []
      → IsStranded asked s
      → IsStranded asked (opening_turn o opened now s l)
  unfolding opening_turn
  opening_turn-IsStranded asked opened now s [] e h = h
  opening_turn-IsStranded asked opened now s (x ∷ l) e h = cc

  step-IsStranded :
      (asked : ℕ) (s : Session) (t : Turn)
      → IsCalm t
      → IsStranded asked s
      → IsStranded asked (step o s t)
  unfolding step jitter_turn reconnect_fired jobs_turn no_jobs_turn handled_turn
  step-IsStranded asked s jitter_over q h = ground arith
  step-IsStranded asked s (stream_settled opened now) q h =
      opening_turn-IsStranded asked opened now s s.opening h.4 h
  step-IsStranded asked s (raw_data id now job) q h = data_event-IsStranded asked now id job s h
  step-IsStranded asked s (raw_error id now e) q h = absurd q
  step-IsStranded asked s (raw_end id now) q h = absurd q
  step-IsStranded asked s (raw_close id now) q h = absurd q
  step-IsStranded asked s reconnect_due q h = ground arith
  step-IsStranded asked s (jobs batch) q h = ground arith
  step-IsStranded asked s (no_jobs e) q h = ground arith
  step-IsStranded asked s handlers_settled q h = ground arith
  step-IsStranded asked s sidecar_due q h = ground arith
  step-IsStranded asked s handle_close q h = absurd q
  step-IsStranded asked s worker_close q h = absurd q

  run-IsStranded :
      (asked : ℕ) (s : Session) (ts : List Turn)
      → All IsCalm ts
      → IsStranded asked s
      → IsStranded asked (run o s ts)
  unfolding run
  run-IsStranded asked s [] q h = h
  run-IsStranded asked s (t ∷ ts) (q, all) h =
      run-IsStranded asked (step o s t) ts all (step-IsStranded asked s t q h)

  no_jobs-IsStranded :
      (s : Session) (e : ErrorValue)
      → s.activity ≡ backfilling reopened ∷ []
      → s.sidecar_timer ≡ false
      → s.reconnect_timer ≡ none
      → s.opening ≡ []
      → s.backfill_requested ≡ true
      → IsStranded (activations s.calls) (step o s (no_jobs e))
  unfolding step no_jobs_turn activation_failed
  no_jobs-IsStranded s e w t q p r = rw w (ground arith)

  -- Where the activation that a backfill was deferred to is another reconnect's own first one and fails, while
  -- no recurring poll and no reconnect is scheduled or under way: the deferred backfill is still wanted, nothing that is pending
  -- would run it, and whatever comes next, no activation is asked for until a stream fails or ends.
  pub deferred_backfill-IsStranded :
      (s : Session) (e : ErrorValue) (ts : List Turn)
      → s.activity ≡ backfilling reopened ∷ []
      → s.sidecar_timer ≡ false
      → s.reconnect_timer ≡ none
      → s.opening ≡ []
      → s.backfill_requested ≡ true
      → All IsCalm ts
      → IsStranded (activations s.calls) (run o (step o s (no_jobs e)) ts)
  deferred_backfill-IsStranded s e ts w t q p r all =
      run-IsStranded (activations s.calls) (step o s (no_jobs e)) ts all
        (no_jobs-IsStranded s e w t q p r)
